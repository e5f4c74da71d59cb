-- ===== src/Mm/Heap/Backing.antt =====
-- The memory behind the blocks of kmalloc, on a tree of page tables.
use mathlib.Core.Path.{subst}
use ki_os.Base.{
  ℕ, ◌+◌, ◌-◌, ◌*◌, ◌/◌, ◌^◌, ◌≤◌, ◌<◌, ◌≡◌, ◌≢◌, ◌⊎◌, inl, inr, refl, Bool, true, false, Option,
  some, arith, leb, add64, Bool-cases, bit_and, ==_ne,
}
use ki_os.Base.Bits.{bit_and_page_mask, bit_and_low_mask}
use ki_os.Mm.Vmm.{Machine}
use ki_os.Mm.Vmm.Tree.{IsTree, Area, Covers, index}
use ki_os.Mm.Heap.{Heap, heap_limit, align_size, page_rounds, bump, kmalloc}
use ki_os.Mm.Heap.Blocks.{IsValid, align_size_lem}
use ki_os.Mm.Heap.Pages.{Exhausted, Backed, Ensured, ensure_pages-Ensured}

-- What a call leaves, by whether it returned 0.
pub record Served (a : Area) (n : ℕ) (h : Heap) (ptr : ℕ) (h' : Heap) : Type 0 where
  pub level' : ℕ → ℕ
  pub tree : IsTree a level' h'.machine
  pub null : ptr ≡ 0 → (heap_limit ≤ h.current_ptr + align_size n) ⊎ Exhausted h'.machine.pmm
  pub block :
      ptr ≢ 0
      → (ptr ≡ h.current_ptr)
        × ((v : ℕ)
            → ptr ≤ v
            → v < ptr + n
            → Exhausted h'.machine.pmm ⊎ Backed h'.machine (v / 4096 * 4096))

module _ (n : ℕ) (h : Heap) {a : Area} {level : ℕ → ℕ} (tree : IsTree a level h.machine)
    (higher : a.first ≤ 256) (valid : IsValid h) (positive : 0 < n) (small : n < 2 ^ 46) where
  abbrev Run : Option (ℕ × Heap) → Type 0
  Run r = (ptr : ℕ) × (h' : Heap) × (r ≡ some (ptr, h')) × Served a n h ptr h'

  no_room : leb heap_limit (add64 h.current_ptr (align_size n)) ≡ true → Served a n h 0 h
  no_room full = record {
    level' = level;
    tree = tree;
    null = λ e. inl (ground (arith, full, align_size_lem n small, valid.below));
    block = λ ne. absurd (ne refl);
  }

  abbrev first_page : ℕ
  first_page = bit_and h.current_ptr (2 ^ 64 - 4096)

  abbrev rounds : ℕ
  rounds = page_rounds h.current_ptr (add64 h.current_ptr (align_size n))

  first_value : first_page ≡ h.current_ptr / 4096 * 4096
  first_value = bit_and_page_mask h.current_ptr (omega (arith, valid.below))

  module _ (fits : leb heap_limit (add64 h.current_ptr (align_size n)) ≡ false) where
    room : h.current_ptr + align_size n < heap_limit
    room = ground (arith, fits, align_size_lem n small, valid.below)

    rounds_value : rounds ≡ (h.current_ptr + align_size n + 4095) / 4096 - h.current_ptr / 4096
    rounds_value = omega (
      arith,
      first_value,
      room,
      bit_and_page_mask (add64 (add64 h.current_ptr (align_size n)) 0xFFF) (omega arith),
    )

    -- The heap lies under entry 256 of the root table.
    covered : (i : ℕ) → i < rounds → Covers a (first_page + 4096 * i)
    unfolding index
    covered i lt = omega (
      arith,
      higher,
      first_value,
      rounds_value,
      room,
      valid.above,
      valid.below,
      bit_and_low_mask 9 ((first_page + 4096 * i) / 2 ^ 39),
    )

    behind :
        {m : Machine}
        → Ensured a h.machine first_page rounds true m
        → (v : ℕ) → h.current_ptr ≤ v
        → v < h.current_ptr + n
        → Exhausted m.pmm ⊎ Backed m (v / 4096 * 4096)
    behind {m} e v le lt =
        subst (λ w. Exhausted m.pmm ⊎ Backed m w) (omega (arith, first_value))
          (e.backed refl (v / 4096 - h.current_ptr / 4096)
            (omega (arith, rounds_value, align_size_lem n small)))

    bumped :
        (ok : Bool) (m : Machine)
        → Ensured a h.machine first_page rounds ok m
        → Run (some (bump (align_size n) h (ok, m)))
    bumped false m e = (
      0,
      record h { machine = m },
      refl,
      record {
        level' = e.level';
        tree = e.tree;
        null = λ z. inr (e.failed refl);
        block = λ ne. absurd (ne refl);
      },
    )
    bumped true m e = (
      h.current_ptr,
      record {
        machine = m;
        current_ptr = add64 h.current_ptr (align_size n);
        total_alloc = add64 h.total_alloc (align_size n);
      },
      refl,
      record {
        level' = e.level';
        tree = e.tree;
        null = λ z. absurd (omega (arith, valid.above));
        block = λ ne. (refl, λ v le lt. behind e v le lt);
      },
    )

  -- On a valid heap over a tree of page tables that covers the heap, a request of 1 to 2 ^ 46 - 1 bytes never faults and
  -- leaves a tree. If the result is 0, the block does not fit below the heap's limit or no page is
  -- left free; if not, it is the old pointer, and each page of the requested bytes translates to a
  -- physical page, unless no page is left free.
  pub kmalloc-Served : Run (kmalloc n h)
  unfolding kmalloc
  kmalloc-Served = elim (Bool-cases (leb heap_limit (add64 h.current_ptr (align_size n)))) [
    | inl full ↦ (0, h, rw (==_ne n 0 (omega arith), full) refl, no_room full)
    | inr fits ↦
        let (ok, m, run, e) =
          ensure_pages-Ensured rounds first_page h.machine tree (covered fits)
            (omega (arith, rounds_value fits, room fits))
            (omega (arith, rounds_value fits, room fits, first_value)) in
        let (ptr, h', same, served) = bumped fits ok m e in
        (ptr, h', rw (==_ne n 0 (omega arith), fits, run) same, served)
  ]
