-- ===== src/Commands/Memtest/Pages.antt =====
-- The loops of memtest that allocate and free the pages, on a tree of page tables.
use ki_os.Base.{
  ℕ, Bool, zero, suc, ◌+◌, ◌*◌, ◌/◌, ◌%◌, ◌≤◌, ◌<◌, ◌≡◌, ◌≢◌, inl, inr, refl, ap, ◌∙◌, true, false,
  Option, some, none, List, [], ◌∷◌, length, All, All_map, arith, ==_ne, ◌>>=◌,
}
use ki_os.Mm.Pmm.{Pmm, free_page}
use ki_os.Mm.Pmm.Alloc.{Found, alloc_page_lem}
use ki_os.Mm.Pmm.View.{page_used}
use ki_os.Mm.Heap.Pages.{Exhausted}
use ki_os.Mm.Vmm.{Machine}
use ki_os.Mm.Vmm.Data.{alloc-IsTree, free-IsTree}
use ki_os.Mm.Vmm.Tree.{IsTree, Area, free_level}
use ki_os.Commands.Memtest.{alloc_all, free_all}

-- A page address that the allocator, now in state `s`, took from state `old`.
pub record Page (level : ℕ → ℕ) (old s : Pmm) (x : ℕ) : Type 0 where
  pub aligned : x % 4096 ≡ 0
  pub set : x ≢ 0
  pub plain : level (x / 4096) ≡ 0
  pub within : x / 4096 < s.total_pages
  pub fresh : page_used old (x / 4096) ≡ false
  pub in_use : page_used s (x / 4096) ≡ true

abbrev pub Distinct : List ℕ → Type 0
Distinct [] = Unit {0}
Distinct (x ∷ xs) = All (λ y. y ≢ x) xs × Distinct xs

-- The pages taken between two states.
pub record Taken (level : ℕ → ℕ) (old s : Pmm) (xs : List ℕ) : Type 0 where
  pub pages : All (Page level old s) xs
  pub distinct : Distinct xs
  pub spends : (q : ℕ) → page_used old q ≡ true → page_used s q ≡ true
  pub total : s.total_pages ≡ old.total_pages

-- The end of the first loop.
pub data Allocated (a : Area) (level : ℕ → ℕ) (m : Machine) (left i : ℕ)
    : Option (List ℕ × Option ℕ × Machine) → Type 0 where
  all_taken :
      (xs : List ℕ) (s : Pmm)
      → length xs ≡ left
      → IsTree a level (record m { pmm = s })
      → Taken level m.pmm s xs
      → Allocated a level m left i (some (xs, none, record m { pmm = s }))
  none_left :
      (xs : List ℕ) (j : ℕ) (s : Pmm)
      → (i ≤ j) × (j < i + left)
      → Exhausted s
      → Allocated a level m left i (some (xs, some j, record m { pmm = s }))

-- A page found, and those taken after it.
module _ {a : Area} {level : ℕ → ℕ} {m : Machine} (tree : IsTree a level m) {p : ℕ} {s : Pmm}
    {r : Option (ℕ × Pmm)} (f : Found 0 p m.pmm s r) where
  in_use : page_used s p ≡ true
  in_use = ground (arith, f.marks.view p)

  pub some_page : p * 4096 ≢ 0
  some_page z = cc (f.was_free, tree.low, ap (page_used m.pmm) {x = p} {y = 0} (omega arith))

  at : (t : Pmm) {b : Bool} → page_used t p ≡ b → page_used t (p * 4096 / 4096) ≡ b
  at t e = ap (page_used t) {x = p * 4096 / 4096} {y = p} (omega arith) ∙ e

  earlier : {s' : Pmm} (x : ℕ) → Page level s s' x → Page level m.pmm s' x
  earlier x w = record {
    aligned = w.aligned;
    set = w.set;
    plain = w.plain;
    within = w.within;
    fresh = ground (arith, w.fresh, f.marks.view (x / 4096));
    in_use = w.in_use;
  }

  prepend-Taken :
      {s' : Pmm} (xs : List ℕ) → Taken level s s' xs → Taken level m.pmm s' (p * 4096 ∷ xs)
  prepend-Taken {s'} xs w = record {
    pages = (
      record {
        aligned = omega arith;
        set = some_page;
        plain = ap level {x = p * 4096 / 4096} {y = p} (omega arith) ∙ free_level tree p f.was_free;
        within = omega (arith, f.managed, f.marks.total, w.total);
        fresh = at m.pmm f.was_free;
        in_use = at s' (w.spends p in_use);
      },
      All_map earlier xs w.pages,
    );
    distinct = (
      All_map (λ x v e. cc (v.fresh, at s in_use, ap (λ (y : ℕ). page_used s (y / 4096)) e)) xs
          w.pages,
      w.distinct,
    );
    spends = λ q used. w.spends q (ground (arith, f.marks.view q, used));
    total = w.total ∙ f.marks.total;
  }

  prepended :
      {left i : ℕ} {o : Option (List ℕ × Option ℕ × Machine)}
      → Allocated a level (record m { pmm = s }) left (i + 1) o
      → Allocated a level m
          (suc left)
          i
          (do (pages, failed, m') ← o; some (p * 4096 ∷ pages, failed, m'))
  prepended (all_taken xs s' e t w) = all_taken (p * 4096 ∷ xs) s' (ap suc e) t (prepend-Taken xs w)
  prepended (none_left xs j s' bounds all) = none_left (p * 4096 ∷ xs) j s' (omega arith) all

-- Allocating the pages ends with `left` distinct new ones that are no tables, or with none free.
pub alloc_all_lem :
    {a : Area} {level : ℕ → ℕ} (left i : ℕ) (m : Machine)
    → IsTree a level m
    → Allocated a level m left i (alloc_all left i m)
unfolding alloc_all
alloc_all_lem zero i m tree =
    all_taken [] m.pmm refl tree
      (record { pages = tt; distinct = tt; spends = λ q used. used; total = refl })
alloc_all_lem (suc left) i m tree = elim (alloc_page_lem m.pmm tree.valid) [
  | inl (p, s, f) ↦
      rw (f.result, ==_ne (p * 4096) 0 (some_page tree f))
        (prepended tree f
          (alloc_all_lem left (i + 1) (record m { pmm = s }) (alloc-IsTree tree f.marks)))
  | inr f ↦ rw f.result (none_left [] i m.pmm (omega arith) (λ q lt. f.all q (omega arith) lt))
]

-- The pages can be given back.
pub record Freed (a : Area) (level : ℕ → ℕ) (m : Machine) (xs : List ℕ) (u : Pmm) : Type 0 where
  pub tree : IsTree a level (record m { pmm = u })
  pub total : u.total_pages ≡ m.pmm.total_pages
  pub gone : All (λ x. page_used u (x / 4096) ≡ false) xs
  pub free : (q : ℕ) → page_used m.pmm q ≡ false → page_used u q ≡ false
  pub others : (q : ℕ) → All (λ x. x / 4096 ≢ q) xs → page_used u q ≡ page_used m.pmm q

-- What freeing a page needs.
pub record Given (level : ℕ → ℕ) (s : Pmm) (x : ℕ) : Type 0 where
  pub aligned : x % 4096 ≡ 0
  pub set : x ≢ 0
  pub plain : level (x / 4096) ≡ 0
  pub within : x / 4096 < s.total_pages

pub free_all_lem :
    {a : Area} {level : ℕ → ℕ} (xs : List ℕ) (m : Machine)
    → IsTree a level m
    → All (Given level m.pmm) xs
    → (u : Pmm) × (free_all xs m ≡ some (record m { pmm = u })) × Freed a level m xs u
unfolding free_all
free_all_lem [] m tree h = (
  m.pmm,
  refl,
  record { tree = tree; total = refl; gone = tt; free = λ q e. e; others = λ q h. refl },
)
free_all_lem {a} {level} (x ∷ xs) m tree (h, hs) =
    let (s, freed, marks, tree') =
      free-IsTree tree (x / 4096) (λ z. h.set (omega (arith, h.aligned))) h.plain h.within in
    let (u, run, w) =
      free_all_lem xs (record m { pmm = s }) tree'
        (All_map
          (λ y v. record {
            aligned = v.aligned;
            set = v.set;
            plain = v.plain;
            within = omega (arith, v.within, marks.total);
          })
          xs hs) in
    (
      u,
      ap (λ (y : ℕ). free_page y m.pmm >>= (λ p. free_all xs (record m { pmm = p }))) {x = x}
            {y = x / 4096 * 4096} (omega (arith, h.aligned))
          ∙ rw freed run,
      record {
        tree = w.tree;
        total = w.total ∙ marks.total;
        gone = (w.free (x / 4096) (ground (arith, marks.view (x / 4096))), w.gone);
        free = λ q e. w.free q (ground (arith, marks.view q, e));
        others =
            λ q apart. w.others q apart.1 ∙ marks.view q ∙ rw (==_ne (x / 4096) q apart.0) refl;
      },
    )
