-- ===== src/Commands/Memtest/Mapping.antt =====
-- The loops of memtest that map and unmap the pages, on a tree of page tables.
use ki_os.Base.{
  ℕ, Bool, zero, suc, ◌+◌, ◌/◌, ◌%◌, ◌^◌, ◌≤◌, ◌<◌, ◌≡◌, ◌≢◌, inl, inr, refl, ap, ◌∙◌, sym, true,
  false, Option, some, none, List, [], ◌∷◌, length, All, arith, ==_self, ==_ne,
}
use ki_os.Base.Bits.{bit_and_low_mask}
use ki_os.Mm.Pmm.View.{page_used}
use ki_os.Mm.Heap.Pages.{Exhausted}
use ki_os.Mm.Vmm.{Machine, map_page, virt_to_phys}
use ki_os.Mm.Vmm.Leaf.{OtherPage}
use ki_os.Mm.Vmm.Mapped.{Mapped, map_page-Mapped, unmap_page_lem}
use ki_os.Mm.Vmm.Tree.{IsTree, Area, Covers, index}
use ki_os.Commands.Memtest.{test_addr, map_all, unmap_all}
use native.Mathlib.Decide.{ℕ_discrete}

-- What can be mapped.
pub record Frame (x : ℕ) : Type 0 where
  pub aligned : x % 4096 ≡ 0
  pub set : x ≢ 0
  pub small : x < 2 ^ 64

-- The addresses from `i` on translate to the pages.
abbrev pub Placed : Machine → List ℕ → ℕ → Type 0
Placed m [] i = Unit {0}
Placed m (x ∷ xs) i = (virt_to_phys (test_addr i) m ≡ some x) × Placed m xs (i + 1)

-- An address outside the pages of `count` test addresses from `i` on.
abbrev pub Elsewhere : (v i count : ℕ) → Type 0
Elsewhere v i count = (j : ℕ) → i ≤ j → j < i + count → OtherPage v (test_addr j)

pub test_addr-Covers : (a : Area) (j : ℕ) → a.first ≤ 288 → j < 64 → Covers a (test_addr j)
unfolding index
test_addr-Covers a j higher lt =
    omega (arith, higher, lt, bit_and_low_mask 9 (test_addr j / 2 ^ 39))

test_addr-OtherPage : (i j : ℕ) → i < 64 → j < 64 → i ≢ j → OtherPage (test_addr i) (test_addr j)
test_addr-OtherPage i j hi hj ne e = ne (omega (arith, hi, hj, e))

-- The mapping of the pages has succeeded.
pub record Placing (a : Area) (level : ℕ → ℕ) (m : Machine) (xs : List ℕ) (i : ℕ) (level' : ℕ → ℕ)
    (m' : Machine) : Type 0 where
  pub tree : IsTree a level' m'
  pub placed : Placed m' xs i
  pub total : m'.pmm.total_pages ≡ m.pmm.total_pages
  pub spends : (q : ℕ) → page_used m.pmm q ≡ true → page_used m'.pmm q ≡ true
  pub keeps_level : (p : ℕ) → page_used m.pmm p ≡ true → level p ≡ 0 → level' p ≡ 0
  pub others :
      (v : ℕ) → Covers a v → Elsewhere v i (length xs) → virt_to_phys v m' ≡ virt_to_phys v m

-- The end of the second loop: a mismatch only for want of memory.
pub data Mapping (a : Area) (level : ℕ → ℕ) (m : Machine) (xs : List ℕ) (i : ℕ)
    : Option (Option ℕ × Machine) → Type 0 where
  all_mapped :
      (level' : ℕ → ℕ) (m' : Machine)
      → Placing a level m xs i level' m'
      → Mapping a level m xs i (some (none, m'))
  no_table :
      (j : ℕ) (level' : ℕ → ℕ) (m' : Machine)
      → (i ≤ j) × (j < i + length xs)
      → Exhausted m'.pmm
      → IsTree a level' m'
      → Mapping a level m xs i (some (some j, m'))

module _ {a : Area} {level : ℕ → ℕ} {m : Machine} (higher : a.first ≤ 288) (i x : ℕ)
    (frame : Frame x) (xs : List ℕ) (few : i + suc (length xs) ≤ 64) where
  and_mapped :
      {n : Machine} (w : Mapped a level m (test_addr i) x true n) {r : Option (Option ℕ × Machine)}
      → virt_to_phys (test_addr i) n ≡ some x
      → Mapping a w.level' n xs (i + 1) r
      → Mapping a level m (x ∷ xs) i r
  and_mapped w at (all_mapped level' m' g) = all_mapped level' m' (record {
    tree = g.tree;
    placed = (
      g.others (test_addr i) (test_addr-Covers a i higher (omega (arith, few)))
            (λ j le lt. test_addr-OtherPage i j (omega arith) (omega arith) (λ e. omega arith))
          ∙ at,
      g.placed,
    );
    total = g.total ∙ w.total;
    spends = λ q used. g.spends q (w.spends q used);
    keeps_level =
        λ p used none_yet. g.keeps_level p (w.spends p used) (w.keeps_level p used none_yet);
    others = λ v hv away.
        g.others v hv (λ j le lt. away j (omega arith) (omega arith))
        ∙ w.others v hv (inr (away i (omega arith) (omega arith)));
  })
  and_mapped w at (no_table j level' m' bounds all tree) =
      no_table j level' m' (omega (arith, bounds)) all tree

  round :
      (done : Bool) {n : Machine}
      → map_page (test_addr i) x 3 m ≡ some (done, n)
      → (w : Mapped a level m (test_addr i) x done n)
      → Mapping a w.level' n xs (i + 1) (map_all xs (i + 1) n)
      → Mapping a level m (x ∷ xs) i (map_all (x ∷ xs) i m)
  unfolding map_all
  round true run w rest =
      let at = w.maps refl ∙ ap some {y = x} (omega (arith, frame.aligned)) in
      rw (run, at, ==_self x) (and_mapped w at rest)
  round false {n} run w rest =
      let still =
        w.others (test_addr i) (test_addr-Covers a i higher (omega (arith, few))) (inl refl)
        ∙ w.lost refl in
      rw (run, still, ==_ne 0 x (λ e. frame.set (sym e)))
        (no_table i w.level' n (omega arith) (w.full refl) w.tree)

-- On a tree the pages are mapped one after the other, or memory is exhausted.
pub map_all_lem :
    {a : Area}
    → a.first ≤ 288
    → (xs : List ℕ) (i : ℕ) {level : ℕ → ℕ} (m : Machine) → i + length xs ≤ 64
    → All Frame xs
    → IsTree a level m
    → Mapping a level m xs i (map_all xs i m)
unfolding map_all
map_all_lem higher [] i m few h tree = all_mapped _ m (record {
  tree = tree;
  placed = tt;
  total = refl;
  spends = λ q used. used;
  keeps_level = λ p used none_yet. none_yet;
  others = λ v hv away. refl;
})
map_all_lem {a} higher (x ∷ xs) i m few (h, hs) tree =
    let (done, n, run, w) =
      map_page-Mapped tree (test_addr i) (test_addr-Covers a i higher (omega (arith, few))) x 3
        h.small (omega arith) in
    round higher i x h xs few done run w
      (map_all_lem higher xs (i + 1) n (omega (arith, few)) hs w.tree)

-- The unmapping of `left` pages from `i` on has run.
pub record Unmapped (a : Area) (level : ℕ → ℕ) (m : Machine) (left i : ℕ) (m' : Machine)
    : Type 0 where
  pub tree : IsTree a level m'
  pub pmm : m'.pmm ≡ m.pmm
  pub gone : (j : ℕ) → i ≤ j → j < i + left → virt_to_phys (test_addr j) m' ≡ some 0
  pub others : (v : ℕ) → Covers a v → Elsewhere v i left → virt_to_phys v m' ≡ virt_to_phys v m

pub unmap_all_lem :
    {a : Area} {level : ℕ → ℕ}
    → a.first ≤ 288
    → (left i : ℕ) (m : Machine) → i + left ≤ 64
    → IsTree a level m
    → (m' : Machine) × (unmap_all left i m ≡ some (none, m')) × Unmapped a level m left i m'
unfolding unmap_all
unmap_all_lem higher zero i m few tree = (
  m,
  refl,
  record {
    tree = tree;
    pmm = refl;
    gone = λ j le lt. absurd (omega arith);
    others = λ v hv away. refl;
  },
)
unmap_all_lem {a} higher (suc left) i m few tree =
    let (n, run, kept, tree', gone, others) =
      unmap_page_lem tree (test_addr i) (test_addr-Covers a i higher (omega (arith, few))) in
    let (m', rest, w) = unmap_all_lem higher left (i + 1) n (omega (arith, few)) tree' in
    (
      m',
      rw (run, gone) rest,
      record {
        tree = w.tree;
        pmm = w.pmm ∙ kept;
        gone = λ j le lt. elim (ℕ_discrete j i) [
          | yes e ↦
              ap (λ v. virt_to_phys v m') {x = test_addr j} {y = test_addr i} (ap test_addr e)
              ∙ w.others (test_addr i) (test_addr-Covers a i higher (omega (arith, few)))
                  (λ k a b. test_addr-OtherPage i k (omega arith) (omega arith) (λ e. omega arith))
              ∙ gone
          | no ne ↦ w.gone j (omega arith) (omega arith)
        ];
        others = λ v hv away.
            w.others v hv (λ j le lt. away j (omega arith) (omega arith))
            ∙ others v hv (away i (omega arith) (omega arith));
      },
    )
