-- ===== src/Commands/Memtest/Words.antt =====
-- The loops of memtest that write and read the patterns, on pages of data beside a tree.
use ki_os.Base.{
  ℕ, ◌+◌, ◌/◌, ◌≤◌, ◌≡◌, ◌≢◌, refl, ◌∙◌, sym, some, none, List, [], ◌∷◌, length, All, arith,
  ==_self, ==_ne,
}
use ki_os.Mm.Vmm.{Machine, store, virt_to_phys}
use ki_os.Mm.Vmm.Access.{load64}
use ki_os.Mm.Vmm.Data.{data-IsTree, data_same, store64_lem}
use ki_os.Mm.Vmm.Tree.{IsTree, Area, Covers}
use ki_os.Commands.Memtest.{test_addr, pattern_of, write_all, read_all}
use ki_os.Commands.Memtest.Pages.{Distinct}
use ki_os.Commands.Memtest.Mapping.{Placed, test_addr-Covers}

-- A cell of data.
pub record Cell (level : ℕ → ℕ) (x : ℕ) : Type 0 where
  pub set : x ≢ 0
  pub plain : level (x / 4096) ≡ 0

-- The cells hold the patterns from `i` on.
abbrev pub Written : Machine → List ℕ → ℕ → Type 0
Written m [] i = Unit {0}
Written m (x ∷ xs) i = (m.mem x ≡ pattern_of i) × Written m xs (i + 1)

-- Writing has changed the cells and nothing else.
pub record Wrote (a : Area) (level : ℕ → ℕ) (m : Machine) (xs : List ℕ) (i : ℕ) (m' : Machine)
    : Type 0 where
  pub tree : IsTree a level m'
  pub pmm : m'.pmm ≡ m.pmm
  pub written : Written m' xs i
  pub others : (y : ℕ) → All (λ x. x ≢ y) xs → m'.mem y ≡ m.mem y
  pub same : (v : ℕ) → Covers a v → virt_to_phys v m' ≡ virt_to_phys v m

-- Where the same addresses translate as before, the pages are where they were.
pub keep-Placed :
    (a : Area) (m m' : Machine)
    → a.first ≤ 288
    → ((v : ℕ) → Covers a v → virt_to_phys v m' ≡ virt_to_phys v m)
    → (xs : List ℕ) (i : ℕ) → i + length xs ≤ 64
    → Placed m xs i
    → Placed m' xs i
keep-Placed a m m' higher same [] i few h = tt
keep-Placed a m m' higher same (x ∷ xs) i few (h, hs) = (
  same (test_addr i) (test_addr-Covers a i higher (omega (arith, few))) ∙ h,
  keep-Placed a m m' higher same xs (i + 1) (omega (arith, few)) hs,
)

pub write_all_lem :
    {a : Area} {level : ℕ → ℕ}
    → a.first ≤ 288
    → (xs : List ℕ) (i : ℕ) (m : Machine) → i + length xs ≤ 64
    → All (Cell level) xs
    → Distinct xs
    → Placed m xs i
    → IsTree a level m
    → (m' : Machine) × (write_all (length xs) i m ≡ some m') × Wrote a level m xs i m'
unfolding write_all
write_all_lem higher [] i m few cells apart placed tree = (
  m,
  refl,
  record { tree = tree; pmm = refl; written = tt; others = λ y h. refl; same = λ v hv. refl },
)
write_all_lem {a} higher (x ∷ xs) i m few (c, cells) (alone, apart) (at, placed) tree =
    let n : Machine = record m { mem = store m.mem x (pattern_of i) } in
    let same = data_same tree x (pattern_of i) c.plain in
    let (m', run, w) =
      write_all_lem higher xs (i + 1) n (omega (arith, few)) cells apart
        (keep-Placed a m n higher same xs (i + 1) (omega (arith, few)) placed)
        (data-IsTree tree x (pattern_of i) c.plain) in
    (
      m',
      rw (store64_lem tree x (pattern_of i) c.plain (test_addr i) at c.set) run,
      record {
        tree = w.tree;
        pmm = w.pmm;
        written = (w.others x alone ∙ rw (==_self x) refl, w.written);
        others = λ y h. w.others y h.1 ∙ rw (==_ne y x (λ e. h.0 (sym e))) refl;
        same = λ v hv. w.same v hv ∙ same v hv;
      },
    )

-- Reading finds the patterns.
pub read_all_lem :
    (xs : List ℕ) (i : ℕ) (m : Machine)
    → All (λ x. x ≢ 0) xs
    → Placed m xs i
    → Written m xs i
    → read_all (length xs) i m ≡ some none
unfolding read_all load64
read_all_lem [] i m set placed written = refl
read_all_lem (x ∷ xs) i m (c, set) (at, placed) (here, written) =
    rw (at, ==_ne x 0 c, here, ==_self (pattern_of i))
      (read_all_lem xs (i + 1) m set placed written)
