-- ===== src/Commands/Vmtest/Runs.antt =====
-- vmtest on a tree of page tables.
use ki_os.Base.{
  ℕ, Bool, ◌*◌, ◌/◌, ◌≤◌, ◌≡◌, ◌≢◌, inl, inr, refl, ap, ◌∙◌, sym, true, false, Option, some, none,
  List, ◌++◌, arith, ==_ne, ==_self, [], ◌∷◌, ◌+◌, ◌&&◌, ◌==◌, if◌then◌else◌,
}
use ki_os.Base.Bytes.{bytes}
use ki_os.Console.Output.{Call, colored}
use ki_os.Mm.Pmm.{Pmm, alloc_page}
use ki_os.Mm.Pmm.Alloc.{Found, Outcome, alloc_page_lem}
use ki_os.Mm.Pmm.View.{page_used}
use ki_os.Mm.Heap.Pages.{Exhausted}
use ki_os.Mm.Vmm.{Machine, store, map_page, virt_to_phys}
use ki_os.Mm.Vmm.Access.{store64}
use ki_os.Mm.Vmm.Data.{
  alloc-IsTree, free-IsTree, data-IsTree, data_same, store64_lem, load64-store64,
}
use ki_os.Mm.Vmm.Leaf.{OtherPage, virt_to_phys_value}
use ki_os.Mm.Vmm.Mapped.{Mapped, map_page-Mapped, unmap_page_lem}
use ki_os.Mm.Vmm.Tree.{IsTree, Area, Covers, index, free_level}
use native.Mathlib.Decide.{ℕ_discrete}
use ki_os.Commands.Vmtest.{
  test_addr, test_value, Findings, vmtest, findings_lines, cmd_vmtest, head_lines, no_page_lines,
}

-- The coloured lines that begin with a tag.
abbrev begins : List ℕ → List ℕ → Bool
begins [] line = true
begins (_ ∷ _) [] = false
begins (t ∷ ts) (c ∷ cs) = (t == c) && begins ts cs

pub tagged : (tag : List ℕ) → List Call → ℕ
tagged tag [] = 0
tagged tag (colored line fg ∷ calls) = (if begins tag line then 1 else 0) + tagged tag calls
tagged tag (_ ∷ calls) = tagged tag calls

-- How many checks the output says have passed, and how many have failed.
abbrev pub Reports : (passes fails : ℕ) → List Call → Type 0
Reports passes fails calls =
    (tagged (bytes "  [PASS]") calls ≡ passes) × (tagged (bytes "  [FAIL]") calls ≡ fails)

-- What it finds where every check passes.
abbrev pub all_pass : (page : ℕ) → Findings
all_pass page = record { resolved = page; value = test_value; after_unmap = 0 }

all_pass-Reports : (page : ℕ) → Reports 3 0 (head_lines ++ findings_lines page (all_pass page))
unfolding findings_lines tagged
all_pass-Reports page = rw (==_self page) (refl, refl)

no_page-Reports : Reports 0 1 (head_lines ++ no_page_lines)
unfolding tagged
no_page-Reports = (refl, refl)

-- The end of the command: without a page, in a page fault, or with all checks passed.
pub data Tested (a : Area) (m : Machine) : Option (List Call × Machine) → Type 0 where
  no_page : (calls : List Call) → Reports 0 1 calls → Exhausted m.pmm → Tested a m (some (calls, m))
  page_fault :
      {page : ℕ} {s : Pmm} {n : Machine}
      → alloc_page m.pmm ≡ some (page, s)
      → map_page test_addr page 3 (record m { pmm = s }) ≡ some (false, n)
      → Exhausted n.pmm
      → virt_to_phys test_addr m ≡ some 0
      → Tested a m none
  passed :
      (p : ℕ) (m' : Machine) (level' : ℕ → ℕ) (calls : List Call)
      → Reports 3 0 calls
      → (page_used m.pmm p ≡ false) × (page_used m'.pmm p ≡ false)
      → IsTree a level' m'
      → ((q : ℕ) → page_used m.pmm q ≡ true → page_used m'.pmm q ≡ true)
      → virt_to_phys test_addr m' ≡ some 0
      → ((v : ℕ) → Covers a v → OtherPage v test_addr → virt_to_phys v m' ≡ virt_to_phys v m)
      → Tested a m (some (calls, m'))

module _ {a : Area} {level : ℕ → ℕ} {m : Machine} (tree : IsTree a level m)
    (covers : Covers a test_addr) where
  -- The steps after the mapping of page `p`.
  module _ {p : ℕ} {s : Pmm} (f : Found 0 p m.pmm s (alloc_page m.pmm)) where
    some_page : p ≢ 0
    some_page z = cc (f.was_free, tree.low, ap (page_used m.pmm) {x = p} {y = 0} z)

    plain : level p ≡ 0
    plain = free_level tree p f.was_free

    set : p * 4096 ≢ 0
    set z = some_page (omega arith)

    abbrev taken : Machine
    taken = record m { pmm = s }

    in_use : page_used s p ≡ true
    in_use = ground (arith, f.marks.view p)

    stuck :
        {n : Machine}
        → map_page test_addr (p * 4096) 3 taken ≡ some (false, n)
        → Mapped a level taken test_addr (p * 4096) false n
        → Tested a m (cmd_vmtest m)
    unfolding cmd_vmtest vmtest store64
    stuck run w =
        let missing = w.lost refl in
        let still = w.others test_addr covers (inl refl) ∙ missing in
        rw (f.result, ==_ne (p * 4096) 0 set, run, still)
          (page_fault f.result run (w.full refl)
            (virt_to_phys_value test_addr m ∙ sym (virt_to_phys_value test_addr taken) ∙ missing))

    works :
        {n : Machine}
        → map_page test_addr (p * 4096) 3 taken ≡ some (true, n)
        → Mapped a level taken test_addr (p * 4096) true n
        → Tested a m (cmd_vmtest m)
    unfolding cmd_vmtest vmtest
    works {n} run w =
        let x = p * 4096 in
        let at : virt_to_phys test_addr n ≡ some x = w.maps refl ∙ ap some (omega arith) in
        let beside : w.level' (x / 4096) ≡ 0 =
          ap w.level' {x = x / 4096} {y = p} (omega arith) ∙ w.keeps_level p in_use plain in
        let tree₂ = data-IsTree w.tree x test_value beside in
        let n₂ : Machine = record n { mem = store n.mem x test_value } in
        let (n₃, unmapped, kept, tree₃, gone, others) = unmap_page_lem tree₂ test_addr covers in
        let (u, freed, marks, tree₄) =
          free-IsTree tree₃ p some_page (w.keeps_level p in_use plain)
            (omega (arith, f.managed, f.marks.total, w.total, ap Pmm.total_pages kept)) in
        let last : Machine = record n₃ { pmm = u } in
        rw
          (
            f.result,
            ==_ne x 0 set,
            run,
            at,
            store64_lem w.tree x test_value beside test_addr at set,
            load64-store64 w.tree x test_value beside test_addr covers at set,
            unmapped,
            gone,
            freed,
          )
          (passed p last w.level' (head_lines ++ findings_lines x (all_pass x)) (all_pass-Reports x)
            (f.was_free, ground (arith, marks.view p)) tree₄
            (λ q used. elim (ℕ_discrete p q) [
              | yes e ↦ absurd (cc (f.was_free, used, ap (page_used m.pmm) e))
              | no ne ↦
                  marks.view q
                  ∙ rw (==_ne p q ne) (
                      ap (λ s. page_used s q) kept
                      ∙ w.spends q (f.marks.view q ∙ rw (==_ne p q ne) used))
            ])
            (virt_to_phys_value test_addr last ∙ sym (virt_to_phys_value test_addr n₃) ∙ gone)
            (λ v hv away.
              virt_to_phys_value v last
              ∙ sym (virt_to_phys_value v n₃)
              ∙ others v hv away
              ∙ data_same w.tree x test_value beside v hv
              ∙ w.others v hv (inr away)
              ∙ virt_to_phys_value v taken
              ∙ sym (virt_to_phys_value v m)))

  tested : Outcome 0 m.pmm (alloc_page m.pmm) → Tested a m (cmd_vmtest m)
  unfolding cmd_vmtest
  tested (inr f) =
      rw f.result
        (no_page (head_lines ++ no_page_lines) no_page-Reports (λ q lt. f.all q (omega arith) lt))
  tested (inl (p, s, f)) =
      let (done, n, run, w) =
        map_page-Mapped (alloc-IsTree tree f.marks) test_addr covers (p * 4096) 3
          (omega (arith, f.managed, tree.valid.small)) (omega arith) in
      by_done done run w
    where
      by_done :
          (done : Bool) {n : Machine}
          → map_page test_addr (p * 4096) 3 (record m { pmm = s }) ≡ some (done, n)
          → Mapped a level (record m { pmm = s }) test_addr (p * 4096) done n
          → Tested a m (cmd_vmtest m)
      by_done true run w = works f run w
      by_done false run w = stuck f run w

-- On a tree of page tables that covers the heap's region, vmtest ends in one of three ways. Without a
-- free page it reports one failed check and changes nothing. Where a page table is missing and no page is left for it,
-- the write to the test address is a page fault. Otherwise it reports three checks that pass and none that fails, and at the end the page
-- taken is free again, other pages in use are in use, the tables form a tree, the test address, the
-- second page of the heap, is not mapped, and the other pages are mapped as before.
pub cmd_vmtest_lem :
    {a : Area} {level : ℕ → ℕ} {m : Machine}
    → IsTree a level m
    → a.first ≤ 256
    → Tested a m (cmd_vmtest m)
unfolding index
cmd_vmtest_lem {m = m} tree higher = tested tree higher (alloc_page_lem m.pmm tree.valid)
