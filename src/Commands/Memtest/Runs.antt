-- ===== src/Commands/Memtest/Runs.antt =====
-- memtest on a tree of page tables, up to its test of the heap.
use ki_os.Base.{
  ℕ, ◌/◌, ◌^◌, ◌≤◌, ◌<◌, ◌≡◌, refl, ap, ◌∙◌, sym, true, false, Option, some, none, List, length,
  All, All_map, arith,
}
use ki_os.Mm.Heap.{Heap}
use ki_os.Mm.Heap.Pages.{Exhausted}
use ki_os.Mm.Pmm.{Pmm}
use ki_os.Mm.Pmm.View.{page_used}
use ki_os.Mm.Vmm.{Machine, virt_to_phys}
use ki_os.Mm.Vmm.Leaf.{virt_to_phys_value}
use ki_os.Mm.Vmm.Tree.{IsTree, Area, Covers}
use ki_os.Commands.Memtest.{
  test_addr, Verdict, memtest, test_pages_mapped, test_heap, alloc_all, map_all, write_all,
  read_all,
}
use ki_os.Commands.Memtest.Pages.{
  Page, Distinct, Taken, Allocated, all_taken, none_left, alloc_all_lem, Freed, Given, free_all_lem,
}
use ki_os.Commands.Memtest.Mapping.{
  Frame, Elsewhere, Placing, Mapping, all_mapped, no_table, map_all_lem, Unmapped, unmap_all_lem,
}
use ki_os.Commands.Memtest.Words.{Cell, Wrote, keep-Placed, write_all_lem, read_all_lem}

-- Tests 1 to 5 have passed: the pages are free again, and the addresses are as before.
pub record Restored (a : Area) (m : Machine) (xs : List ℕ) (level' : ℕ → ℕ) (m' : Machine)
    : Type 0 where
  pub tree : IsTree a level' m'
  pub count : length xs ≡ 50
  pub distinct : Distinct xs
  pub fresh : All (λ x. page_used m.pmm (x / 4096) ≡ false) xs
  pub free : All (λ x. page_used m'.pmm (x / 4096) ≡ false) xs
  pub spends : (q : ℕ) → page_used m.pmm q ≡ true → page_used m'.pmm q ≡ true
  pub gone : (j : ℕ) → j < 50 → virt_to_phys (test_addr j) m' ≡ some 0
  pub others : (v : ℕ) → Covers a v → Elsewhere v 0 50 → virt_to_phys v m' ≡ virt_to_phys v m

-- Where tests 1 to 5 end.
pub data Checked (a : Area) (h : Heap) : Option (Verdict × Heap) → Type 0 where
  ended_without_page :
      (i : ℕ) (s : Pmm)
      → i < 50
      → Exhausted s
      → Checked a h (some (Verdict.no_page i, record h { machine = record h.machine { pmm = s } }))
  ended_without_table :
      (i : ℕ) (level' : ℕ → ℕ) (m' : Machine)
      → i < 50
      → Exhausted m'.pmm
      → IsTree a level' m'
      → Checked a h (some (Verdict.mapping_mismatch i, record h { machine = m' }))
  went_on :
      (xs : List ℕ) (level' : ℕ → ℕ) (m' : Machine)
      → Restored a h.machine xs level' m'
      → Checked a h (test_heap (record h { machine = m' }))

-- The machine with the pages taken.
abbrev taken_machine : Heap → Pmm → Machine
taken_machine h s = record h.machine { pmm = s }

frame :
    {level : ℕ → ℕ} {old s : Pmm} → s.total_pages ≤ 2 ^ 52 → (x : ℕ) → Page level old s x → Frame x
frame small x p = record {
  aligned = p.aligned;
  set = p.set;
  small = omega (arith, p.within, small);
}

module _ {a : Area} {level : ℕ → ℕ} (h : Heap) (higher : a.first ≤ 288) {xs : List ℕ} {s : Pmm}
    (count : length xs ≡ 50) (taken : Taken level h.machine.pmm s xs) where
  module _ {level' : ℕ → ℕ} {m₂ m₃ m₄ : Machine}
      (placing : Placing a level (taken_machine h s) xs 0 level' m₂)
      (wrote : Wrote a level' m₂ xs 0 m₃) (unmapped : Unmapped a level' m₃ 50 0 m₄) where
    same_pmm : m₄.pmm ≡ m₂.pmm
    same_pmm = unmapped.pmm ∙ wrote.pmm

    given : (x : ℕ) → Page level h.machine.pmm s x → Given level' m₄.pmm x
    given x p = record {
      aligned = p.aligned;
      set = p.set;
      plain = placing.keeps_level (x / 4096) p.in_use p.plain;
      within = omega (arith, p.within, placing.total, ap Pmm.total_pages same_pmm);
    }

    restored :
        {u : Pmm} → Freed a level' m₄ xs u → Restored a h.machine xs level' (record m₄ { pmm = u })
    restored {u} freed = record {
      tree = freed.tree;
      count = count;
      distinct = taken.distinct;
      fresh = All_map (λ x p. p.fresh) xs taken.pages;
      free = freed.gone;
      spends = λ q used.
          freed.others q
            (All_map (λ x p e. cc (p.fresh, used, ap (page_used h.machine.pmm) e)) xs taken.pages)
          ∙ ap (λ t. page_used t q) same_pmm
          ∙ placing.spends q (taken.spends q used);
      gone = λ j lt.
          virt_to_phys_value (test_addr j) (record m₄ { pmm = u })
          ∙ sym (virt_to_phys_value (test_addr j) m₄)
          ∙ unmapped.gone j (omega arith) (omega arith);
      others = λ v hv away.
          virt_to_phys_value v (record m₄ { pmm = u })
          ∙ sym (virt_to_phys_value v m₄)
          ∙ unmapped.others v hv away
          ∙ wrote.same v hv
          ∙ placing.others v hv (λ j le lt. away j le (omega (arith, lt, count)))
          ∙ virt_to_phys_value v (taken_machine h s)
          ∙ sym (virt_to_phys_value v h.machine);
    }

  -- Tests 2 to 5 on the pages taken.
  mapped :
      {r : Option (Option ℕ × Machine)}
      → alloc_all 50 0 h.machine ≡ some (xs, none, (taken_machine h s))
      → map_all xs 0 (taken_machine h s) ≡ r
      → Mapping a level (taken_machine h s) xs 0 r
      → Checked a h (memtest h)
  unfolding memtest test_pages_mapped
  mapped allocated ran (no_table j level' m' bounds all tree) =
      rw (allocated, ran) (ended_without_table j level' m' (omega (arith, bounds, count)) all tree)
  mapped allocated ran (all_mapped level' m₂ placing) =
      let cells : All (Cell level') xs =
        All_map
          (λ x p. record { set = p.set; plain = placing.keeps_level (x / 4096) p.in_use p.plain })
          xs taken.pages in
      let (m₃, run₃, wrote) =
        write_all_lem higher xs 0 m₂ (omega (arith, count)) cells taken.distinct placing.placed
          placing.tree in
      let written : write_all 50 0 m₂ ≡ some m₃ = ap (λ n. write_all n 0 m₂) (sym count) ∙ run₃ in
      let read : read_all 50 0 m₃ ≡ some none =
        ap (λ n. read_all n 0 m₃) (sym count)
        ∙ read_all_lem xs 0 m₃ (All_map (λ x p. p.set) xs taken.pages)
            (keep-Placed a m₂ m₃ higher wrote.same xs 0 (omega (arith, count)) placing.placed)
            wrote.written in
      let (m₄, run₄, unmapped) = unmap_all_lem higher 50 0 m₃ (omega arith) wrote.tree in
      let (u, run₅, freed) =
        free_all_lem xs m₄ unmapped.tree (All_map (given placing wrote unmapped) xs taken.pages) in
      rw (allocated, ran, written, read, run₄, run₅)
        (went_on xs level' (record m₄ { pmm = u }) (restored placing wrote unmapped freed))

-- On a tree of page tables that covers the region of its test addresses, the first five tests of
-- memtest end at a page that could not be allocated or mapped only with no page free. Otherwise they
-- all pass and it goes on to the heap: the 50 different pages, which were free before, are free
-- again, other pages in use are in use, the tables form a tree, the test addresses are not mapped, and
-- every other address translates as before.
pub memtest_lem :
    {a : Area} {level : ℕ → ℕ} (h : Heap)
    → a.first ≤ 288
    → IsTree a level h.machine
    → Checked a h (memtest h)
unfolding memtest
memtest_lem {a} {level} h higher tree = split (alloc_all_lem 50 0 h.machine tree) refl
  where
    split :
        {r : Option (List ℕ × Option ℕ × Machine)}
        → Allocated a level h.machine 50 0 r
        → alloc_all 50 0 h.machine ≡ r
        → Checked a h (memtest h)
    split (none_left xs j s bounds all) ran =
        rw ran (ended_without_page j s (omega (arith, bounds)) all)
    split (all_taken xs s count tree' taken) ran = mapped h higher count taken ran refl (
        map_all_lem higher xs 0 (taken_machine h s) (omega (arith, count))
          (All_map (frame tree'.valid.small) xs taken.pages) tree')
