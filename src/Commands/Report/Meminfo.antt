-- ===== src/Commands/Report/Meminfo.antt =====
-- The figures of meminfo.
use ki_os.Base.{
  ℕ, ◌+◌, ◌-◌, ◌*◌, ◌/◌, List, [], ◌∷◌, drop, add64, sub64, ◌^◌, ◌≤◌, ◌<◌, ◌≡◌, ◌≢◌, ◌⊎◌, refl, ap,
  some, none, arith, inl, inr, ==_ne, u64,
}
use ki_os.Base.Tally.{tally-le}
use ki_os.Console.Output.{Call, dec, text, line}
use ki_os.Console.Output.Screens.{AllDefined}
use ki_os.Mm.Heap.{Heap, heap_start, heap_current_size}
use ki_os.Mm.Heap.Blocks
use ki_os.Mm.Pmm.{Pmm}
use ki_os.Mm.Pmm.View
use ki_os.Mm.Pmm.View.{page_used}
use ki_os.Commands.Report.{usage_percent, page_lines, usage_lines, cmd_meminfo, goes_on}
use native.Mathlib.Nat.{div-le_of_le-mul}
use native.Mathlib.Decide.{ℕ_discrete}

used_le : (p : Pmm) → View.IsValid p → p.used_pages ≤ p.total_pages
used_le p v = omega (arith, v.counted, tally-le (page_used p) p.total_pages)

page_lines-Defined : (p : Pmm) → View.IsValid p → AllDefined (page_lines p.used_pages p.total_pages)
unfolding page_lines
page_lines-Defined p v = let le = used_le p v in omega (arith, le, v.small)

heap_size_small : (h : Heap) → Blocks.IsValid h → heap_current_size h < 2 ^ 32
unfolding heap_current_size
heap_size_small h w = omega (arith, w.above, w.below)

usage_lines-Defined :
    (percent : ℕ) (h : Heap) → percent ≤ 100 → Blocks.IsValid h → AllDefined (usage_lines percent h)
unfolding usage_lines
usage_lines-Defined percent h few w =
    let size = heap_size_small h w in omega (arith, few, size, w.counted, w.below)

percent_le : (used total : ℕ) → used ≤ total → total ≢ 0 → used * 100 / total ≤ 100
percent_le used total le ne = div-le_of_le-mul total (omega (arith, le))

-- The numbers that calls print in decimal, in their order.
abbrev pub numbers : List Call → List ℕ
numbers [] = []
numbers (dec v ∷ cs) = v ∷ numbers cs
numbers (_ ∷ cs) = numbers cs

page_numbers :
    (used total : ℕ)
    → used ≤ total
    → total < 2 ^ 60
    → numbers (page_lines used total)
      ≡ total ∷ total * 4 ∷ used ∷ used * 4 ∷ (total - used) ∷ (total - used) * 4 ∷ []
unfolding page_lines
page_numbers used total le small =
    rw
      (
        fits total small,
        fits used (omega (arith, le, small)),
        free,
        fits (total - used) (omega (arith, small)),
      )
      refl
  where
    free : sub64 total used ≡ total - used
    free = omega (arith, le, small)

    fits : (n : ℕ) → n < 2 ^ 60 → u64 (n * 4) ≡ n * 4
    fits n h = omega (arith, h)

-- The lines after the one with the percentage.
last_lines : ℕ → Heap → List Call
last_lines percent h = drop 3 (usage_lines percent h)

last_numbers :
    (percent : ℕ) (h : Heap)
    → Blocks.IsValid h
    → numbers (last_lines percent h)
      ≡ h.total_alloc
        ∷ (h.current_ptr - heap_start)
        ∷ ((h.current_ptr - heap_start + 4095) / 4096)
        ∷ []
unfolding last_lines usage_lines heap_current_size
last_numbers percent h w = rw (distance, rounded) refl
  where
    distance : sub64 h.current_ptr heap_start ≡ h.current_ptr - heap_start
    distance = omega (arith, w.above, w.below)

    rounded : add64 (h.current_ptr - heap_start) 4095 ≡ h.current_ptr - heap_start + 4095
    rounded = omega (arith, w.above, w.below)

last_lines-Defined :
    (percent : ℕ) (h : Heap) → percent ≤ 100 → Blocks.IsValid h → AllDefined (last_lines percent h)
unfolding last_lines usage_lines
last_lines-Defined percent h few w = (usage_lines-Defined percent h few w).1.1.1

-- On a valid page allocator and a valid heap, meminfo prints the numbers of all, used and free pages,
-- each followed by its kilobytes. With no page at all it then divides by 0; otherwise it prints the
-- used share of the pages in percent, rounded down and at most 100, and then the bytes allocated, the
-- size of the heap and its pages, rounded up. Every number is one that `vga_print_dec` can print.
pub cmd_meminfo_lem :
    (h : Heap)
    → View.IsValid h.machine.pmm
    → Blocks.IsValid h
    → let total = h.machine.pmm.total_pages in
      let used = h.machine.pmm.used_pages in
      let size = h.current_ptr - heap_start in
      (numbers (cmd_meminfo h).0
        ≡ total ∷ total * 4 ∷ used ∷ used * 4 ∷ (total - used) ∷ (total - used) * 4 ∷ [])
      × AllDefined (cmd_meminfo h).0
      × (((total ≡ 0) × ((cmd_meminfo h).1 ≡ none))
          ⊎ ((rest : List Call) × ((cmd_meminfo h).1
                ≡ some (text "  Usage:        " ∷ dec (used * 100 / total) ∷ line "%" ∷ rest))
              × (used * 100 / total ≤ 100)
              × (numbers rest ≡ h.total_alloc ∷ size ∷ (size + 4095) / 4096 ∷ [])
              × AllDefined rest))
unfolding cmd_meminfo last_lines usage_lines
cmd_meminfo_lem h v w = (
  page_numbers h.machine.pmm.used_pages h.machine.pmm.total_pages le (omega (arith, v.small)),
  page_lines-Defined h.machine.pmm v,
  elim (ℕ_discrete h.machine.pmm.total_pages 0) [
    | yes z ↦ inl (
      z,
      ap (goes_on h) {x = usage_percent h.machine.pmm.used_pages h.machine.pmm.total_pages}
          {y = none} (rw z refl),
    )
    | no ne ↦ inr (
      last_lines (h.machine.pmm.used_pages * 100 / h.machine.pmm.total_pages) h,
      ap (goes_on h) {x = usage_percent h.machine.pmm.used_pages h.machine.pmm.total_pages}
          {y = some (h.machine.pmm.used_pages * 100 / h.machine.pmm.total_pages)}
          (rw (==_ne h.machine.pmm.total_pages 0 ne, exact) refl),
      percent_le _ _ le ne,
      last_numbers (h.machine.pmm.used_pages * 100 / h.machine.pmm.total_pages) h w,
      last_lines-Defined (h.machine.pmm.used_pages * 100 / h.machine.pmm.total_pages) h
          (percent_le _ _ le ne) w,
    )
  ],
)
  where
    le : h.machine.pmm.used_pages ≤ h.machine.pmm.total_pages
    le = used_le h.machine.pmm v

    exact : u64 (h.machine.pmm.used_pages * 100) ≡ h.machine.pmm.used_pages * 100
    exact = omega (arith, le, v.small)
