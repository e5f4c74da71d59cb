-- ===== src/Mm/Heap/Tests.antt =====
-- A heap before its first block, whose first page is mapped to the frame 0x9000.
use ki_os.Base.{ℕ, ◌+◌, ◌^◌, ◌==◌, if◌then◌else◌, ◌≡◌, refl, true, some, [], ◌∷◌, arith}
use ki_os.Mm.Vmm.{Machine}
use ki_os.Mm.Vmm.Lookup.{virt_to_phys_lem}
use ki_os.Mm.Vmm.Sample.{sample, sample_area, sample-IsTree}
use ki_os.Mm.Heap.Backing.{Served, kmalloc-Served}
use ki_os.Mm.Heap.{Heap, heap_start, heap_init, kmalloc, ensure_page, ensure_pages}
use ki_os.Mm.Heap.Blocks.{
  IsValid, Outcome, Reach, start, next, allocates, Stacked, kmalloc_lem, blocks-Stacked,
  kmalloc-huge,
}

abbrev machine : Machine
machine = record {
  pmm = record { bitmap = []; total_pages = 0; used_pages = 0 };
  mem = λ a.
      if a == 0x1800
      then 0x2003
      else if a == 0x2000
      then 0x3003
      else if a == 0x3000
      then 0x4003
      else if a == 0x4000
      then 0x9003
      else 0;
  pml4 = 0x1000;
}

abbrev heap : Heap
heap = record { machine = machine; current_ptr = heap_start; total_alloc = 0 }

heap-IsValid : IsValid heap
heap-IsValid = record {
  above = omega arith;
  below = omega arith;
  aligned = omega arith;
  counted = omega arith;
}

mapped : ensure_page heap_start machine ≡ some (true, machine)
unfolding ensure_page
mapped = rw (virt_to_phys_lem heap_start machine) refl

abbrev grown : Heap
grown = record { machine = machine; current_ptr = heap_start + 112; total_alloc = 112 }

given : kmalloc 100 heap ≡ some (heap_start, grown)
unfolding kmalloc ensure_pages
given = rw mapped refl

kmalloc_lem_example : Outcome 100 heap heap_start grown
kmalloc_lem_example = kmalloc_lem 100 heap heap-IsValid (omega arith) given

reached : Reach machine (record { heap = grown; blocks = (heap_start, 100) ∷ [] })
unfolding heap_init
reached = next (start heap refl) (allocates 100 (omega arith) given (omega arith))

blocks-Stacked_example : IsValid grown × Stacked grown.current_ptr ((heap_start, 100) ∷ [])
blocks-Stacked_example = blocks-Stacked reached

kmalloc-huge_example :
    kmalloc (2 ^ 47) heap ≡ some (heap_start, record heap { current_ptr = 0; total_alloc = 2 ^ 47 })
kmalloc-huge_example = kmalloc-huge heap heap-IsValid

abbrev fresh : Heap
fresh = record { machine = sample; current_ptr = heap_start; total_alloc = 0 }

fresh-IsValid : IsValid fresh
fresh-IsValid = record {
  above = omega arith;
  below = omega arith;
  aligned = omega arith;
  counted = omega arith;
}

kmalloc-Served_example :
    (ptr : ℕ) × (h' : Heap) × (kmalloc 5000 fresh ≡ some (ptr, h'))
    × Served sample_area 5000 fresh ptr h'
kmalloc-Served_example =
    kmalloc-Served 5000 fresh sample-IsTree (omega arith) fresh-IsValid (omega arith) (omega arith)
