-- ===== src/Mm/Heap.antt =====
-- kernel/mm/heap.c: the kernel heap, a bump allocator that maps its pages when it reaches them.
-- `none` is a fault of the page allocator below.
pub mod Blocks
pub mod Pages
pub mod Backing
mod Tests
use ki_os.Base.{
  ℕ, zero, suc, ◌+◌, ◌-◌, ◌/◌, ◌^◌, bit_and, bit_or, Bool, true, false, not, Option, none, some,
  leb, ◌==◌, if◌then◌else◌, ◌>>=◌, add64, sub64,
}
use ki_os.Mm.Pmm.{alloc_page}
use ki_os.Mm.Vmm.{Machine, page_present, page_write, virt_to_phys, map_page}

-- `heap_current_ptr` and `heap_total_alloc`, with the machine whose pages the heap maps.
pub record Heap : Type 0 where
  pub machine : Machine
  pub current_ptr : ℕ
  pub total_alloc : ℕ

abbrev pub heap_start : ℕ
heap_start = 0xFFFF800000000000

-- `HEAP_START + HEAP_SIZE`
abbrev pub heap_limit : ℕ
heap_limit = 0xFFFF800001000000

-- `heap_init`
unfoldable pub heap_init : Heap → Heap
heap_init h = record h { current_ptr = heap_start; total_alloc = 0 }

-- `(size + 15) & ~15`
abbrev pub align_size : ℕ → ℕ
align_size size = bit_and (add64 size 15) (2 ^ 64 - 16)

-- One round of the loop: a page that is not mapped gets a physical page, if there is one.
pub ensure_page : ℕ → Machine → Option (Bool × Machine)
ensure_page page m = do
  phys ← virt_to_phys page m
  if phys == 0
      then (do
        (phys_page, p) ← alloc_page m.pmm
        if phys_page == 0 then some (false, record m { pmm = p }) else (do
          (printed, m') ←
              map_page page phys_page (bit_or page_present page_write) (record m { pmm = p })
          some (true, m')))
      else some (true, m)

-- The loop over the pages of the block, with `left` rounds to go: false where it returns NULL.
pub ensure_pages : ℕ → ℕ → Machine → Option (Bool × Machine)
ensure_pages zero page m = some (true, m)
ensure_pages (suc left) page m = do
  (ok, m') ← ensure_page page m
  let rest = ensure_pages left (add64 page 0x1000) m' in if ok then rest else some (false, m')

-- How many rounds the loop makes from `start_page` to `end_page`, both starts of pages.
abbrev pub page_rounds : (start end : ℕ) → ℕ
page_rounds start end =
    (bit_and (add64 end 0xFFF) (2 ^ 64 - 4096) - bit_and start (2 ^ 64 - 4096)) / 0x1000

-- The end of `kmalloc`: the block is the heap's next `size` bytes.
abbrev pub bump : ℕ → Heap → Bool × Machine → ℕ × Heap
bump size h (false, m) = (0, record h { machine = m })
bump size h (true, m) = (
  h.current_ptr,
  record {
    machine = m;
    current_ptr = add64 h.current_ptr size;
    total_alloc = add64 h.total_alloc size;
  },
)

-- `kmalloc`: the address of the block, or 0.
pub kmalloc : ℕ → Heap → Option (ℕ × Heap)
unfolding ensure_pages
kmalloc request h =
    if request == 0
    then some (0, h)
    else let size = align_size request in
      if leb heap_limit (add64 h.current_ptr size) then some (0, h) else (do
        r ←
            ensure_pages (page_rounds h.current_ptr (add64 h.current_ptr size))
              (bit_and h.current_ptr (2 ^ 64 - 4096)) h.machine
        some (bump size h r))

-- `kfree` does nothing.
pub kfree : ℕ → Heap → Heap
kfree ptr h = h

-- `heap_current_size`
unfoldable pub heap_current_size : Heap → ℕ
heap_current_size h = sub64 h.current_ptr heap_start
