-- ===== src/Commands/Memtest.antt =====
-- kernel/commands/memtest.c: the stress test of the three memory managers.
-- A C pointer is followed through the page tables: `none` is a page fault, or a fault of the page
-- allocator. The error line that `vmm_map_page` itself prints is not among the listed calls.
pub mod Lines
pub mod Pages
pub mod Mapping
pub mod Words
pub mod Runs
use ki_os.Base.{
  ℕ, zero, suc, ◌+◌, ◌*◌, bit_or, Bool, true, false, Option, some, none, List, [], ◌∷◌, ◌==◌,
  if◌then◌else◌, ◌>>=◌, u8,
}
use ki_os.Console.Output.{
  Call, dec, text, line, tinted, newline, vga_light_green, vga_light_red, vga_yellow,
}
use ki_os.Mm.Pmm.{alloc_page, free_page}
use ki_os.Mm.Vmm.{Machine, map_page, unmap_page, virt_to_phys}
use ki_os.Mm.Vmm.Access.{store64, load64, store8, load8}
use ki_os.Mm.Heap.{Heap, kmalloc}

abbrev pub test_pages : ℕ
test_pages = 50

abbrev pub test_heap_allocs : ℕ
test_heap_allocs = 100

abbrev pub virt_base : ℕ
virt_base = 0xFFFF900000000000

-- The address of test page `i`.
abbrev pub test_addr : ℕ → ℕ
test_addr i = virt_base + i * 0x1000

-- `0xDEADBEEF00000000ULL | i`
abbrev pub pattern_of : ℕ → ℕ
pattern_of i = bit_or 0xDEADBEEF00000000 i

-- The first loop, from page `i` with `left` to go: the pages, and the round that failed.
pub alloc_all : (left i : ℕ) → Machine → Option (List ℕ × Option ℕ × Machine)
alloc_all zero i m = some ([], none, m)
alloc_all (suc left) i m = do
  (page, p) ← alloc_page m.pmm
  let rest = alloc_all left (i + 1) (record m { pmm = p })
  if page == 0
      then some ([], some i, record m { pmm = p })
      else (do (pages, failed, m') ← rest; some (page ∷ pages, failed, m'))

-- The loop that maps and checks the pages: the round that failed.
pub map_all : List ℕ → (i : ℕ) → Machine → Option (Option ℕ × Machine)
map_all [] i m = some (none, m)
map_all (page ∷ pages) i m = do
  (printed, m') ← map_page (test_addr i) page 3 m
  resolved ← virt_to_phys (test_addr i) m'
  let rest = map_all pages (i + 1) m' in if resolved == page then rest else some (some i, m')

-- The loop that writes the patterns.
pub write_all : (left i : ℕ) → Machine → Option Machine
write_all zero i m = some m
write_all (suc left) i m = do m' ← store64 (test_addr i) (pattern_of i) m; write_all left (i + 1) m'

-- The loop that reads them back.
pub read_all : (left i : ℕ) → Machine → Option (Option ℕ)
read_all zero i m = some none
read_all (suc left) i m = do
  v ← load64 (test_addr i) m
  let rest = read_all left (i + 1) m in if v == pattern_of i then rest else some (some i)

-- The loop that unmaps the pages and checks.
pub unmap_all : (left i : ℕ) → Machine → Option (Option ℕ × Machine)
unmap_all zero i m = some (none, m)
unmap_all (suc left) i m = do
  m' ← unmap_page (test_addr i) m
  resolved ← virt_to_phys (test_addr i) m'
  let rest = unmap_all left (i + 1) m' in if resolved == 0 then rest else some (some i, m')

-- The loop that frees them.
pub free_all : List ℕ → Machine → Option Machine
free_all [] m = some m
free_all (page ∷ pages) m = do p ← free_page page m.pmm; free_all pages (record m { pmm = p })

-- `ptr[j] = (uint8_t)(i + j)`, with `left` bytes to go.
pub fill_block : (ptr i left j : ℕ) → Machine → Option Machine
fill_block ptr i zero j m = some m
fill_block ptr i (suc left) j m = do
  m' ← store8 (ptr + j) (u8 (i + j)) m
  fill_block ptr i left (j + 1) m'

-- The loop over the heap blocks: the blocks, and the round that failed.
pub heap_all : (left i : ℕ) → Heap → Option (List ℕ × Option ℕ × Heap)
heap_all zero i h = some ([], none, h)
heap_all (suc left) i h = do
  (ptr, h') ← kmalloc 256 h
  let rest = (do
    m ← fill_block ptr i 256 0 h'.machine
    (ptrs, failed, h'') ← heap_all left (i + 1) (record h' { machine = m })
    some (ptr ∷ ptrs, failed, h''))
  if ptr == 0 then some ([], some i, h') else rest

-- Whether a block holds its bytes, with `left` of them to go.
pub block_holds : (ptr i left j : ℕ) → Machine → Option Bool
block_holds ptr i zero j m = some true
block_holds ptr i (suc left) j m = do
  v ← load8 (ptr + j) m
  let rest = block_holds ptr i left (j + 1) m in if v == u8 (i + j) then rest else some false

-- The loop that verifies the blocks: the one whose data are wrong.
pub verify_all : List ℕ → (i : ℕ) → Machine → Option (Option ℕ)
verify_all [] i m = some none
verify_all (ptr ∷ ptrs) i m = do
  same ← block_holds ptr i 256 0 m
  let rest = verify_all ptrs (i + 1) m in if same then rest else some (some i)

-- Where `cmd_memtest` ends: the round of the failed step, or after all of them.
pub data Verdict : Type 0 where
  passed : Verdict
  no_page mapping_mismatch data_mismatch still_mapped no_block block_corrupt : (i : ℕ) → Verdict

-- A step that may end the test.
abbrev pub unless {ℓ} : {A : Type ℓ} → Option ℕ → (ℕ → A) → A → A
unless none stop go = go
unless (some i) stop go = stop i

-- Test 6.
pub test_heap : Heap → Option (Verdict × Heap)
unfolding heap_all verify_all
test_heap h = do
  (ptrs, failed, h₁) ← heap_all test_heap_allocs 0 h
  unless failed (λ i. some (no_block i, h₁))
      (do wrong ← verify_all ptrs 0 h₁.machine; some (unless wrong block_corrupt passed, h₁))

-- Tests 2 to 5, on the pages of test 1; `none` inside stands for all passed.
pub test_pages_mapped : List ℕ → Machine → Option (Option Verdict × Machine)
unfolding map_all write_all read_all unmap_all free_all
test_pages_mapped pages m = do
  (mismatch, m₁) ← map_all pages 0 m
  unless mismatch (λ i. some (some (mapping_mismatch i), m₁))
      (do
        m₂ ← write_all test_pages 0 m₁
        wrong ← read_all test_pages 0 m₂
        unless wrong (λ i. some (some (data_mismatch i), m₂))
            (do
              (kept, m₃) ← unmap_all test_pages 0 m₂
              unless kept (λ i. some (some (still_mapped i), m₃))
                  (do m₄ ← free_all pages m₃; some (none, m₄))))

-- The six tests of `cmd_memtest`.
pub memtest : Heap → Option (Verdict × Heap)
unfolding alloc_all
memtest h = do
  (pages, failed, m) ← alloc_all test_pages 0 h.machine
  unless failed (λ i. some (no_page i, record h { machine = m }))
      (do
        (verdict, m') ← test_pages_mapped pages m
        elim verdict [
          | some v ↦ some (v, record h { machine = m' })
          | none ↦ test_heap (record h { machine = m' })
        ])
