-- ===== src/Commands/Memtest/Lines.antt =====
-- kernel/commands/memtest.c: what the stress test prints.
use ki_os.Base.{ℕ, Option, some, List, [], ◌∷◌, ◌++◌, ◌>>=◌}
use ki_os.Console.Output.{
  Call, dec, text, line, tinted, newline, vga_light_green, vga_light_red, vga_yellow,
}
use ki_os.Mm.Heap.{Heap}
use ki_os.Commands.Memtest.{
  test_pages, test_heap_allocs, Verdict, no_page, mapping_mismatch, data_mismatch, still_mapped,
  no_block, block_corrupt, memtest,
}

-- What it prints, section by section.
abbrev pub head_lines : List Call
head_lines = newline ∷ line "=== Memory Stress Test ===" ∷ newline ∷ []

abbrev pub alloc_lines : List Call
alloc_lines =
    tinted "Test 1: PMM Page Allocation" vga_yellow
    ∷ newline
    ∷ text "  Allocating "
    ∷ dec test_pages
    ∷ line " pages..."
    ∷ []

abbrev pub alloc_fail : ℕ → List Call
alloc_fail i = tinted "  [FAIL] Failed to allocate page " vga_light_red ∷ dec i ∷ newline ∷ []

abbrev pub map_lines : List Call
map_lines =
    tinted "  [PASS] All pages allocated!" vga_light_green
    ∷ newline
    ∷ tinted "Test 2: VMM Page Mapping" vga_yellow
    ∷ newline
    ∷ text "  Mapping "
    ∷ dec test_pages
    ∷ line " pages..."
    ∷ []

abbrev pub map_fail : ℕ → List Call
map_fail i = tinted "  [FAIL] Mapping mismatch at page " vga_light_red ∷ dec i ∷ newline ∷ []

abbrev pub rw_lines : List Call
rw_lines =
    tinted "  [PASS] All pages mapped correctly!" vga_light_green
    ∷ newline
    ∷ tinted "Test 3: Memory Read/Write" vga_yellow
    ∷ newline
    ∷ text "  Writing test pattern to "
    ∷ dec test_pages
    ∷ line " pages..."
    ∷ line "  Reading back and verifying..."
    ∷ []

abbrev pub rw_fail : ℕ → List Call
rw_fail i = tinted "  [FAIL] Data mismatch at page " vga_light_red ∷ dec i ∷ newline ∷ []

abbrev pub unmap_lines : List Call
unmap_lines =
    tinted "  [PASS] All data verified!" vga_light_green
    ∷ newline
    ∷ tinted "Test 4: VMM Page Unmapping" vga_yellow
    ∷ newline
    ∷ text "  Unmapping "
    ∷ dec test_pages
    ∷ line " pages..."
    ∷ []

abbrev pub unmap_fail : ℕ → List Call
unmap_fail i = tinted "  [FAIL] Page still mapped at " vga_light_red ∷ dec i ∷ newline ∷ []

abbrev pub free_lines : List Call
free_lines =
    tinted "  [PASS] All pages unmapped!" vga_light_green
    ∷ newline
    ∷ tinted "Test 5: PMM Page Freeing" vga_yellow
    ∷ newline
    ∷ text "  Freeing "
    ∷ dec test_pages
    ∷ line " pages..."
    ∷ []

abbrev pub heap_lines : List Call
heap_lines =
    tinted "  [PASS] All pages freed!" vga_light_green
    ∷ newline
    ∷ tinted "Test 6: Heap Allocations" vga_yellow
    ∷ newline
    ∷ text "  Allocating "
    ∷ dec test_heap_allocs
    ∷ line " heap blocks..."
    ∷ []

abbrev pub heap_fail : ℕ → List Call
heap_fail i = tinted "  [FAIL] kmalloc failed at " vga_light_red ∷ dec i ∷ newline ∷ []

abbrev pub verify_lines : List Call
verify_lines = line "  Verifying heap data..." ∷ []

abbrev pub verify_fail : ℕ → List Call
verify_fail i =
    tinted "  [FAIL] Heap data corruption at block " vga_light_red ∷ dec i ∷ newline ∷ []

abbrev pub pass_lines : List Call
pass_lines =
    tinted "  [PASS] Heap test successful!" vga_light_green
    ∷ newline
    ∷ newline
    ∷ tinted "=== All Tests Passed! ===" vga_light_green
    ∷ newline
    ∷ newline
    ∷ []

-- The calls from test 6 on, from test 4 on, and of the whole `cmd_memtest`, by its verdict.
abbrev pub after_free : Verdict → List Call
after_free (no_block i) = heap_fail i
after_free (block_corrupt i) = verify_lines ++ verify_fail i
after_free _ = verify_lines ++ pass_lines

abbrev pub after_write : Verdict → List Call
after_write (data_mismatch i) = rw_fail i
after_write (still_mapped i) = unmap_lines ++ unmap_fail i
after_write v = unmap_lines ++ (free_lines ++ (heap_lines ++ after_free v))

abbrev pub after_alloc : Verdict → List Call
after_alloc (no_page i) = alloc_fail i
after_alloc (mapping_mismatch i) = map_lines ++ map_fail i
after_alloc v = map_lines ++ (rw_lines ++ after_write v)

pub memtest_lines : Verdict → List Call
memtest_lines v = head_lines ++ (alloc_lines ++ after_alloc v)

-- `cmd_memtest`
pub cmd_memtest : Heap → Option (List Call × Heap)
cmd_memtest h = do (verdict, h') ← memtest h; some (memtest_lines verdict, h')
