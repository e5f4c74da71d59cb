-- ===== src/Commands/Vmtest.antt =====
-- kernel/commands/vmtest.c: the test of the virtual memory manager.
pub mod Runs
use ki_os.Base.{ℕ, Bool, Option, some, List, [], ◌∷◌, ◌++◌, ◌==◌, if◌then◌else◌, ◌>>=◌}
use ki_os.Console.Output.{Call, hex, text, line, tinted, newline, vga_light_green, vga_light_red}
use ki_os.Mm.Pmm.{alloc_page, free_page}
use ki_os.Mm.Vmm.{Machine, map_page, unmap_page, virt_to_phys}
use ki_os.Mm.Vmm.Access.{store64, load64}

-- `virt_addr`, the second page of the kernel heap.
abbrev pub test_addr : ℕ
test_addr = 0xFFFF800000001000

abbrev pub test_value : ℕ
test_value = 0xDEADBEEFCAFEBABE

-- The sections of what it prints.
abbrev pub head_lines : List Call
head_lines = newline ∷ line "=== VMM Test ===" ∷ newline ∷ []

abbrev pub no_page_lines : List Call
no_page_lines = tinted "  [FAIL] Failed to allocate physical page!" vga_light_red ∷ newline ∷ []

abbrev pub page_lines : (page : ℕ) → List Call
page_lines page =
    text "  Allocated physical page at: "
    ∷ hex page
    ∷ newline
    ∷ text "  Mapping to virtual address: "
    ∷ hex test_addr
    ∷ newline
    ∷ line "  Mapping successful!"
    ∷ []

abbrev pub resolved_lines : (resolved : ℕ) → List Call
resolved_lines resolved = text "  Resolved physical address: " ∷ hex resolved ∷ newline ∷ []

-- `[PASS]` or `[FAIL]` with its text.
abbrev pub outcome : Bool → (good bad : List Call) → List Call
outcome b good bad = if b then good else bad

abbrev pub map_pass : List Call
map_pass = tinted "  [PASS] Virtual to physical mapping correct!" vga_light_green ∷ newline ∷ []

abbrev pub map_fail : List Call
map_fail = tinted "  [FAIL] Mapping mismatch!" vga_light_red ∷ newline ∷ []

abbrev pub write_lines : List Call
write_lines = newline ∷ line "  Writing test data via virtual address..." ∷ []

abbrev pub value_lines : (value : ℕ) → List Call
value_lines value = text "  Read value: " ∷ hex value ∷ newline ∷ []

abbrev pub rw_pass : List Call
rw_pass = tinted "  [PASS] Read/Write works correctly!" vga_light_green ∷ newline ∷ []

abbrev pub rw_fail : List Call
rw_fail = tinted "  [FAIL] Read/Write failed!" vga_light_red ∷ newline ∷ []

abbrev pub unmap_lines : List Call
unmap_lines = newline ∷ line "  Unmapping page..." ∷ []

abbrev pub unmap_pass : List Call
unmap_pass = tinted "  [PASS] Unmapping successful!" vga_light_green ∷ newline ∷ []

abbrev pub unmap_fail : List Call
unmap_fail = tinted "  [FAIL] Page still mapped!" vga_light_red ∷ newline ∷ []

abbrev pub end_lines : List Call
end_lines = line "  Freed physical page" ∷ newline ∷ line "=== VMM Test Complete ===" ∷ newline ∷ []

-- The steps of `cmd_vmtest` with a page: what it finds at each check.
pub record Findings : Type 0 where
  pub resolved : ℕ
  pub value : ℕ
  pub after_unmap : ℕ

pub vmtest : (page : ℕ) → Machine → Option (Findings × Machine)
vmtest page m = do
  (printed, m₁) ← map_page test_addr page 3 m
  resolved ← virt_to_phys test_addr m₁
  m₂ ← store64 test_addr test_value m₁
  value ← load64 test_addr m₂
  m₃ ← unmap_page test_addr m₂
  after_unmap ← virt_to_phys test_addr m₃
  p ← free_page page m₃.pmm
  some (
    record { resolved = resolved; value = value; after_unmap = after_unmap },
    record m₃ { pmm = p },
  )

-- What it prints of them.
pub findings_lines : (page : ℕ) → Findings → List Call
findings_lines page f =
    page_lines page
    ++ (resolved_lines f.resolved
        ++ (outcome (f.resolved == page) map_pass map_fail
            ++ (write_lines
                ++ (value_lines f.value
                    ++ (outcome (f.value == test_value) rw_pass rw_fail
                        ++ (unmap_lines
                            ++ (outcome (f.after_unmap == 0) unmap_pass unmap_fail
                                ++ end_lines)))))))

-- `cmd_vmtest`
pub cmd_vmtest : Machine → Option (List Call × Machine)
unfolding vmtest findings_lines
cmd_vmtest m = do
  (page, p) ← alloc_page m.pmm
  if page == 0 then some (head_lines ++ no_page_lines, record m { pmm = p }) else (do
    (f, m') ← vmtest page (record m { pmm = p })
    some (head_lines ++ findings_lines page f, m'))
