-- ===== src/Interrupts/Idt/Tests.antt =====
-- Stubs of 16 bytes each, and a task state segment above 4 GiB.
use ki_os.Base.{ℕ, ◌+◌, ◌*◌, ◌≡◌, ◌<◌, ◌≤◌, ◌⊎◌, arith, get_or}
use ki_os.Interrupts.Idt.{null_entry, idt_init}
use ki_os.Interrupts.Idt.Gates.{Gate, idt_init_lem}

abbrev stub : ℕ → ℕ
stub j = 0xFFFF800000100000 + 16 * j

idt_init_lem_example :
    ((8 < 48) × Gate (stub 8) 1 (get_or (idt_init stub) 8 null_entry))
    ⊎ ((48 ≤ 8) × (get_or (idt_init stub) 8 null_entry ≡ null_entry))
idt_init_lem_example = idt_init_lem stub 8 (omega arith)
