-- ===== src/Interrupts/Idt.antt =====
-- kernel/idt.c, kernel/gdt.c and kernel/tss.c: the tables that the processor reads. The addresses of
-- the assembly stubs and of the objects are parameters.
pub mod Gates
pub mod Descriptor
mod Tests
use ki_os.Base.{
  ℕ, zero, suc, ◌+◌, ◌-◌, ◌*◌, ◌/◌, ◌^◌, bit_and, bit_or, List, [], ◌∷◌, set, replicate, u16, u32,
  u64, add64, sub64,
}

-- `idt_entry_t`
pub record IdtEntry : Type 0 where
  pub offset_low : ℕ
  pub selector : ℕ
  pub ist : ℕ
  pub type_attr : ℕ
  pub offset_mid : ℕ
  pub offset_high : ℕ
  pub reserved : ℕ

abbrev pub idt_entries : ℕ
idt_entries = 256

-- `IDT_TYPE_INTERRUPT`
abbrev pub type_interrupt : ℕ
type_interrupt = 0x8E

-- The entry that `memset` leaves.
abbrev pub null_entry : IdtEntry
null_entry = record {
  offset_low = 0;
  selector = 0;
  ist = 0;
  type_attr = 0;
  offset_mid = 0;
  offset_high = 0;
  reserved = 0;
}

-- `idt_set_gate_ist`
unfoldable pub set_gate_ist : (num handler selector flags ist : ℕ) → List IdtEntry → List IdtEntry
set_gate_ist num handler selector flags ist idt = set idt num (record {
  offset_low = u16 (bit_and handler 0xFFFF);
  selector = selector;
  ist = ist;
  type_attr = flags;
  offset_mid = u16 (bit_and (handler / 2 ^ 16) 0xFFFF);
  offset_high = u32 (bit_and (handler / 2 ^ 32) 0xFFFFFFFF);
  reserved = 0;
})

-- `idt_set_gate`
unfoldable pub set_gate : (num handler selector flags : ℕ) → List IdtEntry → List IdtEntry
unfolding set_gate_ist
set_gate num handler selector flags idt = set_gate_ist num handler selector flags 0 idt

-- A run of `idt_set_gate` calls of `idt_init`, for `n` vectors from `num` on.
pub set_gates : (stub : ℕ → ℕ) → (n num : ℕ) → List IdtEntry → List IdtEntry
unfolding set_gate
set_gates stub zero num idt = idt
set_gates stub (suc n) num idt =
    set_gates stub n (num + 1) (set_gate num (stub num) 0x08 type_interrupt idt)

-- `idt_init`: `stub` gives the address of isr0 to isr31 and, from 32 on, of irq0 to irq15.
pub idt_init : (stub : ℕ → ℕ) → List IdtEntry
idt_init stub = set_gates stub 39 9 (
    set_gate_ist 8 (stub 8) 0x08 type_interrupt 1
      (set_gates stub 8 0 (replicate idt_entries null_entry)))

-- The table of `gdt_init`, whose 16 entries begin as 0.
pub gdt_init : (tss_ptr tss_size : ℕ) → List ℕ
gdt_init tss_base tss_size =
    0
    ∷ 0x00af9a000000ffff
    ∷ 0x00af92000000ffff
    ∷ 0x00aff2000000ffff
    ∷ 0x00affa000000ffff
    ∷ bit_or
        (bit_or (bit_or (sub64 tss_size 1) (u64 (bit_and tss_base 0xFFFFFF * 2 ^ 16)))
          (0x89 * 2 ^ 40))
        (u64 (bit_and tss_base 0xFF000000 * 2 ^ 32))
    ∷ tss_base / 2 ^ 32
    ∷ replicate 9 0

-- The fields of `tss_t` that the kernel sets; `memset` clears the others.
pub record Tss : Type 0 where
  pub rsp0 : ℕ
  pub ist1 : ℕ
  pub io_map_base : ℕ

-- sizeof(tss_t)
abbrev pub tss_size : ℕ
tss_size = 104

-- `tss_init`
pub tss_init : (df_stack df_stack_size : ℕ) → Tss
tss_init df_stack df_stack_size = record {
  rsp0 = 0;
  ist1 = add64 df_stack df_stack_size;
  io_map_base = tss_size;
}

-- `tss_set_kernel_stack`
pub tss_set_kernel_stack : ℕ → Tss → Tss
tss_set_kernel_stack stack_top t = record t { rsp0 = stack_top }
