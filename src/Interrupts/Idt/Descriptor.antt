-- ===== src/Interrupts/Idt/Descriptor.antt =====
-- The task state segment's descriptor in the global descriptor table.
use ki_os.Base.{
  ℕ, ◌+◌, ◌-◌, ◌*◌, ◌/◌, ◌%◌, ◌^◌, ◌<◌, ◌≡◌, ◌∙◌, ap, bit_and, bit_or, arith, get_or, u64, sub64,
}
use ki_os.Base.Bits.{bit_and_low_mask, bit_and_high_fields, bit_or_above}
use ki_os.Interrupts.Idt.{gdt_init}

-- For a 64-bit base address and a size from 1 to 65535, the descriptor of gdt_init at the selector
-- 0x28 holds the base address and the limit of the task state segment in the processor's scattered
-- fields, and the access byte of an available 64-bit TSS.
pub gdt_init_lem :
    (tss_base tss_size : ℕ)
    → tss_base < 2 ^ 64
    → 0 < tss_size
    → tss_size < 2 ^ 16
    → let low = get_or (gdt_init tss_base tss_size) (0x28 / 8) 0 in
      let high = get_or (gdt_init tss_base tss_size) (0x28 / 8 + 1) 0 in
      (low / 2 ^ 16 % 2 ^ 24 + low / 2 ^ 56 * 2 ^ 24 + high * 2 ^ 32 ≡ tss_base)
      × (low % 2 ^ 16 + 1 ≡ tss_size)
      × (low / 2 ^ 40 % 2 ^ 16 ≡ 0x89)
unfolding gdt_init
gdt_init_lem base size fits some_size small = omega (arith, fields)
  where
    first : u64 (bit_and base 0xFFFFFF * 2 ^ 16) ≡ base % 2 ^ 24 * 2 ^ 16
    first = omega (arith, bit_and_low_mask 24 base)

    last : u64 (bit_and base 0xFF000000 * 2 ^ 32) ≡ base / 2 ^ 24 % 2 ^ 8 * 2 ^ 56
    last = ground (
      arith,
      bit_and_high_fields 24 (base / 2 ^ 24) (base % 2 ^ 24) 255,
      bit_and_low_mask 8 (base / 2 ^ 24),
    )

    fields :
        bit_or
          (bit_or (bit_or (sub64 size 1) (u64 (bit_and base 0xFFFFFF * 2 ^ 16))) (0x89 * 2 ^ 40))
          (u64 (bit_and base 0xFF000000 * 2 ^ 32))
        ≡ size - 1 + base % 2 ^ 24 * 2 ^ 16 + 0x89 * 2 ^ 40 + base / 2 ^ 24 % 2 ^ 8 * 2 ^ 56
    fields =
        ap (λ t. bit_or (bit_or t (0x89 * 2 ^ 40)) (u64 (bit_and base 0xFF000000 * 2 ^ 32)))
          (ap (bit_or (sub64 size 1)) first
            ∙ bit_or_above 16 (base % 2 ^ 24) (sub64 size 1) (omega arith))
        ∙ ap (λ t. bit_or t (u64 (bit_and base 0xFF000000 * 2 ^ 32)))
            (bit_or_above 40 0x89 (sub64 size 1 + base % 2 ^ 24 * 2 ^ 16) (omega arith))
        ∙ ap (bit_or (sub64 size 1 + base % 2 ^ 24 * 2 ^ 16 + 0x89 * 2 ^ 40)) last
        ∙ bit_or_above 56 (base / 2 ^ 24 % 2 ^ 8)
            (sub64 size 1 + base % 2 ^ 24 * 2 ^ 16 + 0x89 * 2 ^ 40) (omega arith)
        ∙ omega arith
