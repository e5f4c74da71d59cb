-- ===== src/Mm/Vmm/Hardware.antt =====
-- vmm_virt_to_phys against the processor's own translation of an address.
use ki_os.Base.{
  ℕ, ◌+◌, ◌*◌, ◌/◌, ◌%◌, ◌^◌, ◌<◌, ◌≡◌, ◌⊎◌, inl, inr, refl, ap, Bool, true, false, Option, none,
  some, ◌==◌, if◌then◌else◌, bit_and, bit_or, arith, Bool-cases,
}
use ki_os.Base.Bits.{bit_and_low_mask, bit_and-one, bit_or_page}
use ki_os.Mm.Vmm.{Machine, table_of, has, page_present, virt_to_phys}
use ki_os.Mm.Vmm.Entries.{table_of_value}
use ki_os.Mm.Vmm.Lookup.{virt_to_phys_lem}

-- The frame in bits 12 to 51 of an entry, and the bits 0 and 7.
abbrev frame : ℕ → ℕ
frame e = e / 4096 % 2 ^ 40 * 4096

abbrev absent : ℕ → Bool
absent e = e % 2 == 0

abbrev large : ℕ → Bool
large e = e / 128 % 2 == 1

module _ (mem : ℕ → ℕ) (cr3 virt : ℕ) where
  -- The entries of the four levels.
  abbrev pub pml4_entry : ℕ
  pml4_entry = mem (cr3 + 8 * (virt / 2 ^ 39 % 512))

  abbrev pub pdpt_entry : ℕ
  pdpt_entry = mem (frame pml4_entry + 8 * (virt / 2 ^ 30 % 512))

  abbrev pub pd_entry : ℕ
  pd_entry = mem (frame pdpt_entry + 8 * (virt / 2 ^ 21 % 512))

  abbrev pub pt_entry : ℕ
  pt_entry = mem (frame pd_entry + 8 * (virt / 2 ^ 12 % 512))

  -- The processor's translation, with pages of 1 GiB, 2 MiB and 4 KiB; `none` is a page fault.
  pub hardware_walk : Option ℕ
  hardware_walk =
      if absent pml4_entry
      then none
      else if absent pdpt_entry
      then none
      else if large pdpt_entry
      then some (pdpt_entry / 2 ^ 30 % 2 ^ 22 * 2 ^ 30 + virt % 2 ^ 30)
      else if absent pd_entry
      then none
      else if large pd_entry
      then some (pd_entry / 2 ^ 21 % 2 ^ 31 * 2 ^ 21 + virt % 2 ^ 21)
      else if absent pt_entry
      then none
      else some (frame pt_entry + virt % 4096)

  -- The entries on the way have no bits from 52 on, and the two that may stand for a large page do
  -- not.
  pub record IsPlain : Type 0 where
    pub pml4_small : pml4_entry < 2 ^ 52
    pub pdpt_small : pdpt_entry < 2 ^ 52
    pub pd_small : pd_entry < 2 ^ 52
    pub pt_small : pt_entry < 2 ^ 52
    pub pdpt_table : large pdpt_entry ≡ false
    pub pd_table : large pd_entry ≡ false

index_value : (a : ℕ) → bit_and a 0x1FF ≡ a % 512
index_value a = bit_and_low_mask 9 a

no_bit_zero : (e : ℕ) → absent e ≡ true → has e page_present ≡ false
no_bit_zero e h = ground (arith, bit_and-one e, h)

has_bit_zero : (e : ℕ) → absent e ≡ false → has e page_present ≡ true
has_bit_zero e h = ground (arith, bit_and-one e, h)

table_of_frame : (e : ℕ) → e < 2 ^ 52 → table_of e ≡ frame e
table_of_frame e h = omega (arith, table_of_value e)

page_of :
    (e virt : ℕ) → e < 2 ^ 52 → bit_or (table_of e) (bit_and virt 0xFFF) ≡ frame e + virt % 4096
page_of e virt h =
    rw (table_of_frame e h, bit_and_low_mask 12 virt)
      (bit_or_page (e / 4096 % 2 ^ 40) (virt % 4096) (omega arith))

-- Where the four entries of an address have no bits from 52 on and none of the two middle ones stands
-- for a large page, vmm_virt_to_phys gives the address that the processor translates it to, or 0 where
-- the translation is a page fault.
pub virt_to_phys-hardware :
    (virt : ℕ) (m : Machine)
    → IsPlain m.mem m.pml4 virt
    → ((hardware_walk m.mem m.pml4 virt ≡ none) × (virt_to_phys virt m ≡ some 0))
      ⊎ ((x : ℕ) × (hardware_walk m.mem m.pml4 virt ≡ some x) × (virt_to_phys virt m ≡ some x))
unfolding hardware_walk
virt_to_phys-hardware virt m p =
    let e₄ = pml4_entry m.mem m.pml4 virt in
    let e₃ = pdpt_entry m.mem m.pml4 virt in
    let e₂ = pd_entry m.mem m.pml4 virt in
    let e₁ = pt_entry m.mem m.pml4 virt in
    rw virt_to_phys_lem (
      rw
        (
          index_value (virt / 2 ^ 39),
          index_value (virt / 2 ^ 30),
          index_value (virt / 2 ^ 21),
          index_value (virt / 2 ^ 12),
        )
        (elim (Bool-cases (absent e₄)) [
          | inl none₄ ↦ rw (no_bit_zero e₄ none₄, none₄) (inl (refl, refl))
          | inr some₄ ↦
              rw (has_bit_zero e₄ some₄, some₄, table_of_frame e₄ p.pml4_small)
                (elim (Bool-cases (absent e₃)) [
                  | inl none₃ ↦ rw (no_bit_zero e₃ none₃, none₃) (inl (refl, refl))
                  | inr some₃ ↦
                      rw
                        (has_bit_zero e₃ some₃, some₃, p.pdpt_table, table_of_frame e₃ p.pdpt_small)
                        (elim (Bool-cases (absent e₂)) [
                          | inl none₂ ↦ rw (no_bit_zero e₂ none₂, none₂) (inl (refl, refl))
                          | inr some₂ ↦
                              rw
                                (
                                  has_bit_zero e₂ some₂,
                                  some₂,
                                  p.pd_table,
                                  table_of_frame e₂ p.pd_small,
                                )
                                (elim (Bool-cases (absent e₁)) [
                                  | inl none₁ ↦ rw (no_bit_zero e₁ none₁, none₁) (inl (refl, refl))
                                  | inr some₁ ↦
                                      rw (has_bit_zero e₁ some₁, some₁)
                                        (inr (
                                          frame e₁ + virt % 4096,
                                          refl,
                                          ap some (page_of e₁ virt p.pt_small),
                                        ))
                                ])
                        ])
                ])
        ]))
