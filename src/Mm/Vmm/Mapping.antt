-- ===== src/Mm/Vmm/Mapping.antt =====
-- vmm_map_page where the three tables above the entry are there already.
use ki_os.Base.{
  ℕ, ◌+◌, ◌*◌, ◌/◌, ◌%◌, ◌^◌, ◌<◌, ◌≡◌, ap, sym, ◌∙◌, true, false, none, some, arith, if◌then◌else◌,
  bit_and, bit_or, inl, inr, ==_self, Bool-cases,
}
use ki_os.Base.Bits.{bit_or-one, bit_and-one, bit_or_page, bit_and_page_mask, bit_and_low_mask}
use ki_os.Mm.Vmm.{
  Machine, page_present, page_user, pt_index, store, table_of, has, descend, get_pte_flags,
  map_page, virt_to_phys,
}
use ki_os.Mm.Vmm.Lookup.{child, Path3, entry_addr-store, virt_to_phys_lem}

-- The entry that `vmm_map_page` writes.
abbrev pub new_entry : (phys flags : ℕ) → ℕ
new_entry phys flags = bit_or (bit_or (table_of phys) flags) page_present

new_entry_value :
    (phys flags : ℕ)
    → phys < 2 ^ 64
    → flags < 4096
    → new_entry phys flags ≡ phys / 4096 * 4096 + (flags / 2 * 2 + 1)
new_entry_value phys flags hp hf =
    rw (bit_and_page_mask phys hp, bit_or_page (phys / 4096) flags hf, bit_or-one) (omega arith)

-- It is present, and its frame is the page of `phys`.
pub new_entry_frame :
    (phys flags : ℕ)
    → phys < 2 ^ 64
    → flags < 4096
    → (has (new_entry phys flags) page_present ≡ true)
      × (table_of (new_entry phys flags) ≡ phys / 4096 * 4096)
new_entry_frame phys flags hp hf = rw (new_entry_value phys flags hp hf) (
  rw bit_and-one (ground arith),
  omega (arith, bit_and_page_mask (phys / 4096 * 4096 + (flags / 2 * 2 + 1)) (omega arith)),
)

module _ (m : Machine) (virt : ℕ) {pt : ℕ} (w : Path3 m.mem m.pml4 virt pt) (flags : ℕ)
    (kernel : has flags page_user ≡ false) where
  descend_present :
      (slot : ℕ) {t : ℕ} → child m.mem slot ≡ some t → descend slot true flags m ≡ some (some t, m)
  unfolding descend
  descend_present slot e = elim (Bool-cases (has (m.mem slot) page_present)) [
    | inl here ↦
        rw (here, kernel)
          (ap (λ o. some (o, m))
            (ap (λ b. if b then some (table_of (m.mem slot)) else none) {x = true} (sym here) ∙ e))
    | inr missing ↦
        absurd (cc (e, ap (λ b. if b then some (table_of (m.mem slot)) else none) missing))
  ]

  get_pte_present : get_pte_flags virt true flags m ≡ some (some (pt + 8 * pt_index virt), m)
  unfolding get_pte_flags
  get_pte_present =
      rw (descend_present _ w.first, descend_present _ w.second, descend_present _ w.third)

  -- Where the tables are there and none of their entries on the way is the entry itself, mapping a
  -- page at a 64-bit physical address, with 12 bits of flags and without PAGE_USER, succeeds, and
  -- then the address translates to its offset in that page.
  pub virt_to_phys-map_page :
      (phys : ℕ)
      → phys < 2 ^ 64
      → flags < 4096
      → (m' : Machine) × (map_page virt phys flags m ≡ some (true, m'))
        × (virt_to_phys virt m' ≡ some (phys / 4096 * 4096 + virt % 4096))
  unfolding map_page
  virt_to_phys-map_page phys hp hf = (
    record m { mem = store m.mem (pt + 8 * pt_index virt) (new_entry phys flags) },
    rw get_pte_present,
    virt_to_phys_lem virt _
        ∙ ap some (
            rw
              (
                entry_addr-store w (new_entry phys flags),
                ==_self (pt + 8 * pt_index virt),
                (new_entry_frame phys flags hp hf).0,
                (new_entry_frame phys flags hp hf).1,
              )
              offset),
  )
    where
      offset : bit_or (phys / 4096 * 4096) (bit_and virt 0xFFF) ≡ phys / 4096 * 4096 + virt % 4096
      offset = rw (bit_and_low_mask 12 virt) (bit_or_page (phys / 4096) (virt % 4096) (omega arith))
