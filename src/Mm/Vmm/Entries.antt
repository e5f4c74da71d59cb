-- ===== src/Mm/Vmm/Entries.antt =====
-- The bits of a page table entry, and the loop that clears a new table.
use ki_os.Base.{
  ℕ, zero, suc, ◌+◌, ◌-◌, ◌*◌, ◌/◌, ◌%◌, ◌^◌, ◌<◌, ◌≡◌, refl, ◌≢◌, true, inl, inr, arith, bit_or,
  Bool-cases, ==_self, ==_ne,
}
use ki_os.Base.Bits.{
  bit_or-zero, bit_or_digit, bit_or_page, bit_and-one, bit_and_high_fields, bit_and_low_mask,
}
use ki_os.Mm.Vmm.{page_present, page_user, table_of, has, parent_flags, store, clear}
use ki_os.Mm.Vmm.Lookup.{child}

pub table_of_value : (e : ℕ) → table_of e ≡ e / 4096 % 2 ^ 52 * 4096
table_of_value e = ground (
  arith,
  bit_and_high_fields 12 (e / 4096) (e % 4096) (2 ^ 52 - 1),
  bit_and_low_mask 52 (e / 4096),
)

bit_or_user : (e : ℕ) → bit_or e page_user ≡ e / 8 * 8 + 4 + e % 4
bit_or_user e = omega (
  arith,
  bit_or_digit e 4,
  bit_or_digit (e / 2) 2,
  bit_or_digit (e / 2 / 2) 1,
  bit_or-zero (e / 2 / 2 / 2),
)

-- Setting PAGE_USER in an entry keeps the table that it points to.
pub child_user :
    (mem : ℕ → ℕ) (slot : ℕ)
    → child (store mem slot (bit_or (mem slot) page_user)) slot ≡ child mem slot
child_user mem slot =
    rw
      (
        ==_self slot,
        table_of_value (bit_or (mem slot) page_user),
        table_of_value (mem slot),
        bit_and-one (bit_or (mem slot) page_user),
        bit_and-one (mem slot),
        bit_or_user (mem slot),
      )
      (ground arith)

new_parent :
    (page f : ℕ)
    → page < 2 ^ 52
    → f < 4096
    → f % 2 ≡ 1
    → (has (bit_or (page * 4096) f) page_present ≡ true)
      × (table_of (bit_or (page * 4096) f) ≡ page * 4096)
new_parent page f hp hf odd =
    rw (bit_or_page page f hf, table_of_value (page * 4096 + f), bit_and-one (page * 4096 + f))
      (ground arith, omega arith)

-- The entry for a new table is present and points to it.
pub parent_entry :
    (page flags : ℕ)
    → page < 2 ^ 52
    → (has (bit_or (page * 4096) (parent_flags flags)) page_present ≡ true)
      × (table_of (bit_or (page * 4096) (parent_flags flags)) ≡ page * 4096)
parent_entry page flags h = elim (Bool-cases (has flags page_user)) [
  | inl user ↦ rw user (new_parent page 7 h (omega arith) (omega arith))
  | inr kernel ↦ rw kernel (new_parent page 3 h (omega arith) (omega arith))
]

-- `clear` sets the entries of the table to 0, and no word outside it.
pub clear_zero : (table n i : ℕ) (mem : ℕ → ℕ) → i < n → clear table n mem (table + 8 * i) ≡ 0
unfolding clear
clear_zero table zero i mem h = absurd (omega arith)
clear_zero table (suc n) i mem h = ground (arith, clear_zero table n i mem)

pub clear_outside :
    (table n x : ℕ) (mem : ℕ → ℕ)
    → ((i : ℕ) → i < n → x ≢ table + 8 * i)
    → clear table n mem x ≡ mem x
unfolding clear
clear_outside table zero x mem h = refl
clear_outside table (suc n) x mem h =
    rw (==_ne x (table + 8 * n) (h n (omega arith)))
      (clear_outside table n x mem (λ i lt. h i (omega arith)))
