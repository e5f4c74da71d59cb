-- ===== src/Mm/Vmm/Access.antt =====
-- The C program's reads and writes through a pointer, which the processor translates by the page
-- tables. `none` is a page fault. Words are aligned to 8 bytes.
use ki_os.Base.{ℕ, ◌+◌, ◌-◌, ◌*◌, ◌/◌, ◌%◌, ◌^◌, Option, some, none, ◌==◌, if◌then◌else◌, ◌>>=◌}
use ki_os.Mm.Vmm.{Machine, store, virt_to_phys}

-- `*ptr = value` of a `uint64_t*`.
unfoldable pub store64 : (virt value : ℕ) → Machine → Option Machine
store64 virt value m = do
  phys ← virt_to_phys virt m
  if phys == 0 then none else some (record m { mem = store m.mem phys value })

-- `*ptr` of a `uint64_t*`.
unfoldable pub load64 : (virt : ℕ) → Machine → Option ℕ
load64 virt m = do phys ← virt_to_phys virt m; if phys == 0 then none else some (m.mem phys)

-- Byte `k` of a word.
abbrev pub word_byte : (w k : ℕ) → ℕ
word_byte w k = w / 2 ^ (8 * k) % 256

abbrev pub set_byte : (w k v : ℕ) → ℕ
set_byte w k v = w + v * 2 ^ (8 * k) - word_byte w k * 2 ^ (8 * k)

-- `*ptr = value` and `*ptr` of a `uint8_t*`.
unfoldable pub store8 : (virt value : ℕ) → Machine → Option Machine
store8 virt value m = do
  phys ← virt_to_phys virt m
  if phys == 0
      then none
      else some (record m {
        mem = store m.mem (phys / 8 * 8) (set_byte (m.mem (phys / 8 * 8)) (phys % 8) value);
      })

unfoldable pub load8 : (virt : ℕ) → Machine → Option ℕ
load8 virt m = do
  phys ← virt_to_phys virt m
  if phys == 0 then none else some (word_byte (m.mem (phys / 8 * 8)) (phys % 8))
