-- ===== src/Mm/Vmm.antt =====
-- kernel/mm/vmm.h and kernel/mm/vmm.c: four-level page tables.
-- `mem` is physical memory in words of 8 bytes, read and written at the physical address, as the
-- boot loader's identity mapping of the first gigabyte lets the kernel do. Fences and TLB flushes
-- have no effect on it. `none` is a fault of the page allocator.

pub mod Lookup
pub mod Hardware
pub mod Mapping
pub mod Entries
pub mod Tree
pub mod Keeps
pub mod Leaf
pub mod Data
pub mod Link
pub mod Grow
pub mod Walk
pub mod Mapped
pub mod Sample
pub mod Access
mod Tests
use ki_os.Base.{
  ℕ, zero, suc, ◌+◌, ◌-◌, ◌*◌, ◌/◌, ◌%◌, ◌^◌, bit_and, bit_or, Bool, true, false, not, ◌&&◌, ◌||◌,
  Option, none, some, ◌==◌, if◌then◌else◌, ◌>>=◌,
}
use ki_os.Mm.Pmm.{Pmm, alloc_page}

pub record Machine : Type 0 where
  pub pmm : Pmm
  pub mem : ℕ → ℕ
  pub pml4 : ℕ

abbrev pub page_present : ℕ
page_present = 1

abbrev pub page_write : ℕ
page_write = 2

abbrev pub page_user : ℕ
page_user = 4

-- `(addr >> 39) & 0x1FF` and so on.
abbrev pub pml4_index : ℕ → ℕ
pml4_index addr = bit_and (addr / 2 ^ 39) 0x1FF

abbrev pub pdpt_index : ℕ → ℕ
pdpt_index addr = bit_and (addr / 2 ^ 30) 0x1FF

abbrev pub pd_index : ℕ → ℕ
pd_index addr = bit_and (addr / 2 ^ 21) 0x1FF

abbrev pub pt_index : ℕ → ℕ
pt_index addr = bit_and (addr / 2 ^ 12) 0x1FF

abbrev pub store : (ℕ → ℕ) → ℕ → ℕ → ℕ → ℕ
store mem a v b = if b == a then v else mem b

-- `entry & ~0xFFF`
abbrev pub table_of : ℕ → ℕ
table_of entry = bit_and entry (2 ^ 64 - 4096)

abbrev pub has : ℕ → ℕ → Bool
has entry flag = not (bit_and entry flag == 0)

-- The loop that clears a new table, `n` entries of it.
pub clear : ℕ → ℕ → (ℕ → ℕ) → ℕ → ℕ
clear table zero mem = mem
clear table (suc n) mem = store (clear table n mem) (table + 8 * n) 0

-- `PAGE_PRESENT | PAGE_WRITE`, with `PAGE_USER` for a user mapping.
abbrev pub parent_flags : ℕ → ℕ
parent_flags flags =
    if has flags page_user
    then bit_or (bit_or page_present page_write) page_user
    else bit_or page_present page_write

-- One level of vmm_get_pte_flags: from the entry at `slot` to the table that it points to. A missing
-- table is created if `create` says so; the result has no table where the function returns 0.
pub descend : (slot : ℕ) → Bool → (flags : ℕ) → Machine → Option (Option ℕ × Machine)
descend slot create flags m =
    if not (has (m.mem slot) page_present)
    then (if not create then some (none, m) else do
      (page, p) ← alloc_page m.pmm
      some (
          if page == 0
          then (none, record m { pmm = p })
          else let mem = store (clear page 512 m.mem) slot (bit_or page (parent_flags flags)) in
            (some (table_of (mem slot)), record m { pmm = p; mem = mem })))
    else let mem =
        if has flags page_user && not (has (m.mem slot) page_user)
        then store m.mem slot (bit_or (m.mem slot) page_user)
        else m.mem in
      some (some (table_of (mem slot)), record m { mem = mem })

-- The next level, if there is a table.
abbrev pub below :
    (ℕ → Machine → Option (Option ℕ × Machine)) → Option ℕ × Machine → Option (Option ℕ × Machine)
below f (none, m) = some (none, m)
below f (some table, m) = f table m

-- `vmm_get_pte_flags`: the address of the page table entry.
pub get_pte_flags : (virt : ℕ) → Bool → (flags : ℕ) → Machine → Option (Option ℕ × Machine)
get_pte_flags virt create flags m = do
  r₁ ← descend (m.pml4 + 8 * pml4_index virt) create flags m
  r₂ ← below (λ pdpt. descend (pdpt + 8 * pdpt_index virt) create flags) r₁
  r₃ ← below (λ pd. descend (pd + 8 * pd_index virt) create flags) r₂
  below (λ pt m'. some (some (pt + 8 * pt_index virt), m')) r₃

-- `vmm_get_pte`
pub get_pte : (virt : ℕ) → Bool → Machine → Option (Option ℕ × Machine)
get_pte virt create m = get_pte_flags virt create 0 m

-- The write of `vmm_map_page`, and whether there was an entry to write.
abbrev pub write_entry : ℕ → Option ℕ × Machine → Bool × Machine
write_entry v (none, m) = (false, m)
write_entry v (some pte, m) = (true, record m { mem = store m.mem pte v })

-- `vmm_map_page`: false where it prints its error line.
pub map_page : (virt phys flags : ℕ) → Machine → Option (Bool × Machine)
map_page virt phys flags m = do
  r ← get_pte_flags virt true flags m
  some (write_entry (bit_or (bit_or (table_of phys) flags) page_present) r)

abbrev pub erase_entry : Option ℕ × Machine → Machine
erase_entry (none, m) = m
erase_entry (some pte, m) =
    if not (has (m.mem pte) page_present) then m else record m { mem = store m.mem pte 0 }

-- `vmm_unmap_page`
pub unmap_page : (virt : ℕ) → Machine → Option Machine
unmap_page virt m = do r ← get_pte virt false m; some (erase_entry r)

abbrev pub physical : (virt : ℕ) → Option ℕ × Machine → ℕ
physical virt (none, m) = 0
physical virt (some pte, m) =
    if not (has (m.mem pte) page_present)
    then 0
    else bit_or (table_of (m.mem pte)) (bit_and virt 0xFFF)

-- `vmm_virt_to_phys`: 0 for an address that is not mapped.
pub virt_to_phys : (virt : ℕ) → Machine → Option ℕ
virt_to_phys virt m = do r ← get_pte virt false m; some (physical virt r)
