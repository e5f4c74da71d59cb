-- ===== src/Mm/Pmm.antt =====
-- kernel/mm/pmm.c: the physical page allocator, a bitmap with one bit for each 4 KiB page.
-- `none` is an access outside the bitmap, which C leaves undefined.
pub mod View
pub mod Range
pub mod Init
pub mod Alloc
pub mod Trace
pub mod Sample
mod Tests
use ki_os.Base.{
  ℕ, zero, suc, ◌+◌, ◌-◌, ◌*◌, ◌/◌, ◌%◌, ◌^◌, bit_and, bit_or, Bool, not, Option, none, some, List,
  [], ◌∷◌, ltb, ◌==◌, if◌then◌else◌, ◌>>=◌, get_elem?, set, replicate, add64, sub64, u64,
}
use ki_os.Base.Bits.{has_bit}

-- `memory_map_entry_t`; `kind` is its field `type`, and 1 stands for usable memory.
pub record MapEntry : Type 0 where
  pub base : ℕ
  pub length : ℕ
  pub kind : ℕ

-- The addresses of the linker's `__kernel_start` and `__kernel_end`.
pub record Image : Type 0 where
  pub kernel_start : ℕ
  pub kernel_end : ℕ

-- The static variables of pmm.c; the bytes behind `bitmap` stand for the pointer.
pub record Pmm : Type 0 where
  pub bitmap : List ℕ
  pub total_pages : ℕ
  pub used_pages : ℕ

abbrev pub page_size : ℕ
page_size = 4096

-- `if (!(bitmap[byte] & bit)) { bitmap[byte] |= bit; used_pages++; }`
unfoldable pub reserve_page : ℕ → Pmm → Option Pmm
reserve_page p s = do
  b ← get_elem? s.bitmap (p / 8)
  some (
      if not (has_bit b (p % 8))
      then record s {
        bitmap = set s.bitmap (p / 8) (bit_or b (2 ^ (p % 8)));
        used_pages = add64 s.used_pages 1;
      }
      else s)

-- `if (bitmap[byte] & bit) { bitmap[byte] &= ~bit; used_pages--; }`
unfoldable pub release_page : ℕ → Pmm → Option Pmm
release_page p s = do
  b ← get_elem? s.bitmap (p / 8)
  some (
      if has_bit b (p % 8)
      then record s {
        bitmap = set s.bitmap (p / 8) (bit_and b (255 - 2 ^ (p % 8)));
        used_pages = sub64 s.used_pages 1;
      }
      else s)

-- `for (p = first; …; p++) op(p)` with `left` rounds to go.
pub for_pages : (ℕ → Pmm → Option Pmm) → ℕ → ℕ → Pmm → Option Pmm
for_pages op zero p s = some s
for_pages op (suc left) p s = do s' ← op p s; for_pages op left (p + 1) s'

-- The highest end of an entry; the sum wraps.
pub max_addr : List MapEntry → ℕ → ℕ
max_addr [] m = m
max_addr (e ∷ es) m =
    max_addr es (if ltb m (add64 e.base e.length) then add64 e.base e.length else m)

-- The loop that frees the whole pages of the usable entries.
pub release_regions : List MapEntry → Pmm → Option Pmm
release_regions [] s = some s
release_regions (e ∷ es) s = do
  s' ←
      if not (e.kind == 1)
      then some s
      else for_pages release_page (e.length / page_size) (e.base / page_size) s
  release_regions es s'

-- `x & ~(PAGE_SIZE - 1)` after `x + PAGE_SIZE - 1`; the mask is an `int` and is sign-extended.
abbrev pub bitmap_addr : Image → ℕ
bitmap_addr k = bit_and (sub64 (add64 k.kernel_end page_size) 1) (2 ^ 64 - page_size)

abbrev pub bitmap_size : ℕ → ℕ
bitmap_size total = (total + 7) / 8

-- One past the last page of the bitmap, rounded up.
abbrev pub end_page : Image → ℕ → ℕ
end_page k total = sub64 (add64 (add64 (bitmap_addr k) (bitmap_size total)) page_size) 1 / page_size

-- The first loop of `pmm_init` sets every byte of the bitmap to 0xFF.
abbrev pub all_used : ℕ → Pmm
all_used total = record {
  bitmap = replicate (bitmap_size total) 0xFF;
  total_pages = total;
  used_pages = total;
}

-- `pmm_init`.
pub init : List MapEntry → Image → Option Pmm
unfolding max_addr release_regions for_pages reserve_page release_page
init entries k =
    let total = max_addr entries 0 / page_size in
    let start_page = k.kernel_start / page_size in
    do
      s₁ ← release_regions entries (all_used total)
      s₂ ← for_pages reserve_page (0x100000 / page_size) 0 s₁
      for_pages reserve_page (end_page k total - start_page) start_page s₂

-- `pmm_alloc_page` from page `i` with `left` pages to go: the address, 0 if no page is free.
pub alloc_from : ℕ → ℕ → Pmm → Option (ℕ × Pmm)
alloc_from zero i s = some (0, s)
alloc_from (suc left) i s =
    let rest = alloc_from left (i + 1) s in
    do
      b ← get_elem? s.bitmap (i / 8)
      if not (has_bit b (i % 8))
          then some (
            u64 (i * page_size),
            record s {
              bitmap = set s.bitmap (i / 8) (bit_or b (2 ^ (i % 8)));
              used_pages = add64 s.used_pages 1;
            },
          )
          else rest

pub alloc_page : Pmm → Option (ℕ × Pmm)
unfolding alloc_from
alloc_page s = alloc_from s.total_pages 0 s

pub free_page : ℕ → Pmm → Option Pmm
unfolding release_page
free_page phys s = release_page (phys / page_size) s
