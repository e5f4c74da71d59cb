-- ===== src/Text.antt =====
-- kernel/string.h: memory and strings. `mem` holds bytes by address; a string is the bytes before
-- its terminator, none of which is 0.
pub mod Copies
pub mod Compare
mod Tests
use ki_os.Base.{
  ℕ, zero, suc, ◌+◌, ◌-◌, ◌%◌, ◌^◌, Bool, true, false, List, [], ◌∷◌, ltb, ◌==◌, if◌then◌else◌,
  length, u8,
}
use ki_os.Mm.Vmm.{store}

-- The difference of two characters as an `int`.
abbrev pub char_diff : ℕ → ℕ → ℕ
char_diff a b = (a + 2 ^ 32 - b) % 2 ^ 32

-- `strlen`
pub strlen : List ℕ → ℕ
strlen [] = 0
strlen (c ∷ cs) = strlen cs + 1

-- `strcmp`
pub strcmp : List ℕ → List ℕ → ℕ
strcmp [] [] = char_diff 0 0
strcmp [] (b ∷ t) = char_diff 0 b
strcmp (a ∷ s) [] = char_diff a 0
strcmp (a ∷ s) (b ∷ t) = let rest = strcmp s t in if a == b then rest else char_diff a b

-- `strncmp`
pub strncmp : List ℕ → List ℕ → ℕ → ℕ
strncmp s t zero = 0
strncmp [] [] (suc n) = char_diff 0 0
strncmp [] (b ∷ t) (suc n) = char_diff 0 b
strncmp (a ∷ s) [] (suc n) = char_diff a 0
strncmp (a ∷ s) (b ∷ t) (suc n) = let rest = strncmp s t n in if a == b then rest else char_diff a b

-- `memset`
pub memset : (dest val count : ℕ) → (ℕ → ℕ) → ℕ → ℕ
memset dest val zero mem = mem
memset dest val (suc count) mem = memset (dest + 1) val count (store mem dest (u8 val))

-- `memcpy`, and the loop of `memmove` that copies forwards.
pub memcpy : (dest src count : ℕ) → (ℕ → ℕ) → ℕ → ℕ
memcpy dest src zero mem = mem
memcpy dest src (suc count) mem = memcpy (dest + 1) (src + 1) count (store mem dest (mem src))

-- The loop of `memmove` that copies backwards.
pub copy_back : (dest src count : ℕ) → (ℕ → ℕ) → ℕ → ℕ
copy_back dest src zero mem = mem
copy_back dest src (suc count) mem =
    copy_back dest src count (store mem (dest + count) (mem (src + count)))

-- `memmove`
pub memmove : (dest src n : ℕ) → (ℕ → ℕ) → ℕ → ℕ
unfolding memcpy copy_back
memmove dest src n mem = if ltb dest src then memcpy dest src n mem else copy_back dest src n mem

-- `memcmp`
pub memcmp : (p1 p2 n : ℕ) → (ℕ → ℕ) → ℕ
memcmp p1 p2 zero mem = 0
memcmp p1 p2 (suc n) mem =
    let rest = memcmp (p1 + 1) (p2 + 1) n mem in
    if mem p1 == mem p2 then rest else char_diff (mem p1) (mem p2)

-- The first loop of `strncpy`: how many rounds `n` is left with, where it writes next, the memory.
pub copy_string : (dest src n : ℕ) → (ℕ → ℕ) → ℕ × ℕ × (ℕ → ℕ)
copy_string dest src zero mem = (0, dest, mem)
copy_string dest src (suc n) mem =
    let rest = copy_string (dest + 1) (src + 1) n (store mem dest (mem src)) in
    if mem src == 0 then (suc n, dest + 1, store mem dest (mem src)) else rest

-- `strncpy`: the byte that ends the first loop is not counted.
pub strncpy : (dest src n : ℕ) → (ℕ → ℕ) → ℕ → ℕ
unfolding copy_string memset
strncpy dest src n mem =
    let (left, next, mem') = copy_string dest src n mem in memset next 0 left mem'
