-- ===== src/Text/Copies.antt =====
-- Copies in memory: memmove of overlapping blocks, and the byte that strncpy writes too many.
use ki_os.Base.{
  ℕ, zero, suc, ◌+◌, ◌-◌, ◌≤◌, ◌<◌, ◌≡◌, ◌≢◌, ◌⊎◌, inl, inr, refl, ap, ap₂, ==_ne, sym, ◌∙◌, true,
  arith, ltb, ◌==◌, Bool-cases, u8,
}
use ki_os.Mm.Vmm.{store}
use ki_os.Text.{memset, memcpy, copy_back, memmove, copy_string, strncpy}

-- The address is not one of the `n` from `a` on.
abbrev pub Outside : (a n q : ℕ) → Type 0
Outside a n q = (q < a) ⊎ (a + n ≤ q)

store_ne : (mem : ℕ → ℕ) (a v q : ℕ) → a ≢ q → store mem a v q ≡ mem q
store_ne mem a v q h = ground arith

store_at : (mem : ℕ → ℕ) (a v q : ℕ) → a ≡ q → store mem a v q ≡ v
store_at mem a v q h = ground arith

memset-other : (a v n q : ℕ) (mem : ℕ → ℕ) → Outside a n q → memset a v n mem q ≡ mem q
unfolding memset
memset-other a v zero q mem out = refl
memset-other a v (suc n) q mem out = memset-other (a + 1) v n q _ (ground arith) ∙ ground arith

memset-inside : (a v n i : ℕ) (mem : ℕ → ℕ) → i < n → memset a v n mem (a + i) ≡ u8 v
unfolding memset
memset-inside a v zero i mem h = absurd (omega arith)
memset-inside a v (suc n) zero mem h =
    memset-other (a + 1) v n (a + 0) _ (inl (omega arith)) ∙ ground arith
memset-inside a v (suc n) (suc i) mem h =
    ap (memset (a + 1) v n (store mem a (u8 v))) (omega arith)
    ∙ memset-inside (a + 1) v n i _ (omega arith)

-- memset sets exactly the `n` bytes from `a` on.
pub memset_lem :
    (a v n q : ℕ) (mem : ℕ → ℕ)
    → ((q < a) ⊎ (a + n ≤ q)) × (memset a v n mem q ≡ mem q)
      ⊎ (i : ℕ) × (i < n) × (q ≡ a + i) × (memset a v n mem q ≡ u8 v)
memset_lem a v n q mem = elim (Bool-cases (ltb q a)) [
  | inl under ↦ inl (inl (ground arith), memset-other a v n q mem (inl (ground arith)))
  | inr from ↦ elim (Bool-cases (ltb q (a + n))) [
    | inl within ↦ inr (
      q - a,
      ground arith,
      ground arith,
      ap (memset a v n mem) (ground arith) ∙ memset-inside a v n (q - a) mem (ground arith),
    )
    | inr over ↦ inl (inr (ground arith), memset-other a v n q mem (inr (ground arith)))
  ]
]

memcpy-other : (d s n q : ℕ) (mem : ℕ → ℕ) → Outside d n q → memcpy d s n mem q ≡ mem q
unfolding memcpy
memcpy-other d s zero q mem out = refl
memcpy-other d s (suc n) q mem out =
    memcpy-other (d + 1) (s + 1) n q _ (ground arith) ∙ ground arith

-- Forwards, from a source above the destination or past its end.
memcpy-copied :
    (d s n i : ℕ) (mem : ℕ → ℕ)
    → (d < s) ⊎ (s + n ≤ d)
    → i < n
    → memcpy d s n mem (d + i) ≡ mem (s + i)
unfolding memcpy
memcpy-copied d s zero i mem apart h = absurd (omega arith)
memcpy-copied d s (suc n) zero mem apart h =
    memcpy-other (d + 1) (s + 1) n (d + 0) _ (inl (omega arith))
    ∙ store_at mem d (mem s) (d + 0) (omega arith)
    ∙ ap mem (omega arith)
memcpy-copied d s (suc n) (suc i) mem apart h =
    ap (memcpy (d + 1) (s + 1) n (store mem d (mem s))) (omega arith)
    ∙ memcpy-copied (d + 1) (s + 1) n i _ (ground arith) (omega arith)
    ∙ store_ne mem d (mem s) (s + 1 + i) (λ e. absurd (ground arith))
    ∙ ap mem (omega arith)

copy_back-other : (d s n q : ℕ) (mem : ℕ → ℕ) → Outside d n q → copy_back d s n mem q ≡ mem q
unfolding copy_back
copy_back-other d s zero q mem out = refl
copy_back-other d s (suc n) q mem out = copy_back-other d s n q _ (ground arith) ∙ ground arith

-- Backwards, from a source at or below the destination.
copy_back-copied :
    (d s n i : ℕ) (mem : ℕ → ℕ) → s ≤ d → i < n → copy_back d s n mem (d + i) ≡ mem (s + i)
unfolding copy_back
copy_back-copied d s zero i mem le h = absurd (omega arith)
copy_back-copied d s (suc n) i mem le h = elim (Bool-cases (i == n)) [
  | inl last ↦ copy_back-other d s n (d + i) _ (inr (ground arith)) ∙ ground arith
  | inr earlier ↦
      copy_back-copied d s n i _ le (ground arith)
      ∙ store_ne mem (d + n) (mem (s + n)) (s + i) (λ e. absurd (ground arith))
]

-- memmove moves `n` bytes, however the two blocks overlap: each byte of the destination is what its
-- byte of the source was before, and every other byte of memory stays.
pub memmove_lem :
    (d s n : ℕ) (mem : ℕ → ℕ)
    → ((i : ℕ) → i < n → memmove d s n mem (d + i) ≡ mem (s + i))
      × ((q : ℕ) → Outside d n q → memmove d s n mem q ≡ mem q)
unfolding memmove
memmove_lem d s n mem = elim (Bool-cases (ltb d s)) [
  | inl forwards ↦ rw forwards (
    λ i h. memcpy-copied d s n i mem (inl (ground arith)) h,
    λ q out. memcpy-other d s n q mem out,
  )
  | inr backwards ↦ rw backwards (
    λ i h. copy_back-copied d s n i mem (ground arith) h,
    λ q out. copy_back-other d s n q mem out,
  )
]

-- The bytes from `src` on are a string of length `l`, apart from the `n + 1` bytes from `dest` on.
pub record IsSource (dest src n l : ℕ) (mem : ℕ → ℕ) : Type 0 where
  pub characters : (i : ℕ) → i < l → mem (src + i) ≢ 0
  pub terminator : mem (src + l) ≡ 0
  pub apart : (dest + n < src) ⊎ (src + l < dest)

after_one :
    {dest src n l : ℕ} {mem : ℕ → ℕ}
    → IsSource dest src (suc n) (suc l) mem
    → IsSource (dest + 1) (src + 1) n l (store mem dest (mem src))
after_one {dest} {src} {n} {l} {mem} h = record {
  characters = λ i lt e. h.characters (suc i) (omega arith) (
      ap mem {y = src + 1 + i} (omega arith)
      ∙ sym (store_ne mem dest (mem src) (src + 1 + i) (λ q. absurd (ground (arith, h.apart))))
      ∙ e);
  terminator =
      store_ne mem dest (mem src) (src + 1 + l) (λ q. absurd (ground (arith, h.apart)))
      ∙ ap mem {y = src + suc l} (omega arith)
      ∙ h.terminator;
  apart = ground (arith, h.apart);
}

copy_string_lem :
    (dest src n l : ℕ) (mem : ℕ → ℕ)
    → IsSource dest src n l mem
    → l < n
    → copy_string dest src n mem ≡ (n - l, dest + l + 1, memcpy dest src (suc l) mem)
unfolding copy_string memcpy
copy_string_lem dest src zero l mem h lt = absurd (omega arith)
copy_string_lem dest src (suc n) zero mem h lt =
    let ends : (mem src == 0) ≡ true =
      rw (ap mem {x = src} {y = src + 0} (omega arith) ∙ h.terminator) refl in
    rw (ends) (ap₂ (λ a b. (a, b, store mem dest (mem src))) (omega arith) (omega arith))
copy_string_lem dest src (suc n) (suc l) mem h lt =
    rw
      (==_ne (mem src) 0
        (λ e. h.characters 0 (omega arith) (ap mem {x = src + 0} (omega arith) ∙ e)))
      (copy_string_lem (dest + 1) (src + 1) n l _ (after_one h) (omega arith)
        ∙ ap₂ (λ a b. (a, b, memcpy (dest + 1) (src + 1) (suc l) (store mem dest (mem src))))
            (omega arith) (omega arith))

-- Where the source is a string shorter than `n`, apart from the destination and the byte after it,
-- strncpy copies its characters and fills with zeros not only the rest of the `n` bytes but one
-- byte past them; other bytes stay.
pub strncpy-overruns :
    (dest src n l : ℕ) (mem : ℕ → ℕ)
    → IsSource dest src n l mem
    → l < n
    → ((i : ℕ) → i < l → strncpy dest src n mem (dest + i) ≡ mem (src + i))
      × ((i : ℕ) → l ≤ i → i ≤ n → strncpy dest src n mem (dest + i) ≡ 0)
      × ((q : ℕ) → Outside dest (n + 1) q → strncpy dest src n mem q ≡ mem q)
unfolding strncpy
strncpy-overruns dest src n l mem h lt = rw (copy_string_lem dest src n l mem h lt) (
  λ i lo.
      memset-other (dest + l + 1) 0 (n - l) (dest + i) _ (inl (omega arith))
      ∙ copied i (omega arith),
  λ i lo hi. elim (Bool-cases (i == l)) [
    | inl end ↦
        memset-other (dest + l + 1) 0 (n - l) (dest + i) _ (inl (ground arith))
        ∙ copied i (ground arith)
        ∙ ap mem {y = src + l} (ground arith)
        ∙ h.terminator
    | inr past ↦
        ap (memset (dest + l + 1) 0 (n - l) (memcpy dest src (suc l) mem))
          {y = dest + l + 1 + (i - l - 1)} (ground arith)
        ∙ memset-inside (dest + l + 1) 0 (n - l) (i - l - 1) _ (ground arith)
  ],
  λ q out.
      memset-other (dest + l + 1) 0 (n - l) q _ (ground arith)
      ∙ memcpy-other dest src (suc l) q mem (ground arith),
)
  where
    copied : (i : ℕ) → i < suc l → memcpy dest src (suc l) mem (dest + i) ≡ mem (src + i)
    copied i lo = memcpy-copied dest src (suc l) i mem (ground (arith, h.apart)) lo
