-- ===== src/Text/Compare.antt =====
-- Comparisons of strings decide equality.
use ki_os.Base.{
  ℕ, zero, suc, ◌+◌, ◌≤◌, ◌<◌, ◌≡◌, ◌↔◌, refl, ap, ap₂, sym, ◌∙◌, List, [], ◌∷◌, All, arith, ◌==◌,
  if◌then◌else◌, length, take, Bool-cases, ==_iff, inl, inr,
}
use ki_os.Text.{char_diff, strlen, strcmp, strncmp}

-- A byte of a string.
abbrev pub IsChar : ℕ → Type 0
IsChar c = (0 < c) × (c < 256)

pub strlen-length : (s : List ℕ) → strlen s ≡ length s
unfolding strlen
strlen-length [] = refl
strlen-length (c ∷ cs) = omega (arith, strlen-length cs)

strncmp_self : (s : List ℕ) (n : ℕ) → strncmp s s n ≡ 0
unfolding strncmp
strncmp_self s zero = refl
strncmp_self [] (suc n) = refl
strncmp_self (a ∷ s) (suc n) = ground (arith, strncmp_self s n)

-- strncmp of two strings is 0 exactly if their first `n` characters are the same.
pub strncmp_iff :
    (s t : List ℕ) (n : ℕ)
    → All IsChar s
    → All IsChar t
    → (strncmp s t n ≡ 0) ↔ (take n s ≡ take n t)
unfolding strncmp
strncmp_iff s t zero hs ht = (λ e. refl, λ e. refl)
strncmp_iff [] [] (suc n) hs ht = (λ e. refl, λ e. refl)
strncmp_iff [] (b ∷ t) (suc n) hs ht = (λ e. absurd (omega (arith, ht.0)), λ e. absurd (cc))
strncmp_iff (a ∷ s) [] (suc n) hs ht = (λ e. absurd (omega (arith, hs.0)), λ e. absurd (cc))
strncmp_iff (a ∷ s) (b ∷ t) (suc n) hs ht = elim (Bool-cases (a == b)) [
  | inl same ↦ rw same (
    λ e. ap₂ ◌∷◌ ((==_iff a b).0 same) ((strncmp_iff s t n hs.1 ht.1).0 e),
    λ e. (strncmp_iff s t n hs.1 ht.1).1 (ap tail e),
  )
  | inr differ ↦
      rw differ (λ e. absurd (ground (arith, hs.0, ht.0)), λ e. absurd (ground (arith, ap head e)))
]
  where
    head : List ℕ → ℕ
    head [] = 0
    head (x ∷ xs) = x

    tail : List ℕ → List ℕ
    tail [] = []
    tail (x ∷ xs) = xs

strcmp_long :
    (s t : List ℕ) (n : ℕ) → length s ≤ n → length t ≤ n → strcmp s t ≡ strncmp s t (suc n)
unfolding strcmp strncmp
strcmp_long [] [] n hs ht = refl
strcmp_long [] (b ∷ t) n hs ht = refl
strcmp_long (a ∷ s) [] n hs ht = refl
strcmp_long (a ∷ s) (b ∷ t) zero hs ht = absurd (omega arith)
strcmp_long (a ∷ s) (b ∷ t) (suc n) hs ht =
    ap (λ r. if a == b then r else char_diff a b) (strcmp_long s t n (omega arith) (omega arith))

pub take_all : (n : ℕ) (s : List ℕ) → length s ≤ n → take n s ≡ s
take_all zero [] h = refl
take_all zero (x ∷ s) h = absurd (omega arith)
take_all (suc n) [] h = refl
take_all (suc n) (x ∷ s) h = ap (λ l. x ∷ l) (take_all n s (omega arith))

-- strcmp of two strings of bytes other than 0 is 0 exactly if they are the same.
pub strcmp_iff : (s t : List ℕ) → All IsChar s → All IsChar t → (strcmp s t ≡ 0) ↔ (s ≡ t)
strcmp_iff s t hs ht =
    let n = length s + length t in
    let long = strcmp_long s t n (omega arith) (omega arith) in
    let both = strncmp_iff s t (suc n) hs ht in
    (
      λ e.
          sym (take_all (suc n) s (omega arith))
          ∙ both.0 (sym long ∙ e)
          ∙ take_all (suc n) t (omega arith),
      λ e. long ∙ both.1 (ap (take (suc n)) e),
    )
