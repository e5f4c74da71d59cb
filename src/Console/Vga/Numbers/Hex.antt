-- ===== src/Console/Vga/Numbers/Hex.antt =====
-- The numbers that vga_print_hex prints.
use ki_os.Base.{
  ℕ, zero, suc, ◌+◌, ◌-◌, ◌*◌, ◌/◌, ◌^◌, ◌≤◌, ◌<◌, ◌≡◌, ◌⊎◌, inl, inr, refl, ap, ◌∙◌, bit_and, List,
  [], ◌∷◌, All, arith, ltb, leb, ◌==◌, if◌then◌else◌, length, Bool-cases,
}
use ki_os.Base.Bits.{bit_and_low_mask}
use native.Mathlib.Nat.{pow-suc}
use ki_os.Console.Vga.{Screen, hex_char, hex_digits, skip_zeros, print_hex, print}
use ki_os.Console.Vga.Numbers.{NoLeadingZero}

-- The number that hexadecimal digits denote, the highest first, after `acc`.
pub hex_value : ℕ → List ℕ → ℕ
hex_value acc [] = acc
hex_value acc (c ∷ cs) = hex_value (acc * 16 + (if leb c b'9' then c - b'0' else c - b'A' + 10)) cs

hex_value_eq : (a b : ℕ) (cs : List ℕ) → a ≡ b → hex_value a cs ≡ hex_value b cs
hex_value_eq a b cs e = ap (λ n. hex_value n cs) e

hex_char_value :
    (d : ℕ)
    → d < 16
    → (if leb (hex_char d) b'9' then hex_char d - b'0' else hex_char d - b'A' + 10) ≡ d
hex_char_value d h = ground arith

hex_digits_value :
    (n acc v : ℕ) (buf : List ℕ)
    → v < 16 ^ n
    → hex_value acc (hex_digits n v buf) ≡ hex_value (acc * 16 ^ n + v) buf
unfolding hex_value hex_digits
hex_digits_value zero acc v buf h = hex_value_eq acc (acc * 1 + v) buf (omega arith)
hex_digits_value (suc n) acc v buf h =
    hex_digits_value n acc (v / 16) (hex_char (bit_and v 0xF) ∷ buf) (omega (arith, pow-suc 16 n))
    ∙ hex_value_eq _ _ buf (
        omega (
          arith,
          times_sixteen,
          hex_char_value (bit_and v 0xF) (omega (arith, bit_and_low_mask 4 v)),
          bit_and_low_mask 4 v,
        ))
  where
    times_sixteen : acc * 16 ^ suc n ≡ 16 * (acc * 16 ^ n)
    times_sixteen = omega (arith, ap (λ (t : ℕ). acc * t) (pow-suc 16 n))

skip_zeros_value : (cs : List ℕ) → hex_value 0 (skip_zeros cs) ≡ hex_value 0 cs
unfolding hex_value skip_zeros
skip_zeros_value [] = refl
skip_zeros_value (c ∷ []) = refl
skip_zeros_value (c ∷ d ∷ cs) = elim (Bool-cases (c == b'0')) [
  | inl null ↦ rw null (skip_zeros_value (d ∷ cs) ∙ hex_value_eq 0 _ (d ∷ cs) (ground arith))
  | inr digit ↦ rw digit refl
]

skip_zeros-NoLeadingZero : (cs : List ℕ) → NoLeadingZero (skip_zeros cs)
unfolding NoLeadingZero skip_zeros
skip_zeros-NoLeadingZero [] = tt
skip_zeros-NoLeadingZero (c ∷ []) = tt
skip_zeros-NoLeadingZero (c ∷ d ∷ cs) = elim (Bool-cases (c == b'0')) [
  | inl null ↦ rw null (skip_zeros-NoLeadingZero (d ∷ cs))
  | inr digit ↦ rw digit (ground arith)
]

length-skip_zeros : (cs : List ℕ) → length (skip_zeros cs) ≤ length cs
unfolding skip_zeros
length-skip_zeros [] = omega arith
length-skip_zeros (c ∷ []) = omega arith
length-skip_zeros (c ∷ d ∷ cs) = ground (arith, length-skip_zeros (d ∷ cs))

length-hex_digits : (n v : ℕ) (buf : List ℕ) → length (hex_digits n v buf) ≡ n + length buf
unfolding hex_digits
length-hex_digits zero v buf = omega arith
length-hex_digits (suc n) v buf =
    omega (arith, length-hex_digits n (v / 16) (hex_char (bit_and v 0xF) ∷ buf))

abbrev pub IsHexDigit : ℕ → Type 0
IsHexDigit c = ((b'0' ≤ c) × (c ≤ b'9')) ⊎ ((b'A' ≤ c) × (c ≤ b'F'))

hex_char_digit : (d : ℕ) → d < 16 → IsHexDigit (hex_char d)
hex_char_digit d h = elim (Bool-cases (ltb d 10)) [
  | inl decimal ↦ rw decimal (inl (omega arith, ground arith))
  | inr letter ↦ rw letter (inr (omega arith, ground arith))
]

All-hex_digits : (n v : ℕ) (buf : List ℕ) → All IsHexDigit buf → All IsHexDigit (hex_digits n v buf)
unfolding hex_digits
All-hex_digits zero v buf h = h
All-hex_digits (suc n) v buf h =
    All-hex_digits n (v / 16) (hex_char (bit_and v 0xF) ∷ buf)
      (hex_char_digit (bit_and v 0xF) (omega (arith, bit_and_low_mask 4 v)), h)

All-skip_zeros : (cs : List ℕ) → All IsHexDigit cs → All IsHexDigit (skip_zeros cs)
unfolding skip_zeros
All-skip_zeros [] h = h
All-skip_zeros (c ∷ []) h = h
All-skip_zeros (c ∷ d ∷ cs) h = elim (Bool-cases (c == b'0')) [
  | inl null ↦ rw null (All-skip_zeros (d ∷ cs) h.1)
  | inr digit ↦ rw digit h
]

hex_end : (v : ℕ) → hex_value (0 * 16 ^ 16 + v) [] ≡ v
unfolding hex_value
hex_end v = omega arith

-- For a value below 2 ^ 64, vga_print_hex puts out "0x" and at most 16 hexadecimal digits that
-- denote the value, without leading zeros.
pub print_hex_lem :
    (v : ℕ) (s : Screen)
    → v < 2 ^ 64
    → (cs : List ℕ) × All IsHexDigit cs
      × (length cs ≤ 16)
      × (hex_value 0 cs ≡ v)
      × NoLeadingZero cs
      × (print_hex v s ≡ print cs (print (b'0' ∷ b'x' ∷ []) s))
unfolding print_hex
print_hex_lem v s h = (
  skip_zeros (hex_digits 16 v []),
  All-skip_zeros (hex_digits 16 v []) (All-hex_digits 16 v [] tt),
  omega (arith, length-skip_zeros (hex_digits 16 v []), length-hex_digits 16 v []),
  skip_zeros_value (hex_digits 16 v []) ∙ hex_digits_value 16 0 v [] (omega arith) ∙ hex_end v,
  skip_zeros-NoLeadingZero (hex_digits 16 v []),
  refl,
)
