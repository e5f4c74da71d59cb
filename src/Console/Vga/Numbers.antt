-- ===== src/Console/Vga/Numbers.antt =====
-- The numbers that vga_print_dec prints.
pub mod Hex
use ki_os.Base.{
  ℕ, zero, suc, ◌+◌, ◌-◌, ◌*◌, ◌/◌, ◌^◌, ◌≤◌, ◌<◌, ◌≡◌, ◌≢◌, ◌⊎◌, inl, inr, refl, ap, sym, ◌∙◌,
  bit_and, ◌%◌, List, [], ◌∷◌, All, arith, ltb, leb, ◌==◌, if◌then◌else◌, length, Bool-cases, ==_ne,
  some, true,
}
use ki_os.Base.Bits.{bit_and_low_mask}
use native.Mathlib.Nat.{pow-suc}
use native.Mathlib.Decide.{ℕ_discrete}
use ki_os.Console.Vga.{
  Screen, putchar, put_back, print_dec, dec_digits, hex_char, hex_digits, skip_zeros, print_hex,
  print,
}

-- The number that decimal digits denote, the highest first, after `acc`.
pub decimal : ℕ → List ℕ → ℕ
decimal acc [] = acc
decimal acc (d ∷ ds) = decimal (acc * 10 + (d - b'0')) ds

abbrev pub IsDigit : ℕ → Type 0
IsDigit d = (b'0' ≤ d) × (d ≤ b'9')

-- The digits in the order in which they are put back.
flip : List ℕ → List ℕ → List ℕ
flip [] acc = acc
flip (d ∷ ds) acc = flip ds (d ∷ acc)

print-flip : (ds acc : List ℕ) (s : Screen) → print (flip ds acc) s ≡ print acc (put_back ds s)
unfolding flip put_back print
print-flip [] acc s = refl
print-flip (d ∷ ds) acc s = print-flip ds (d ∷ acc) s

All-flip : (ds acc : List ℕ) → All IsDigit ds → All IsDigit acc → All IsDigit (flip ds acc)
unfolding flip
All-flip [] acc h k = k
All-flip (d ∷ ds) acc h k = All-flip ds (d ∷ acc) h.1 (h.0, k)

length-flip : (ds acc : List ℕ) → length (flip ds acc) ≡ length ds + length acc
unfolding flip
length-flip [] acc = omega arith
length-flip (d ∷ ds) acc = omega (arith, length-flip ds (d ∷ acc))

dec_digits_value :
    (fuel v : ℕ) (acc : List ℕ)
    → v < 10 ^ fuel
    → decimal 0 (flip (dec_digits fuel v) acc) ≡ decimal v acc
unfolding decimal dec_digits flip
dec_digits_value zero v acc h = ap (λ n. decimal n acc) {x = 0} {y = v} (omega arith)
dec_digits_value (suc fuel) v acc h = elim (Bool-cases (ltb 0 v)) [
  | inl some_left ↦ rw some_left (
      dec_digits_value fuel (v / 10) ((b'0' + v % 10) ∷ acc) (omega (arith, pow-suc 10 fuel))
      ∙ ap (λ n. decimal n acc) {x = v / 10 * 10 + (b'0' + v % 10 - b'0')} {y = v} (omega arith))
  | inr done ↦ rw done (ap (λ n. decimal n acc) {x = 0} {y = v} (ground arith))
]

dec_digits_digits :
    (fuel v : ℕ) → All IsDigit (dec_digits fuel v) × (length (dec_digits fuel v) ≤ fuel)
unfolding dec_digits
dec_digits_digits zero v = (tt, omega arith)
dec_digits_digits (suc fuel) v = elim (Bool-cases (ltb 0 v)) [
  | inl some_left ↦ rw some_left (
    ((omega arith, omega arith), (dec_digits_digits fuel (v / 10)).0),
    omega (arith, (dec_digits_digits fuel (v / 10)).1),
  )
  | inr done ↦ rw done (tt, omega arith)
]

-- A list of digits that begins with another one than 0.
abbrev Leads : List ℕ → Type 0
Leads cs = (d : ℕ) × (ds : List ℕ) × (cs ≡ d ∷ ds) × (d ≢ b'0')

dec_digits_zero : (fuel : ℕ) → dec_digits fuel 0 ≡ []
unfolding dec_digits
dec_digits_zero zero = refl
dec_digits_zero (suc fuel) = refl

dec_digits-Leads :
    (fuel v : ℕ) (acc : List ℕ) → v ≢ 0 → v < 10 ^ fuel → Leads (flip (dec_digits fuel v) acc)
unfolding dec_digits flip
dec_digits-Leads zero v acc ne h = absurd (omega arith)
dec_digits-Leads (suc fuel) v acc ne h = rw (positive v ne) (elim (ℕ_discrete (v / 10) 0) [
  | yes last ↦ rw (last, dec_digits_zero fuel) (b'0' + v % 10, acc, refl, omega (arith, last, ne))
  | no more ↦
      dec_digits-Leads fuel (v / 10) ((b'0' + v % 10) ∷ acc) more (omega (arith, pow-suc 10 fuel))
])
  where
    positive : (v : ℕ) → v ≢ 0 → ltb 0 v ≡ true
    positive v ne = ground arith

-- No digits but a single one begin with 0.
pub NoLeadingZero : List ℕ → Type 0
NoLeadingZero [] = Unit
NoLeadingZero (c ∷ []) = Unit
NoLeadingZero (c ∷ d ∷ cs) = c ≢ b'0'

Leads-NoLeadingZero : (cs : List ℕ) → Leads cs → NoLeadingZero cs × (0 < length cs)
unfolding NoLeadingZero
Leads-NoLeadingZero [] (d, ds, e, ne) = absurd (cc e)
Leads-NoLeadingZero (c ∷ []) (d, ds, e, ne) = (tt, omega arith)
Leads-NoLeadingZero (c ∷ c' ∷ cs) (d, ds, e, ne) = (λ z. ne (ground (arith, e, z)), omega arith)

-- A text of 1 to 20 decimal digits without leading zeros.
pub record Digits (ds : List ℕ) : Type 0 where
  pub digits : All IsDigit ds
  pub some_digit : 0 < length ds
  pub few : length ds ≤ 20
  pub short : NoLeadingZero ds

magnitude : ℕ → List ℕ
magnitude v = flip (dec_digits 20 v) []

magnitude-Digits : (v : ℕ) → v ≢ 0 → v ≤ 2 ^ 63 → Digits (magnitude v)
unfolding magnitude
magnitude-Digits v ne h =
    let (short, filled) =
      Leads-NoLeadingZero (flip (dec_digits 20 v) []) (dec_digits-Leads 20 v [] ne (omega arith)) in
    record {
      digits = All-flip (dec_digits 20 v) [] (dec_digits_digits 20 v).0 tt;
      some_digit = filled;
      few = omega (arith, length-flip (dec_digits 20 v) [], (dec_digits_digits 20 v).1);
      short = short;
    }

magnitude_value : (v : ℕ) → v ≤ 2 ^ 63 → decimal 0 (magnitude v) ≡ v
unfolding magnitude decimal
magnitude_value v h = dec_digits_value 20 v [] (omega arith)

zero_digit : Digits (b'0' ∷ [])
unfolding NoLeadingZero
zero_digit = record {
  digits = ((omega arith, omega arith), tt);
  some_digit = omega arith;
  few = omega arith;
  short = tt;
}

-- For a 64-bit value other than the least int64_t, vga_print_dec prints, from left to right, 1 to 20
-- decimal digits without leading zeros, which denote the value if it is not negative; if it is
-- negative, they follow a minus sign and denote its magnitude.
pub print_dec_lem :
    (v : ℕ) (s : Screen)
    → v ≢ 2 ^ 63
    → v < 2 ^ 64
    → (ds : List ℕ) × Digits ds
      × (((v < 2 ^ 63) × (decimal 0 ds ≡ v) × (print_dec v s ≡ some (print ds s)))
          ⊎ ((2 ^ 63 < v)
              × (decimal 0 ds + v ≡ 2 ^ 64)
              × (print_dec v s ≡ some (print (b'-' ∷ ds) s))))
unfolding print_dec magnitude print decimal
print_dec_lem v s defined fits = elim (Bool-cases (ltb (2 ^ 63) v)) [
  | inl negative ↦ (
    magnitude (2 ^ 64 - v),
    magnitude-Digits (2 ^ 64 - v) (λ e. absurd (ground arith)) (ground arith),
    inr (
      ground arith,
      omega (arith, magnitude_value (2 ^ 64 - v) (ground arith), fits),
      rw (==_ne v (2 ^ 63) defined, negative, ==_ne (2 ^ 64 - v) 0 (λ e. absurd (ground arith)))
          (ap some (sym (print-flip (dec_digits 20 (2 ^ 64 - v)) [] (putchar b'-' s)))),
    ),
  )
  | inr positive ↦ elim (ℕ_discrete v 0) [
    | yes z ↦ (b'0' ∷ [], zero_digit, inl (omega arith, sym z, rw z refl))
    | no ne ↦ (
      magnitude v,
      magnitude-Digits v ne (ground arith),
      inl (
        ground (arith, defined),
        magnitude_value v (ground arith),
        rw (==_ne v (2 ^ 63) defined, positive, ==_ne v 0 ne)
            (ap some (sym (print-flip (dec_digits 20 v) [] s))),
      ),
    )
  ]
]
