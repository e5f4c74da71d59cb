-- ===== src/Base/Bits.antt =====
-- `&` and `|` as arithmetic: the lowest digit, low and high masks, disjoint fields, and single bits
-- of a byte.
use Prim.Native.Nat.{
  ℕ, zero, suc, ◌+◌, ◌-◌, ◌*◌, ◌/◌, ◌%◌, ◌^◌, ◌≤◌, ◌<◌, min, max, bit_and, bit_or, digits, bitwise,
  bit_and-bitwise, bit_or-bitwise,
}
use mathlib.Core.Path.{◌≡◌, refl, ap, sym, ◌∙◌}
use native.Mathlib.Decide.{ℕ_discrete}
use mathlib.Core.Bool.{Bool, true, false, not, ◌&&◌}
use native.Mathlib.Nat.{pow-suc, one-le-pow, div-add-mod}
use native.Mathlib.Omega.{arith}
use ki_os.Base.Bools.{ltb, ◌==◌, if◌then◌else◌}

-- The library defines the operations by a recursion on binary digits with fuel; fuel beyond the
-- first argument is spare.
module _ (base : ℕ → ℕ) (op : ℕ → ℕ → ℕ) where
  one_spare : (fuel x y : ℕ) → x ≤ fuel → digits base op (suc fuel) x y ≡ digits base op fuel x y
  one_spare zero zero y enough = refl
  one_spare (suc fuel) zero y enough = refl
  one_spare zero (suc x) y enough = absurd (omega arith)
  one_spare (suc fuel) (suc x) y enough = rw (one_spare fuel (suc x / 2) (y / 2) (omega arith))

  spare : (fuel x y : ℕ) → x ≤ fuel → digits base op fuel x y ≡ digits base op x x y
  spare zero x y enough = ap (λ n. digits base op n x y) {x = 0} (omega arith)
  spare (suc fuel) x y enough = elim (ℕ_discrete x (suc fuel)) [
    | yes full ↦ ap (λ n. digits base op n x y) (sym full)
    | no less ↦ one_spare fuel x y (omega arith) ∙ spare fuel x y (omega arith)
  ]

  bitwise_digit :
      (x y : ℕ)
      → bitwise base op (suc x) y ≡ bitwise base op (suc x / 2) (y / 2) * 2 + op (suc x % 2) (y % 2)
  bitwise_digit x y = omega (arith, spare x (suc x / 2) (y / 2) (omega arith))

pub bit_and_digit : (x y : ℕ) → bit_and x y ≡ min (x % 2) (y % 2) + 2 * bit_and (x / 2) (y / 2)
bit_and_digit zero y = simp bit_and-bitwise (omega arith)
bit_and_digit (suc x) y = simp bit_and-bitwise (omega (arith, bitwise_digit (λ digit. 0) min x y))

pub bit_or_digit : (x y : ℕ) → bit_or x y ≡ max (x % 2) (y % 2) + 2 * bit_or (x / 2) (y / 2)
bit_or_digit zero y = simp bit_or-bitwise (omega arith)
bit_or_digit (suc x) y = simp bit_or-bitwise (omega (arith, bitwise_digit (λ digit. digit) max x y))

-- With 0 on the right, for all numbers up to a bound.
right_zero : (bound x : ℕ) → x ≤ bound → (bit_and x 0 ≡ 0) × (bit_or x 0 ≡ x)
right_zero bound zero small = (refl, refl)
right_zero zero (suc x) small = absurd (omega arith)
right_zero (suc bound) (suc x) small =
    let (meets, joins) = right_zero bound (suc x / 2) (omega arith) in
    (omega (arith, bit_and_digit (suc x) 0, meets), omega (arith, bit_or_digit (suc x) 0, joins))

pub bit_and-zero : (x : ℕ) → bit_and x 0 ≡ 0
bit_and-zero x = (right_zero x x (omega arith)).0

pub bit_or-zero : (x : ℕ) → bit_or x 0 ≡ x
bit_or-zero x = (right_zero x x (omega arith)).1

times-two-pow : (q k : ℕ) → q * 2 ^ suc k ≡ 2 * (q * 2 ^ k)
times-two-pow q k = omega (arith, ap (λ (t : ℕ). q * t) (pow-suc 2 k))

bit_and_low_fields : (k q r : ℕ) → r < 2 ^ k → bit_and (q * 2 ^ k + r) (2 ^ k - 1) ≡ r
bit_and_low_fields zero q r fits = omega (arith, bit_and-zero (q * 1 + r))
bit_and_low_fields (suc k) q r fits = ground (
  arith,
  bit_and_digit (q * 2 ^ suc k + r) (2 ^ suc k - 1),
  times-two-pow q k,
  pow-suc 2 k,
  one-le-pow k 2,
  bit_and_low_fields k q (r / 2) (omega (arith, pow-suc 2 k)),
)

-- A mask of `k` low bits is the remainder by `2 ^ k`.
pub bit_and_low_mask : (k a : ℕ) → bit_and a (2 ^ k - 1) ≡ a % 2 ^ k
bit_and_low_mask k a =
    ground
      (arith, one-le-pow k 2, bit_and_low_fields k (a / 2 ^ k) (a % 2 ^ k), div-add-mod a (2 ^ k))

-- A mask above `k` zeros clears the low field and masks the high one.
pub bit_and_high_fields :
    (k q r m : ℕ) → r < 2 ^ k → bit_and (q * 2 ^ k + r) (m * 2 ^ k) ≡ bit_and q m * 2 ^ k
bit_and_high_fields zero q r m fits = ground (arith)
bit_and_high_fields (suc k) q r m fits = ground (
  arith,
  bit_and_digit (q * 2 ^ suc k + r) (m * 2 ^ suc k),
  times-two-pow q k,
  times-two-pow m k,
  times-two-pow (bit_and q m) k,
  bit_and_high_fields k q (r / 2) m (omega (arith, pow-suc 2 k)),
)

-- `a & ~0xFFF` of a `uint64_t` is the start of its page.
pub bit_and_page_mask : (a : ℕ) → a < 2 ^ 64 → bit_and a (2 ^ 64 - 4096) ≡ a / 4096 * 4096
bit_and_page_mask a h = ground (
  arith,
  bit_and_high_fields 12 (a / 4096) (a % 4096) (2 ^ 52 - 1),
  bit_and_low_mask 52 (a / 4096),
)

-- `(q << k) | r` is a sum where `r` fits `k` bits.
pub bit_or_disjoint : (k q r : ℕ) → r < 2 ^ k → bit_or (q * 2 ^ k) r ≡ q * 2 ^ k + r
bit_or_disjoint zero q r fits = ground (arith, bit_or-zero q)
bit_or_disjoint (suc k) q r fits = ground (
  arith,
  bit_or_digit (q * 2 ^ suc k) r,
  times-two-pow q k,
  bit_or_disjoint k q (r / 2) (omega (arith, pow-suc 2 k)),
)

-- Tests and updates of one bit of a byte, checked for every byte and pair of positions.
unfoldable pub all_below : ℕ → (ℕ → Bool) → Bool
all_below zero test = true
all_below (suc bound) test = all_below bound test && test bound

pub all_below_sound :
    (bound : ℕ) (test : ℕ → Bool) (x : ℕ) → all_below bound test ≡ true → x < bound → test x ≡ true
unfolding all_below
all_below_sound zero test x every inside = absurd (omega arith)
all_below_sound (suc bound) test x every inside = elim (ℕ_discrete x bound) [
  | yes last ↦ ground (arith, last)
  | no earlier ↦ all_below_sound bound test x (ground arith) (omega arith)
]

-- `b & (1 << k)`, as a truth value.
abbrev pub has_bit : ℕ → ℕ → Bool
has_bit b k = not (bit_and b (2 ^ k) == 0)

abbrev iff : Bool → Bool → Bool
iff true b = b
iff false b = not b

iff_eq : (a b : Bool) → iff a b ≡ true → a ≡ b
iff_eq a b h = ground arith

or_row : ℕ → ℕ → ℕ → Bool
or_row b k j =
    iff (has_bit (bit_or b (2 ^ k)) j) (if k == j then true else has_bit b j)
    && ltb (bit_or b (2 ^ k)) 256

and_row : ℕ → ℕ → ℕ → Bool
and_row b k j =
    iff (has_bit (bit_and b (255 - 2 ^ k)) j) (if k == j then false else has_bit b j)
    && ltb (bit_and b (255 - 2 ^ k)) 256

or_table : all_below 256 (λ b. all_below 8 (λ k. all_below 8 (or_row b k))) ≡ true
unfolding all_below or_row
or_table = refl

and_table : all_below 256 (λ b. all_below 8 (λ k. all_below 8 (and_row b k))) ≡ true
unfolding all_below and_row
and_table = refl

module _ (b k j : ℕ) (hb : b < 256) (hk : k < 8) (hj : j < 8) where
  or_entry : or_row b k j ≡ true
  or_entry =
      all_below_sound 8 (or_row b k) j
        (all_below_sound 8 (λ i. all_below 8 (or_row b i)) k
          (all_below_sound 256 (λ c. all_below 8 (λ i. all_below 8 (or_row c i))) b or_table hb) hk)
        hj

  and_entry : and_row b k j ≡ true
  and_entry =
      all_below_sound 8 (and_row b k) j
        (all_below_sound 8 (λ i. all_below 8 (and_row b i)) k
          (all_below_sound 256 (λ c. all_below 8 (λ i. all_below 8 (and_row c i))) b and_table hb)
          hk)
        hj

  pub has_bit-bit_or : has_bit (bit_or b (2 ^ k)) j ≡ (if k == j then true else has_bit b j)
  unfolding or_row
  has_bit-bit_or = iff_eq _ _ (ground (arith, or_entry))

  pub has_bit-bit_and :
      has_bit (bit_and b (255 - 2 ^ k)) j ≡ (if k == j then false else has_bit b j)
  unfolding and_row
  has_bit-bit_and = iff_eq _ _ (ground (arith, and_entry))

  pub bit_or_byte : bit_or b (2 ^ k) < 256
  unfolding or_row
  bit_or_byte = ground (arith, or_entry)

  pub bit_and_byte : bit_and b (255 - 2 ^ k) < 256
  unfolding and_row
  bit_and_byte = ground (arith, and_entry)

-- Every bit of 0xFF is set.
pub has_bit-full : (k : ℕ) → k < 8 → has_bit 255 k ≡ true
unfolding all_below
has_bit-full k h = all_below_sound 8 (has_bit 255) k refl h

-- `a & ~0xF` of a `uint64_t` rounds down to a multiple of 16.
pub bit_and_align_mask : (a : ℕ) → a < 2 ^ 64 → bit_and a (2 ^ 64 - 16) ≡ a / 16 * 16
bit_and_align_mask a h =
    ground
      (arith, bit_and_high_fields 4 (a / 16) (a % 16) (2 ^ 60 - 1), bit_and_low_mask 60 (a / 16))

pub bit_or-one : (a : ℕ) → bit_or a 1 ≡ a / 2 * 2 + 1
bit_or-one a = omega (arith, bit_or_digit a 1, bit_or-zero (a / 2))

pub bit_and-one : (a : ℕ) → bit_and a 1 ≡ a % 2
bit_and-one a = bit_and_low_mask 1 a

-- `page | flags` of a page address and page flags.
pub bit_or_page : (a f : ℕ) → f < 4096 → bit_or (a * 4096) f ≡ a * 4096 + f
bit_or_page a f h = bit_or_disjoint 12 a f h

bit_or_zero_left : (b : ℕ) → bit_or 0 b ≡ b
bit_or_zero_left b = simp bit_or-bitwise (omega arith)

-- `r | (q << k)` is a sum where `r` fits `k` bits.
pub bit_or_above : (k q r : ℕ) → r < 2 ^ k → bit_or r (q * 2 ^ k) ≡ r + q * 2 ^ k
bit_or_above zero q r fits = ground (arith, bit_or_zero_left q)
bit_or_above (suc k) q r fits = ground (
  arith,
  bit_or_digit r (q * 2 ^ suc k),
  times-two-pow q k,
  bit_or_above k q (r / 2) (omega (arith, pow-suc 2 k)),
)
