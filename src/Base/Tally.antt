-- ===== src/Base/Tally.antt =====
-- How many numbers below a bound pass a test, and how a change of the test at one place counts.
use Prim.Native.Nat.{ℕ, zero, suc, ◌+◌, ◌<◌, ◌≤◌}
use mathlib.Core.Path.{◌≡◌, refl}
use mathlib.Core.Bool.{Bool, true, false}
use native.Mathlib.Omega.{arith}
use native.Mathlib.Decide.{ℕ_discrete}
use ki_os.Base.Bools.{if◌then◌else◌, ◌==◌}

unfoldable pub tally : (ℕ → Bool) → ℕ → ℕ
tally f zero = 0
tally f (suc n) = tally f n + (if f n then 1 else 0)

pub tally-le : (f : ℕ → Bool) (n : ℕ) → tally f n ≤ n
unfolding tally
tally-le f zero = omega arith
tally-le f (suc n) = ground (arith, tally-le f n)

pub tally_ext : (f g : ℕ → Bool) (n : ℕ) → ((i : ℕ) → i < n → f i ≡ g i) → tally f n ≡ tally g n
unfolding tally
tally_ext f g zero h = refl
tally_ext f g (suc n) h =
    ground (arith, tally_ext f g n (λ i lt. h i (omega arith)), h n (omega arith))

pub tally_all : (f : ℕ → Bool) (n : ℕ) → ((i : ℕ) → i < n → f i ≡ true) → tally f n ≡ n
unfolding tally
tally_all f zero h = refl
tally_all f (suc n) h = ground (arith, tally_all f n (λ i lt. h i (omega arith)), h n (omega arith))

-- One more passes where `g` is `f` but for a new `true` at `k`.
pub tally_gain :
    (f g : ℕ → Bool) (k n : ℕ)
    → k < n
    → f k ≡ false
    → ((j : ℕ) → g j ≡ (if k == j then true else f j))
    → tally g n ≡ tally f n + 1
unfolding tally
tally_gain f g k zero h e same = absurd (omega arith)
tally_gain f g k (suc n) h e same = elim (ℕ_discrete k n) [
  | yes p ↦ ground (arith, same n, tally_ext g f n (λ j lt. ground (arith, same j)))
  | no p ↦ ground (arith, same n, tally_gain f g k n (omega arith) e same)
]
