-- ===== src/Text/Tests.antt =====
-- Memory in which the byte at each address from 100 on is the address's last digit in base 256, but
-- for a 0 at 103.
use ki_os.Base.{ℕ, ◌+◌, ◌%◌, ◌≡◌, ◌<◌, ◌≤◌, inr, refl, arith, ◌==◌, if◌then◌else◌}
use ki_os.Text.{memmove, strncpy}
use ki_os.Text.Copies.{Outside, IsSource, memmove_lem, strncpy-overruns}

abbrev mem : ℕ → ℕ
mem a = if a == 103 then 0 else 1 + a % 255

memmove_lem_example :
    ((i : ℕ) → i < 5 → memmove 102 100 5 mem (102 + i) ≡ mem (100 + i))
    × ((q : ℕ) → Outside 102 5 q → memmove 102 100 5 mem q ≡ mem q)
memmove_lem_example = memmove_lem 102 100 5 mem

source : IsSource 200 100 8 3 mem
source = record {
  characters = λ i lt e. absurd (ground (arith, e));
  terminator = refl;
  apart = inr (omega arith);
}

strncpy-overruns_example :
    ((i : ℕ) → i < 3 → strncpy 200 100 8 mem (200 + i) ≡ mem (100 + i))
    × ((i : ℕ) → 3 ≤ i → i ≤ 8 → strncpy 200 100 8 mem (200 + i) ≡ 0)
    × ((q : ℕ) → Outside 200 9 q → strncpy 200 100 8 mem q ≡ mem q)
strncpy-overruns_example = strncpy-overruns 200 100 8 3 mem source (omega arith)
