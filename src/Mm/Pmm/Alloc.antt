-- ===== src/Mm/Pmm/Alloc.antt =====
-- pmm_alloc_page and pmm_free_page on a valid state.
use ki_os.Base.{
  ℕ, zero, suc, ◌+◌, ◌*◌, ◌/◌, ◌≤◌, ◌<◌, ◌≡◌, ◌≢◌, ◌⊎◌, inl, inr, refl, true, false, Option, some,
  arith, ◌>>=◌, Bool-cases, ap, ◌∙◌,
}
use ki_os.Base.Tally.{tally, tally_ext}
use ki_os.Mm.Pmm.{Pmm, alloc_from, alloc_page, release_page, free_page}
use ki_os.Mm.Pmm.View.{
  page_used, IsValid, Marks, loaded, stored, reserved, reserved-Marks, release_page-Marks,
}
use mathlib.Core.Path.{subst, sym}
use mathlib.Core.Logic.{◌↔◌}
use mathlib.Core.Bool.{false≢true}
use native.Mathlib.Decide.{ℕ_discrete}

-- A page found: the first free one from `i` on, returned by its address and now used.
pub record Found (i p : ℕ) (s t : Pmm) (r : Option (ℕ × Pmm)) : Type 0 where
  pub result : r ≡ some (p * 4096, t)
  pub managed : (i ≤ p) × (p < s.total_pages)
  pub was_free : page_used s p ≡ false
  pub first : (q : ℕ) → i ≤ q → q < p → page_used s q ≡ true
  pub marks : Marks true p s t

-- No page found: all are used, and the state is as before.
pub record Full (i : ℕ) (s : Pmm) (r : Option (ℕ × Pmm)) : Type 0 where
  pub result : r ≡ some (0, s)
  pub all : (q : ℕ) → i ≤ q → q < s.total_pages → page_used s q ≡ true

abbrev pub Outcome : ℕ → Pmm → Option (ℕ × Pmm) → Type 0
Outcome i s r = ((p : ℕ) × (t : Pmm) × Found i p s t r) ⊎ Full i s r

from_next :
    (i : ℕ) (s : Pmm) {r : Option (ℕ × Pmm)}
    → page_used s i ≡ true
    → Outcome (i + 1) s r
    → Outcome i s r
from_next i s used (inl (p, t, f)) = inl (
  p,
  t,
  record {
    result = f.result;
    managed = omega (arith, f.managed);
    was_free = f.was_free;
    first = λ q le lt. here_or q le (f.first q) lt;
    marks = f.marks;
  },
)
  where
    here_or :
        (q : ℕ) → i ≤ q → (i + 1 ≤ q → q < p → page_used s q ≡ true) → q < p → page_used s q ≡ true
    here_or q le rest lt = elim (ℕ_discrete i q) [
      | yes e ↦ rw (← e) used
      | no ne ↦ rest (omega arith) lt
    ]
from_next i s used (inr f) = inr (record {
  result = f.result;
  all =
      λ q le lt. elim (ℕ_discrete i q) [ yes e ↦ rw (← e) used | no ne ↦ f.all q (omega arith) lt ];
})

alloc_from-Outcome :
    (left i : ℕ) (s : Pmm)
    → IsValid s
    → i + left ≡ s.total_pages
    → Outcome i s (alloc_from left i s)
unfolding alloc_from reserved stored
alloc_from-Outcome zero i s valid e =
    inr (record { result = refl; all = λ q le lt. absurd (omega arith) })
alloc_from-Outcome (suc left) i s valid e = elim (Bool-cases (page_used s i)) [
  | inl used ↦
      rw (loaded valid i (omega arith), ◌>>=◌, used)
        (from_next i s used (alloc_from-Outcome left (i + 1) s valid (omega arith)))
  | inr free ↦ inl (
    i,
    reserved valid i (omega arith),
    record {
      result =
          rw (loaded valid i (omega arith), ◌>>=◌, free)
            (ap (λ a. some (a, reserved valid i (omega arith))) (omega (arith, valid.small)));
      managed = omega arith;
      was_free = free;
      first = λ q le lt. absurd (omega arith);
      marks = reserved-Marks valid i (omega arith) free;
    },
  )
]

-- On a valid state `pmm_alloc_page` takes the first free page below `total_pages`, returns its
-- address, and marks it and nothing else as used; if there is none it returns 0 and changes
-- nothing.
pub alloc_page_lem : (s : Pmm) → IsValid s → Outcome 0 s (alloc_page s)
unfolding alloc_page
alloc_page_lem s valid = alloc_from-Outcome s.total_pages 0 s valid (omega arith)

pub Found-of_some :
    {s t : Pmm} {a : ℕ}
    → IsValid s
    → alloc_page s ≡ some (a, t)
    → a ≢ 0
    → (p : ℕ) × (a ≡ p * 4096) × Found 0 p s t (alloc_page s)
Found-of_some {s} {t} {a} valid run some_page = split (alloc_page_lem s valid)
  where
    split : Outcome 0 s (alloc_page s) → (p : ℕ) × (a ≡ p * 4096) × Found 0 p s t (alloc_page s)
    split (inl (p, u, f)) =
        let same : t ≡ u = ground (arith, run, f.result) in
        (p, ground (arith, run, f.result), subst (λ x. Found 0 p s x (alloc_page s)) (sym same) f)
    split (inr f) = absurd (some_page (ground (arith, run, f.result)))

-- Where page 0 is in use, the address 0 means that no page is free, and only that.
pub alloc_page-zero_iff :
    {s t : Pmm} {a : ℕ}
    → IsValid s
    → page_used s 0 ≡ true
    → alloc_page s ≡ some (a, t)
    → (a ≡ 0) ↔ ((q : ℕ) → q < s.total_pages → page_used s q ≡ true)
alloc_page-zero_iff {s} {t} {a} valid low run = split (alloc_page_lem s valid)
  where
    split :
        Outcome 0 s (alloc_page s) → (a ≡ 0) ↔ ((q : ℕ) → q < s.total_pages → page_used s q ≡ true)
    split (inl (p, u, f)) = (
      λ e. absurd (false≢true (sym f.was_free ∙ rw (zero_page e) low)),
      λ all. absurd (false≢true (sym f.was_free ∙ all p f.managed.1)),
    )
      where
        zero_page : a ≡ 0 → p ≡ 0
        zero_page e = ground (arith, run, f.result)
    split (inr f) = (λ e q lt. f.all q (omega arith) lt, λ all. ground (arith, run, f.result))

-- On a valid state, freeing a page other than page 0 that `pmm_alloc_page` has just returned does
-- not fault, keeps the state valid, and gives back the set of used pages and the counter from
-- before.
pub free_page-alloc_page :
    {s t : Pmm} {a : ℕ}
    → IsValid s
    → alloc_page s ≡ some (a, t)
    → a ≢ 0
    → (u : Pmm) × (free_page a t ≡ some u)
      × IsValid u
      × ((j : ℕ) → page_used u j ≡ page_used s j)
      × (u.used_pages ≡ s.used_pages)
unfolding free_page
free_page-alloc_page {s} {t} {a} valid run some_page =
    let (p, e, f) = Found-of_some valid run some_page in
    let (u, freed, m) =
      release_page-Marks f.marks.valid p (omega (arith, f.managed, f.marks.total)) in
    let same : (j : ℕ) → page_used u j ≡ page_used s j =
      λ j. ground (arith, m.view j, f.marks.view j, f.was_free, ap (page_used s) {x = p} {y = j}) in
    (
      u,
      rw (page_of e) freed,
      m.valid,
      same,
      omega (
        arith,
        m.valid.counted,
        valid.counted,
        m.total,
        f.marks.total,
        tally_ext (page_used u) (page_used s) s.total_pages (λ j lt. same j),
        ap (tally (page_used u)) m.total,
        ap (tally (page_used u)) f.marks.total,
      ),
    )
  where
    page_of : {p : ℕ} → a ≡ p * 4096 → a / 4096 ≡ p
    page_of e = omega arith

-- Freeing a managed page marks this page, and no other, as free.
pub free_page-Marks :
    {s : Pmm}
    → IsValid s
    → (p : ℕ) → p < s.total_pages
    → (u : Pmm) × (free_page (p * 4096) s ≡ some u) × Marks false p s u
unfolding free_page
free_page-Marks {s} valid p within =
    let (u, freed, marks) = release_page-Marks valid p within in
    (u, ap (λ q. release_page q s) {x = p * 4096 / 4096} {y = p} (omega arith) ∙ freed, marks)
