-- ===== src/Mm/Vmm/Sample.antt =====
-- A machine with 128 pages, the tables of levels 4 to 1 in pages 1 to 4, and one page mapped.
use ki_os.Base.{
  ℕ, none, ◌+◌, ◌/◌, ◌%◌, ◌<◌, ◌≢◌, ap, ◌≡◌, refl, [], ◌∷◌, arith, ◌==◌, if◌then◌else◌, true, some,
}
use ki_os.Base.Tally.{tally}
use ki_os.Mm.Pmm.View.{IsValid, page_used}
use ki_os.Base.Bits.{all_below, all_below_sound}
use ki_os.Mm.Vmm.{Machine, has, page_present, table_of}
use ki_os.Mm.Vmm.Lookup.{child}
use ki_os.Mm.Vmm.Tree.{IsTree, Area}
use native.Mathlib.Decide.{ℕ_discrete}

abbrev pub sample : Machine
sample = record {
  pmm = record {
    bitmap = 0x3F ∷ 0 ∷ 0 ∷ 0 ∷ 0 ∷ 0 ∷ 0 ∷ 0 ∷ 0 ∷ 0 ∷ 0 ∷ 0 ∷ 0 ∷ 0 ∷ 0 ∷ 0 ∷ [];
    total_pages = 128;
    used_pages = 6;
  };
  mem = λ a.
      if a == 0x1000
      then 0x2003
      else if a == 0x2000
      then 0x3003
      else if a == 0x3000
      then 0x4003
      else if a == 0x4000
      then 0x5003
      else 0;
  pml4 = 0x1000;
}

abbrev pub sample_level : ℕ → ℕ
sample_level p =
    if p == 1 then 4 else if p == 2 then 3 else if p == 3 then 2 else if p == 4 then 1 else 0

-- All of the address space.
abbrev pub sample_area : Area
sample_area = record { root_table = 0x1000; first = 0 }

sample_used : IsValid sample.pmm
unfolding tally
sample_used = record {
  bytes = omega arith;
  covers = omega arith;
  small = omega arith;
  counted = refl;
}

in_use : (p : ℕ) → p < 6 → page_used sample.pmm p ≡ true
unfolding all_below
in_use p h = all_below_sound 6 (page_used sample.pmm) p refl h

-- The three pointers, each to the next page.
pointer :
    (x c : ℕ)
    → 1 < sample_level (x / 4096)
    → child sample.mem x ≡ some c
    → (c ≡ x + 0x1000) × (x % 4096 ≡ 0) × (0 < x) × (x < 0x4000)
pointer x c h e = elim (ℕ_discrete x 0x1000) [
  | yes root ↦ at 0x1000 root refl (omega arith)
  | no ne₁ ↦ elim (ℕ_discrete x 0x2000) [
    | yes second ↦ at 0x2000 second refl (omega arith)
    | no ne₂ ↦ elim (ℕ_discrete x 0x3000) [
      | yes third ↦ at 0x3000 third refl (omega arith)
      | no ne₃ ↦ elim (ℕ_discrete x 0x4000) [
        | yes leaf ↦ absurd (omega (arith, h, ap (λ (y : ℕ). sample_level (y / 4096)) leaf))
        | no ne₄ ↦ absurd (nothing (zero_entry ne₁ ne₂ ne₃ ne₄))
      ]
    ]
  ]
]
  where
    at :
        (n : ℕ)
        → x ≡ n
        → child sample.mem n ≡ some (n + 0x1000)
        → (n % 4096 ≡ 0) × (0 < n) × (n < 0x4000)
        → (c ≡ x + 0x1000) × (x % 4096 ≡ 0) × (0 < x) × (x < 0x4000)
    at n same there bounds =
        let both : c ≡ n + 0x1000 = ground (arith, e, there, ap (child sample.mem) same) in
        omega (arith, same, both, bounds)

    zero_entry : x ≢ 0x1000 → x ≢ 0x2000 → x ≢ 0x3000 → x ≢ 0x4000 → sample.mem x ≡ 0
    zero_entry a b d f = ground arith

    nothing : sample.mem x ≡ 0 → ⊥
    nothing z = cc (e, ap (λ v. if has v page_present then some (table_of v) else none) z)

pub sample-IsTree : IsTree sample_area sample_level sample
sample-IsTree = record {
  valid = sample_used;
  low = refl;
  at_root = refl;
  root = (refl, refl);
  used = λ p h. in_use p (ground arith);
  down = λ x c a h e. let w = pointer x c h e in ground (arith, w);
  single = λ x y c hx hy ex ey. omega (arith, pointer x c hx.1 ex, pointer y c hy.1 ey);
}
