-- ===== src/Mm/Pmm/Range.antt =====
-- The loops of pmm_init over pages.
use ki_os.Base.{
  ℕ, zero, suc, ◌+◌, ◌*◌, ◌%◌, ◌≢◌, ◌⊎◌, ==_ne, ◌/◌, ◌^◌, ◌≤◌, ◌<◌, ◌≡◌, refl, Bool, false, Option,
  some, List, [], ◌∷◌, arith, ltb, leb, ◌==◌, ◌&&◌, ◌||◌, if◌then◌else◌, ◌>>=◌, Bool-cases, add64,
  inl, inr, ◌∙◌,
}
use ki_os.Mm.Pmm.{MapEntry, Pmm, for_pages, max_addr, release_page, release_regions}
use ki_os.Mm.Pmm.View.{page_used, IsValid, Marks, release_page-Marks}

-- Page `j` is one of the `n` pages from `p`.
abbrev pub within : ℕ → ℕ → ℕ → Bool
within p n j = leb p j && ltb j (p + n)

-- `t` is `s` with the pages of the set `r` used, or free, as `v` says.
pub record Fills (v : Bool) (r : ℕ → Bool) (s t : Pmm) : Type 0 where
  pub valid : IsValid t
  pub view : (j : ℕ) → page_used t j ≡ (if r j then v else page_used s j)
  pub total : t.total_pages ≡ s.total_pages

abbrev pub Ends : (Pmm → Type 0) → Option Pmm → Type 0
Ends P r = (t : Pmm) × (r ≡ some t) × P t

module _ (v : Bool) (op : ℕ → Pmm → Option Pmm)
    (op_lem : (s : Pmm)
      → IsValid s
      → (p : ℕ) → p < s.total_pages
      → Ends (Marks v p s) (op p s)) where
  pub for_pages-Fills :
      (n p : ℕ) (s : Pmm)
      → IsValid s
      → p + n ≤ s.total_pages
      → Ends (Fills v (within p n) s) (for_pages op n p s)
  unfolding for_pages
  for_pages-Fills zero p s valid fits =
      (s, refl, record { valid = valid; view = λ j. ground arith; total = refl })
  for_pages-Fills (suc n) p s valid fits =
      let (t, run, m) = op_lem s valid p (omega arith) in
      let (u, rest, f) = for_pages-Fills n (p + 1) t m.valid (omega (arith, m.total)) in
      (
        u,
        rw (run, ◌>>=◌) rest,
        record {
          valid = f.valid;
          view = λ j. ground (arith, f.view j, m.view j);
          total = f.total ∙ m.total;
        },
      )

-- The loop that frees the pages reaches page `j`.
unfoldable pub released : List MapEntry → ℕ → Bool
released [] j = false
released (e ∷ es) j = (e.kind == 1) && within (e.base / 4096) (e.length / 4096) j || released es j

-- All the bytes of page `j` lie in one usable entry.
unfoldable pub usable : List MapEntry → ℕ → Bool
usable [] j = false
usable (e ∷ es) j =
    (e.kind == 1) && (leb e.base (j * 4096) && leb (j * 4096 + 4096) (e.base + e.length))
    || usable es j

-- Every usable entry begins at a page.
abbrev pub Aligned : List MapEntry → Type 0
Aligned [] = Unit {0}
Aligned (e ∷ es) = ((e.kind ≢ 1) ⊎ (e.base % 4096 ≡ 0)) × Aligned es

whole_pages :
    (base length j : ℕ)
    → base % 4096 ≡ 0
    → within (base / 4096) (length / 4096) j
      ≡ (leb base (j * 4096) && leb (j * 4096 + 4096) (base + length))
whole_pages base length j aligned = ground (arith, aligned)

-- Where the usable entries begin at a page, the loop reaches exactly their whole pages.
pub released-eq-usable : (es : List MapEntry) → Aligned es → (j : ℕ) → released es j ≡ usable es j
unfolding released usable
released-eq-usable [] a j = refl
released-eq-usable (e ∷ es) (inl other, a) j = rw (==_ne e.kind 1 other) (released-eq-usable es a j)
released-eq-usable (e ∷ es) (inr aligned, a) j =
    rw (whole_pages e.base e.length j aligned, released-eq-usable es a j) refl

-- Every entry is made of 64-bit numbers and ends below 2 ^ 64.
abbrev pub Fits : List MapEntry → Type 0
Fits [] = Unit {0}
Fits (e ∷ es) = (e.base + e.length < 2 ^ 64) × Fits es

-- Every entry ends at or below `m`.
abbrev pub Below : ℕ → List MapEntry → Type 0
Below m [] = Unit {0}
Below m (e ∷ es) = (e.base + e.length ≤ m) × Below m es

pub le-max_addr : (es : List MapEntry) (m : ℕ) → m ≤ max_addr es m
unfolding max_addr
le-max_addr [] m = omega arith
le-max_addr (e ∷ es) m = ground (arith, le-max_addr es m, le-max_addr es (add64 e.base e.length))

pub Below-max_addr : (es : List MapEntry) (m : ℕ) → Fits es → Below (max_addr es m) es
unfolding max_addr
Below-max_addr [] m f = tt
Below-max_addr (e ∷ es) m f = (
  ground (arith, le-max_addr es m, le-max_addr es (add64 e.base e.length)),
  Below-max_addr es _ f.1,
)

pub max_addr-lt : (es : List MapEntry) (m : ℕ) → m < 2 ^ 64 → max_addr es m < 2 ^ 64
unfolding max_addr
max_addr-lt [] m h = h
max_addr-lt (e ∷ es) m h = max_addr-lt es _ (ground arith)

-- The loop over the memory map frees the pages that it reaches and no others.
pub release_regions-Fills :
    (es : List MapEntry) (m : ℕ) (s : Pmm)
    → IsValid s
    → Below m es
    → m / 4096 ≤ s.total_pages
    → Ends (Fills false (released es) s) (release_regions es s)
unfolding release_regions released
release_regions-Fills [] m s valid below fits =
    (s, refl, record { valid = valid; view = λ j. refl; total = refl })
release_regions-Fills (e ∷ es) m s valid below fits = elim (Bool-cases (e.kind == 1)) [
  | inr other ↦
      let (u, run, f) = release_regions-Fills es m s valid below.1 fits in
      (
        u,
        rw (other, ◌>>=◌) run,
        record { valid = f.valid; view = λ j. ground (arith, f.view j); total = f.total },
      )
  | inl ram ↦
      let (t, first, g) =
        for_pages-Fills false release_page (λ s v p h. release_page-Marks v p h) (e.length / 4096)
          (e.base / 4096) s valid (omega arith) in
      let (u, run, f) = release_regions-Fills es m t g.valid below.1 (omega (arith, g.total)) in
      (
        u,
        rw (ram, first, ◌>>=◌) run,
        record {
          valid = f.valid;
          view = λ j. ground (arith, f.view j, g.view j);
          total = f.total ∙ g.total;
        },
      )
]
