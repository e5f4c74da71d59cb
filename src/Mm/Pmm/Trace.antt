-- ===== src/Mm/Pmm/Trace.antt =====
-- Any history of pmm_alloc_page and pmm_free_page after pmm_init, by clients that free only what
-- they hold.
use ki_os.Base.{
  ℕ, ◌*◌, ◌/◌, ◌<◌, ◌≡◌, ◌≢◌, inl, inr, refl, Bool, true, false, not, some, List, arith, ◌==◌, ◌||◌,
  if◌then◌else◌, ap, ◌∙◌, ◌⊎◌, sym,
}
use ki_os.Mm.Pmm.{MapEntry, Image, Pmm, init, alloc_page, free_page, max_addr}
use ki_os.Mm.Pmm.View.{page_used, IsValid, Marks, release_page-Marks}
use ki_os.Mm.Pmm.Range.{released, usable, Aligned, released-eq-usable}
use ki_os.Mm.Pmm.Init.{kept, IsBootable, init-released}
use ki_os.Mm.Pmm.Alloc.{Outcome, alloc_page_lem, Found-of_some}
use mathlib.Core.Path.{subst}
use mathlib.Core.Bool.{false≢true}

-- The allocator beside the set of pages that clients hold.
pub record System : Type 0 where
  pub pmm : Pmm
  pub live : ℕ → Bool

abbrev pub update : (ℕ → Bool) → ℕ → Bool → ℕ → Bool
update f p v j = if p == j then v else f j

pub data Step (s : System) : System → Type 0 where
  alloc :
      {a : ℕ} {t : Pmm}
      → alloc_page s.pmm ≡ some (a, t)
      → a ≢ 0
      → Step s (record { pmm = t; live = update s.live (a / 4096) true })
  exhausted : {t : Pmm} → alloc_page s.pmm ≡ some (0, t) → Step s (record s { pmm = t })
  free :
      (p : ℕ) {t : Pmm}
      → s.live p ≡ true
      → free_page (p * 4096) s.pmm ≡ some t
      → Step s (record { pmm = t; live = update s.live p false })

pub data Reach (entries : List MapEntry) (k : Image) : System → Type 0 where
  start :
      {t : Pmm} → init entries k ≡ some t → Reach entries k (record { pmm = t; live = λ j. false })
  next : {s t : System} → Reach entries k s → Step s t → Reach entries k t

-- A page may be handed out: it is released and not kept back.
abbrev pub grantable : List MapEntry → Image → ℕ → ℕ → Bool
grantable entries k total j = not (kept k total j || not (released entries j))

pub record Inv (grant : ℕ → Bool) (total : ℕ) (s : System) : Type 0 where
  pub valid : IsValid s.pmm
  pub size : s.pmm.total_pages ≡ total
  pub exact : (j : ℕ) → j < total → page_used s.pmm j ≡ (s.live j || not (grant j))
  pub held : (j : ℕ) → s.live j ≡ true → (j < total) × (grant j ≡ true)

module _ {grant : ℕ → Bool} {total : ℕ} {s : System} (inv : Inv grant total s) where
  Inv-alloc :
      (p : ℕ) {t : Pmm}
      → p < s.pmm.total_pages
      → page_used s.pmm p ≡ false
      → Marks true p s.pmm t
      → Inv grant total (record { pmm = t; live = update s.live p true })
  Inv-alloc p {t} lt was_free m = record {
    valid = m.valid;
    size = m.total ∙ inv.size;
    exact = λ j h. ground (arith, m.view j, inv.exact j h);
    held = λ j h. both j h (taken j h);
  }
    where
      granted : grant p ≡ true
      granted = ground (arith, inv.exact p (omega (arith, inv.size)), was_free)

      taken : (j : ℕ) → update s.live p true j ≡ true → (p ≡ j) ⊎ (s.live j ≡ true)
      taken j h = ground arith

      both :
          (j : ℕ)
          → update s.live p true j ≡ true
          → (p ≡ j) ⊎ (s.live j ≡ true)
          → (j < total) × (grant j ≡ true)
      both j h (inl e) = rw (← e) (omega (arith, inv.size), granted)
      both j h (inr old) = inv.held j old

  Inv-free :
      (p : ℕ) {t : Pmm}
      → s.live p ≡ true
      → free_page (p * 4096) s.pmm ≡ some t
      → Inv grant total (record { pmm = t; live = update s.live p false })
  unfolding free_page
  Inv-free p {t} held run =
      let (u, freed, m) =
        release_page-Marks inv.valid p (omega (arith, inv.held p held, inv.size)) in
      let same : u ≡ t = ground (arith, freed, run, page_of p) in
      record {
        valid = subst IsValid same m.valid;
        size = ap (λ x. x.total_pages) (sym same) ∙ m.total ∙ inv.size;
        exact = λ j h.
            ap (λ x. page_used x j) (sym same)
            ∙ ground (arith, m.view j, inv.exact j h, inv.held p held, ap grant {x = p} {y = j});
        held = λ j h. inv.held j (ground arith);
      }
    where
      page_of : (q : ℕ) → q * 4096 / 4096 ≡ q
      page_of q = omega arith

module _ {grant : ℕ → Bool} {total : ℕ} {s : System} (inv : Inv grant total s) where
  -- A failed allocation changes nothing, since page 0 is never granted.
  Inv-exhausted :
      {t : Pmm}
      → grant 0 ≡ false
      → alloc_page s.pmm ≡ some (0, t)
      → Inv grant total (record s { pmm = t })
  Inv-exhausted {t} low run = split (alloc_page_lem s.pmm inv.valid)
    where
      split : Outcome 0 s.pmm (alloc_page s.pmm) → Inv grant total (record s { pmm = t })
      split (inl (p, u, f)) =
          let zero_page : p ≡ 0 = ground (arith, run, f.result) in
          absurd (
            false≢true (
              sym f.was_free
              ∙ rw zero_page (ground (arith, inv.exact 0 (omega (arith, f.managed, inv.size))))))
      split (inr f) =
          let same : s.pmm ≡ t = ground (arith, run, f.result) in
          subst (λ x. Inv grant total (record s { pmm = x })) same inv

  Inv-granted :
      {a : ℕ} {t : Pmm}
      → alloc_page s.pmm ≡ some (a, t)
      → a ≢ 0
      → Inv grant total (record { pmm = t; live = update s.live (a / 4096) true })
  Inv-granted {a} {t} run some_page =
      let (p, e, f) = Found-of_some inv.valid run some_page in
      let page : a / 4096 ≡ p = omega arith in
      subst (λ q. Inv grant total (record { pmm = t; live = update s.live q true })) (sym page)
        (Inv-alloc inv p f.managed.1 f.was_free f.marks)

Step-Inv :
    {grant : ℕ → Bool} {total : ℕ} {s t : System}
    → grant 0 ≡ false
    → Inv grant total s
    → Step s t
    → Inv grant total t
Step-Inv low inv (alloc run some_page) = Inv-granted inv run some_page
Step-Inv low inv (exhausted run) = Inv-exhausted inv low run
Step-Inv low inv (free p held run) = Inv-free inv p held run

not-not : (b : Bool) → not (not b) ≡ b
not-not true = refl
not-not false = refl

free_parts :
    (live low image : Bool)
    → (live || (low || not image)) ≡ false
    → (live ≡ false) × (low ≡ false) × (image ≡ true)
free_parts live low image h = ground arith

module _ (entries : List MapEntry) (k : Image) (boot : IsBootable entries k) where
  abbrev pub managed : ℕ
  managed = max_addr entries 0 / 4096

  abbrev pub granted : ℕ → Bool
  granted = grantable entries k managed

  start-Inv :
      {t : Pmm}
      → init entries k ≡ some t
      → Inv granted managed (record { pmm = t; live = λ j. false })
  start-Inv {t} run =
      let (u, ran, valid, size, view) = init-released entries k boot in
      let same : u ≡ t = ground (arith, run, ran) in
      subst (λ x. Inv granted managed (record { pmm = x; live = λ j. false })) same
        (record {
          valid = valid;
          size = size;
          exact = λ j h.
              view j (omega (arith, size))
              ∙ ap (λ n. kept k n j || not (released entries j)) size
              ∙ sym (not-not (kept k managed j || not (released entries j)));
          held = λ j h. absurd (false≢true h);
        })

  Reach-Inv : {s : System} → Reach entries k s → Inv granted managed s
  Reach-Inv (start run) = start-Inv run
  Reach-Inv (next r st) = Step-Inv refl (Reach-Inv r) st

  used_released :
      {s : System}
      → Reach entries k s
      → (j : ℕ) → j < managed
      → page_used s.pmm j ≡ (s.live j || (kept k managed j || not (released entries j)))
  used_released {s} r j h =
      (Reach-Inv r).exact j h
      ∙ ap (λ b. s.live j || b) (not-not (kept k managed j || not (released entries j)))

  -- On a bootable machine whose usable entries begin at a page, after any history of allocations and of
  -- frees of pages that a client holds, a page below the top of memory is marked used exactly if a
  -- client holds it, it is kept back (first megabyte, kernel image, bitmap), or no usable entry covers
  -- all of it.
  pub used_exactly :
      {s : System}
      → Aligned entries
      → Reach entries k s
      → (j : ℕ) → j < managed
      → page_used s.pmm j ≡ (s.live j || (kept k managed j || not (usable entries j)))
  used_exactly {s} aligned r j h =
      used_released r j h
      ∙ ap (λ u. s.live j || (kept k managed j || not u)) (released-eq-usable entries aligned j)

  -- On a bootable machine whose usable entries begin at a page, after any such history, an address other than 0 that `pmm_alloc_page`
  -- returns is the start of a page that no client holds, that is not kept back, and that lies with
  -- all its bytes in one usable entry.
  pub alloc_page-fresh :
      {s : System} {t : Pmm} {a : ℕ}
      → Aligned entries
      → Reach entries k s
      → alloc_page s.pmm ≡ some (a, t)
      → a ≢ 0
      → (p : ℕ) × (a ≡ p * 4096)
        × (s.live p ≡ false)
        × (kept k managed p ≡ false)
        × (usable entries p ≡ true)
  alloc_page-fresh {s} aligned r run some_page =
      let inv = Reach-Inv r in
      let (p, e, f) = Found-of_some inv.valid run some_page in
      let parts =
        free_parts (s.live p) (kept k managed p) (usable entries p)
          (sym (used_exactly aligned r p (omega (arith, f.managed, inv.size))) ∙ f.was_free) in
      (p, e, parts.0, parts.1, parts.2)

  -- On a bootable machine, after any such history, neither an allocation nor the freeing of a held
  -- page leaves the bitmap.
  pub no_fault :
      {s : System}
      → Reach entries k s
      → ((r : ℕ × Pmm) × (alloc_page s.pmm ≡ some r))
        × ((p : ℕ) → s.live p ≡ true → (t : Pmm) × (free_page (p * 4096) s.pmm ≡ some t))
  unfolding free_page
  no_fault {s} r = (
    some_result (alloc_page_lem s.pmm (Reach-Inv r).valid),
    λ p held.
        let (t, run, m) =
          release_page-Marks (Reach-Inv r).valid p
            (omega (arith, (Reach-Inv r).held p held, (Reach-Inv r).size)) in
        (t, rw (page_start p) run),
  )
    where
      some_result : Outcome 0 s.pmm (alloc_page s.pmm) → (r : ℕ × Pmm) × (alloc_page s.pmm ≡ some r)
      some_result (inl (p, t, f)) = ((p * 4096, t), f.result)
      some_result (inr f) = ((0, s.pmm), f.result)

      page_start : (p : ℕ) → p * 4096 / 4096 ≡ p
      page_start p = omega arith
