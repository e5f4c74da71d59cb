-- ===== src/Mm/Pmm/Tests.antt =====
-- The page allocator on a machine with two megabytes of memory and a kernel of five pages.
use mathlib.Core.Path.{subst}
use mathlib.Core.Bool.{false≢true}
use ki_os.Base.{
  ℕ, ◌*◌, ◌≡◌, ◌≢◌, refl, ◌∙◌, ◌/◌, ap, sym, inl, inr, true, false, not, ◌||◌, Option, none, some,
  [], arith,
}
use ki_os.Mm.Pmm.{Pmm, init, alloc_page, free_page, max_addr}
use ki_os.Mm.Pmm.Sample.{entries, image, bootable, aligned}
use ki_os.Mm.Pmm.View.{page_used, IsValid}
use ki_os.Mm.Pmm.Range.{usable}
use ki_os.Mm.Pmm.Init.{kept, init_lem}
use ki_os.Mm.Pmm.Alloc.{Outcome, alloc_page_lem, alloc_page-zero_iff, free_page-alloc_page}
use ki_os.Mm.Pmm.Trace.{
  System, Reach, start, next, alloc, update, used_exactly, alloc_page-fresh, no_fault,
}

abbrev found : Option Pmm → Pmm
found none = record { bitmap = []; total_pages = 0; used_pages = 0 }
found (some t) = t

abbrev booted : Pmm
booted = found (init entries image)

boots : init entries image ≡ some booted
unfolding init
boots = refl

booted-IsValid : IsValid booted
booted-IsValid =
    let (t, ran, valid, size, view) = init_lem entries image bootable aligned in
    subst IsValid (ap found (sym ran)) valid

-- The first allocation: page 0x106, after the image and the bitmap, is free, so there is one.
free_after_image : page_used booted 0x106 ≡ false
unfolding init
free_after_image = refl

total_booted : booted.total_pages ≡ 512
unfolding init
total_booted = refl

some_page : Outcome 0 booted (alloc_page booted) → (r : ℕ × Pmm) × (alloc_page booted ≡ some r)
some_page (inl (p, t, f)) = ((p * 4096, t), f.result)
some_page (inr f) = ((0, booted), f.result)

first_page : (r : ℕ × Pmm) × (alloc_page booted ≡ some r)
first_page = some_page (alloc_page_lem booted booted-IsValid)

first_used : page_used booted 0 ≡ true
unfolding init
first_used = refl

first_nonzero : first_page.0.0 ≢ 0
first_nonzero e = false≢true (
    sym free_after_image
    ∙ (alloc_page-zero_iff booted-IsValid first_used first_page.1).0 e 0x106
        (omega (arith, total_booted)))

-- The system after one allocation.
abbrev busy : System
busy = record { pmm = first_page.0.1; live = update (λ j. false) (first_page.0.0 / 4096) true }

reached : Reach entries image busy
reached = next (start boots) (alloc first_page.1 first_nonzero)

used_exactly_example :
    page_used busy.pmm 0x106
    ≡ (busy.live 0x106 || (kept image 512 0x106 || not (usable entries 0x106)))
unfolding max_addr
used_exactly_example = used_exactly entries image bootable aligned reached 0x106 (omega arith)

alloc_page-fresh_example :
    (p : ℕ) × (first_page.0.0 ≡ p * 4096)
    × (false ≡ false)
    × (kept image 512 p ≡ false)
    × (usable entries p ≡ true)
unfolding max_addr
alloc_page-fresh_example =
    alloc_page-fresh entries image bootable aligned (start boots) first_page.1 first_nonzero

no_fault_example :
    ((r : ℕ × Pmm) × (alloc_page busy.pmm ≡ some r))
    × ((p : ℕ) → busy.live p ≡ true → (t : Pmm) × (free_page (p * 4096) busy.pmm ≡ some t))
no_fault_example = no_fault entries image bootable reached

alloc_page_lem_example : Outcome 0 booted (alloc_page booted)
alloc_page_lem_example = alloc_page_lem booted booted-IsValid

free_page-alloc_page_example :
    (u : Pmm) × (free_page first_page.0.0 first_page.0.1 ≡ some u)
    × IsValid u
    × ((j : ℕ) → page_used u j ≡ page_used booted j)
    × (u.used_pages ≡ booted.used_pages)
free_page-alloc_page_example = free_page-alloc_page booted-IsValid first_page.1 first_nonzero
