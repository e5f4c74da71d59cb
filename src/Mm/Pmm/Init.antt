-- ===== src/Mm/Pmm/Init.antt =====
-- pmm_init: which pages are free once it has run.
use ki_os.Base.{
  ℕ, ◌+◌, ◌-◌, ◌*◌, ◌/◌, ◌%◌, ◌^◌, ◌≤◌, ◌<◌, ◌≡◌, Bool, true, false, not, some, List, arith, ltb,
  ◌||◌, if◌then◌else◌, ◌>>=◌, ◌∙◌, ap, sym, add64, sub64, length-replicate, get_or-replicate,
  All-replicate,
}
use ki_os.Base.Bits.{has_bit-full, bit_and_page_mask}
use ki_os.Base.Tally.{tally_all}
use ki_os.Mm.Pmm.{
  MapEntry, Image, Pmm, max_addr, reserve_page, bitmap_addr, bitmap_size, end_page, all_used, init,
}
use ki_os.Mm.Pmm.View.{page_used, IsValid, reserve_page-Marks}
use ki_os.Mm.Pmm.Range.{
  within, for_pages-Fills, released, released-eq-usable, usable, Aligned, Fits, Below-max_addr,
  max_addr-lt, release_regions-Fills,
}

all_used-page_used : (total j : ℕ) → j < total → page_used (all_used total) j ≡ true
all_used-page_used total j h =
    rw (get_or-replicate {A = ℕ} (bitmap_size total) 255 0 (j / 8) (omega arith))
      (has_bit-full (j % 8) (omega arith))

all_used-IsValid : (total : ℕ) → total ≤ 2 ^ 52 → IsValid (all_used total)
all_used-IsValid total h = record {
  bytes = All-replicate (λ b. b < 256) (bitmap_size total) (omega arith);
  covers = omega (arith, length-replicate {A = ℕ} (bitmap_size total) 255);
  small = h;
  counted = omega (arith, tally_all _ total (all_used-page_used total));
}

-- The pages that `pmm_init` keeps from the allocator: the first megabyte, the kernel image and the
-- bitmap.
abbrev pub kept : Image → ℕ → ℕ → Bool
kept k total j =
    ltb j 256 || within (k.kernel_start / 4096) (end_page k total - k.kernel_start / 4096) j

-- The image and the bitmap lie below the end page.
pub image-le-end_page :
    (k : Image) (total : ℕ)
    → k.kernel_end < 2 ^ 63
    → total ≤ 2 ^ 52
    → (k.kernel_end ≤ bitmap_addr k) × (bitmap_addr k + bitmap_size total ≤ end_page k total * 4096)
image-le-end_page k total low small =
    omega (arith, bit_and_page_mask (sub64 (add64 k.kernel_end 4096) 1) (omega arith))

-- What the code relies on: 64-bit entries, a megabyte of memory, and an image that fits in it.
pub record IsBootable (entries : List MapEntry) (k : Image) : Type 0 where
  pub fits : Fits entries
  pub megabyte : 256 ≤ max_addr entries 0 / 4096
  pub image : k.kernel_start ≤ k.kernel_end
  pub low : k.kernel_end < 2 ^ 63
  pub inside : end_page k (max_addr entries 0 / 4096) ≤ max_addr entries 0 / 4096

-- One page through the three loops.
three_fills :
    (v₀ v₁ v₂ v₃ region low image : Bool)
    → v₀ ≡ true
    → v₁ ≡ (if region then false else v₀)
    → v₂ ≡ (if low then true else v₁)
    → v₃ ≡ (if image then true else v₂)
    → v₃ ≡ ((low || image) || not region)
three_fills v₀ v₁ v₂ v₃ region low image = ground arith

within-megabyte : (j : ℕ) → within 0 256 j ≡ ltb j 256
within-megabyte j = ground arith

kept_total :
    (entries : List MapEntry) (k : Image) {n m : ℕ} (j : ℕ)
    → n ≡ m
    → (kept k m j || not (released entries j)) ≡ (kept k n j || not (released entries j))
kept_total entries k j e = ap (λ t. kept k t j || not (released entries j)) (sym e)

-- The pages that `pmm_init` leaves free, by its loops.
pub init-released :
    (entries : List MapEntry) (k : Image)
    → IsBootable entries k
    → (t : Pmm) × (init entries k ≡ some t)
      × IsValid t
      × (t.total_pages ≡ max_addr entries 0 / 4096)
      × ((j : ℕ)
          → j < t.total_pages
          → page_used t j ≡ (kept k t.total_pages j || not (released entries j)))
unfolding init
init-released entries k boot =
    let total = max_addr entries 0 / 4096 in
    let small : total ≤ 2 ^ 52 = omega (arith, max_addr-lt entries 0 (omega arith)) in
    let s₀ : Pmm = all_used total in
    let (s₁, run₁, f₁) =
      release_regions-Fills entries (max_addr entries 0) s₀ (all_used-IsValid total small)
        (Below-max_addr entries 0 boot.fits) (omega arith) in
    let (s₂, run₂, f₂) =
      for_pages-Fills true reserve_page (λ s v p h. reserve_page-Marks v p h) 256 0 s₁ f₁.valid
        (omega (arith, f₁.total, boot.megabyte)) in
    let (s₃, run₃, f₃) =
      for_pages-Fills true reserve_page (λ s v p h. reserve_page-Marks v p h)
        (end_page k total - k.kernel_start / 4096) (k.kernel_start / 4096) s₂ f₂.valid
        (omega (
          arith,
          f₂.total,
          f₁.total,
          boot.inside,
          boot.image,
          image-le-end_page k total boot.low small,
        )) in
    (
      s₃,
      rw (run₁, ◌>>=◌, run₂, run₃),
      f₃.valid,
      f₃.total ∙ f₂.total ∙ f₁.total,
      λ j h.
          three_fills (page_used s₀ j) (page_used s₁ j) (page_used s₂ j) (page_used s₃ j)
            (released entries j) (ltb j 256)
            (within (k.kernel_start / 4096) (end_page k total - k.kernel_start / 4096) j)
            (all_used-page_used total j (omega (arith, f₁.total, f₂.total, f₃.total))) (f₁.view j)
            (f₂.view j ∙ ap (λ b. if b then true else page_used s₁ j) (within-megabyte j))
            (f₃.view j)
          ∙ kept_total entries k j (f₃.total ∙ f₂.total ∙ f₁.total),
    )

pub init_lem :
    (entries : List MapEntry) (k : Image)
    → IsBootable entries k
    → Aligned entries
    → (t : Pmm) × (init entries k ≡ some t)
      × IsValid t
      × (t.total_pages ≡ max_addr entries 0 / 4096)
      × ((j : ℕ)
          → j < t.total_pages
          → page_used t j ≡ (kept k t.total_pages j || not (usable entries j)))
init_lem entries k boot aligned =
    let (t, run, valid, size, view) = init-released entries k boot in
    (
      t,
      run,
      valid,
      size,
      λ j h.
          view j h
          ∙ ap (λ u. kept k t.total_pages j || not u) (released-eq-usable entries aligned j),
    )
