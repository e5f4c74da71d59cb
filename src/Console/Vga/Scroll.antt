-- ===== src/Console/Vga/Scroll.antt =====
-- vga_scroll.
use ki_os.Base.{
  ℕ, zero, suc, ◌+◌, ◌≤◌, ◌<◌, ◌≡◌, ◌⊎◌, inl, refl, ap, sym, ◌∙◌, List, arith, length, set, get_or,
  length-set, get_or-set_self, get_or-set_ne,
}
use native.Mathlib.Decide.{ℕ_discrete}
use ki_os.Console.Vga.{Screen, copy_up, fill, scroll, make_entry}
use ki_os.Console.Vga.Cursor.{length-copy_up}

-- The cells that `copy_up` does not write.
copy_up_outside :
    (n i j : ℕ) (cells : List ℕ)
    → (j < i) ⊎ (i + n ≤ j)
    → get_or (copy_up n i cells) j 0 ≡ get_or cells j 0
unfolding copy_up
copy_up_outside zero i j cells h = refl
copy_up_outside (suc n) i j cells h =
    copy_up_outside n (i + 1) j _ (ground arith)
    ∙ get_or-set_ne cells i j _ 0 (λ e. absurd (ground arith))

copy_up_inside :
    (n i j : ℕ) (cells : List ℕ)
    → i + n ≤ length cells
    → i ≤ j
    → j < i + n
    → get_or (copy_up n i cells) j 0 ≡ get_or cells (j + 80) 0
unfolding copy_up
copy_up_inside zero i j cells room lo hi = absurd (omega arith)
copy_up_inside (suc n) i j cells room lo hi = elim (ℕ_discrete i j) [
  | yes here ↦
      copy_up_outside n (i + 1) j _ (inl (omega arith))
      ∙ ap (λ k. get_or (set cells i (get_or cells (i + 80) 0)) k 0) (sym here)
      ∙ get_or-set_self cells i _ 0 (omega arith)
      ∙ ap (λ k. get_or cells (k + 80) 0) here
  | no later ↦
      copy_up_inside n (i + 1) j _ (omega (arith, length-set cells i (get_or cells (i + 80) 0)))
        (omega arith) (omega arith)
      ∙ get_or-set_ne cells i (j + 80) _ 0 (λ e. absurd (omega arith))
]

fill_outside :
    (v n i j : ℕ) (cells : List ℕ) → j < i → get_or (fill v n i cells) j 0 ≡ get_or cells j 0
unfolding fill
fill_outside v zero i j cells h = refl
fill_outside v (suc n) i j cells h =
    fill_outside v n (i + 1) j _ (omega arith)
    ∙ get_or-set_ne cells i j v 0 (λ e. absurd (omega arith))

fill_inside :
    (v n i j : ℕ) (cells : List ℕ)
    → i + n ≤ length cells
    → i ≤ j
    → j < i + n
    → get_or (fill v n i cells) j 0 ≡ v
unfolding fill
fill_inside v zero i j cells room lo hi = absurd (omega arith)
fill_inside v (suc n) i j cells room lo hi = elim (ℕ_discrete i j) [
  | yes here ↦
      fill_outside v n (i + 1) j _ (omega arith)
      ∙ ap (λ k. get_or (set cells i v) k 0) (sym here)
      ∙ get_or-set_self cells i v 0 (omega arith)
  | no later ↦
      fill_inside v n (i + 1) j _ (omega (arith, length-set cells i v)) (omega arith) (omega arith)
]

-- On a screen of 2000 cells, after vga_scroll each row holds what the row below it held, the last
-- row is blank in the current colour, and the cursor is in the last row.
pub scroll_lem :
    (s : Screen)
    → length s.cells ≡ 2000
    → ((i : ℕ) → i < 1920 → get_or (scroll s).cells i 0 ≡ get_or s.cells (i + 80) 0)
      × ((i : ℕ) → 1920 ≤ i → i < 2000 → get_or (scroll s).cells i 0 ≡ make_entry b' ' s.color)
      × ((scroll s).cursor_y ≡ 24)
unfolding scroll
scroll_lem s size = (
  λ i h.
      fill_outside (make_entry b' ' s.color) 80 1920 i (copy_up 1920 0 s.cells) h
      ∙ copy_up_inside 1920 0 i s.cells (omega (arith, size)) (omega arith) h,
  λ i lo hi.
      fill_inside (make_entry b' ' s.color) 80 1920 i (copy_up 1920 0 s.cells)
        (omega (arith, size, length-copy_up 1920 0 s.cells)) lo hi,
  refl,
)
