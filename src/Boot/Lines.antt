-- ===== src/Boot/Lines.antt =====
-- Which interrupt lines and handlers are live once the kernel runs.
use ki_os.Base.{
  ℕ, zero, suc, ◌+◌, ◌≤◌, ◌<◌, ◌≡◌, refl, ap, true, false, some, none, ◌∷◌, arith, leb, ltb,
  if◌then◌else◌, ◌&&◌, replicate, set,
}
use ki_os.Input.Ring
use ki_os.Interrupts.Irq.{pit_irq_handler, keyboard_irq_handler, Kernel, pit_init, enable_scheduler}
use ki_os.Interrupts.Pic.Chip.{IsPics, IsRemapped}
use ki_os.Interrupts.Pic.{pic_set_mask}
use ki_os.Interrupts.Pic.Masks.{masked, pic_set_mask_lem, pic_clear_mask_lem}
use ki_os.Boot.{mask_all, keyboard_irq_init, start_interrupts}

module _ {D : Type 0} (inb : ℕ → D → ℕ × D) (outb : ℕ → ℕ → D → D) (pics : IsPics inb outb) where
  -- The loop masks the lines that it passes and leaves the others.
  mask_all_lem :
      (left i m : ℕ) (d : D)
      → IsRemapped pics d
      → i + left ≤ 16
      → m < 16
      → (masked inb outb m (mask_all inb outb left i d)
          ≡ (if leb i m && ltb m (i + left) then true else masked inb outb m d))
        × IsRemapped pics (mask_all inb outb left i d)
  unfolding mask_all
  mask_all_lem zero i m d r fits hm = (ground arith, r)
  mask_all_lem (suc left) i m d r fits hm =
      let (one, r') = pic_set_mask_lem pics i m d r (omega (arith, fits)) hm in
      let (rest, r'') =
        mask_all_lem left (i + 1) m (pic_set_mask inb outb i d) r' (omega (arith, fits)) hm in
      (ground (arith, rest, one), r'')

  pub started_lines :
      (m : ℕ) (k : Kernel) (d : D)
      → IsRemapped pics d
      → m < 16
      → let d' = (start_interrupts inb outb (k, mask_all inb outb 16 0 d)).1 in
        (masked inb outb m d' ≡ leb 2 m) × IsRemapped pics d'
  unfolding start_interrupts keyboard_irq_init
  started_lines m k d r hm =
      let (all, r₁) = mask_all_lem 16 0 m d r (omega arith) hm in
      let (one, r₂) = pic_clear_mask_lem pics 1 m (mask_all inb outb 16 0 d) r₁ (omega arith) hm in
      let (two, r₃) = pic_clear_mask_lem pics 0 m _ r₂ (omega arith) hm in
      (ground (arith, all, one, two), r₃)

  -- The handlers of the two lines, with no others before.
  pub started_kernel :
      (k : Kernel) (d : D)
      → k.irq_handlers ≡ replicate 16 none
      → let k' = (start_interrupts inb outb (k, d)).0 in
        (k'.irq_handlers ≡ some pit_irq_handler ∷ some keyboard_irq_handler ∷ replicate 14 none)
        × (k'.scheduler_enabled ≡ true)
        × (Ring.has_scancode k'.keyboard ≡ false)
        × (k'.tasks ≡ k.tasks)
  unfolding start_interrupts keyboard_irq_init pit_init enable_scheduler Ring.init Ring.has_scancode
  started_kernel k d empty = (
    ap (λ hs. set (set hs 0 (some pit_irq_handler)) 1 (some keyboard_irq_handler)) empty,
    refl,
    refl,
    refl,
  )
