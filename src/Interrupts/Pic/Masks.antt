-- ===== src/Interrupts/Pic/Masks.antt =====
-- The mask bits of the interrupt controllers.
use ki_os.Base.{
  ◌%◌, leb, ==_ne, ℕ, ◌-◌, ◌^◌, ◌<◌, ◌≡◌, ◌≢◌, refl, ap, ap₂, ==_iff, sym, ◌∙◌, bit_and, bit_or,
  Bool, true, false, arith, ◌==◌, if◌then◌else◌, u8,
}
use native.Mathlib.Decide.{ℕ_discrete}
use ki_os.Base.Bits.{
  has_bit, has_bit-bit_or, has_bit-bit_and, bit_or_byte, bit_and_byte, all_below, all_below_sound,
}
use ki_os.Interrupts.Pic.Chip.{Chip, ready, IsPics, IsRemapped, command_port, data_port}
use ki_os.Interrupts.Pic.{port_of, bit_of, pic_set_mask, pic_clear_mask}

clear_row : ℕ → ℕ → Bool
clear_row b k = u8 (bit_and b (2 ^ 32 - 1 - 2 ^ k)) == bit_and b (255 - 2 ^ k)

clear_table : all_below 256 (λ b. all_below 8 (clear_row b)) ≡ true
unfolding all_below clear_row
clear_table = refl

-- The complement of an `int` clears the same bit of a byte as the complement of a byte.
clear_byte :
    (b k : ℕ) → b < 256 → k < 8 → u8 (bit_and b (2 ^ 32 - 1 - 2 ^ k)) ≡ bit_and b (255 - 2 ^ k)
unfolding clear_row
clear_byte b k hb hk = (==_iff _ _).0 (
    all_below_sound 8 (clear_row b) k
      (all_below_sound 256 (λ c. all_below 8 (clear_row c)) b clear_table hb) hk)

-- Two lines of one controller are equal exactly if their bits are.
line_eq : (l m : ℕ) → l < 16 → m < 16 → port_of l ≡ port_of m → (bit_of l == bit_of m) ≡ (l == m)
line_eq l m hl hm same = ground (arith, same)

line_ne : (l m : ℕ) → port_of l ≢ port_of m → (l == m) ≡ false
line_ne l m apart = ground (arith, apart)

bit_below : (l : ℕ) → l < 16 → bit_of l < 8
bit_below l h = ground arith

module _ {D : Type 0} (inb : ℕ → D → ℕ × D) (outb : ℕ → ℕ → D → D) where
  -- In a state, the two data ports hold bytes: what is written is read back from its port.
  record HoldsMasks (d : D) : Type 0 where
    byte : (l : ℕ) → (inb (port_of l) d).0 < 256
    read : (l : ℕ) → (inb (port_of l) d).1 ≡ d
    written : (l value : ℕ) → value < 256 → (inb (port_of l) (outb (port_of l) value d)).0 ≡ value
    other :
        (l m value : ℕ)
        → port_of l ≢ port_of m
        → (inb (port_of m) (outb (port_of l) value d)).0 ≡ (inb (port_of m) d).0

  -- The mask bit of a line.
  abbrev pub masked : ℕ → D → Bool
  masked l d = has_bit (inb (port_of l) d).0 (bit_of l)

  -- A write of a byte whose bits are those read, but for the bit of line `l`, changes this line only.
  written_line :
      (l m : ℕ) (d : D) (value : ℕ) (b : Bool)
      → HoldsMasks d
      → l < 16
      → m < 16
      → value < 256
      → ((j : ℕ)
          → j < 8
          → has_bit value j ≡ (if bit_of l == j then b else has_bit (inb (port_of l) d).0 j))
      → masked m (outb (port_of l) value d) ≡ (if l == m then b else masked m d)
  written_line l m d value b holds hl hm fits bits = elim (ℕ_discrete (port_of l) (port_of m)) [
    | yes same ↦
        ap (λ p. has_bit (inb p (outb (port_of l) value d)).0 (bit_of m)) (sym same)
        ∙ ap (λ v. has_bit v (bit_of m)) (holds.written l value fits)
        ∙ bits (bit_of m) (bit_below m hm)
        ∙ ap₂ (λ (e : Bool) (p : ℕ). if e then b else has_bit (inb p d).0 (bit_of m))
            (line_eq l m hl hm same) same
    | no apart ↦
        ap (λ v. has_bit v (bit_of m)) (holds.other l m value apart)
        ∙ sym (ap (λ e. if e then b else masked m d) (line_ne l m apart))
  ]

  -- If the data ports hold the masks in a state, after pic_set_mask a line is masked exactly if it was before
  -- or is the given one, for the lines 0 to 15 of both controllers.
  pic_set_mask_line :
      (l m : ℕ) (d : D)
      → HoldsMasks d
      → l < 16
      → m < 16
      → masked m (pic_set_mask inb outb l d) ≡ (if l == m then true else masked m d)
  unfolding pic_set_mask
  pic_set_mask_line l m d holds hl hm =
      ap (λ x. masked m (outb (port_of l) (u8 (bit_or (inb (port_of l) d).0 (2 ^ bit_of l))) x))
        (holds.read l)
      ∙ ap (λ v. masked m (outb (port_of l) v d)) (omega (arith, byte))
      ∙ written_line l m d (bit_or (inb (port_of l) d).0 (2 ^ bit_of l)) true holds hl hm byte
          (λ j hj. has_bit-bit_or _ (bit_of l) j (holds.byte l) (bit_below l hl) hj)
    where
      byte : bit_or (inb (port_of l) d).0 (2 ^ bit_of l) < 256
      byte = bit_or_byte _ (bit_of l) 0 (holds.byte l) (bit_below l hl) (omega arith)

  -- If the data ports hold the masks in a state, after pic_clear_mask a line is masked exactly if it was before
  -- and is not the given one, for the lines 0 to 15 of both controllers.
  pic_clear_mask_line :
      (l m : ℕ) (d : D)
      → HoldsMasks d
      → l < 16
      → m < 16
      → masked m (pic_clear_mask inb outb l d) ≡ (if l == m then false else masked m d)
  unfolding pic_clear_mask
  pic_clear_mask_line l m d holds hl hm =
      ap
        (λ x.
          masked m
            (outb (port_of l) (u8 (bit_and (inb (port_of l) d).0 (2 ^ 32 - 1 - 2 ^ bit_of l))) x))
        (holds.read l)
      ∙ ap (λ v. masked m (outb (port_of l) v d))
          (clear_byte _ (bit_of l) (holds.byte l) (bit_below l hl))
      ∙ written_line l m d (bit_and (inb (port_of l) d).0 (255 - 2 ^ bit_of l)) false holds hl hm
          byte (λ j hj. has_bit-bit_and _ (bit_of l) j (holds.byte l) (bit_below l hl) hj)
    where
      byte : bit_and (inb (port_of l) d).0 (255 - 2 ^ bit_of l) < 256
      byte = bit_and_byte _ (bit_of l) 0 (holds.byte l) (bit_below l hl) (omega arith)

either_same {ℓ} :
    {A : Type ℓ} (f : Chip → A) (b : Bool) {c c' : Chip}
    → f c ≡ f c'
    → f (if b then c else c') ≡ f c'
either_same f true e = e
either_same f false e = refl

second_of : ℕ → Bool
second_of l = leb 8 l

port_second : (l : ℕ) → port_of l ≡ data_port (second_of l)
unfolding second_of
port_second l = ground arith

module _ {D : Type 0} {inb : ℕ → D → ℕ × D} {outb : ℕ → ℕ → D → D} (pics : IsPics inb outb) where
  mask_read : (l : ℕ) (d : D) → (inb (port_of l) d).0 ≡ (pics.chip (second_of l) d).mask % 256
  mask_read l d = rw (port_second l) (pics.read (second_of l) d)

  written_chip :
      (s : Bool) (port value : ℕ) (d : D)
      → (pics.chip s d).stage ≡ ready
      → port ≢ command_port s
      → pics.chip s (outb port value d) ≡ (
          if port == data_port s
          then record (pics.chip s d) { mask = value % 256 }
          else pics.chip s d)
  written_chip s port value d initialized at_data =
      pics.write s port value d ∙ rw (==_ne port (command_port s) at_data, initialized) refl

  other_chip :
      (s : Bool) (port value : ℕ) (d : D)
      → (pics.chip s d).stage ≡ ready
      → port ≢ command_port s
      → port ≢ data_port s
      → pics.chip s (outb port value d) ≡ pics.chip s d
  other_chip s port value d initialized command apart =
      written_chip s port value d initialized command ∙ rw (==_ne port (data_port s) apart) refl

  not_command : (l : ℕ) (s : Bool) → port_of l ≢ command_port s
  not_command l true = λ e. ground (arith, e)
  not_command l false = λ e. ground (arith, e)

  remapped_holds : (d : D) → IsRemapped pics d → HoldsMasks inb outb d
  remapped_holds d r = record {
    byte = λ l. omega (arith, mask_read l d);
    read = λ l. rw (port_second l) (pics.read_same (second_of l) d);
    written = λ l value fits.
        mask_read l (outb (port_of l) value d)
        ∙ ap (λ (c : Chip). c.mask % 256)
            (written_chip (second_of l) (port_of l) value d (r.initialized (second_of l))
              (not_command l (second_of l)))
        ∙ rw ((==_iff (port_of l) (data_port (second_of l))).1 (port_second l))
            (omega (arith, fits));
    other = λ l m value apart.
        mask_read m (outb (port_of l) value d)
        ∙ ap (λ (c : Chip). c.mask % 256)
            (other_chip (second_of m) (port_of l) value d (r.initialized (second_of m))
              (not_command l (second_of m)) (λ e. apart (e ∙ sym (port_second m))))
        ∙ sym (mask_read m d);
  }

  -- A write to a mask keeps the vectors and the initialization.
  written-IsRemapped :
      (l value : ℕ) (d : D) → IsRemapped pics d → IsRemapped pics (outb (port_of l) value d)
  written-IsRemapped l value d r = record {
    initialized = λ s.
        ap (λ (c : Chip). c.stage) (chip s)
        ∙ either_same (λ c. c.stage) (port_of l == data_port s) refl
        ∙ r.initialized s;
    first_vectors =
        ap (λ (c : Chip). c.vectors) (chip false)
        ∙ either_same (λ c. c.vectors) (port_of l == data_port false) refl
        ∙ r.first_vectors;
    second_vectors =
        ap (λ (c : Chip). c.vectors) (chip true)
        ∙ either_same (λ c. c.vectors) (port_of l == data_port true) refl
        ∙ r.second_vectors;
  }
    where
      chip :
          (s : Bool)
          → pics.chip s (outb (port_of l) value d) ≡ (
              if port_of l == data_port s
              then record (pics.chip s d) { mask = value % 256 }
              else pics.chip s d)
      chip s = written_chip s (port_of l) value d (r.initialized s) (not_command l s)

  -- On initialized controllers pic_set_mask masks the line and no other, and they stay initialized.
  pub pic_set_mask_lem :
      (l m : ℕ) (d : D)
      → IsRemapped pics d
      → l < 16
      → m < 16
      → (masked inb outb m (pic_set_mask inb outb l d)
          ≡ (if l == m then true else masked inb outb m d))
        × IsRemapped pics (pic_set_mask inb outb l d)
  unfolding pic_set_mask
  pic_set_mask_lem l m d r hl hm = (
    pic_set_mask_line inb outb l m d (remapped_holds d r) hl hm,
    written-IsRemapped l _ _ (rw (remapped_holds d r).read r),
  )

  -- On initialized controllers pic_clear_mask unmasks the line and no other, and they stay
  -- initialized.
  pub pic_clear_mask_lem :
      (l m : ℕ) (d : D)
      → IsRemapped pics d
      → l < 16
      → m < 16
      → (masked inb outb m (pic_clear_mask inb outb l d)
          ≡ (if l == m then false else masked inb outb m d))
        × IsRemapped pics (pic_clear_mask inb outb l d)
  unfolding pic_clear_mask
  pic_clear_mask_lem l m d r hl hm = (
    pic_clear_mask_line inb outb l m d (remapped_holds d r) hl hm,
    written-IsRemapped l _ _ (rw (remapped_holds d r).read r),
  )
