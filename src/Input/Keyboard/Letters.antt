-- ===== src/Input/Keyboard/Letters.antt =====
-- kb_scancode_to_ascii against a description of the keyboard.
use ki_os.Base.{
  ℕ, ◌-◌, ◌*◌, ◌/◌, ◌%◌, ◌≤◌, ◌<◌, ◌≡◌, refl, ap, ◌∙◌, Bool, true, false, not, ◌&&◌, ◌||◌, arith,
  ltb, leb, ◌==◌, if◌then◌else◌, get_or, bit_and, inl, inr, Bool-cases,
}
use mathlib.Core.Bool.{xor}
use ki_os.Base.Bits.{all_below, all_below_sound, bit_and_high_fields, bit_and_low_mask}
use ki_os.Input.Keyboard.{
  Modifiers, scancode_to_ascii, scancode_to_ascii_lower, scancode_to_ascii_upper, character,
  on_release,
}

-- The release bit and the key of a scancode.
release_bit : (sc : ℕ) → sc < 256 → bit_and sc 128 ≡ sc / 128 * 128
release_bit sc h =
    ground (arith, bit_and_high_fields 7 (sc / 128) (sc % 128) 1, bit_and_low_mask 1 (sc / 128))

key_bits : (sc : ℕ) → bit_and sc 127 ≡ sc % 128
key_bits sc = bit_and_low_mask 7 sc

is_release : (sc : ℕ) → sc < 256 → (bit_and sc 128 == 0) ≡ ltb sc 128
is_release sc h = ground (arith, release_bit sc h)

key_of : (sc : ℕ) → sc < 256 → 128 ≤ sc → bit_and sc 127 ≡ sc - 128
key_of sc h ge = omega (arith, key_bits sc)

-- The modifiers after a scancode.
after : ℕ → Modifiers → Modifiers
after sc m =
    if not (ltb sc 128)
    then on_release (sc - 128) m
    else if (sc == 0x2A) || (sc == 0x36)
    then record m { shift_pressed = true }
    else if sc == 0x1D
    then record m { ctrl_pressed = true }
    else if sc == 0x38
    then record m { alt_pressed = true }
    else if sc == 0x3A
    then record m { capslock_on = not m.capslock_on }
    else m

scancode_to_ascii-after :
    (sc : ℕ) (m : Modifiers) → sc < 256 → (scancode_to_ascii sc m).1 ≡ after sc m
unfolding scancode_to_ascii after
scancode_to_ascii-after sc m h = elim (Bool-cases (ltb sc 128)) [
  | inl press ↦ rw (is_release sc h, press) (ground arith)
  | inr release ↦ rw (is_release sc h, release, key_of sc h (ground arith)) refl
]

module _ (sc : ℕ) (m : Modifiers) where
  after_shift : (after sc m).shift_pressed ≡ (
      if (sc == 0x2A) || (sc == 0x36)
      then true
      else if (sc == 0xAA) || (sc == 0xB6)
      then false
      else m.shift_pressed)
  unfolding after
  after_shift = ground arith

  after_ctrl :
      (after sc m).ctrl_pressed
      ≡ (if sc == 0x1D then true else if sc == 0x9D then false else m.ctrl_pressed)
  unfolding after
  after_ctrl = ground arith

  after_alt :
      (after sc m).alt_pressed
      ≡ (if sc == 0x38 then true else if sc == 0xB8 then false else m.alt_pressed)
  unfolding after
  after_alt = ground arith

  after_capslock :
      (after sc m).capslock_on ≡ (if sc == 0x3A then not m.capslock_on else m.capslock_on)
  unfolding after
  after_capslock = ground arith

-- What a scancode, a byte, does to the modifiers: shift, ctrl and alt follow the presses and
-- releases of their keys, CapsLock changes at each press of its key, and no other scancode changes
-- any.
pub modifiers_lem :
    (sc : ℕ) (m : Modifiers)
    → sc < 256
    → let m' = (scancode_to_ascii sc m).1 in
      (m'.shift_pressed ≡ (
        if (sc == 0x2A) || (sc == 0x36)
        then true
        else if (sc == 0xAA) || (sc == 0xB6)
        then false
        else m.shift_pressed))
      × (m'.ctrl_pressed
          ≡ (if sc == 0x1D then true else if sc == 0x9D then false else m.ctrl_pressed))
      × (m'.alt_pressed
          ≡ (if sc == 0x38 then true else if sc == 0xB8 then false else m.alt_pressed))
      × (m'.capslock_on ≡ (if sc == 0x3A then not m.capslock_on else m.capslock_on))
modifiers_lem sc m h =
    rw (scancode_to_ascii-after sc m h)
      (after_shift sc m, after_ctrl sc m, after_alt sc m, after_capslock sc m)

abbrev pub is_lower : ℕ → Bool
is_lower c = leb b'a' c && leb c b'z'

-- The two tables agree on letters, and hold ASCII characters below 127.
row : ℕ → Bool
row sc =
    (if is_lower (get_or scancode_to_ascii_lower sc 0)
      then get_or scancode_to_ascii_upper sc 0 == get_or scancode_to_ascii_lower sc 0 - 32
      else true)
    && ltb (get_or scancode_to_ascii_lower sc 0) 127
    && ltb (get_or scancode_to_ascii_upper sc 0) 127

rows : all_below 128 row ≡ true
unfolding all_below row scancode_to_ascii_lower scancode_to_ascii_upper
rows = refl

-- A scancode of a key that is no modifier.
abbrev pub plain : ℕ → Bool
plain sc = not ((sc == 0x2A) || (sc == 0x36) || (sc == 0x1D) || (sc == 0x38) || (sc == 0x3A))

scancode_to_ascii-plain :
    (sc : ℕ) (m : Modifiers)
    → sc < 128
    → plain sc ≡ true
    → scancode_to_ascii sc m ≡ (character sc m, m)
unfolding scancode_to_ascii
scancode_to_ascii-plain sc m h p = rw (is_release sc (omega arith)) (ground arith)

abbrev lower_of : ℕ → ℕ
lower_of sc = get_or scancode_to_ascii_lower sc 0

abbrev upper_of : ℕ → ℕ
upper_of sc = get_or scancode_to_ascii_upper sc 0

row_facts :
    (sc : ℕ)
    → sc < 128
    → (is_lower (lower_of sc) ≡ true → upper_of sc ≡ lower_of sc - 32)
      × (lower_of sc < 127)
      × (upper_of sc < 127)
unfolding row
row_facts sc h =
    let r : row sc ≡ true = all_below_sound 128 row sc rows h in
    (λ l. ground (arith, r), ground (arith, r), ground (arith, r))

-- The press of a key that is no modifier and whose plain character is a letter gives the letter,
-- in upper case exactly if one of shift and CapsLock is on, and changes no modifier.
pub letter_case :
    (sc : ℕ) (m : Modifiers)
    → sc < 128
    → plain sc ≡ true
    → is_lower (get_or scancode_to_ascii_lower sc 0) ≡ true
    → scancode_to_ascii sc m ≡ (
      if xor m.shift_pressed m.capslock_on
          then get_or scancode_to_ascii_lower sc 0 - 32
          else get_or scancode_to_ascii_lower sc 0,
      m,
    )
unfolding character xor
letter_case sc m h p letter = scancode_to_ascii-plain sc m h p ∙ ap (λ c. (c, m)) cased
  where
    cased :
        character sc m
        ≡ (if xor m.shift_pressed m.capslock_on then lower_of sc - 32 else lower_of sc)
    cased = ground (arith, (row_facts sc h).0 letter)

character-lt : (sc : ℕ) (m : Modifiers) → sc < 128 → character sc m < 127
unfolding character
character-lt sc m h = ground (arith, (row_facts sc h).1, (row_facts sc h).2)

-- Every character is 0 or ASCII below 127, and a release gives none.
pub character_bounds :
    (sc : ℕ) (m : Modifiers)
    → sc < 256
    → ((scancode_to_ascii sc m).0 < 127) × (128 ≤ sc → (scancode_to_ascii sc m).0 ≡ 0)
unfolding scancode_to_ascii
character_bounds sc m h = elim (Bool-cases (ltb sc 128)) [
  | inl press ↦
      rw (is_release sc h, press)
        (ground (arith, character-lt sc m (ground arith)), λ ge. absurd (ground arith))
  | inr release ↦ rw (is_release sc h, release) (omega arith, λ ge. refl)
]
