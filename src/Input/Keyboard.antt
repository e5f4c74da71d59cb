-- ===== src/Input/Keyboard.antt =====
-- kernel/keyboard.h: scancodes to characters, with the modifier keys.
mod Tables
pub mod Letters
mod Tests
pub mod Poll
unfoldable pub use Tables.{scancode_to_ascii_lower, scancode_to_ascii_upper}
use ki_os.Base.{
  ℕ, ◌-◌, Bool, true, false, not, ◌&&◌, ◌||◌, ltb, leb, ◌==◌, if◌then◌else◌, get_or, bit_and,
}

-- The four static modifier states.
pub record Modifiers : Type 0 where
  pub shift_pressed : Bool
  pub ctrl_pressed : Bool
  pub alt_pressed : Bool
  pub capslock_on : Bool

abbrev pub sc_release : ℕ
sc_release = 0x80

abbrev pub sc_lctrl : ℕ
sc_lctrl = 0x1D

abbrev pub sc_lshift : ℕ
sc_lshift = 0x2A

abbrev pub sc_rshift : ℕ
sc_rshift = 0x36

abbrev pub sc_lalt : ℕ
sc_lalt = 0x38

abbrev pub sc_capslock : ℕ
sc_capslock = 0x3A

-- A key is let go.
abbrev pub on_release : ℕ → Modifiers → Modifiers
on_release key m =
    if (key == sc_lshift) || (key == sc_rshift)
    then record m { shift_pressed = false }
    else if key == sc_lctrl
    then record m { ctrl_pressed = false }
    else if key == sc_lalt
    then record m { alt_pressed = false }
    else m

-- The character of a key that is no modifier: CapsLock inverts the case of letters only.
unfoldable pub character : ℕ → Modifiers → ℕ
character scancode m =
    let lower = get_or scancode_to_ascii_lower scancode 0 in
    let letter = m.capslock_on && leb b'a' lower && leb lower b'z' in
    let use_upper = if letter then not m.shift_pressed else m.shift_pressed in
    if use_upper then get_or scancode_to_ascii_upper scancode 0 else lower

-- `kb_scancode_to_ascii`: the character, 0 for none, and the new modifiers.
unfoldable pub scancode_to_ascii : ℕ → Modifiers → ℕ × Modifiers
scancode_to_ascii scancode m =
    if not (bit_and scancode sc_release == 0)
    then (0, on_release (bit_and scancode (255 - sc_release)) m)
    else if (scancode == sc_lshift) || (scancode == sc_rshift)
    then (0, record m { shift_pressed = true })
    else if scancode == sc_lctrl
    then (0, record m { ctrl_pressed = true })
    else if scancode == sc_lalt
    then (0, record m { alt_pressed = true })
    else if scancode == sc_capslock
    then (0, record m { capslock_on = not m.capslock_on })
    else if ltb scancode 128
    then (character scancode m, m)
    else (0, m)
