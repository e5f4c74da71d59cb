-- ===== src/Input/Keyboard/Tests.antt =====
-- The left shift key.
use ki_os.Base.{◌≡◌, true, false, arith}
use ki_os.Input.Keyboard.{Modifiers, scancode_to_ascii}
use ki_os.Input.Keyboard.Letters.{modifiers_lem}

abbrev caps : Modifiers
caps = record {
  shift_pressed = false;
  ctrl_pressed = false;
  alt_pressed = false;
  capslock_on = true;
}

modifiers_lem_example :
    let m' = (scancode_to_ascii 0x2A caps).1 in
    (m'.shift_pressed ≡ true)
    × (m'.ctrl_pressed ≡ false)
    × (m'.alt_pressed ≡ false)
    × (m'.capslock_on ≡ true)
modifiers_lem_example = modifiers_lem 0x2A caps (omega arith)
