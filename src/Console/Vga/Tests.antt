-- ===== src/Console/Vga/Tests.antt =====
-- A blank screen, with the cursor in the last row.
use ki_os.Base.{
  ℕ, ◌+◌, ◌*◌, ◌^◌, ◌≡◌, ◌<◌, ◌⊎◌, some, List, [], ◌∷◌, arith, replicate, length, length-replicate,
}
use ki_os.Console.Vga.{Screen, putchar, print, print_dec}
use ki_os.Console.Vga.Cursor.{IsValid, hardware_cursor, putchar-IsValid}
use ki_os.Console.Vga.Numbers.{Digits, decimal, print_dec_lem}

blank : List ℕ
blank = replicate 2000 0x0F20

length-blank : length blank ≡ 2000
unfolding blank
length-blank = length-replicate {A = ℕ} 2000 0x0F20

abbrev screen : Screen
screen = record { cells = blank; cursor_x = 79; cursor_y = 24; color = 0x0F; ports = [] }

screen-IsValid : IsValid screen
screen-IsValid = record { size = length-blank; column = omega arith; row = omega arith }

putchar-IsValid_example :
    IsValid (putchar b'x' screen)
    × (hardware_cursor (putchar b'x' screen).ports
        ≡ (putchar b'x' screen).cursor_y * 80 + (putchar b'x' screen).cursor_x)
putchar-IsValid_example = putchar-IsValid b'x' screen screen-IsValid

print_dec_lem_example :
    (ds : List ℕ) × Digits ds
    × (((2026 < 2 ^ 63) × (decimal 0 ds ≡ 2026) × (print_dec 2026 screen ≡ some (print ds screen)))
        ⊎ ((2 ^ 63 < 2026)
            × (decimal 0 ds + 2026 ≡ 2 ^ 64)
            × (print_dec 2026 screen ≡ some (print (b'-' ∷ ds) screen))))
print_dec_lem_example = print_dec_lem 2026 screen (omega arith) (omega arith)
