-- ===== src/Console/Vga.antt =====
-- kernel/vga.h and kernel/vga.c: the text console of 80 columns and 25 rows.
-- `cells` is the frame buffer and `ports` the writes to the cursor's ports, newest first. A `char`
-- is its byte; it is signed, so the bytes from 128 on are below ' '.
pub mod Cursor
pub mod Scroll
pub mod Numbers
pub mod Printing
mod Tests
use ki_os.Base.{
  ℕ, zero, suc, ◌+◌, ◌-◌, ◌*◌, ◌/◌, ◌%◌, ◌^◌, bit_and, bit_or, Bool, true, false, not, ◌&&◌, Option,
  none, some, List, [], ◌∷◌, ltb, leb, ◌==◌, if◌then◌else◌, get_or, set, replicate, u8, u16, sub64,
}

-- `vga_buffer`, `vga_cursor_x`, `vga_cursor_y` and `vga_color`
pub record Screen : Type 0 where
  pub cells : List ℕ
  pub cursor_x : ℕ
  pub cursor_y : ℕ
  pub color : ℕ
  pub ports : List (ℕ × ℕ)

abbrev pub vga_width : ℕ
vga_width = 80

abbrev pub vga_height : ℕ
vga_height = 25

abbrev pub ctrl_port : ℕ
ctrl_port = 0x3D4

abbrev pub data_port : ℕ
data_port = 0x3D5

-- `vga_make_color`
abbrev pub make_color : (fg bg : ℕ) → ℕ
make_color fg bg = u8 (bit_or fg (bg * 2 ^ 4))

-- `vga_make_entry`; the signed character is extended.
abbrev pub make_entry : (c color : ℕ) → ℕ
make_entry c color = bit_or (if ltb c 128 then c else c + 0xFF00) (u16 (color * 2 ^ 8))

-- `vga_set_color`
pub set_color : (fg bg : ℕ) → Screen → Screen
set_color fg bg s = record s { color = make_color fg bg }

-- `vga_update_cursor`
abbrev pub update_cursor : Screen → Screen
update_cursor s =
    let pos = u16 (s.cursor_y * vga_width + s.cursor_x) in
    record s {
      ports =
          (data_port, u8 (bit_and (pos / 2 ^ 8) 0xFF))
          ∷ (ctrl_port, 0x0E)
          ∷ (data_port, u8 (bit_and pos 0xFF))
          ∷ (ctrl_port, 0x0F)
          ∷ s.ports;
    }

-- The first loop of `vga_scroll`, from cell `i` with `left` cells to go.
pub copy_up : ℕ → ℕ → List ℕ → List ℕ
copy_up zero i cells = cells
copy_up (suc left) i cells = copy_up left (i + 1) (set cells i (get_or cells (i + vga_width) 0))

-- A loop that sets `left` cells from `i` on.
pub fill : ℕ → ℕ → ℕ → List ℕ → List ℕ
fill v zero i cells = cells
fill v (suc left) i cells = fill v left (i + 1) (set cells i v)

-- `vga_scroll`
pub scroll : Screen → Screen
unfolding copy_up fill
scroll s = record s {
  cells =
      fill (make_entry b' ' s.color) vga_width ((vga_height - 1) * vga_width)
        (copy_up ((vga_height - 1) * vga_width) 0 s.cells);
  cursor_y = vga_height - 1;
}

-- `vga_clear`
pub clear : Screen → Screen
unfolding fill
clear s = update_cursor (record s {
  cells = fill (make_entry b' ' 0) (vga_width * vga_height) 0 s.cells;
  cursor_x = 0;
  cursor_y = 0;
})

-- `vga_putchar_at`
abbrev pub putchar_at : (c x y color : ℕ) → Screen → Screen
putchar_at c x y color s =
    if ltb x vga_width && ltb y vga_height
    then record s { cells = set s.cells (y * vga_width + x) (make_entry c color) }
    else s

abbrev pub is_printable : ℕ → Bool
is_printable c = leb b' ' c && ltb c 128

-- `if (vga_cursor_y >= VGA_HEIGHT) vga_scroll();`
abbrev pub scroll_if_below : Screen → Screen
scroll_if_below s = if leb vga_height s.cursor_y then scroll s else s

-- The `switch` of `vga_putchar`.
abbrev pub write_char : ℕ → Screen → Screen
write_char c s =
    if c == b'\n'
    then record s { cursor_x = 0; cursor_y = s.cursor_y + 1 }
    else if c == b'\r'
    then record s { cursor_x = 0 }
    else if c == b'\t'
    then record s { cursor_x = bit_and (s.cursor_x + 8) (2 ^ 32 - 8) }
    else if c == 8
    then (if ltb 0 s.cursor_x
        then putchar_at b' ' (s.cursor_x - 1) s.cursor_y s.color
            (record s { cursor_x = s.cursor_x - 1 })
        else s)
    else if is_printable c
    then (let s' = putchar_at c s.cursor_x s.cursor_y s.color s in
        record s' { cursor_x = s'.cursor_x + 1 })
    else s

-- `if (vga_cursor_x >= VGA_WIDTH) { vga_cursor_x = 0; vga_cursor_y++; }`
abbrev pub wrap_line : Screen → Screen
wrap_line s =
    if leb vga_width s.cursor_x then record s { cursor_x = 0; cursor_y = s.cursor_y + 1 } else s

-- `vga_putchar`
unfoldable pub putchar : ℕ → Screen → Screen
putchar c s = update_cursor (scroll_if_below (wrap_line (write_char c (scroll_if_below s))))

-- `vga_print`, of the characters before the terminator.
unfoldable pub print : List ℕ → Screen → Screen
print [] s = s
print (c ∷ cs) s = print cs (putchar c s)

-- `vga_println`
pub println : List ℕ → Screen → Screen
unfolding print
println cs s = putchar b'\n' (print cs s)

-- `vga_print_colored`
pub print_colored : List ℕ → (fg bg : ℕ) → Screen → Screen
unfolding print
print_colored cs fg bg s = record (print cs (record s { color = make_color fg bg })) {
  color = s.color;
}

-- The loop of `vga_print_dec` that fills its buffer, the lowest digit first; 20 digits are enough
-- for a value below 2 ^ 63.
pub dec_digits : ℕ → ℕ → List ℕ
dec_digits zero value = []
dec_digits (suc fuel) value =
    let rest = dec_digits fuel (value / 10) in
    if ltb 0 value then (b'0' + value % 10) ∷ rest else []

-- `while (i > 0) vga_putchar(buffer[--i]);`
pub put_back : List ℕ → Screen → Screen
put_back [] s = s
put_back (d ∷ ds) s = putchar d (put_back ds s)

-- `vga_print_dec` of an `int64_t`, given as its 64 bits; the least value, whose negation overflows,
-- is undefined.
unfoldable pub print_dec : ℕ → Screen → Option Screen
print_dec value s =
    if value == 2 ^ 63
    then none
    else let negative = ltb (2 ^ 63) value in
      let magnitude = if negative then 2 ^ 64 - value else value in
      let s' = if negative then putchar b'-' s else s in
      some (if magnitude == 0 then putchar b'0' s' else put_back (dec_digits 20 magnitude) s')

-- `hex_chars[d]`
abbrev pub hex_char : ℕ → ℕ
hex_char d = if ltb d 10 then b'0' + d else b'A' + (d - 10)

-- The loop of `vga_print_hex`, which fills `buffer[2 .. 18)` from its end: `n` digits of `value`,
-- before `buffer`.
pub hex_digits : ℕ → ℕ → List ℕ → List ℕ
hex_digits zero value buffer = buffer
hex_digits (suc n) value buffer =
    hex_digits n (value / 2 ^ 4) (hex_char (bit_and value 0xF) ∷ buffer)

-- The leading zeros are skipped, but for a last digit.
pub skip_zeros : List ℕ → List ℕ
skip_zeros [] = []
skip_zeros (c ∷ []) = c ∷ []
skip_zeros (c ∷ d ∷ cs) = let rest = skip_zeros (d ∷ cs) in if c == b'0' then rest else c ∷ d ∷ cs

-- `vga_print_hex`
pub print_hex : ℕ → Screen → Screen
print_hex value s = print (skip_zeros (hex_digits 16 value [])) (print (b'0' ∷ b'x' ∷ []) s)
