-- ===== src/Console/Vga/Cursor.antt =====
-- The cursor on the screen and the hardware cursor.
use ki_os.Base.{
  ℕ, zero, suc, ◌+◌, ◌-◌, ◌*◌, ◌/◌, ◌%◌, ◌^◌, ◌≤◌, ◌<◌, ◌≡◌, ◌⊎◌, inl, inr, refl, ◌∙◌, bit_and,
  ◌&&◌, List, [], ◌∷◌, arith, ltb, leb, ◌==◌, if◌then◌else◌, length, length-set, Bool-cases, u16,
}
use ki_os.Base.Bits.{bit_and_high_fields, bit_and_low_mask}
use ki_os.Console.Vga.{
  Screen, copy_up, fill, scroll, update_cursor, putchar, print, putchar_at, write_char, wrap_line,
  scroll_if_below, make_entry, is_printable, vga_width, vga_height,
}

pub record IsValid (s : Screen) : Type 0 where
  pub size : length s.cells ≡ 2000
  pub column : s.cursor_x < 80
  pub row : s.cursor_y < 25

pub length-copy_up : (n i : ℕ) (cells : List ℕ) → length (copy_up n i cells) ≡ length cells
unfolding copy_up
length-copy_up zero i cells = refl
length-copy_up (suc n) i cells = length-copy_up n (i + 1) _ ∙ length-set cells i _

pub length-fill : (v n i : ℕ) (cells : List ℕ) → length (fill v n i cells) ≡ length cells
unfolding fill
length-fill v zero i cells = refl
length-fill v (suc n) i cells = length-fill v n (i + 1) _ ∙ length-set cells i v

pub length-scroll : (s : Screen) → length (scroll s).cells ≡ length s.cells
unfolding scroll
length-scroll s =
    length-fill (make_entry b' ' s.color) vga_width ((vga_height - 1) * vga_width)
      (copy_up ((vga_height - 1) * vga_width) 0 s.cells)
    ∙ length-copy_up ((vga_height - 1) * vga_width) 0 s.cells

tab_stop : (x : ℕ) → x < 80 → bit_and (x + 8) (2 ^ 32 - 8) ≡ (x + 8) / 8 * 8
tab_stop x h = ground (
  arith,
  bit_and_high_fields 3 ((x + 8) / 8) ((x + 8) % 8) (2 ^ 29 - 1),
  bit_and_low_mask 29 ((x + 8) / 8),
)

put_size : (c x y color : ℕ) (s : Screen) → length (putchar_at c x y color s).cells ≡ length s.cells
put_size c x y color s = elim (Bool-cases (ltb x vga_width && ltb y vga_height)) [
  | inl inside ↦ rw inside (length-set s.cells _ _)
  | inr outside ↦ rw outside refl
]

put_cursor :
    (c x y color : ℕ) (s : Screen)
    → ((putchar_at c x y color s).cursor_x ≡ s.cursor_x)
      × ((putchar_at c x y color s).cursor_y ≡ s.cursor_y)
put_cursor c x y color s = elim (Bool-cases (ltb x vga_width && ltb y vga_height)) [
  | inl inside ↦ rw inside (refl, refl)
  | inr outside ↦ rw outside (refl, refl)
]

-- Where the cursor is after one character, before the line wraps.
record Written (s : Screen) : Type 0 where
  size : length s.cells ≡ 2000
  column : s.cursor_x ≤ 87
  row : s.cursor_y ≤ 25
  one_at_most : (s.cursor_x ≤ 79) ⊎ (s.cursor_y ≤ 24)

write_char-Written : (c : ℕ) (s : Screen) → IsValid s → Written (write_char c s)
write_char-Written c s v = elim (Bool-cases (c == 10)) [
  | inl newline ↦ rw newline (record {
    size = v.size;
    column = omega arith;
    row = omega (arith, v.row);
    one_at_most = inl (omega arith);
  })
  | inr e₁ ↦ elim (Bool-cases (c == 13)) [
    | inl return ↦ rw (e₁, return) (stays 0 (omega arith))
    | inr e₂ ↦ elim (Bool-cases (c == 9)) [
      | inl tab ↦ rw (e₁, e₂, tab) (stays _ (omega (arith, tab_stop s.cursor_x v.column, v.column)))
      | inr e₃ ↦ elim (Bool-cases (c == 8)) [
        | inl back ↦
            rw (e₁, e₂, e₃, back)
              (elim (Bool-cases (ltb 0 s.cursor_x)) [
                | inl room ↦ rw room (erased)
                | inr left ↦ rw left (stays s.cursor_x (omega (arith, v.column)))
              ])
        | inr e₄ ↦ elim (Bool-cases (is_printable c)) [
          | inl print ↦ rw (e₁, e₂, e₃, e₄, print) printed
          | inr other ↦ rw (e₁, e₂, e₃, e₄, other) (stays s.cursor_x (omega (arith, v.column)))
        ]
      ]
    ]
  ]
]
  where
    stays : (x : ℕ) → x ≤ 87 → Written (record s { cursor_x = x })
    stays x h = record {
      size = v.size;
      column = h;
      row = omega (arith, v.row);
      one_at_most = inr (omega (arith, v.row));
    }

    put :
        (c x y color : ℕ) (t : Screen)
        → Written t
        → t.cursor_y ≤ 24
        → (Written (putchar_at c x y color t))
    put c x y color t w h = record {
      size = put_size c x y color t ∙ w.size;
      column = omega (arith, put_cursor c x y color t, w.column);
      row = omega (arith, put_cursor c x y color t, w.row);
      one_at_most = inr (omega (arith, put_cursor c x y color t, h));
    }

    left_by :
        (t : Screen)
        → Written t
        → t.cursor_y ≤ 24
        → t.cursor_x ≤ 79
        → Written (record t { cursor_x = t.cursor_x + 1 })
    left_by t w h k = record {
      size = w.size;
      column = omega (arith, k);
      row = w.row;
      one_at_most = inr h;
    }

    erased : Written (
        putchar_at b' '
          (s.cursor_x - 1)
          s.cursor_y
          s.color
          (record s { cursor_x = s.cursor_x - 1 }))
    erased =
        put b' ' (s.cursor_x - 1) s.cursor_y s.color (record s { cursor_x = s.cursor_x - 1 })
          (stays (s.cursor_x - 1) (omega (arith, v.column))) (omega (arith, v.row))

    printed : Written (record (putchar_at c s.cursor_x s.cursor_y s.color s) {
      cursor_x = (putchar_at c s.cursor_x s.cursor_y s.color s).cursor_x + 1;
    })
    printed =
        left_by (putchar_at c s.cursor_x s.cursor_y s.color s)
          (put c s.cursor_x s.cursor_y s.color s (stays s.cursor_x (omega (arith, v.column)))
            (omega (arith, v.row)))
          (omega (arith, put_cursor c s.cursor_x s.cursor_y s.color s, v.row))
          (omega (arith, put_cursor c s.cursor_x s.cursor_y s.color s, v.column))

-- The CRT controller of a VGA: port 0x3D4 selects a register, and port 0x3D5 is the register selected.
-- Registers 0x0E and 0x0F are the high and the low byte of the cursor's cell.
pub record Crtc : Type 0 where
  pub selected : ℕ
  pub register : ℕ → ℕ

-- Its state after the writes to ports, the last one first.
pub crtc : List (ℕ × ℕ) → Crtc
crtc [] = record { selected = 0; register = λ r. 0 }
crtc ((port, value) ∷ earlier) =
    let c = crtc earlier in
    if port == 0x3D4
    then record c { selected = value }
    else if port == 0x3D5
    then record c { register = λ r. if r == c.selected then value else c.register r }
    else c

pub hardware_cursor : List (ℕ × ℕ) → ℕ
unfolding crtc
hardware_cursor ports = (crtc ports).register 0x0E * 256 + (crtc ports).register 0x0F

wrap_line-column :
    (s : Screen)
    → Written s
    → ((wrap_line s).cursor_x ≤ 79)
      × ((wrap_line s).cursor_y ≤ 25)
      × (length (wrap_line s).cells ≡ 2000)
wrap_line-column s w = elim (Bool-cases (leb vga_width s.cursor_x)) [
  | inl past ↦ rw past (omega arith, ground (arith, w.one_at_most), w.size)
  | inr inside ↦ rw inside (ground arith, omega (arith, w.row), w.size)
]

scrolled-column : (s : Screen) → s.cursor_x ≤ 79 → (scroll s).cursor_x < 80
unfolding scroll
scrolled-column s h = omega (arith, h)

scrolled-row : (s : Screen) → (scroll s).cursor_y < 25
unfolding scroll
scrolled-row s = omega arith

scroll_if_below-row :
    (s : Screen)
    → (s.cursor_x ≤ 79) × (s.cursor_y ≤ 25) × (length s.cells ≡ 2000)
    → IsValid (scroll_if_below s)
scroll_if_below-row s w = elim (Bool-cases (leb vga_height s.cursor_y)) [
  | inl below ↦ rw below (record {
    size = length-scroll s ∙ w.2;
    column = scrolled-column s w.0;
    row = scrolled-row s;
  })
  | inr inside ↦ rw inside (record { size = w.2; column = omega (arith, w.0); row = ground arith })
]

update_cursor-hardware :
    (s : Screen)
    → IsValid s
    → hardware_cursor (update_cursor s).ports ≡ s.cursor_y * 80 + s.cursor_x
unfolding hardware_cursor crtc
update_cursor-hardware s v = omega (
  arith,
  v.column,
  v.row,
  bit_and_low_mask 8 (u16 (s.cursor_y * 80 + s.cursor_x)),
  bit_and_low_mask 8 (u16 (s.cursor_y * 80 + s.cursor_x) / 256),
)

scroll_if_below-IsValid : (s : Screen) → IsValid s → IsValid (scroll_if_below s)
scroll_if_below-IsValid s v =
    scroll_if_below-row s (omega (arith, v.column), omega (arith, v.row), v.size)

-- On a valid screen, vga_putchar of any character keeps the screen valid, with the cursor inside its
-- 80 columns and 25 rows, and leaves the hardware cursor at the cell of the cursor.
pub putchar-IsValid :
    (c : ℕ) (s : Screen)
    → IsValid s
    → IsValid (putchar c s)
      × (hardware_cursor (putchar c s).ports ≡ (putchar c s).cursor_y * 80 + (putchar c s).cursor_x)
unfolding putchar
putchar-IsValid c s v =
    let w = wrap_line-column _ (write_char-Written c _ (scroll_if_below-IsValid s v)) in
    let u = scroll_if_below-row _ w in
    (record { size = u.size; column = u.column; row = u.row }, update_cursor-hardware _ u)

pub print-IsValid : (cs : List ℕ) (s : Screen) → IsValid s → IsValid (print cs s)
unfolding print
print-IsValid [] s v = v
print-IsValid (c ∷ cs) s v = print-IsValid cs (putchar c s) (putchar-IsValid c s v).0
