-- ===== src/Console/Vga/Printing.antt =====
-- The printing functions on a valid screen.
use ki_os.Base.{
  ℕ, ◌^◌, ◌-◌, ◌*◌, ◌≡◌, ◌≢◌, Bool, true, false, some, List, [], ◌∷◌, arith, ltb, ◌==◌,
  if◌then◌else◌, ==_ne, ◌∙◌, ap, none,
}
use ki_os.Console.Vga.{
  Screen, vga_width, vga_height, make_entry, set_color, clear, putchar, print, println,
  print_colored, dec_digits, put_back, print_dec, print_hex,
}
use ki_os.Console.Vga.Cursor.{IsValid, putchar-IsValid, print-IsValid, length-fill}

pub println-IsValid : (cs : List ℕ) (s : Screen) → IsValid s → IsValid (println cs s)
unfolding println
println-IsValid cs s v = (putchar-IsValid b'\n' (print cs s) (print-IsValid cs s v)).0

pub recolored : (color : ℕ) (s : Screen) → IsValid s → IsValid (record s { color = color })
recolored color s v = record { size = v.size; column = v.column; row = v.row }

pub set_color-IsValid : (fg bg : ℕ) (s : Screen) → IsValid s → IsValid (set_color fg bg s)
unfolding set_color
set_color-IsValid fg bg s v = recolored _ s v

pub print_colored-IsValid :
    (cs : List ℕ) (fg bg : ℕ) (s : Screen) → IsValid s → IsValid (print_colored cs fg bg s)
unfolding print_colored
print_colored-IsValid cs fg bg s v = recolored _ _ (print-IsValid cs _ (recolored _ s v))

pub clear-IsValid : (s : Screen) → IsValid s → IsValid (clear s)
unfolding clear
clear-IsValid s v = record {
  size = length-fill (make_entry b' ' 0) (vga_width * vga_height) 0 s.cells ∙ v.size;
  column = omega arith;
  row = omega arith;
}

put_back-IsValid : (ds : List ℕ) (s : Screen) → IsValid s → IsValid (put_back ds s)
unfolding put_back
put_back-IsValid [] s v = v
put_back-IsValid (d ∷ ds) s v = (putchar-IsValid d _ (put_back-IsValid ds s v)).0

digits-IsValid :
    (b : Bool) (ds : List ℕ) (s : Screen)
    → IsValid s
    → IsValid (if b then putchar b'0' s else put_back ds s)
digits-IsValid true ds s v = (putchar-IsValid b'0' s v).0
digits-IsValid false ds s v = put_back-IsValid ds s v

sign-IsValid : (b : Bool) (s : Screen) → IsValid s → IsValid (if b then putchar b'-' s else s)
sign-IsValid true s v = (putchar-IsValid b'-' s v).0
sign-IsValid false s v = v

-- What `print_dec` shows of a value that it can negate.
abbrev dec_screen : ℕ → Screen → Screen
dec_screen value s =
    let negative = ltb (2 ^ 63) value in
    let magnitude = if negative then 2 ^ 64 - value else value in
    let s' = if negative then putchar b'-' s else s in
    if magnitude == 0 then putchar b'0' s' else put_back (dec_digits 20 magnitude) s'

pub print_dec-IsValid :
    (value : ℕ) (s : Screen)
    → IsValid s
    → value ≢ 2 ^ 63
    → (t : Screen) × (print_dec value s ≡ some t) × IsValid t
unfolding print_dec
print_dec-IsValid value s v ne = (
  dec_screen value s,
  ap (λ b. if b then none else some (dec_screen value s)) (==_ne value (2 ^ 63) ne),
  digits-IsValid _ _ _ (sign-IsValid (ltb (2 ^ 63) value) s v),
)

pub print_hex-IsValid : (value : ℕ) (s : Screen) → IsValid s → IsValid (print_hex value s)
unfolding print_hex
print_hex-IsValid value s v = print-IsValid _ _ (print-IsValid (b'0' ∷ b'x' ∷ []) s v)
