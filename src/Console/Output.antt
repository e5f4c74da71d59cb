-- ===== src/Console/Output.antt =====
-- The calls of the console's functions in kernel/vga.h that the kernel's commands and reports make,
-- in their order.
pub mod Screens
use ki_os.Base.{ℕ, Option, some, none, List, [], ◌∷◌, ◌++◌, ◌>>=◌, replicate}
use ki_os.Base.Bytes.{bytes}
use Prim.Native.String.{String}
use ki_os.Console.Vga
use ki_os.Console.Vga.{Screen}

-- One call; the colours of `vga_print_colored` on black are all that the callers use.
pub data Call : Type 0 where
  print println : List ℕ → Call
  colored : (text : List ℕ) → (fg : ℕ) → Call
  dec hex : (value : ℕ) → Call
  set_color : (fg bg : ℕ) → Call
  putchar : (c : ℕ) → Call
  clear : Call

abbrev pub perform : Call → Screen → Option Screen
perform (print cs) s = some (Vga.print cs s)
perform (println cs) s = some (Vga.println cs s)
perform (colored cs fg) s = some (Vga.print_colored cs fg 0 s)
perform (dec value) s = Vga.print_dec value s
perform (hex value) s = some (Vga.print_hex value s)
perform (set_color fg bg) s = some (Vga.set_color fg bg s)
perform (putchar c) s = some (Vga.putchar c s)
perform clear s = some (Vga.clear s)

pub perform_all : List Call → Screen → Option Screen
perform_all [] s = some s
perform_all (c ∷ cs) s = do s' ← perform c s; perform_all cs s'

-- `vga_print("…")` and its kin of a literal.
abbrev pub text : String → Call
text t = print (bytes t)

abbrev pub line : String → Call
line t = println (bytes t)

abbrev pub tinted : String → ℕ → Call
tinted t fg = colored (bytes t) fg

abbrev pub newline : Call
newline = println []

-- `vga_color_t`
abbrev pub vga_black : ℕ
vga_black = 0

abbrev pub vga_red : ℕ
vga_red = 4

abbrev pub vga_light_gray : ℕ
vga_light_gray = 7

abbrev pub vga_light_green : ℕ
vga_light_green = 10

abbrev pub vga_light_cyan : ℕ
vga_light_cyan = 11

abbrev pub vga_light_red : ℕ
vga_light_red = 12

abbrev pub vga_yellow : ℕ
vga_yellow = 14

abbrev pub vga_white : ℕ
vga_white = 15
