-- ===== src/Console/Shell/Tests.antt =====
-- A shell with two commands and an empty history.
use ki_os.Base.{
  ℕ, ◌≡◌, ◌≢◌, ◌<◌, ◌⊎◌, refl, some, List, [], ◌∷◌, ◌++◌, All, arith, replicate, get_or,
}
use ki_os.Text.Compare.{IsChar}
use ki_os.Console.Vga.{Screen}
use ki_os.Console.Shell.{Shell, readline, execute, add_to_history}
use ki_os.Console.Shell.Line.{edit_all, readline_lem}
use ki_os.Console.Shell.History.{Remembers, add_to_history_lem}
use ki_os.Console.Shell.Choice.{Answers, execute_lem}

abbrev shell : Shell
shell = record {
  history = replicate 10 [];
  history_count = 0;
  history_index = 0;
  buffer = replicate 256 0;
  buffer_pos = 0;
}

abbrev screen : Screen
screen = record { cells = []; cursor_x = 0; cursor_y = 0; color = 0x0F; ports = [] }

-- The keys m, x, backspace, e.
abbrev keys : List ℕ
keys = b'm' ∷ b'x' ∷ 8 ∷ b'e' ∷ []

readline_lem_example :
    (s' : Shell) × (screen' : Screen) × (readline (keys ++ (b'\n' ∷ [])) (shell, screen)
      ≡ some (edit_all keys [], s', screen'))
readline_lem_example =
    readline_lem keys [] shell screen refl
      (omega arith, (omega arith, (omega arith, (omega arith, tt))))

-- The names "me" and "mem", and a line with the second and an argument.
abbrev me : List ℕ
me = b'm' ∷ b'e' ∷ []

abbrev mem : List ℕ
mem = b'm' ∷ b'e' ∷ b'm' ∷ []

abbrev names : List (List ℕ)
names = me ∷ mem ∷ []

abbrev line : List ℕ
line = b' ' ∷ b'm' ∷ b'e' ∷ b'm' ∷ b' ' ∷ b'x' ∷ []

me-chars : All IsChar me
me-chars = ((omega arith, omega arith), ((omega arith, omega arith), tt))

mem-chars : All IsChar mem
mem-chars = ((omega arith, omega arith), me_rest)
  where
    me_rest : All IsChar (b'e' ∷ b'm' ∷ [])
    me_rest = ((omega arith, omega arith), ((omega arith, omega arith), tt))

line-chars : All IsChar line
line-chars = (
  (omega arith, omega arith),
  (
    (omega arith, omega arith),
    (
      (omega arith, omega arith),
      ((omega arith, omega arith), ((omega arith, omega arith), ((omega arith, omega arith), tt))),
    ),
  ),
)

execute_lem_example : Answers names line (execute names line)
execute_lem_example = execute_lem names line (me-chars, (mem-chars, tt)) line-chars

empty-Remembers : Remembers shell []
empty-Remembers = record {
  slots = refl;
  count = refl;
  recent = λ i a b. absurd (omega arith);
  strings = tt;
}

add_to_history_lem_example :
    (((mem ≡ []) ⊎ ((0 < 0) × (get_or [] 0 [] ≡ mem))) × (add_to_history mem shell ≡ shell))
    ⊎ ((mem ≢ [])
        × ((0 < 0) → get_or [] 0 [] ≢ mem)
        × Remembers (add_to_history mem shell) (mem ∷ []))
add_to_history_lem_example = add_to_history_lem mem shell [] empty-Remembers mem-chars
