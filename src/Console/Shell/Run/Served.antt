-- ===== src/Console/Shell/Run/Served.antt =====
-- What shell_run makes of the lines that are typed.
use ki_os.Base.{◌>>=◌, none, ℕ, ◌≡◌, Option, some, List, [], ◌∷◌, ◌++◌, All, length}
use ki_os.Console.Output.{Call, perform_all}
use ki_os.Console.Output.Screens.{AllDefined}
use ki_os.Console.Shell.{Shell, runs, unknown}
use ki_os.Console.Shell.Line.{edit_all}
use ki_os.Console.Shell.Words.{IsBlank, Splits}
use ki_os.Console.Shell.Choice.{Chosen}
use ki_os.Text.Compare.{IsChar}
use ki_os.Console.Shell.Run.{unknown_lines, shell_run}
use ki_os.Console.Vga.{Screen}
use ki_os.Console.Vga.Cursor.{IsValid}

-- The buffer has its size and the screen is valid.
abbrev pub Kept : Shell × Screen → Type 0
Kept st = (length st.0.buffer ≡ 256) × IsValid st.1

-- The keys of some lines, each ended by the newline.
abbrev pub keys_of : List (List ℕ) → List (List ℕ)
keys_of [] = []
keys_of (typed ∷ rest) = (typed ++ (b'\n' ∷ [])) ∷ keys_of rest

module _ {W : Type 0} (func : ℕ → List ℕ → W → Option (List Call × W)) (names : List (List ℕ)) where
  -- The effect of a typed line, by its words: nothing for blanks, the first command with the word's
  -- name, or the report of an unknown word.
  pub data Acts (typed : List ℕ) (w : W) : Option (List Call × W) → Type 0 where
    blank : All IsBlank (edit_all typed []) → Acts typed w (some ([], w))
    command :
        (word args : List ℕ) (i : ℕ) {r : Option (List Call × W)}
        → Splits (edit_all typed []) word args
        → Chosen word args 0 names (runs i args)
        → func i args w ≡ r
        → Acts typed w r
    no_command :
        (word args : List ℕ)
        → Splits (edit_all typed []) word args
        → Chosen word args 0 names (unknown word)
        → Acts typed w (some (unknown_lines word, w))

  -- The lines run one after the other, up to the first whose command does not return or that prints
  -- a number that cannot be printed.
  pub data Session : List (List ℕ) → W → Option W → Type 0 where
    ready : {w : W} → Session [] w (some w)
    no_return :
        {typed : List ℕ} {rest : List (List ℕ)} {w : W}
        → Acts typed w none
        → Session (typed ∷ rest) w none
    no_output :
        {typed : List ℕ} {rest : List (List ℕ)} {w w' : W} (calls : List Call)
        → Acts typed w (some (calls, w'))
        → ¬ AllDefined calls
        → Session (typed ∷ rest) w none
    serves :
        {typed : List ℕ} {rest : List (List ℕ)} {w w' : W} {r : Option W} (calls : List Call)
        → Acts typed w (some (calls, w'))
        → AllDefined calls
        → Session rest w' r
        → Session (typed ∷ rest) w r

-- The shell's own end: none, or a buffer of 256 bytes, a valid screen and the commands' state.
pub data Ends {W : Type 0} : Option W → Option (Shell × Screen × W) → Type 0 where
  stopped : Ends none none
  waits :
      (s : Shell) (screen : Screen) {w : W}
      → length s.buffer ≡ 256
      → IsValid screen
      → Ends (some w) (some (s, screen, w))

module _ {W : Type 0} (func : ℕ → List ℕ → W → Option (List Call × W)) (names : List (List ℕ))
    (chars : All (All IsChar) names) where
  -- What follows the choice in a round, and the rounds after it.
  abbrev after :
      Option (List Call × W) → Shell → Screen → List (List ℕ) → Option (Shell × Screen × W)
  after x s t rest = do
    state ← (do (calls, w) ← x; shown ← perform_all calls t; some (s, shown, w))
    shell_run func names (keys_of rest) state
