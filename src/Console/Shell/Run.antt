-- ===== src/Console/Shell/Run.antt =====
-- kernel/shell.c: the prompt, what shell_execute prints itself, and the rounds of shell_run. The
-- commands' functions and the state that they work on are parameters.
pub mod Served
use ki_os.Base.{ℕ, Option, some, List, [], ◌∷◌, ◌++◌, ◌>>=◌}
use ki_os.Console.Output.{
  Call, println, putchar, line, tinted, perform_all, vga_light_cyan, vga_light_green, vga_light_red,
  vga_white,
}
use ki_os.Console.Shell.{Shell, Execution, nothing, runs, unknown, readline, execute}
use ki_os.Console.Vga.{Screen}

-- `shell_print_prompt`
pub shell_print_prompt : List Call
shell_print_prompt =
    tinted "kiba" vga_light_green
    ∷ tinted "@" vga_white
    ∷ tinted "KiOS" vga_light_cyan
    ∷ tinted "> " vga_white
    ∷ []

-- The loop that prints the unknown word.
pub word_calls : List ℕ → List Call
word_calls [] = []
word_calls (c ∷ cs) = putchar c ∷ word_calls cs

-- What `shell_execute` prints where no command has the name.
pub unknown_lines : (word : List ℕ) → List Call
unfolding word_calls
unknown_lines word =
    tinted "Unknown command: " vga_light_red
    ∷ (word_calls word ++ (println [] ∷ line "Type 'help' for available commands." ∷ []))

-- `W` is the state of the commands, and `func i` the function of command `i`.
module _ {W : Type 0} (func : ℕ → List ℕ → W → Option (List Call × W)) (names : List (List ℕ)) where
  -- The effect of `shell_execute`.
  abbrev pub effect : Execution → W → Option (List Call × W)
  effect nothing w = some ([], w)
  effect (runs i args) w = func i args w
  effect (unknown word) w = some (unknown_lines word, w)

  -- One round of `shell_run`, with the keys up to the newline; `none` where a command does not return,
  -- or the keys end before.
  pub round : List ℕ → Shell × Screen × W → Option (Shell × Screen × W)
  unfolding shell_print_prompt unknown_lines
  round keys (s, screen, w) = do
    prompted ← perform_all shell_print_prompt screen
    (cmd, s', typed) ← readline keys (s, prompted)
    (calls, w') ← effect (execute names cmd) w
    shown ← perform_all calls typed
    some (s', shown, w')

  -- `shell_run`, for the lines that are typed.
  pub shell_run : List (List ℕ) → Shell × Screen × W → Option (Shell × Screen × W)
  unfolding round
  shell_run [] state = some state
  shell_run (keys ∷ rest) state = do state' ← round keys state; shell_run rest state'
