-- ===== src/Console/Shell.antt =====
-- kernel/shell.c and kernel/commands.c: the line editor, the history and the choice of a command.
-- Arrays of characters are lists of bytes; a string read from one ends before its first 0.
pub mod Line
pub mod History
pub mod Words
pub mod Choice
pub mod Run
mod Tests
use ki_os.Base.{
  ℕ, zero, suc, ◌+◌, ◌-◌, ◌%◌, Bool, true, false, not, ◌&&◌, Option, none, some, List, [], ◌∷◌, ltb,
  ◌==◌, if◌then◌else◌, get_or, set, take, drop, replicate,
}
use ki_os.Text.{strlen, strcmp, strncmp}
use ki_os.Console.Vga.{Screen, putchar, is_printable}

-- The static variables of shell.c; `history` holds the string of each slot.
pub record Shell : Type 0 where
  pub history : List (List ℕ)
  pub history_count : ℕ
  pub history_index : ℕ
  pub buffer : List ℕ
  pub buffer_pos : ℕ

abbrev pub history_size : ℕ
history_size = 10

abbrev pub buffer_size : ℕ
buffer_size = 256

-- The string that a character array holds.
pub c_string : List ℕ → List ℕ
c_string [] = []
c_string (c ∷ cs) = let rest = c_string cs in if c == 0 then [] else c ∷ rest

-- `shell_add_to_history`
unfoldable pub add_to_history : List ℕ → Shell → Shell
add_to_history cmd s =
    if strlen cmd == 0
    then s
    else if ltb 0 s.history_count
        && (strcmp cmd (get_or s.history ((s.history_count - 1) % history_size) []) == 0)
    then s
    else record s {
      history = set s.history (s.history_count % history_size) cmd;
      history_count = s.history_count + 1;
      history_index = s.history_count + 1;
    }

-- The loop of `shell_clear_line`.
pub erase : ℕ → Screen → Screen
erase zero screen = screen
erase (suc pos) screen = erase pos (putchar 8 screen)

-- `shell_clear_line`
unfoldable pub clear_line : Shell × Screen → Shell × Screen
clear_line (s, screen) =
    (record s { buffer = set s.buffer 0 0; buffer_pos = 0 }, erase s.buffer_pos screen)

-- One key of `shell_readline` that does not end the line.
unfoldable pub press : ℕ → Shell × Screen → Shell × Screen
unfolding clear_line
press c (s, screen) =
    if c == 8
    then (if ltb 0 s.buffer_pos
        then (
          record s { buffer_pos = s.buffer_pos - 1; buffer = set s.buffer (s.buffer_pos - 1) 0 },
          putchar 8 screen,
        )
        else (s, screen))
    else if c == 27
    then clear_line (s, screen)
    else if is_printable c && ltb s.buffer_pos (buffer_size - 1)
    then (
      record s {
        buffer = set (set s.buffer s.buffer_pos c) (s.buffer_pos + 1) 0;
        buffer_pos = s.buffer_pos + 1;
      },
      putchar c screen,
    )
    else (s, screen)

-- The end of `shell_readline`, at the newline: the string that it returns.
pub finish : Shell × Screen → List ℕ × Shell × Screen
unfolding c_string
finish (s, screen) =
    let buffer = set s.buffer s.buffer_pos 0 in
    let line = c_string buffer in
    (line, add_to_history line (record s { buffer = buffer }), putchar b'\n' screen)

-- The loop of `shell_readline` over the characters that `kb_getchar` gives; `none` where it waits
-- for more.
pub read_keys : List ℕ → Shell × Screen → Option (List ℕ × Shell × Screen)
unfolding finish
read_keys [] st = none
read_keys (c ∷ cs) st =
    let rest = read_keys cs (press c st) in if c == b'\n' then some (finish st) else rest

-- `shell_readline`
pub readline : List ℕ → Shell × Screen → Option (List ℕ × Shell × Screen)
unfolding read_keys
readline keys (s, screen) = read_keys keys (
  record s { buffer = set s.buffer 0 0; buffer_pos = 0; history_index = s.history_count },
  screen,
)

-- `while (*cmd == ' ') cmd++;`
unfoldable pub skip_spaces : List ℕ → List ℕ
skip_spaces [] = []
skip_spaces (c ∷ cs) = let rest = skip_spaces cs in if c == b' ' then rest else c ∷ cs

-- `while (*args && *args != ' ') args++;`, counted.
unfoldable pub word_length : List ℕ → ℕ
word_length [] = 0
word_length (c ∷ cs) = let rest = word_length cs in if c == b' ' then 0 else rest + 1

-- What `shell_execute` does with a line.
pub data Execution : Type 0 where
  nothing : Execution
  runs : (index : ℕ) → (args : List ℕ) → Execution
  unknown : (word : List ℕ) → Execution

-- The loop over the commands, from index `i`.
pub find_command : (cmd : List ℕ) (cmd_len i : ℕ) (args : List ℕ) → List (List ℕ) → Execution
find_command cmd cmd_len i args [] = unknown (take cmd_len cmd)
find_command cmd cmd_len i args (name ∷ names) =
    let rest = find_command cmd cmd_len (i + 1) args names in
    if (strncmp cmd name cmd_len == 0) && (strlen name == cmd_len) then runs i args else rest

-- `shell_execute`, given the names of the commands.
pub execute : List (List ℕ) → List ℕ → Execution
unfolding skip_spaces word_length find_command
execute names line =
    let cmd = skip_spaces line in
    let cmd_len = word_length cmd in
    if strlen cmd == 0
    then nothing
    else find_command cmd cmd_len 0 (skip_spaces (drop cmd_len cmd)) names
