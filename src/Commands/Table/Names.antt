-- ===== src/Commands/Table/Names.antt =====
-- The choice of a command of the table by its name.
use ki_os.Base.{
  Option, some, none, ℕ, ◌<◌, ◌≡◌, ◌≢◌, inl, inr, refl, ap, sym, ◌∙◌, Bool, true, false, not, ◌&&◌,
  ◌||◌, List, [], ◌∷◌, All, arith, ◌==◌, length, get_or, zero, suc, ltb, ==_self, ==_ne,
}
use mathlib.Core.Bool.{false≢true}
use ki_os.Base.Bits.{all_below, all_below_sound}
use ki_os.Base.Bytes.{bytes}
use ki_os.Text.Compare.{IsChar}
use ki_os.Console.Shell.{Execution, runs, execute}
use ki_os.Console.Shell.Choice.{Chosen, execute-Chosen}
use ki_os.Console.Shell.Words.{Splits, Splits-word, Splits-nonempty}
use ki_os.Commands.Table.{
  Command, cmd_help, cmd_clear, cmd_info, cmd_echo, cmd_color, cmd_mem, cmd_mmap, cmd_meminfo,
  cmd_memtest, cmd_time, cmd_uptime, cmd_tasks, cmd_reboot, cmd_shutdown, cmd_halt, cmd_netconf,
  cmd_fault, cmd_vmtest, cmd_usertest, Entry, shell_commands, names,
}
use native.Mathlib.Decide.{ℕ_discrete}

-- The names of the commands.
abbrev pub command_names : List (List ℕ)
command_names = names shell_commands

same_text : List ℕ → List ℕ → Bool
same_text [] [] = true
same_text [] (_ ∷ _) = false
same_text (_ ∷ _) [] = false
same_text (a ∷ s) (b ∷ t) = (a == b) && same_text s t

same_text_self : (s : List ℕ) → same_text s s ≡ true
unfolding same_text
same_text_self [] = refl
same_text_self (a ∷ s) = rw (==_self a, same_text_self s) refl

is_char : ℕ → Bool
is_char c = ltb 0 c && ltb c 256

all_chars : List ℕ → Bool
all_chars [] = true
all_chars (c ∷ s) = is_char c && all_chars s

all_texts : List (List ℕ) → Bool
all_texts [] = true
all_texts (s ∷ ss) = all_chars s && all_texts ss

all_chars_sound : (s : List ℕ) → all_chars s ≡ true → All IsChar s
unfolding all_chars is_char
all_chars_sound [] e = tt
all_chars_sound (c ∷ s) e = (ground (arith, e), all_chars_sound s (ground (arith, e)))

all_texts_sound : (ss : List (List ℕ)) → all_texts ss ≡ true → All (All IsChar) ss
unfolding all_texts
all_texts_sound [] e = tt
all_texts_sound (s ∷ ss) e =
    (all_chars_sound s (ground (arith, e)), all_texts_sound ss (ground (arith, e)))

pub names_chars : All (All IsChar) command_names
unfolding names all_texts all_chars is_char
names_chars = all_texts_sound command_names refl

-- Two different names, neither of which is empty.
differ : ℕ → ℕ → Bool
differ i j =
    ((i == j) || not (same_text (get_or command_names i []) (get_or command_names j [])))
    && not (same_text (get_or command_names i []) [])

distinct_table : all_below 19 (λ i. all_below 19 (differ i)) ≡ true
unfolding all_below differ same_text names
distinct_table = refl

distinct : (i j : ℕ) → i < 19 → j < 19 → differ i j ≡ true
distinct i j hi hj =
    all_below_sound 19 (differ i) j
      (all_below_sound 19 (λ k. all_below 19 (differ k)) i distinct_table hi) hj

apart : (i j : ℕ) → i < 19 → j < 19 → i ≢ j → get_or command_names i [] ≢ get_or command_names j []
unfolding differ
apart i j hi hj ne e = clash (distinct i j hi hj)
  where
    clash :
        (((i == j) || not (same_text (get_or command_names i []) (get_or command_names j [])))
            && not (same_text (get_or command_names i []) []))
          ≡ true
        → ⊥
    clash = rw (==_ne i j ne, e, same_text_self (get_or command_names j [])) (λ h. false≢true h)

count : length command_names ≡ 19
unfolding names
count = refl

chosen_index :
    {w args : List ℕ} {x : Execution} (i : ℕ)
    → i < 19
    → get_or command_names i [] ≡ w
    → Chosen w args 0 command_names x
    → x ≡ runs i args
chosen_index {args = args} i hi e (Chosen.first k lt here before) = elim (ℕ_discrete k i) [
  | yes same ↦ ap (λ n. runs n args) (omega (arith, same))
  | no ne ↦ absurd (apart k i (omega (arith, count)) hi ne (here ∙ sym e))
]
chosen_index i hi e (Chosen.missing never) = absurd (never i (omega (arith, count)) e)

-- The name by which each command is typed.
unfoldable pub name_of : Command → List ℕ
name_of cmd_help = bytes "help"
name_of cmd_clear = bytes "clear"
name_of cmd_info = bytes "info"
name_of cmd_echo = bytes "echo"
name_of cmd_color = bytes "color"
name_of cmd_mem = bytes "mem"
name_of cmd_mmap = bytes "mmap"
name_of cmd_meminfo = bytes "meminfo"
name_of cmd_memtest = bytes "memtest"
name_of cmd_time = bytes "time"
name_of cmd_uptime = bytes "uptime"
name_of cmd_tasks = bytes "tasks"
name_of cmd_reboot = bytes "reboot"
name_of cmd_shutdown = bytes "shutdown"
name_of cmd_halt = bytes "halt"
name_of cmd_netconf = bytes "netconf"
name_of cmd_fault = bytes "fault"
name_of cmd_vmtest = bytes "vmtest"
name_of cmd_usertest = bytes "usertest"

place : Command → ℕ
place cmd_help = 0
place cmd_clear = 1
place cmd_info = 2
place cmd_echo = 3
place cmd_color = 4
place cmd_mem = 5
place cmd_mmap = 6
place cmd_meminfo = 7
place cmd_memtest = 8
place cmd_time = 9
place cmd_uptime = 10
place cmd_tasks = 11
place cmd_reboot = 12
place cmd_shutdown = 13
place cmd_halt = 14
place cmd_netconf = 15
place cmd_fault = 16
place cmd_vmtest = 17
place cmd_usertest = 18

-- The entry at an index.
pub entry_at : ℕ → List Entry → Option Entry
entry_at i [] = none
entry_at zero (e ∷ es) = some e
entry_at (suc i) (e ∷ es) = entry_at i es

Placed : Command → Type 0
Placed c =
    (place c < 19)
    × (get_or command_names (place c) [] ≡ name_of c)
    × ((e : Entry) × (entry_at (place c) shell_commands ≡ some e) × (e.func ≡ c))

place-Placed : (c : Command) → Placed c
unfolding Placed place name_of entry_at names
place-Placed cmd_help = (omega arith, refl, (_, refl, refl))
place-Placed cmd_clear = (omega arith, refl, (_, refl, refl))
place-Placed cmd_info = (omega arith, refl, (_, refl, refl))
place-Placed cmd_echo = (omega arith, refl, (_, refl, refl))
place-Placed cmd_color = (omega arith, refl, (_, refl, refl))
place-Placed cmd_mem = (omega arith, refl, (_, refl, refl))
place-Placed cmd_mmap = (omega arith, refl, (_, refl, refl))
place-Placed cmd_meminfo = (omega arith, refl, (_, refl, refl))
place-Placed cmd_memtest = (omega arith, refl, (_, refl, refl))
place-Placed cmd_time = (omega arith, refl, (_, refl, refl))
place-Placed cmd_uptime = (omega arith, refl, (_, refl, refl))
place-Placed cmd_tasks = (omega arith, refl, (_, refl, refl))
place-Placed cmd_reboot = (omega arith, refl, (_, refl, refl))
place-Placed cmd_shutdown = (omega arith, refl, (_, refl, refl))
place-Placed cmd_halt = (omega arith, refl, (_, refl, refl))
place-Placed cmd_netconf = (omega arith, refl, (_, refl, refl))
place-Placed cmd_fault = (omega arith, refl, (_, refl, refl))
place-Placed cmd_vmtest = (omega arith, refl, (_, refl, refl))
place-Placed cmd_usertest = (omega arith, refl, (_, refl, refl))

-- A line of characters that consists of blanks, the name of one of the 19 commands, and, after further
-- blanks, arguments, runs the entry of `shell_commands` whose function is that command, with these
-- arguments.
pub command_chosen :
    (c : Command) (line args : List ℕ)
    → All IsChar line
    → Splits line (name_of c) args
    → (i : ℕ) × (e : Entry) × (execute command_names line ≡ runs i args)
      × (entry_at i shell_commands ≡ some e)
      × (e.func ≡ c)
unfolding Placed
command_chosen c line args chars split =
    let (small, named, (e, found, is_c)) = place-Placed c in
    elim (execute-Chosen command_names line names_chars chars) [
      | inl (empty, _) ↦ absurd (Splits-nonempty split empty)
      | inr (_, chosen) ↦ (
        place c,
        e,
        chosen_index (place c) small (named ∙ sym (Splits-word split).0) chosen
            ∙ ap (runs (place c)) (Splits-word split).1,
        found,
        is_c,
      )
    ]
