-- ===== src/Commands/Simple.antt =====
-- kernel/commands/{clear,color,echo,fault,halt,help,info,mem,netconf,reboot,shutdown}.c: the commands
-- that only print, and those that stop the machine.
use ki_os.Base.{
  ℕ, zero, suc, ◌+◌, ◌-◌, Option, some, none, List, [], ◌∷◌, ◌++◌, ◌==◌, if◌then◌else◌, replicate,
  bit_and,
}
use ki_os.Base.Bytes.{bytes}
use ki_os.Text.{strlen, strncmp}
use ki_os.Console.Output.{
  Call, println, colored, hex, set_color, putchar, clear, text, line, tinted, newline, vga_black,
  vga_light_cyan, vga_white, vga_yellow,
}

-- How a command ends: it returns, the processor raises an exception, it stores a value at a fixed
-- address, or the machine stops for good.
pub data Ending : Type 0 where
  returns halts powers_off resets : Ending
  raises : (vector : ℕ) → Ending
  stores : (address value : ℕ) → Ending

-- `cmd_clear`
abbrev pub cmd_clear : List Call
cmd_clear = clear ∷ []

-- `cmd_echo`
abbrev pub cmd_echo : List ℕ → List Call
cmd_echo args = println args ∷ []

-- One of the two loops of `cmd_color`, from colour `i` with `left` rounds to go.
pub color_row : (round : ℕ → List Call) → (left i : ℕ) → List Call
color_row round zero i = []
color_row round (suc left) i = round i ++ color_row round left (i + 1)

-- `cmd_color`
pub cmd_color : List Call
unfolding color_row
cmd_color =
    newline
    ∷ text "  "
    ∷ (color_row (λ i. set_color vga_black i ∷ text "  " ∷ []) 16 0
        ++ (set_color vga_white vga_black
            ∷ newline
            ∷ text "  "
            ∷ (color_row (λ i. set_color i vga_black ∷ text "##" ∷ []) 16 0
                ++ (set_color vga_white vga_black ∷ newline ∷ newline ∷ []))))

-- The row of `cmd_help` for one command.
abbrev pub help_row : List ℕ × List ℕ → List Call
help_row (name, help) =
    tinted "  " vga_white
    ∷ colored name vga_light_cyan
    ∷ (replicate (12 - strlen name) (putchar b' ') ++ (println help ∷ []))

pub help_rows : List (List ℕ × List ℕ) → List Call
help_rows [] = []
help_rows (c ∷ cs) = help_row c ++ help_rows cs

-- `cmd_help` of the table of commands, with their names and help texts.
pub cmd_help : List (List ℕ × List ℕ) → List Call
unfolding help_rows
cmd_help commands =
    newline
    ∷ tinted "  KiOS Shell Commands" vga_yellow
    ∷ newline
    ∷ line "  ================================"
    ∷ newline
    ∷ (help_rows commands ++ (newline ∷ []))

-- `cmd_info`
pub cmd_info : List Call
cmd_info =
    newline
    ∷ tinted "  KiOS " vga_light_cyan
    ∷ line "v0.5.0"
    ∷ newline
    ∷ text "  Architecture: "
    ∷ line "x86_64 (Long Mode)"
    ∷ text "  Video:        "
    ∷ line "VGA Text Mode 80x25"
    ∷ text "  Kernel at:    "
    ∷ hex 0x100000
    ∷ line " (1MB)"
    ∷ text "  VGA Buffer:   "
    ∷ hex 0xB8000
    ∷ newline
    ∷ newline
    ∷ []

-- `cmd_mem`
pub cmd_mem : List Call
cmd_mem =
    newline
    ∷ line "  Memory Layout (approximate):"
    ∷ newline
    ∷ text "  0x00000000 - 0x000003FF  "
    ∷ line "IVT (Real Mode)"
    ∷ text "  0x00000400 - 0x000004FF  "
    ∷ line "BIOS Data Area"
    ∷ text "  0x00007C00 - 0x00007DFF  "
    ∷ line "Bootloader Stage 1"
    ∷ text "  0x00007E00 - 0x0000BDFF  "
    ∷ line "Bootloader Stage 2"
    ∷ text "  0x00010000 - 0x00017FFF  "
    ∷ line "Kernel Load Buffer"
    ∷ text "  0x000A0000 - 0x000BFFFF  "
    ∷ line "VGA Memory"
    ∷ text "  0x000B8000 - 0x000B8F9F  "
    ∷ line "VGA Text Buffer"
    ∷ text "  0x00100000 - ...         "
    ∷ line "Kernel (1MB+)"
    ∷ text "  0x00200000               "
    ∷ line "Stack Top"
    ∷ newline
    ∷ []

-- `cmd_netconf`
pub cmd_netconf : List Call
cmd_netconf = line "No network interfaces configured." ∷ []

-- `cmd_halt`
pub cmd_halt : List Call × Ending
cmd_halt = (line "System halted. You can turn off your computer." ∷ newline ∷ [], halts)

-- `cmd_shutdown`, whose write to the power management port has its effect on the machine.
pub cmd_shutdown : List Call × Ending
cmd_shutdown = (line "Shutting down..." ∷ [], powers_off)

-- The loop of `cmd_reboot` over the status bytes that port 0x64 gives: those that are left when the
-- controller can take a command, `none` while it waits.
pub wait_ready : List ℕ → Option (List ℕ)
wait_ready [] = none
wait_ready (good ∷ later) =
    let rest = wait_ready later in if bit_and good 0x02 == 0 then some later else rest

-- `cmd_reboot`: the write of 0xFE to port 0x64 comes after the wait.
pub cmd_reboot : List ℕ → List Call × Option (ℕ × ℕ × Ending)
cmd_reboot statuses = (
  line "Rebooting..." ∷ [],
  elim (wait_ready statuses) [ none ↦ none | some later ↦ some (0x64, 0xFE, resets) ],
)

-- The byte pair of a small u with two dots.
abbrev u_umlaut : List ℕ
u_umlaut = 0xC3 ∷ 0xBC ∷ []

-- `cmd_fault`; the call without arguments passes an empty string.
pub cmd_fault : List ℕ → List Call × Ending
cmd_fault args =
    if strlen args == 0
    then (
      line "Usage: fault <div0|ud|pf>"
          ∷ line "  div0  - Division durch Null (Exception 0)"
          ∷ println (bytes "  ud    - Ung" ++ (u_umlaut ++ bytes "ltiger Opcode (Exception 6)"))
          ∷ line "  pf    - Page Fault (Exception 14, nur wenn Paging aktiv)"
          ∷ [],
      returns,
    )
    else if strncmp args (bytes "div0") 4 == 0
    then (line "Trigger: Division durch Null!" ∷ [], raises 0)
    else if strncmp args (bytes "ud") 2 == 0
    then (println (bytes "Trigger: Ung" ++ (u_umlaut ++ bytes "ltiger Opcode!")) ∷ [], raises 6)
    else if strncmp args (bytes "pf") 2 == 0
    then (line "Trigger: Page Fault (nur mit Paging!)" ∷ [], stores 0xDEADBEEF 42)
    else (line "Unbekannter Fault-Typ. Nutze: div0, ud, pf" ∷ [], returns)
