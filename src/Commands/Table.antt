-- ===== src/Commands/Table.antt =====
-- kernel/commands.c: the table of the shell's commands.
pub mod Names
mod Tests
use ki_os.Base.{ℕ, zero, suc, List, [], ◌∷◌}
use ki_os.Base.Bytes.{bytes}

-- The functions of the table.
pub data Command : Type 0 where
  cmd_help cmd_clear cmd_info cmd_echo cmd_color cmd_mem cmd_mmap cmd_meminfo cmd_memtest cmd_time
        cmd_uptime cmd_tasks cmd_reboot cmd_shutdown cmd_halt cmd_netconf cmd_fault cmd_vmtest
        cmd_usertest :
      Command

-- One entry: `name`, `func` and `help`.
pub record Entry : Type 0 where
  pub name : List ℕ
  pub func : Command
  pub help : List ℕ

-- `shell_commands`
abbrev pub shell_commands : List Entry
shell_commands =
    record { name = bytes "help"; func = cmd_help; help = bytes "Show this help message" }
    ∷ record { name = bytes "clear"; func = cmd_clear; help = bytes "Clear the screen" }
    ∷ record { name = bytes "info"; func = cmd_info; help = bytes "Show system information" }
    ∷ record { name = bytes "echo"; func = cmd_echo; help = bytes "Echo arguments to screen" }
    ∷ record {
      name = bytes "color";
      func = cmd_color;
      help = bytes "Change text color (usage: color <fg> <bg>)";
    }
    ∷ record { name = bytes "mem"; func = cmd_mem; help = bytes "Show memory information" }
    ∷ record { name = bytes "mmap"; func = cmd_mmap; help = bytes "Show physical memory map" }
    ∷ record {
      name = bytes "meminfo";
      func = cmd_meminfo;
      help = bytes "Show detailed memory statistics";
    }
    ∷ record {
      name = bytes "memtest";
      func = cmd_memtest;
      help = bytes "Run comprehensive memory stress tests";
    }
    ∷ record { name = bytes "time"; func = cmd_time; help = bytes "Show current time" }
    ∷ record { name = bytes "uptime"; func = cmd_uptime; help = bytes "Show system uptime" }
    ∷ record { name = bytes "tasks"; func = cmd_tasks; help = bytes "List all running tasks" }
    ∷ record { name = bytes "reboot"; func = cmd_reboot; help = bytes "Reboot the system" }
    ∷ record { name = bytes "shutdown"; func = cmd_shutdown; help = bytes "Shutdown the system" }
    ∷ record { name = bytes "halt"; func = cmd_halt; help = bytes "Halt the system" }
    ∷ record {
      name = bytes "netconf";
      func = cmd_netconf;
      help = bytes "Configure network interface";
    }
    ∷ record {
      name = bytes "fault";
      func = cmd_fault;
      help = bytes "Trigger CPU exceptions for testing (usage: fault <div0|ud|pf>)";
    }
    ∷ record {
      name = bytes "vmtest";
      func = cmd_vmtest;
      help = bytes "Test Virtual Memory Manager";
    }
    ∷ record {
      name = bytes "usertest";
      func = cmd_usertest;
      help = bytes "Test Ring 3 / User Mode transition";
    }
    ∷ []

unfoldable pub names : List Entry → List (List ℕ)
names [] = []
names (e ∷ es) = e.name ∷ names es

-- The names and help texts, which `cmd_help` lists.
pub helps : List Entry → List (List ℕ × List ℕ)
helps [] = []
helps (e ∷ es) = (e.name, e.help) ∷ helps es
