-- ===== src/Commands/Table/Tests.antt =====
-- The shell with the kernel's table of commands, on a machine with two pages.
use ki_os.Base.{ℕ, false, Option, some, none, List, [], ◌∷◌, ◌++◌, ◌>>=◌, replicate}
use ki_os.Base.Bytes.{bytes}
use ki_os.Commands.Simple
use ki_os.Commands.Report
use ki_os.Commands.Vmtest
use ki_os.Commands.Table.{Entry, Command, shell_commands, helps}
use ki_os.Commands.Table.Names.{entry_at}
use ki_os.Console.Output.{Call}
use ki_os.Console.Shell.{Shell}
use ki_os.Console.Vga.{Screen}
use ki_os.Interrupts.Irq.{Kernel}
use ki_os.Mm.Heap.{Heap, heap_start}
use ki_os.Mm.Pmm.{MapEntry}
use ki_os.Sched.Task.{Tcb, ready}
use ki_os.Sched.Task.Create.{entry_frame}

-- The state that the commands of this table work on.
record State : Type 0 where
  heap : Heap
  kernel : Kernel
  memory_map : List MapEntry

-- A command that may stop the machine.
faulted : List Call × Simple.Ending → State → Option (List Call × State)
faulted (calls, Simple.Ending.returns) s = some (calls, s)
faulted (calls, _) s = none

-- The functions of the table. The commands that stop the machine do not return, nor does usertest;
-- memtest and time, which need more of the machine than this state, are not tried here.
run_command : Command → List ℕ → State → Option (List Call × State)
unfolding faulted
run_command Command.cmd_help args s = some (Simple.cmd_help (helps shell_commands), s)
run_command Command.cmd_clear args s = some (Simple.cmd_clear, s)
run_command Command.cmd_info args s = some (Simple.cmd_info, s)
run_command Command.cmd_echo args s = some (Simple.cmd_echo args, s)
run_command Command.cmd_color args s = some (Simple.cmd_color, s)
run_command Command.cmd_mem args s = some (Simple.cmd_mem, s)
run_command Command.cmd_mmap args s = some (Report.cmd_mmap s.memory_map, s)
run_command Command.cmd_meminfo args s = do
  calls ← (Report.cmd_meminfo s.heap).1
  some ((Report.cmd_meminfo s.heap).0 ++ calls, s)
run_command Command.cmd_memtest args s = none
run_command Command.cmd_time args s = none
run_command Command.cmd_uptime args s = some (Report.cmd_uptime s.kernel, s)
run_command Command.cmd_tasks args s = some (Report.cmd_tasks s.kernel.tasks, s)
run_command Command.cmd_reboot args s = none
run_command Command.cmd_shutdown args s = none
run_command Command.cmd_halt args s = none
run_command Command.cmd_netconf args s = some (Simple.cmd_netconf, s)
run_command Command.cmd_fault args s = faulted (Simple.cmd_fault args) s
run_command Command.cmd_vmtest args s = do
  (calls, m) ← Vmtest.cmd_vmtest s.heap.machine
  some (calls, record s { heap = record s.heap { machine = m } })
run_command Command.cmd_usertest args s = none

entry_function : Option Entry → List ℕ → State → Option (List Call × State)
unfolding run_command
entry_function none args s = none
entry_function (some e) args s = run_command e.func args s

func : ℕ → List ℕ → State → Option (List Call × State)
unfolding entry_function
func i args s = entry_function (entry_at i shell_commands) args s

abbrev shell : Shell
shell = record {
  history = replicate 10 [];
  history_count = 0;
  history_index = 0;
  buffer = replicate 256 0;
  buffer_pos = 0;
}

abbrev blank : Screen
blank = record { cells = replicate 2000 0; cursor_x = 0; cursor_y = 0; color = 15; ports = [] }

abbrev lines : List (List ℕ)
lines = bytes "echo hi" ∷ bytes " halt" ∷ bytes "help" ∷ []

abbrev no_task : Tcb
no_task = record {
  pid = 0;
  name = [];
  state = ready;
  regs = 0;
  stack_base = 0;
  stack_size = 0;
  sleep_until = 0;
  next = 0;
}

abbrev state : State
state = record {
  heap = record {
    machine = record {
      pmm = record { bitmap = 1 ∷ []; total_pages = 2; used_pages = 1 };
      mem = λ a. 0;
      pml4 = 0x1000;
    };
    current_ptr = heap_start;
    total_alloc = 0;
  };
  kernel = record {
    irq_handlers = replicate 16 none;
    new_task_regs = 0;
    pit_ticks = 0;
    scheduler_enabled = false;
    tasks = record {
      task_list = [];
      current_task = 0;
      next_pid = 0;
      tcb = λ q. no_task;
      frame = λ q. entry_frame 0 0;
    };
    keyboard = record { buffer = replicate 256 0; read = 0; write = 0 };
    ports = [];
  };
  memory_map = [];
}
