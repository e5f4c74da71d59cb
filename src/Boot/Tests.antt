-- ===== src/Boot/Tests.antt =====
-- The kernel's start on a small machine whose root table is the page at 0x1000, with no entry.
use ki_os.Base.{ℕ, ◌+◌, ◌%◌, true, false, none, [], ◌==◌, if◌then◌else◌, replicate}
use ki_os.Boot.{Setting, System}
use ki_os.Interrupts.Pic.Chip.{Chip, expects_icw2, on_write}
use ki_os.Mm.Pmm.{Pmm}
use ki_os.Mm.Pmm.Init.{init_lem}
use ki_os.Mm.Pmm.Sample.{entries, image, bootable, aligned}
use ki_os.Mm.Vmm.Tree.{Area}
use ki_os.Sched.Task.{Registers, Tcb, ready}

-- The two controllers.
abbrev Chips : Type 0
Chips = Chip × Chip

abbrev read_port : ℕ → Chips → ℕ × Chips
read_port port (a, b) =
    (if port == 0x21 then a.mask % 256 else if port == 0xA1 then b.mask % 256 else 0, (a, b))

abbrev write_port : ℕ → ℕ → Chips → Chips
write_port port value (a, b) = (on_write false port value a, on_write true port value b)

abbrev cold_chip : Chip
cold_chip = record {
  stage = expects_icw2;
  cascaded = true;
  with_icw4 = true;
  vectors = 0;
  mask = 0;
}

abbrev setting : Setting
setting = record {
  memory_map = entries;
  image = image;
  cr3 = 0x1000;
  efer = 0;
  syscall_entry = 0x101000;
  cpu_data = 0x102000;
  df_stack = 0x103000;
  tss_addr = 0x104000;
  stub = λ n. 0x100000 + n;
  shell_task = 0x100100;
}

abbrev no_frame : Registers
no_frame = record {
  gs = 0;
  fs = 0;
  es = 0;
  ds = 0;
  r15 = 0;
  r14 = 0;
  r13 = 0;
  r12 = 0;
  r11 = 0;
  r10 = 0;
  r9 = 0;
  r8 = 0;
  rbp = 0;
  rdi = 0;
  rsi = 0;
  rdx = 0;
  rcx = 0;
  rbx = 0;
  rax = 0;
  int_no = 0;
  err_code = 0;
  rip = 0;
  cs = 0;
  rflags = 0;
  rsp = 0;
  ss = 0;
}

abbrev no_task : Tcb
no_task = record {
  pid = 0;
  name = [];
  state = ready;
  regs = 0;
  stack_base = 0;
  stack_size = 0;
  sleep_until = 0;
  next = 0;
}

abbrev cold : System Chips
cold = record {
  screen = record { cells = replicate 2000 0; cursor_x = 0; cursor_y = 0; color = 0; ports = [] };
  pic = (cold_chip, cold_chip);
  tss = record { rsp0 = 0; ist1 = 0; io_map_base = 0 };
  gdt = [];
  idt = [];
  heap = record {
    machine = record {
      pmm = record { bitmap = []; total_pages = 0; used_pages = 0 };
      mem = λ a. 0;
      pml4 = 0;
    };
    current_ptr = 0;
    total_alloc = 0;
  };
  msrs = [];
  cpu = record { kernel_stack = 0; user_stack = 0; current_task = 0 };
  kernel = record {
    irq_handlers = replicate 16 none;
    new_task_regs = 0;
    pit_ticks = 0;
    scheduler_enabled = false;
    tasks = record {
      task_list = [];
      current_task = 0;
      next_pid = 0;
      tcb = λ q. no_task;
      frame = λ q. no_frame;
    };
    keyboard = record { buffer = replicate 256 0; read = 0; write = 0 };
    ports = [];
  };
}

abbrev booted : Pmm
booted = (init_lem entries image bootable aligned).0

abbrev area : Area
area = record { root_table = 0x1000; first = 0 }

abbrev level : ℕ → ℕ
level p = if p == 1 then 4 else 0
