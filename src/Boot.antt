-- ===== src/Boot.antt =====
-- kernel/main.c: the order in which the kernel brings its parts up. What lies outside the C code is
-- a parameter: the ports of the interrupt controllers, addresses that the linker chooses, the
-- registers CR3 and EFER, and the boot loader's memory map.
pub mod Lines
pub mod Memory
pub mod Start
mod Tests
use ki_os.Base.{ℕ, zero, suc, ◌+◌, Option, some, none, List, [], ◌∷◌, ◌>>=◌, replicate}
use ki_os.Base.Bytes.{bytes}
use ki_os.Console.Output.{
  Call, perform_all, text, line, tinted, newline, vga_black, vga_light_cyan, vga_light_green,
  vga_white, vga_yellow,
}
use ki_os.Console.Syscall.{CpuData, syscall_init}
use ki_os.Console.Vga
use ki_os.Console.Vga.{Screen}
use ki_os.Input.Ring
use ki_os.Input.Ring.{Ring}
use ki_os.Interrupts.Idt.{IdtEntry, Tss, tss_size, tss_init, gdt_init, idt_init}
use ki_os.Interrupts.Irq.{
  keyboard_irq_handler, Kernel, irq_install_handler, pit_init, enable_scheduler,
}
use ki_os.Interrupts.Pic.{pic_remap, pic_set_mask, pic_clear_mask}
use ki_os.Mm.Heap.{Heap, heap_init, kmalloc}
use ki_os.Mm.Pmm
use ki_os.Mm.Pmm.{MapEntry, Image}
use ki_os.Sched.Task.{Tasks}
use ki_os.Sched.Task.Create.{CreateResult, task_init, task_create}

-- What the C code is given.
pub record Setting : Type 0 where
  pub memory_map : List MapEntry
  pub image : Image
  pub cr3 : ℕ
  pub efer : ℕ
  pub syscall_entry : ℕ
  pub cpu_data : ℕ
  pub df_stack : ℕ
  pub tss_addr : ℕ
  pub stub : ℕ → ℕ
  pub shell_task : ℕ

-- The state of the kernel's parts; `pic` is that of the interrupt controllers.
pub record System (D : Type 0) : Type 0 where
  pub screen : Screen
  pub pic : D
  pub tss : Tss
  pub gdt : List ℕ
  pub idt : List IdtEntry
  pub heap : Heap
  pub msrs : List (ℕ × ℕ)
  pub cpu : CpuData
  pub kernel : Kernel

-- `kmalloc` for the task table: after a fault of the page allocator there is no heap.
abbrev pub malloc : ℕ → Option Heap → ℕ × Option Heap
malloc size none = (0, none)
malloc size (some h) = elim (kmalloc size h) [ none ↦ (0, none) | some (a, h') ↦ (a, some h') ]

-- The banner.
pub banner : List Call
banner =
    newline
    ∷ tinted "    _  ___  ___  ____   " vga_light_cyan
    ∷ newline
    ∷ tinted "   | |/ (_)/ _ \\/ ___|  " vga_light_cyan
    ∷ newline
    ∷ tinted "   | ' /| | | | \\___ \\  " vga_light_cyan
    ∷ newline
    ∷ tinted "   | . \\| | |_| |___) | " vga_light_cyan
    ∷ newline
    ∷ tinted "   |_|\\_\\_|\\___/|____/  " vga_light_cyan
    ∷ newline
    ∷ newline
    ∷ tinted "  Welcome to KiOS v0.5.0" vga_yellow
    ∷ line " - A simple 64-bit operating system"
    ∷ newline
    ∷ text "  Running in "
    ∷ tinted "x86_64 Long Mode" vga_light_green
    ∷ newline
    ∷ text "  Type "
    ∷ tinted "help" vga_light_cyan
    ∷ line " for available commands."
    ∷ newline
    ∷ []

-- The stack size of the shell's task.
abbrev pub shell_stack : ℕ
shell_stack = 16384

-- `task_init` and the creation of the shell's task.
pub start_tasks : Setting → Heap → Tasks → CreateResult × Option Heap × Tasks
start_tasks c h s =
    task_create malloc (bytes "shell") c.shell_task shell_stack (task_init malloc (some h, s))

module _ {D : Type 0} (inb : ℕ → D → ℕ × D) (outb : ℕ → ℕ → D → D) where
  -- `for (int i = 0; i < 16; i++) pic_set_mask(i);` from `i` on.
  pub mask_all : (left i : ℕ) → D → D
  mask_all zero i d = d
  mask_all (suc left) i d = mask_all left (i + 1) (pic_set_mask inb outb i d)

  -- `keyboard_irq_init`
  pub keyboard_irq_init : Kernel × D → Kernel × D
  keyboard_irq_init (k, d) = (
    irq_install_handler 1 keyboard_irq_handler (record k { keyboard = Ring.init k.keyboard }),
    pic_clear_mask inb outb 1 d,
  )

  -- The end of `kernel_main`, from `pit_init` on.
  pub start_interrupts : Kernel × D → Kernel × D
  unfolding keyboard_irq_init
  start_interrupts (k, d) =
      let (k', d') = keyboard_irq_init (pit_init k, d) in
      (enable_scheduler k', pic_clear_mask inb outb 0 d')

  -- The parts of the state that `kernel_main` leaves, once the screen, the heap and the tasks are
  -- there.
  pub finish : Setting → Screen → Heap → Tasks → System D → System D
  unfolding mask_all start_interrupts
  finish c screen h tasks s =
      let d = mask_all 16 0 (pic_remap inb outb 32 40 s.pic) in
      let (msrs, cpu) = syscall_init c.efer c.syscall_entry c.cpu_data in
      let (kernel, d') = start_interrupts (record s.kernel { tasks = tasks }, d) in
      record {
        screen = screen;
        pic = d';
        tss = tss_init c.df_stack 8192;
        gdt = gdt_init c.tss_addr tss_size;
        idt = idt_init c.stub;
        heap = h;
        msrs = msrs;
        cpu = cpu;
        kernel = kernel;
      }

  -- `kernel_main` up to its idle loop; `none` is a fault on the way.
  pub kernel_main : Setting → System D → Option (System D)
  unfolding finish start_tasks banner
  kernel_main c s = do
    let screen = Vga.clear (Vga.set_color vga_white vga_black s.screen)
    pmm ← Pmm.init c.memory_map c.image
    let machine = record s.heap.machine { pmm = pmm; pml4 = c.cr3 }
    let heap = heap_init (record s.heap { machine = machine })
    screen' ← perform_all banner screen
    let (result, heap', tasks) = start_tasks c heap s.kernel.tasks
    h ← heap'
    some (finish c screen' h tasks s)
