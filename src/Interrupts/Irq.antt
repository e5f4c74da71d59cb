-- ===== src/Interrupts/Irq.antt =====
-- kernel/isr.c and kernel/pit.c: the IRQ dispatcher, and the timer that drives the scheduler.
-- `none` is an access outside the table of handlers.
pub mod Dispatch
pub mod Timer
mod Tests
use ki_os.Base.{
  ℕ, zero, suc, ◌+◌, ◌-◌, ◌/◌, ◌%◌, ◌^◌, bit_and, Bool, true, false, not, ◌&&◌, Option, none, some,
  List, [], ◌∷◌, ltb, leb, ◌==◌, if◌then◌else◌, ◌>>=◌, get_elem?, get_or, set, add64, sub64, u8,
  u16, u32,
}
use ki_os.Sched.Task.{Registers, Tasks, task_switch}
use ki_os.Input.Ring
use ki_os.Input.Ring.{Ring}

-- The functions that the kernel installs as handlers.
pub data Handler : Type 0 where
  pit_irq_handler keyboard_irq_handler : Handler

-- The state behind the handlers; `ports` holds the port writes, newest first.
pub record Kernel : Type 0 where
  pub irq_handlers : List (Option Handler)
  pub new_task_regs : ℕ
  pub pit_ticks : ℕ
  pub scheduler_enabled : Bool
  pub tasks : Tasks
  pub keyboard : Ring
  pub ports : List (ℕ × ℕ)

abbrev pub pic1_command : ℕ
pic1_command = 0x20

abbrev pub pic2_command : ℕ
pic2_command = 0xA0

abbrev pub pic_eoi : ℕ
pic_eoi = 0x20

abbrev pub outb : ℕ → ℕ → Kernel → Kernel
outb port value k = record k { ports = (port, value) ∷ k.ports }

-- `irq_set_new_stack`
abbrev pub irq_set_new_stack : ℕ → Kernel → Kernel
irq_set_new_stack new_regs k = record k { new_task_regs = new_regs }

-- `irq_install_handler`; `irq` is an `int`, as 32 bits, and a negative one is not below 16.
pub irq_install_handler : ℕ → Handler → Kernel → Kernel
irq_install_handler irq h k =
    if ltb irq 16 then record k { irq_handlers = set k.irq_handlers irq (some h) } else k

-- `irq_uninstall_handler`
pub irq_uninstall_handler : ℕ → Kernel → Kernel
irq_uninstall_handler irq k =
    if ltb irq 16 then record k { irq_handlers = set k.irq_handlers irq none } else k

-- The call of the scheduler in `pit_irq_handler`.
abbrev pub preempt : ℕ → Kernel → Kernel
preempt regs k =
    let (new_regs, tasks) = task_switch k.pit_ticks regs k.tasks in
    let k' : Kernel = record k { tasks = tasks } in
    if not (new_regs == regs) then irq_set_new_stack new_regs k' else k'

-- `pit_irq_handler`
unfoldable pub on_timer : ℕ → Kernel → Kernel
on_timer regs k =
    let k' : Kernel = record k { pit_ticks = add64 k.pit_ticks 1 } in
    if k'.scheduler_enabled && (k'.pit_ticks % 10 == 0) then preempt regs k' else k'

-- The call of an installed handler; `scancode` is what the keyboard's data port gives.
abbrev pub call : (scancode regs : ℕ) → Option Handler → Kernel → Kernel
call scancode regs none k = k
call scancode regs (some pit_irq_handler) k = on_timer regs k
call scancode regs (some keyboard_irq_handler) k = record k {
  keyboard = Ring.irq_handler scancode k.keyboard;
}

-- The end of interrupt, for the slave and the master PIC.
abbrev pub acknowledge : ℕ → Kernel → Kernel
acknowledge irq k = outb pic1_command pic_eoi (if leb 8 irq then outb pic2_command pic_eoi k else k)

-- `irq_handler`: the frame to return to. The interrupt number comes from the frame.
unfoldable pub irq_handler : (scancode regs : ℕ) → Kernel → Option (ℕ × Kernel)
irq_handler scancode regs k =
    let irq = u32 (sub64 (k.tasks.frame regs).int_no 32) in
    do
      h ← get_elem? k.irq_handlers irq
      let k' = acknowledge irq (call scancode regs h (record k { new_task_regs = 0 })) in
          some (if not (k'.new_task_regs == 0) then k'.new_task_regs else regs, k')

abbrev pub pit_divisor : ℕ
pit_divisor = 1193182 / 100

-- `pit_init`
unfoldable pub pit_init : Kernel → Kernel
unfolding irq_install_handler
pit_init k =
    let divisor = u16 pit_divisor in
    outb 0x40 (u8 (bit_and (divisor / 2 ^ 8) 0xFF)) (
      outb 0x40 (u8 (bit_and divisor 0xFF))
        (outb 0x43 0x36 (irq_install_handler 0 pit_irq_handler k)))

-- `pit_get_uptime_seconds`
abbrev pub uptime_seconds : Kernel → ℕ
uptime_seconds k = k.pit_ticks / 100

-- `pit_enable_scheduler`
unfoldable pub enable_scheduler : Kernel → Kernel
enable_scheduler k = record k { scheduler_enabled = true }

-- The hours, minutes and seconds that `cmd_uptime` prints.
pub uptime : Kernel → ℕ × ℕ × ℕ
uptime k =
    let total_seconds = uptime_seconds k in
    (total_seconds / 3600, total_seconds % 3600 / 60, total_seconds % 60)
