-- ===== src/Interrupts/Irq/Tests.antt =====
-- A timer interrupt with two tasks, at the ninth tick and before.
use ki_os.Base.{
  ℕ, ◌≡◌, refl, true, none, some, [], ◌∷◌, arith, replicate, if◌then◌else◌, ◌==◌, ==_ne,
}
use native.Mathlib.Decide.{ℕ_discrete}
use ki_os.Sched.Task.{TaskState, ready, running, Tcb, Tasks, task_switch}
use ki_os.Sched.Task.Running.{IsValid}
use ki_os.Sched.Task.Create.{entry_frame}
use ki_os.Interrupts.Irq.{pit_irq_handler, keyboard_irq_handler, Kernel, irq_handler}
use ki_os.Interrupts.Irq.Dispatch.{IsRequest, Effect, eoi_ports, irq_handler_lem}
use ki_os.Interrupts.Irq.Timer.{ticks, ticks-tenth}

abbrev tcb : ℕ → TaskState → Tcb
tcb pid state = record {
  pid = pid;
  name = [];
  state = state;
  regs = 1000;
  stack_base = 0;
  stack_size = 0;
  sleep_until = 0;
  next = 0;
}

abbrev tasks : Tasks
tasks = record {
  task_list = 100 ∷ 200 ∷ [];
  current_task = 100;
  next_pid = 3;
  tcb = λ q. if q == 100 then tcb 1 running else tcb 2 ready;
  frame = λ q. record (entry_frame 0 0) { int_no = 32 };
}

tasks-IsValid : IsValid tasks
tasks-IsValid = record {
  current_listed = refl;
  current_set = omega arith;
  no_null = refl;
  alone = λ p l run. elim (ℕ_discrete p 100) [
    | yes e ↦ e
    | no ne ↦ absurd (cc (rw (==_ne p 100 ne) at run))
  ];
}

abbrev kernel : Kernel
kernel = record {
  irq_handlers = some pit_irq_handler ∷ some keyboard_irq_handler ∷ replicate 14 none;
  new_task_regs = 0;
  pit_ticks = 19;
  scheduler_enabled = true;
  tasks = tasks;
  keyboard = record { buffer = replicate 256 0; read = 0; write = 0 };
  ports = [];
}

request : IsRequest 0 5000 kernel
request = record { below = omega arith; number = refl; table = refl }

irq_handler_lem_example :
    (r : ℕ) × (k' : Kernel) × (irq_handler 0 5000 kernel ≡ some (r, k'))
    × Effect 0 5000 kernel (some pit_irq_handler) r k'
    × (k'.irq_handlers ≡ kernel.irq_handlers)
    × (k'.ports ≡ eoi_ports 0 [])
irq_handler_lem_example = irq_handler_lem 0 0 5000 kernel request

-- Twelve ticks after boot.
abbrev early : Kernel
early = record kernel { pit_ticks = 12 }

ticks-tenth_example :
    ((ticks (λ i. 5000) 8 early).pit_ticks ≡ 20)
    × ((ticks (λ i. 5000) 8 early).tasks ≡ (task_switch 20 5000 tasks).1)
ticks-tenth_example = ticks-tenth (λ i. 5000) 7 early (omega arith) (omega arith) refl
