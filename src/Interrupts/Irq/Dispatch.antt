-- ===== src/Interrupts/Irq/Dispatch.antt =====
-- What one interrupt does: irq_handler.
use ki_os.Base.{
  ℕ, ◌+◌, ◌%◌, ◌<◌, ◌≡◌, inl, inr, refl, ap, Bool, true, false, not, ◌&&◌, Option, none, some, List,
  ◌∷◌, arith, leb, ◌==◌, if◌then◌else◌, length, get_or, u32, sub64, add64, get_elem?-eq-get_or,
  Bool-cases,
}
use ki_os.Sched.Task.{Tasks, task_switch}
use ki_os.Input.Ring
use ki_os.Input.Ring.{Ring}
use ki_os.Interrupts.Irq.{
  Handler, pit_irq_handler, keyboard_irq_handler, Kernel, on_timer, call, acknowledge, irq_handler,
}

-- The frame at `regs` is that of interrupt request `irq`, and the table has its 16 entries.
pub record IsRequest (irq regs : ℕ) (k : Kernel) : Type 0 where
  pub below : irq < 16
  pub number : (k.tasks.frame regs).int_no ≡ 32 + irq
  pub table : length k.irq_handlers ≡ 16

-- This timer tick calls the scheduler.
abbrev pub due : Kernel → Bool
due k = k.scheduler_enabled && (add64 k.pit_ticks 1 % 10 == 0)

-- What the scheduler gives for it.
abbrev pub switched : ℕ → Kernel → ℕ × Tasks
switched regs k = task_switch (add64 k.pit_ticks 1) regs k.tasks

-- What the installed handler makes of the rest of the kernel, and the frame to return to.
pub data Effect (scancode regs : ℕ) (k : Kernel) : Option Handler → ℕ → Kernel → Type 0 where
  ignored :
      {k' : Kernel}
      → k'.tasks ≡ k.tasks
      → k'.keyboard ≡ k.keyboard
      → k'.pit_ticks ≡ k.pit_ticks
      → Effect scancode regs k none regs k'
  typed :
      {k' : Kernel}
      → k'.tasks ≡ k.tasks
      → k'.keyboard ≡ Ring.irq_handler scancode k.keyboard
      → k'.pit_ticks ≡ k.pit_ticks
      → Effect scancode regs k (some keyboard_irq_handler) regs k'
  ticked :
      {k' : Kernel}
      → due k ≡ false
      → k'.tasks ≡ k.tasks
      → k'.keyboard ≡ k.keyboard
      → k'.pit_ticks ≡ add64 k.pit_ticks 1
      → Effect scancode regs k (some pit_irq_handler) regs k'
  preempted :
      {k' : Kernel} {r : ℕ}
      → due k ≡ true
      → r ≡ (if (switched regs k).0 == 0 then regs else (switched regs k).0)
      → k'.tasks ≡ (switched regs k).1
      → k'.keyboard ≡ k.keyboard
      → k'.pit_ticks ≡ add64 k.pit_ticks 1
      → Effect scancode regs k (some pit_irq_handler) r k'

-- The ports after the acknowledgement.
pub eoi_ports : ℕ → List (ℕ × ℕ) → List (ℕ × ℕ)
eoi_ports irq sent = (0x20, 0x20) ∷ (if leb 8 irq then (0xA0, 0x20) ∷ sent else sent)

-- The end of `irq_handler`.
abbrev returned : (irq regs : ℕ) → Kernel → ℕ × Kernel
returned irq regs k = (
  if not (k.new_task_regs == 0) then k.new_task_regs else regs,
  record k { ports = eoi_ports irq k.ports },
)

abbrev handled : (scancode irq regs : ℕ) → Kernel → Option Handler → ℕ × Kernel
handled scancode irq regs k h =
    returned irq regs (call scancode regs h (record k { new_task_regs = 0 }))

-- The acknowledgement changes nothing but the ports.
acknowledge_lem :
    (irq : ℕ) (k : Kernel) → acknowledge irq k ≡ record k { ports = eoi_ports irq k.ports }
unfolding eoi_ports
acknowledge_lem irq k = elim (Bool-cases (leb 8 irq)) [
  | inl slave ↦ rw slave refl
  | inr master ↦ rw master refl
]

-- What `irq_handler` gives, the acknowledgement included.
record Done (scancode irq regs : ℕ) (k : Kernel) (h : Option Handler) (r : ℕ × Kernel)
    : Type 0 where
  effect : Effect scancode regs k h r.0 r.1
  sent : r.1.ports ≡ eoi_ports irq k.ports
  table : r.1.irq_handlers ≡ k.irq_handlers

timer-Done :
    (scancode irq regs : ℕ) (k : Kernel)
    → Done scancode irq regs k (some pit_irq_handler) (
        let k' = on_timer regs (record k { new_task_regs = 0 }) in
        (
          if not (k'.new_task_regs == 0) then k'.new_task_regs else regs,
          record k' { ports = eoi_ports irq k'.ports },
        ))
unfolding on_timer
timer-Done scancode irq regs k = elim (Bool-cases (due k)) [
  | inl now ↦ rw now (elim (Bool-cases ((switched regs k).0 == regs)) [
    | inl same ↦ rw same (done now (ground arith))
    | inr other ↦ rw other (done now (ground arith))
  ])
  | inr early ↦
      rw early (record { effect = ticked early refl refl refl; sent = refl; table = refl })
]
  where
    done :
        {r n : ℕ}
        → due k ≡ true
        → r ≡ (if (switched regs k).0 == 0 then regs else (switched regs k).0)
        → Done scancode irq regs k (some pit_irq_handler) (
          r,
          record k {
            new_task_regs = n;
            pit_ticks = add64 k.pit_ticks 1;
            tasks = (switched regs k).1;
            ports = eoi_ports irq k.ports;
          },
        )
    done now e = record { effect = preempted now e refl refl refl; sent = refl; table = refl }

handled-Done :
    (scancode irq regs : ℕ) (k : Kernel) (h : Option Handler)
    → Done scancode irq regs k h (handled scancode irq regs k h)
handled-Done scancode irq regs k none = record {
  effect = ignored refl refl refl;
  sent = refl;
  table = refl;
}
handled-Done scancode irq regs k (some keyboard_irq_handler) = record {
  effect = typed refl refl refl;
  sent = refl;
  table = refl;
}
handled-Done scancode irq regs k (some pit_irq_handler) = timer-Done scancode irq regs k

irq_handler-handled :
    (scancode irq regs : ℕ) (k : Kernel)
    → IsRequest irq regs k
    → irq_handler scancode regs k
      ≡ some (handled scancode irq regs k (get_or k.irq_handlers irq none))
unfolding irq_handler
irq_handler-handled scancode irq regs k req =
    rw (number, get_elem?-eq-get_or k.irq_handlers irq none (omega (arith, req.below, req.table)))
      (at_end
        (call scancode regs (get_or k.irq_handlers irq none) (record k { new_task_regs = 0 })))
  where
    number : u32 (sub64 (k.tasks.frame regs).int_no 32) ≡ irq
    number = omega (arith, req.number, req.below)

    at_end :
        (t : Kernel)
        → some (
          if not ((acknowledge irq t).new_task_regs == 0)
              then (acknowledge irq t).new_task_regs
              else regs,
          acknowledge irq t,
        )
          ≡ some (returned irq regs t)
    at_end t =
        ap (λ (u : Kernel). some (if not (u.new_task_regs == 0) then u.new_task_regs else regs, u))
          (acknowledge_lem irq t)

-- On the frame of an interrupt request from 0 to 15, with a table of 16 handlers, `irq_handler`
-- stays inside the table, runs the handler that is installed for the request and no other, returns
-- the frame that it was given or the one that the scheduler chose, keeps the table, and sends one
-- end of interrupt to the master PIC, after one to the slave for a request from 8 on.
pub irq_handler_lem :
    (scancode irq regs : ℕ) (k : Kernel)
    → IsRequest irq regs k
    → (r : ℕ) × (k' : Kernel) × (irq_handler scancode regs k ≡ some (r, k'))
      × Effect scancode regs k (get_or k.irq_handlers irq none) r k'
      × (k'.irq_handlers ≡ k.irq_handlers)
      × (k'.ports ≡ eoi_ports irq k.ports)
irq_handler_lem scancode irq regs k req =
    let done = handled-Done scancode irq regs k (get_or k.irq_handlers irq none) in
    (
      (handled scancode irq regs k (get_or k.irq_handlers irq none)).0,
      (handled scancode irq regs k (get_or k.irq_handlers irq none)).1,
      irq_handler-handled scancode irq regs k req,
      done.effect,
      done.table,
      done.sent,
    )
