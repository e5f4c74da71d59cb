-- ===== src/Interrupts/Irq/Timer.antt =====
-- The timer: how interrupts become ticks, and ticks preemptions.
use ki_os.Base.{
  ℕ, zero, suc, ◌+◌, ◌*◌, ◌/◌, ◌%◌, ◌^◌, ◌<◌, ◌≡◌, inl, inr, refl, ap, sym, ◌∙◌, true, false, none,
  some, arith, ◌==◌, add64, get_or, Bool-cases,
}
use mathlib.Core.Path.{subst}
use ki_os.Sched.Task.{task_switch}
use ki_os.Sched.Task.Running.{IsValid, task_switch-IsValid}
use ki_os.Interrupts.Irq.{pit_irq_handler, Kernel, on_timer, irq_handler, uptime}
use ki_os.Interrupts.Irq.Dispatch.{
  IsRequest, Effect, ticked, preempted, due, switched, irq_handler_lem,
}

-- `n` ticks, each interrupting the frame that `frames` gives for it.
pub ticks : (frames : ℕ → ℕ) → ℕ → Kernel → Kernel
ticks frames zero k = k
ticks frames (suc n) k = on_timer (frames n) (ticks frames n k)

on_timer-early :
    (regs : ℕ) (k : Kernel)
    → due k ≡ false
    → on_timer regs k ≡ record k { pit_ticks = add64 k.pit_ticks 1 }
unfolding on_timer
on_timer-early regs k early = rw early refl

on_timer-due :
    (regs : ℕ) (k : Kernel)
    → due k ≡ true
    → ((on_timer regs k).pit_ticks ≡ add64 k.pit_ticks 1)
      × ((on_timer regs k).tasks ≡ (switched regs k).1)
unfolding on_timer
on_timer-due regs k now = rw now (elim (Bool-cases ((switched regs k).0 == regs)) [
  | inl same ↦ rw same (refl, refl)
  | inr other ↦ rw other (refl, refl)
])

-- While the count is below 2 ^ 63, before the tenth tick, counted from the last multiple of ten,
-- nothing happens but the count: no task is switched, saved or woken.
pub ticks-early :
    (frames : ℕ → ℕ) (n : ℕ) (k : Kernel)
    → k.pit_ticks < 2 ^ 63
    → k.pit_ticks % 10 + n < 10
    → ticks frames n k ≡ record k { pit_ticks = k.pit_ticks + n }
unfolding ticks
ticks-early frames zero k small early = ap (λ t. record k { pit_ticks = t }) (omega arith)
ticks-early frames (suc n) k small early =
    ap (on_timer (frames n)) (ticks-early frames n k small (omega arith))
    ∙ on_timer-early (frames n) (record k { pit_ticks = k.pit_ticks + n }) (ground arith)
    ∙ ap (λ t. record k { pit_ticks = t }) (omega arith)

-- While the count is below 2 ^ 63, if the scheduler is enabled, the tick that completes a multiple
-- of ten applies `task_switch` to the tasks as they were, with the new count and the interrupted
-- frame.
pub ticks-tenth :
    (frames : ℕ → ℕ) (n : ℕ) (k : Kernel)
    → k.pit_ticks < 2 ^ 63
    → k.pit_ticks % 10 + n ≡ 9
    → k.scheduler_enabled ≡ true
    → ((ticks frames (suc n) k).pit_ticks ≡ k.pit_ticks + suc n)
      × ((ticks frames (suc n) k).tasks ≡ (task_switch (k.pit_ticks + suc n) (frames n) k.tasks).1)
unfolding ticks
ticks-tenth frames n k small tenth enabled =
    let (count, tasks) =
      on_timer-due (frames n) (record k { pit_ticks = k.pit_ticks + n }) (ground arith) in
    (
      ap (λ (t : Kernel). (on_timer (frames n) t).pit_ticks)
            (ticks-early frames n k small (omega arith))
          ∙ count
          ∙ omega arith,
      ap (λ (t : Kernel). (on_timer (frames n) t).tasks)
            (ticks-early frames n k small (omega arith))
          ∙ tasks
          ∙ ap (λ t. (task_switch t (frames n) k.tasks).1) (omega arith),
    )

-- With the timer installed for request 0, a timer interrupt on a valid task table is handled and
-- leaves the table valid, whether tasks are switched or not.
pub timer-IsValid :
    (scancode regs : ℕ) (k : Kernel)
    → IsRequest 0 regs k
    → get_or k.irq_handlers 0 none ≡ some pit_irq_handler
    → IsValid k.tasks
    → (r : ℕ) × (k' : Kernel) × (irq_handler scancode regs k ≡ some (r, k')) × IsValid k'.tasks
timer-IsValid scancode regs k req timer valid =
    let (r, k', run, effect, table, sent) = irq_handler_lem scancode 0 regs k req in
    (r, k', run, by_effect (subst (λ h. Effect scancode regs k h r k') timer effect))
  where
    by_effect :
        {r : ℕ} {k' : Kernel}
        → Effect scancode regs k (some pit_irq_handler) r k'
        → IsValid k'.tasks
    by_effect (ticked e same a b) = subst IsValid (sym same) valid
    by_effect (preempted e f same a b) =
        subst IsValid (sym same) (task_switch-IsValid (add64 k.pit_ticks 1) regs k.tasks valid).0

-- The hours, minutes and seconds of `cmd_uptime` are the whole seconds of 100 ticks, with minutes
-- and seconds below 60.
pub uptime_lem :
    (k : Kernel)
    → let (hours, minutes, seconds) = uptime k in
      (hours * 3600 + minutes * 60 + seconds ≡ k.pit_ticks / 100) × (minutes < 60) × (seconds < 60)
unfolding uptime
uptime_lem k = omega arith
