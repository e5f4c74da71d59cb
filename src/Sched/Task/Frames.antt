-- ===== src/Sched/Task/Frames.antt =====
-- What task_switch does to saved frames, and to a current task that has stopped.
use ki_os.Base.{
  ℕ, ◌<◌, ◌≡◌, ◌≢◌, ◌⊎◌, inl, inr, refl, ap, sym, ◌∙◌, true, false, not, arith, ◌==◌, if◌then◌else◌,
  ◌%◌, ◌+◌,
}
use mathlib.Core.Bool.{false≢true}
use mathlib.Core.Path.{subst}
use native.Mathlib.Decide.{ℕ_discrete}
use ki_os.Sched.Task.{
  TaskState, ready, running, blocked, sleeping, zombie, Tcb, Tasks, task_count, is_running,
  set_state, save_current, task_switch,
}
use ki_os.Sched.Task.Choice.{runnable, nth, first_index, Switched, Stayed, task_switch_lem}
use ki_os.Sched.Task.Running.{
  listed, listed-get_or, IsValid, nonempty_of_listed, saved_frame, save_current-tcb,
}

module _ (ticks regs : ℕ) (s : Tasks) (valid : IsValid s) where
  cases :
      ((t : ℕ) × Switched ticks (save_current regs s) (task_switch ticks regs s) t)
      ⊎ Stayed ticks regs (save_current regs s) (task_switch ticks regs s)
  cases =
      task_switch_lem ticks regs s
        (nonempty_of_listed s.current_task s.task_list valid.current_listed)

  -- The switch itself changes no saved frame.
  frames_kept :
      (q : ℕ) → ((task_switch ticks regs s).1.tcb q).regs ≡ ((save_current regs s).tcb q).regs
  frames_kept q = elim cases [
    | inl (t, w) ↦ elim (ℕ_discrete q t) [
      | yes e ↦ rw e (ap (λ (x : Tcb). x.regs) w.runs)
      | no ne ↦ ap (λ (x : Tcb). x.regs) (w.others q ne)
    ]
    | inr w ↦ ap (λ (r : ℕ × Tasks). (r.1.tcb q).regs) w.result ∙ kept
  ]
    where
      kept :
          ((if not ((save_current regs s).current_task == 0)
              then set_state (save_current regs s).current_task running (save_current regs s)
              else save_current regs s).tcb
            q).regs
          ≡ ((save_current regs s).tcb q).regs
      kept = ground arith

  -- On a valid table, a switch saves the frame of the current task if that task runs. If it has
  -- stopped, as after `task_sleep`, its frame is not saved, and its last saved frame stays. The
  -- frames of the other tasks stay.
  pub task_switch_frames :
      (((task_switch ticks regs s).1.tcb s.current_task).regs
        ≡ (if is_running (s.tcb s.current_task).state then regs else (s.tcb s.current_task).regs))
      × ((q : ℕ) → q ≢ s.current_task → ((task_switch ticks regs s).1.tcb q).regs ≡ (s.tcb q).regs)
  task_switch_frames = (
    frames_kept s.current_task ∙ saved_frame regs s valid,
    λ q ne. frames_kept q ∙ ground (arith, save_current-tcb regs s valid q),
  )

not_running : (st : TaskState) → st ≢ running → is_running st ≡ false
not_running ready h = refl
not_running running h = absurd (h refl)
not_running blocked h = refl
not_running sleeping h = refl
not_running zombie h = refl

save_current_stopped :
    (regs : ℕ) (s : Tasks) → (s.tcb s.current_task).state ≢ running → save_current regs s ≡ s
unfolding save_current
save_current_stopped regs s h = ground (arith, not_running (s.tcb s.current_task).state h)

-- The task at any offset of the search is one of the list.
nth-listed :
    (ticks start k : ℕ) (s : Tasks)
    → 0 < task_count s
    → listed (nth ticks start s k) s.task_list ≡ true
nth-listed ticks start k s h = listed-get_or s.task_list ((start + k) % task_count s) (omega arith)

-- On a valid table whose current task does not run and of which no task may run, `task_switch`
-- returns to the current task, and sets it to running, even if it sleeps or has exited.
pub task_switch_revives :
    (ticks regs : ℕ) (s : Tasks)
    → IsValid s
    → (s.tcb s.current_task).state ≢ running
    → ((p : ℕ) → listed p s.task_list ≡ true → runnable ticks (s.tcb p) ≡ false)
    → let (r, t) = task_switch ticks regs s in
      (r ≡ regs) × (t.current_task ≡ s.current_task) × ((t.tcb s.current_task).state ≡ running)
task_switch_revives ticks regs s valid stopped idle =
    elim (subst (λ b. ((t : ℕ) × Switched ticks b switched t) ⊎ Stayed ticks regs b switched)
      (save_current_stopped regs s stopped) (cases ticks regs s valid)) [
        | inl (t, w) ↦ absurd (
            false≢true (
              sym (
                idle t (
                  rw w.chosen
                    (nth-listed ticks (first_index s) w.offset s (omega (arith, w.range)))))
              ∙ w.can_run))
        | inr w ↦ rw w.result (ground (arith, valid.current_set))
      ]
  where
    switched : ℕ × Tasks
    switched = task_switch ticks regs s
