-- ===== src/Sched/Task/Turns.antt =====
-- One switch, with what the task before it does.
use ki_os.Base.{
  ltb, ℕ, ◌+◌, ◌-◌, ◌%◌, ◌<◌, ◌≡◌, ◌≢◌, ◌⊎◌, inl, inr, refl, ap, ap₂, sym, ◌∙◌, true, some, arith,
  get_or, length, ==_ne, Bool-cases,
}
use mathlib.Core.Path.{subst}
use native.Mathlib.Decide.{ℕ_discrete}
use native.Mathlib.Nat.{mod-add-mod, mod-lt}
use ki_os.Sched.Task.{
  Tcb, Tasks, task_count, running, save_current, task_switch, task_sleep, task_exit,
}
use ki_os.Sched.Task.Choice.{
  Distinct, first_index, past, index_of, index_of-get_or, nth, runnable, Switched,
  save_current-same, task_switch_lem,
}
use ki_os.Sched.Task.Running.{
  IsValid, nonzero, save_current-tcb, task_switch-IsValid, task_sleep-IsValid, task_exit-IsValid,
}

-- What the current task does before the timer's next switch.
pub data Turn : Type 0 where
  works exits : Turn
  sleeps : (ticks : ℕ) → Turn

abbrev pub act : (now : ℕ) → Turn → Tasks → Tasks
act now works s = s
act now (sleeps ticks) s = task_sleep now ticks s
act now exits s = task_exit s

-- It concerns no other task.
pub record Acted (s s' : Tasks) : Type 0 where
  pub valid : IsValid s'
  pub list : s'.task_list ≡ s.task_list
  pub current : s'.current_task ≡ s.current_task
  pub others : (q : ℕ) → q ≢ s.current_task → s'.tcb q ≡ s.tcb q

pub act-Acted : (now : ℕ) (turn : Turn) (s : Tasks) → IsValid s → Acted s (act now turn s)
unfolding task_sleep task_exit
act-Acted now works s valid = record {
  valid = valid;
  list = refl;
  current = refl;
  others = λ q ne. refl;
}
act-Acted now (sleeps ticks) s valid = record {
  valid = (task_sleep-IsValid now ticks s valid).0;
  list = rw (nonzero s valid) refl;
  current = rw (nonzero s valid) refl;
  others = λ q ne. rw (nonzero s valid, ==_ne q s.current_task ne) refl;
}
act-Acted now exits s valid = record {
  valid = (task_exit-IsValid s valid).0;
  list = rw (nonzero s valid) refl;
  current = rw (nonzero s valid) refl;
  others = λ q ne. rw (nonzero s valid, ==_ne q s.current_task ne) refl;
}

-- Task `t`, with what it holds, waits at distance `d` from where the next search starts.
pub record Waits (t : ℕ) (b : Tcb) (d : ℕ) (s : Tasks) : Type 0 where
  pub valid : IsValid s
  pub apart : Distinct s.task_list
  pub holds : s.tcb t ≡ b
  pub near : d < task_count s
  pub there : t ≡ nth 0 (first_index s) s d
  pub other : t ≢ s.current_task

module _ {t : ℕ} {b : Tcb} {d : ℕ} {s s₁ : Tasks} (ticks regs : ℕ) (w : Waits t b d s)
    (g : Acted s s₁) where
  abbrev before : Tasks
  before = save_current regs s₁

  same_list : (before.task_list ≡ s.task_list) × (before.current_task ≡ s.current_task)
  same_list = ((save_current-same regs s₁).0 ∙ g.list, (save_current-same regs s₁).1 ∙ g.current)

  still : before.tcb t ≡ b
  still =
      save_current-tcb regs s₁ g.valid t
      ∙ rw (==_ne t s₁.current_task (λ e. w.other (e ∙ g.current))) refl
      ∙ g.others t w.other
      ∙ w.holds

  same_first : first_index before ≡ first_index s
  same_first = ap₂ (λ ts c. past (index_of ts 0 c) (length ts)) same_list.0 same_list.1

  same_nth : (k : ℕ) → nth ticks (first_index before) before k ≡ nth 0 (first_index s) s k
  same_nth k = ap₂ (λ ts f. get_or ts ((f + k) % length ts) 0) same_list.0 same_first

  -- After a switch to another task, `t` waits at a shorter distance.
  nearer :
      {r : ℕ × Tasks} {u : ℕ} (x : Switched ticks before r u)
      → u ≢ t
      → x.offset < d
      → IsValid r.1
      → Waits t b (d - x.offset - 1) r.1
  nearer {r} {u} x ne lt valid = record {
    valid = valid;
    apart = subst Distinct (sym list) w.apart;
    holds = x.others t (λ e. ne (sym e)) ∙ still;
    near = omega (arith, w.near, lt, ap length list);
    there = w.there ∙ ap₂ (λ ts k. get_or ts k 0) (sym list) place;
    other = λ e. ne (sym (e ∙ x.current));
  }
    where
      list : r.1.task_list ≡ s.task_list
      list = x.list ∙ same_list.0

      some_task : 0 < task_count s
      some_task = omega (arith, w.near)

      at : ℕ
      at = (first_index s + x.offset) % task_count s

      first : first_index r.1 ≡ (at + 1) % task_count s
      first =
          ap₂ (λ ts c. past (index_of ts 0 c) (length ts)) list
            (x.current ∙ x.chosen ∙ same_nth x.offset)
          ∙ ap (λ o. past o (task_count s))
              (index_of-get_or s.task_list 0 at w.apart
                  (mod-lt (first_index s + x.offset) some_task)
                ∙ ap some {x = 0 + at} {y = at} (omega arith))

      place :
          (first_index s + d) % task_count s
          ≡ (first_index r.1 + (d - x.offset - 1)) % task_count r.1
      place =
          ap (λ a. a % task_count s) {x = first_index s + d}
            {y = first_index s + x.offset + (1 + (d - x.offset - 1))} (omega (arith, lt))
          ∙ sym (mod-add-mod (first_index s + x.offset) (task_count s) (1 + (d - x.offset - 1)))
          ∙ ap (λ a. a % task_count s) {x = at + (1 + (d - x.offset - 1))}
              {y = at + 1 + (d - x.offset - 1)} (omega arith)
          ∙ sym (mod-add-mod (at + 1) (task_count s) (d - x.offset - 1))
          ∙ sym (ap₂ (λ a n. (a + (d - x.offset - 1)) % n) first (ap length list))

  -- A switch runs `t` or brings it nearer.
  abbrev Next : ℕ × Tasks → Type 0
  Next r =
      ((r.1.current_task ≡ t) × ((r.1.tcb t).state ≡ running))
      ⊎ ((d' : ℕ) × (d' < d) × Waits t b d' r.1)

  here :
      runnable ticks b ≡ true
      → runnable ticks (before.tcb (nth ticks (first_index before) before d)) ≡ true
  here can =
      ap (λ q. runnable ticks (before.tcb q)) (same_nth d ∙ sym w.there)
      ∙ ap (runnable ticks) still
      ∙ can

  short :
      {r : ℕ × Tasks} {u : ℕ} (x : Switched ticks before r u)
      → runnable ticks b ≡ true
      → u ≢ t
      → x.offset < d
  short x can ne = elim (ℕ_discrete x.offset d) [
    | yes e ↦
        absurd
          (ne (x.chosen ∙ ap (nth ticks (first_index before) before) e ∙ same_nth d ∙ sym w.there))
    | no other ↦ elim (Bool-cases (ltb d x.offset)) [
      | inl beyond ↦ absurd (cc (here can, x.first d (ground (arith, beyond))))
      | inr within ↦ ground (arith, within, other)
    ]
  ]

  pub step : runnable ticks b ≡ true → Next (task_switch ticks regs s₁)
  step can =
      let (valid, runs) = task_switch-IsValid ticks regs s₁ g.valid in
      elim (task_switch_lem ticks regs s₁ (omega (arith, w.near, ap length g.list))) [
        | inl (u, x) ↦ elim (ℕ_discrete u t) [
          | yes e ↦ inl (
            x.current ∙ e,
            ap (λ q. ((task_switch ticks regs s₁).1.tcb q).state) (sym (x.current ∙ e)) ∙ runs,
          )
          | no ne ↦
              inr (
                d - x.offset - 1,
                omega (arith, short x can ne),
                nearer x ne (short x can ne) valid,
              )
        ]
        | inr x ↦ absurd (cc (here can, x.idle d (omega (arith, w.near, ap length same_list.0))))
      ]
