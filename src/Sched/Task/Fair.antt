-- ===== src/Sched/Task/Fair.antt =====
-- The round-robin order over several switches.
use ki_os.Base.{
  leb, ℕ, zero, suc, ◌+◌, ◌-◌, ◌%◌, ◌<◌, ◌≡◌, ◌≢◌, inl, inr, refl, ap, sym, ◌∙◌, true, Option, some,
  none, arith, get_or, Bool-cases,
}
use native.Mathlib.Nat.{mod-lt, mod-eq_of_lt, add-mod_right}
use ki_os.Sched.Task.{Tcb, Tasks, task_count, running, task_switch}
use ki_os.Sched.Task.Choice.{Distinct, first_index, past, index_of, runnable}
use ki_os.Sched.Task.Running.{IsValid}
use ki_os.Sched.Task.Turns.{Turn, act, act-Acted, Waits, step}

-- The timer's switches, with what the current task does before each.
module _ (ticks regs : ℕ → ℕ) (turn : ℕ → Turn) where
  pub switches : (i k : ℕ) → Tasks → Tasks
  switches i zero s = s
  switches i (suc k) s =
      switches (i + 1) k (task_switch (ticks i) (regs i) (act (ticks i) (turn i) s)).1

  abbrev RunsSoon : (t i bound : ℕ) → Tasks → Type 0
  RunsSoon t i bound s =
      (k : ℕ) × (k < bound)
      × ((switches i (suc k) s).current_task ≡ t)
      × (((switches i (suc k) s).tcb t).state ≡ running)

  runs_within :
      (bound d i : ℕ) {t : ℕ} {b : Tcb} (s : Tasks)
      → d < bound
      → ((j : ℕ) → runnable (ticks j) b ≡ true)
      → Waits t b d s
      → RunsSoon t i bound s
  unfolding switches
  runs_within zero d i s lt can w = absurd (omega arith)
  runs_within (suc bound) d i s lt can w =
      elim (step (ticks i) (regs i) w (act-Acted (ticks i) (turn i) s w.valid) (can i)) [
        | inl (now, runs) ↦ (0, omega arith, now, runs)
        | inr (d', less, v) ↦
            let (k, few, now, runs) =
              runs_within bound d' (i + 1)
                (task_switch (ticks i) (regs i) (act (ticks i) (turn i) s)).1 (omega arith) can v in
            (suc k, omega arith, now, runs)
      ]

-- The distance of the entry `j` of the list.
distance : (n f j : ℕ) → f < n → j < n → (d : ℕ) × (d < n) × (j ≡ (f + d) % n)
distance n f j hf hj = elim (Bool-cases (leb f j)) [
  | inl after ↦ (
    j - f,
    ground (arith, after),
    sym (ap (λ a. a % n) {x = f + (j - f)} {y = j} (ground (arith, after)) ∙ mod-eq_of_lt hj),
  )
  | inr wraps ↦ (
    j + n - f,
    ground (arith, wraps),
    sym (
        ap (λ a. a % n) {x = f + (j + n - f)} {y = j + n} (omega arith)
        ∙ add-mod_right j n
        ∙ mod-eq_of_lt hj),
  )
]

past_lt : (o : Option ℕ) (n : ℕ) → 0 < n → past o n < n
past_lt none n h = h
past_lt (some i) n h = mod-lt (i + 1) h

-- In a valid table whose entries are distinct, a task other than the current one that may run at
-- every tick does run within as many switches as there are tasks, whatever the tasks that run before
-- it do: work on, sleep or exit.
pub switches-fair :
    (ticks regs : ℕ → ℕ) (turn : ℕ → Turn) (s : Tasks) (j : ℕ)
    → IsValid s
    → Distinct s.task_list
    → j < task_count s
    → get_or s.task_list j 0 ≢ s.current_task
    → ((i : ℕ) → runnable (ticks i) (s.tcb (get_or s.task_list j 0)) ≡ true)
    → (k : ℕ) × (k < task_count s)
      × ((switches ticks regs turn 0 (suc k) s).current_task ≡ get_or s.task_list j 0)
      × (((switches ticks regs turn 0 (suc k) s).tcb (get_or s.task_list j 0)).state ≡ running)
switches-fair ticks regs turn s j valid apart lt other can =
    let (d, near, place) =
      distance (task_count s) (first_index s) j
        (past_lt (index_of s.task_list 0 s.current_task) (task_count s) (omega (arith, lt))) lt in
    runs_within ticks regs turn (task_count s) d 0 s near can (record {
      valid = valid;
      apart = apart;
      holds = refl;
      near = near;
      there = ap (λ k. get_or s.task_list k 0) place;
      other = other;
    })
