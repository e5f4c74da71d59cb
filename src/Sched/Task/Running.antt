-- ===== src/Sched/Task/Running.antt =====
-- Which tasks run: the scheduler's invariant, and what becomes of a saved frame.
use ki_os.Base.{
  ℕ, zero, suc, ◌+◌, ◌%◌, ◌<◌, ◌≡◌, ◌≢◌, inl, inr, refl, ap, sym, ◌∙◌, Bool, true, false, ◌&&◌,
  ◌||◌, List, [], ◌∷◌, arith, ◌==◌, if◌then◌else◌, get_or, Bool-cases, length, add64,
}
use mathlib.Core.Bool.{false≢true}
use mathlib.Core.Path.{subst}
use native.Mathlib.Decide.{ℕ_discrete}
use ki_os.Sched.Task.{
  TaskState, ready, running, blocked, sleeping, zombie, Tcb, Tasks, task_count, is_running, put,
  set_state, save_current, task_switch, task_sleep, task_exit,
}
use ki_os.Sched.Task.Choice.{first_index, Switched, Stayed, save_current-same, task_switch_lem}

abbrev pub listed : ℕ → List ℕ → Bool
listed p [] = false
listed p (t ∷ ts) = (p == t) || listed p ts

-- The current task is one of the list, and no other task of the list runs.
pub record IsValid (s : Tasks) : Type 0 where
  pub current_listed : listed s.current_task s.task_list ≡ true
  pub current_set : s.current_task ≢ 0
  pub no_null : listed 0 s.task_list ≡ false
  pub alone : (p : ℕ) → listed p s.task_list ≡ true → (s.tcb p).state ≡ running → p ≡ s.current_task

pub listed-get_or : (ts : List ℕ) (i : ℕ) → i < length ts → listed (get_or ts i 0) ts ≡ true
listed-get_or [] i h = absurd (omega arith)
listed-get_or (t ∷ ts) zero h = ground arith
listed-get_or (t ∷ ts) (suc i) h = ground (arith, listed-get_or ts i (omega arith))

pub nonempty_of_listed : (p : ℕ) (ts : List ℕ) → listed p ts ≡ true → 0 < length ts
nonempty_of_listed p [] h = absurd (false≢true h)
nonempty_of_listed p (t ∷ ts) h = omega arith

running_of : (st : TaskState) → is_running st ≡ true → st ≡ running
running_of ready h = cc
running_of running h = refl
running_of blocked h = cc
running_of sleeping h = cc
running_of zombie h = cc

module _ (regs : ℕ) (s : Tasks) (valid : IsValid s) where
  pub save_current-tcb :
      (q : ℕ)
      → (save_current regs s).tcb q ≡ (
          if (q == s.current_task) && is_running (s.tcb s.current_task).state
          then record (s.tcb s.current_task) { regs = regs; state = ready }
          else s.tcb q)
  unfolding save_current
  save_current-tcb q = ground (arith, valid.current_set)

  -- Once the current task is saved, no task of the list runs.
  none_running :
      (p : ℕ) → listed p s.task_list ≡ true → ((save_current regs s).tcb p).state ≢ running
  none_running p l run =
      elim (Bool-cases ((p == s.current_task) && is_running (s.tcb s.current_task).state)) [
        | inl e ↦ cc (run, save_current-tcb p, ap (choice p) e)
        | inr e ↦
            let old : (s.tcb p).state ≡ running =
              ap (λ (t : Tcb). t.state) (sym (save_current-tcb p ∙ ap (choice p) e)) ∙ run in
            let same : p ≡ s.current_task = valid.alone p l old in
            ground (arith, e, ap (λ q. (s.tcb q).state) same, old)
      ]
    where
      choice : ℕ → Bool → Tcb
      choice q b =
          if b then record (s.tcb s.current_task) { regs = regs; state = ready } else s.tcb q

  -- Saving keeps the frame that was given, if the current task runs, and the old frame otherwise.
  pub saved_frame :
      ((save_current regs s).tcb s.current_task).regs
      ≡ (if is_running (s.tcb s.current_task).state then regs else (s.tcb s.current_task).regs)
  saved_frame = ground (arith, save_current-tcb s.current_task)

-- Where no task of the list runs, setting the current one to running gives a valid state.
set_state-Runs :
    (b : Tasks)
    → listed b.current_task b.task_list ≡ true
    → b.current_task ≢ 0
    → listed 0 b.task_list ≡ false
    → ((p : ℕ) → listed p b.task_list ≡ true → (b.tcb p).state ≢ running)
    → let t = set_state b.current_task running b in
      IsValid t × ((t.tcb t.current_task).state ≡ running)
set_state-Runs b l set null idle = (
  record {
    current_listed = l;
    current_set = set;
    no_null = null;
    alone = λ p lp run. elim (ℕ_discrete p b.current_task) [
      | yes e ↦ e
      | no ne ↦ absurd (idle p lp (ground (arith, run)))
    ];
  },
  ground arith,
)

module _ (ticks regs : ℕ) (s : Tasks) (valid : IsValid s) where
  abbrev before : Tasks
  before = save_current regs s

  abbrev after : Tasks
  after = (task_switch ticks regs s).1

  list_same : before.task_list ≡ s.task_list
  list_same = (save_current-same regs s).0

  Switched-Runs :
      (t : ℕ)
      → Switched ticks before (task_switch ticks regs s) t
      → IsValid after × ((after.tcb after.current_task).state ≡ running)
  Switched-Runs t w = (
    record {
      current_listed = rw (w.current, list_after) t_listed;
      current_set = λ e. null_listed (sym w.current ∙ e);
      no_null = rw list_after valid.no_null;
      alone = λ p l run. only p (rw list_after at l) run;
    },
    rw w.current (ap (λ (x : Tcb). x.state) w.runs),
  )
    where
      list_after : after.task_list ≡ s.task_list
      list_after = w.list ∙ list_same

      t_listed : listed t s.task_list ≡ true
      t_listed =
          subst (λ l. listed t l ≡ true) list_same
            (rw w.chosen (
              listed-get_or before.task_list ((first_index before + w.offset) % task_count before)
                (omega (arith, w.range))))

      null_listed : t ≢ 0
      null_listed e = false≢true (sym valid.no_null ∙ rw (← e) t_listed)

      only :
          (p : ℕ)
          → listed p s.task_list ≡ true
          → (after.tcb p).state ≡ running
          → p ≡ after.current_task
      only p l run = elim (ℕ_discrete p t) [
        | yes e ↦ e ∙ sym w.current
        | no ne ↦
            absurd (
              none_running regs s valid p l (ap (λ (x : Tcb). x.state) (sym (w.others p ne)) ∙ run))
      ]

  Stayed-Runs :
      Stayed ticks regs before (task_switch ticks regs s)
      → IsValid after × ((after.tcb after.current_task).state ≡ running)
  Stayed-Runs w =
      subst (λ (x : Tasks). IsValid x × ((x.tcb x.current_task).state ≡ running)) (sym result)
        (set_state-Runs before (rw (current_same, list_same) valid.current_listed)
          (λ e. valid.current_set (sym current_same ∙ e)) (rw list_same valid.no_null)
          (λ p l. none_running regs s valid p (rw list_same at l)))
    where
      current_same : before.current_task ≡ s.current_task
      current_same = (save_current-same regs s).1

      result : after ≡ set_state before.current_task running before
      result =
          ap (λ (r : ℕ × Tasks). r.1) w.result ∙ ground (arith, current_same, valid.current_set)

  -- On a valid task table `task_switch` keeps the table valid, and whatever it decides the current
  -- task runs afterwards.
  pub task_switch-IsValid : IsValid after × ((after.tcb after.current_task).state ≡ running)
  task_switch-IsValid =
      elim (task_switch_lem ticks regs s
        (nonempty_of_listed s.current_task s.task_list valid.current_listed)) [
          | inl (t, w) ↦ Switched-Runs t w
          | inr w ↦ Stayed-Runs w
        ]

pub nonzero : (s : Tasks) → IsValid s → (s.current_task == 0) ≡ false
nonzero s valid = ground (arith, valid.current_set)

-- A state whose current task was given a state other than running.
Stopped :
    (s : Tasks) (t : Tcb)
    → IsValid s
    → t.state ≢ running
    → IsValid (put s.current_task t s)
      × ((p : ℕ) → listed p s.task_list ≡ true → ((put s.current_task t s).tcb p).state ≢ running)
Stopped s t valid stopped = (
  record {
    current_listed = valid.current_listed;
    current_set = valid.current_set;
    no_null = valid.no_null;
    alone = λ p l run. absurd (none_runs p l run);
  },
  none_runs,
)
  where
    none_runs :
        (p : ℕ) → listed p s.task_list ≡ true → ((put s.current_task t s).tcb p).state ≢ running
    none_runs p l run = elim (ℕ_discrete p s.current_task) [
      | yes e ↦ stopped (ground (arith, run))
      | no ne ↦ ne (valid.alone p l (ground (arith, run)))
    ]

-- Sleeping leaves no task of the list running, and keeps the invariant.
pub task_sleep-IsValid :
    (now ticks : ℕ) (s : Tasks)
    → IsValid s
    → IsValid (task_sleep now ticks s)
      × ((p : ℕ) → listed p s.task_list ≡ true → ((task_sleep now ticks s).tcb p).state ≢ running)
unfolding task_sleep
task_sleep-IsValid now ticks s valid = rw (nonzero s valid) (
    Stopped s (record (s.tcb s.current_task) { state = sleeping; sleep_until = add64 now ticks })
      valid (λ e. cc))

-- So does exiting.
pub task_exit-IsValid :
    (s : Tasks)
    → IsValid s
    → IsValid (task_exit s)
      × ((p : ℕ) → listed p s.task_list ≡ true → ((task_exit s).tcb p).state ≢ running)
unfolding task_exit
task_exit-IsValid s valid =
    rw (nonzero s valid)
      (Stopped s (record (s.tcb s.current_task) { state = zombie }) valid (λ e. cc))
