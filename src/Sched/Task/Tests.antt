-- ===== src/Sched/Task/Tests.antt =====
-- Two tasks, of which the first runs and the second is ready.
use ki_os.Base.{
  ℕ, suc, ◌<◌, ◌+◌, ◌*◌, ◌≡◌, ◌≢◌, ◌⊎◌, refl, true, false, [], ◌∷◌, arith, ◌==◌, if◌then◌else◌,
  ==_ne,
}
use native.Mathlib.Decide.{ℕ_discrete}
use ki_os.Sched.Task.{TaskState, ready, running, zombie, Tcb, Tasks, task_switch, save_current}
use ki_os.Sched.Task.Running.{listed, IsValid, task_switch-IsValid}
use ki_os.Sched.Task.Choice.{Distinct, Switched, Stayed, task_switch_lem, runnable}
use ki_os.Sched.Task.Turns.{exits}
use ki_os.Sched.Task.Fair.{switches, switches-fair}
use ki_os.Sched.Task.Frames.{task_switch_frames, task_switch_revives}
use ki_os.Sched.Task.Create.{created, entry_frame, task_create}
use ki_os.Sched.Task.Create.Outcome.{
  Created, Failed, InStack, tcb_block, stack_block, task_create_lem,
}

abbrev tcb : ℕ → TaskState → Tcb
tcb pid state = record {
  pid = pid;
  name = [];
  state = state;
  regs = 1000 * pid;
  stack_base = 0;
  stack_size = 0;
  sleep_until = 0;
  next = 0;
}

abbrev tasks : TaskState → TaskState → Tasks
tasks first second = record {
  task_list = 100 ∷ 200 ∷ [];
  current_task = 100;
  next_pid = 3;
  tcb = λ q. if q == 100 then tcb 1 first else tcb 2 second;
  frame = λ q. entry_frame 0 0;
}

tasks-IsValid : (first second : TaskState) → second ≢ running → IsValid (tasks first second)
tasks-IsValid first second stopped = record {
  current_listed = refl;
  current_set = omega arith;
  no_null = refl;
  alone = λ p l run. elim (ℕ_discrete p 100) [
    | yes e ↦ e
    | no ne ↦ absurd (stopped (rw (==_ne p 100 ne) at run))
  ];
}

valid : IsValid (tasks running ready)
valid = tasks-IsValid running ready (λ e. cc)

task_switch-IsValid_example :
    IsValid (task_switch 7 5000 (tasks running ready)).1
    × (((task_switch 7 5000 (tasks running ready)).1.tcb
          (task_switch 7 5000 (tasks running ready)).1.current_task).state
        ≡ running)
task_switch-IsValid_example = task_switch-IsValid 7 5000 (tasks running ready) valid

task_switch_lem_example :
    ((t : ℕ) × Switched 7
        (save_current 5000 (tasks running ready))
        (task_switch 7 5000 (tasks running ready))
        t)
    ⊎ Stayed 7 5000
        (save_current 5000 (tasks running ready))
        (task_switch 7 5000 (tasks running ready))
task_switch_lem_example = task_switch_lem 7 5000 (tasks running ready) (omega arith)

task_switch_frames_example :
    (((task_switch 7 5000 (tasks running ready)).1.tcb 100).regs ≡ 5000)
    × ((q : ℕ)
        → q ≢ 100
        → ((task_switch 7 5000 (tasks running ready)).1.tcb q).regs
          ≡ ((tasks running ready).tcb q).regs)
task_switch_frames_example = task_switch_frames 7 5000 (tasks running ready) valid

two_tasks-Distinct : Distinct (100 ∷ 200 ∷ [])
two_tasks-Distinct i j hi hj e = ground (arith, e)

switches-fair_example :
    (k : ℕ) × (k < 2)
    × ((switches
          (λ i. 7 + 10 * i)
          (λ i. 5000)
          (λ i. exits)
          0
          (suc k)
          (tasks running ready)).current_task
        ≡ 200)
    × (((switches (λ i. 7 + 10 * i) (λ i. 5000) (λ i. exits) 0 (suc k) (tasks running ready)).tcb
          200).state
        ≡ running)
switches-fair_example =
    switches-fair (λ i. 7 + 10 * i) (λ i. 5000) (λ i. exits) (tasks running ready) 1 valid
      two_tasks-Distinct (omega arith) (omega arith) (λ i. refl)

-- A zombie alone with another zombie.
stopped : IsValid (tasks zombie zombie)
stopped = tasks-IsValid zombie zombie (λ e. cc)

none_runnable :
    (p : ℕ) → listed p (100 ∷ 200 ∷ []) ≡ true → runnable 7 ((tasks zombie zombie).tcb p) ≡ false
none_runnable p l = elim (ℕ_discrete p 100) [ yes e ↦ rw e refl | no ne ↦ rw (==_ne p 100 ne) refl ]

task_switch_revives_example :
    let (r, t) = task_switch 7 5000 (tasks zombie zombie) in
    (r ≡ 5000) × (t.current_task ≡ 100) × ((t.tcb 100).state ≡ running)
task_switch_revives_example =
    task_switch_revives 7 5000 (tasks zombie zombie) stopped (λ e. cc) none_runnable

-- A heap that counts up from an address.
abbrev counter : ℕ → ℕ → ℕ × ℕ
counter size h = (h, h + size)

task_create_lem_example :
    let (r, h', t) = task_create counter [] 0x4000 4096 (300, tasks running ready) in
    ((2 < 64)
      × (tcb_block counter 4096 300 ≢ 0)
      × (stack_block counter 4096 300 ≢ 0)
      × (r ≡ created 300)
      × Created [] 0x4000 4096 300 380 (tasks running ready) t
      × InStack (t.tcb 300).regs 380 4096)
    ⊎ (Failed 2 300 380 r × (t ≡ tasks running ready))
task_create_lem_example =
    task_create_lem counter [] 0x4000 4096 300 (tasks running ready) valid refl (omega arith)
      (omega arith)
