-- ===== src/Sched/Task.antt =====
-- kernel/task.h and kernel/task.c: task control blocks and the round-robin scheduler.
-- A `task_t*` is an address, 0 for NULL; `tcb` and `frame` are the memory behind `task_t*` and
-- `registers_t*`. `task_list` is the array up to `task_count_val`.
pub mod Running
pub mod Choice
pub mod Frames
pub mod Create
pub mod Turns
pub mod Fair
mod Tests
use ki_os.Base.{
  ℕ, zero, suc, ◌+◌, ◌-◌, ◌*◌, ◌/◌, ◌%◌, ◌^◌, Bool, true, false, not, ◌&&◌, Option, none, some,
  List, [], ◌∷◌, ◌++◌, ltb, leb, ◌==◌, if◌then◌else◌, length, get_or, take, replicate, add64, sub64,
  u32, bit_and,
}

-- `task_state_t`
pub data TaskState : Type 0 where
  ready running blocked sleeping zombie : TaskState

-- `registers_t`, the frame that the interrupt stub pushes.
pub record Registers : Type 0 where
  pub gs : ℕ
  pub fs : ℕ
  pub es : ℕ
  pub ds : ℕ
  pub r15 : ℕ
  pub r14 : ℕ
  pub r13 : ℕ
  pub r12 : ℕ
  pub r11 : ℕ
  pub r10 : ℕ
  pub r9 : ℕ
  pub r8 : ℕ
  pub rbp : ℕ
  pub rdi : ℕ
  pub rsi : ℕ
  pub rdx : ℕ
  pub rcx : ℕ
  pub rbx : ℕ
  pub rax : ℕ
  pub int_no : ℕ
  pub err_code : ℕ
  pub rip : ℕ
  pub cs : ℕ
  pub rflags : ℕ
  pub rsp : ℕ
  pub ss : ℕ

-- `task_t`
pub record Tcb : Type 0 where
  pub pid : ℕ
  pub name : List ℕ
  pub state : TaskState
  pub regs : ℕ
  pub stack_base : ℕ
  pub stack_size : ℕ
  pub sleep_until : ℕ
  pub next : ℕ

pub record Tasks : Type 0 where
  pub task_list : List ℕ
  pub current_task : ℕ
  pub next_pid : ℕ
  pub tcb : ℕ → Tcb
  pub frame : ℕ → Registers

abbrev pub task_name_max : ℕ
task_name_max = 32

abbrev pub max_tasks : ℕ
max_tasks = 64

-- sizeof(task_t) and sizeof(registers_t)
abbrev pub task_size : ℕ
task_size = 80

abbrev pub frame_size : ℕ
frame_size = 208

abbrev pub task_count : Tasks → ℕ
task_count s = length s.task_list

abbrev pub is_ready : TaskState → Bool
is_ready ready = true
is_ready _ = false

abbrev pub is_running : TaskState → Bool
is_running running = true
is_running _ = false

abbrev pub is_sleeping : TaskState → Bool
is_sleeping sleeping = true
is_sleeping _ = false

-- A write through a `task_t*`.
abbrev pub put : ℕ → Tcb → Tasks → Tasks
put p t s = record s { tcb = λ q. if q == p then t else s.tcb q }

abbrev pub set_state : ℕ → TaskState → Tasks → Tasks
set_state p st s = put p (record (s.tcb p) { state = st }) s

-- `strncpy(dest, src, n)` as far as `dest[0 .. n)` goes: `src` up to its end, then zeros.
abbrev pub padded : ℕ → List ℕ → List ℕ
padded n src = take n (src ++ replicate n 0)

-- The index from which the search starts: one past the current task, or 0.
pub start_from : List ℕ → ℕ → ℕ → ℕ → ℕ
start_from [] i current n = 0
start_from (t ∷ ts) i current n =
    if t == current then (i + 1) % n else start_from ts (i + 1) current n

-- The search for the next task from offset `i`, with `left` rounds to go. A sleeper whose time has
-- come is woken; pid 0 is passed over.
pub search_from : (ticks start : ℕ) → ℕ → ℕ → Tasks → Option ℕ × Tasks
search_from ticks start zero i s = (none, s)
search_from ticks start (suc left) i s =
    let t = get_or s.task_list ((start + i) % task_count s) 0 in
    let rest = search_from ticks start left (i + 1) s in
    if (s.tcb t).pid == 0
    then rest
    else if is_ready (s.tcb t).state
    then (some t, s)
    else if is_sleeping (s.tcb t).state && leb (s.tcb t).sleep_until ticks
    then (some t, set_state t ready s)
    else rest

-- The first part of `task_switch`: a running task is saved and becomes ready.
pub save_current : ℕ → Tasks → Tasks
save_current regs s =
    if not (s.current_task == 0) && is_running (s.tcb s.current_task).state
    then put s.current_task (record (s.tcb s.current_task) { regs = regs; state = ready }) s
    else s

-- The last part: no task was found, or `t` was.
pub resume : ℕ → Option ℕ × Tasks → ℕ × Tasks
resume regs (none, s) =
    (regs, if not (s.current_task == 0) then set_state s.current_task running s else s)
resume regs (some t, s) =
    let s' : Tasks = set_state t running (record s { current_task = t }) in ((s'.tcb t).regs, s')

-- `task_switch`; `ticks` is what `pit_get_ticks` returns.
pub task_switch : (ticks : ℕ) → ℕ → Tasks → ℕ × Tasks
unfolding start_from search_from save_current resume
task_switch ticks regs s =
    if task_count s == 0
    then (regs, s)
    else let s₁ = save_current regs s in
      resume regs (
        search_from ticks (start_from s₁.task_list 0 s₁.current_task (task_count s₁))
          (task_count s₁) 0 s₁)

pub task_sleep : (now : ℕ) → ℕ → Tasks → Tasks
task_sleep now ticks s =
    if not (s.current_task == 0)
    then put s.current_task
        (record (s.tcb s.current_task) { state = sleeping; sleep_until = add64 now ticks }) s
    else s

pub task_exit : Tasks → Tasks
task_exit s = if not (s.current_task == 0) then set_state s.current_task zombie s else s

pub task_get_by_index : ℕ → Tasks → ℕ
task_get_by_index i s = if ltb i (task_count s) then get_or s.task_list i 0 else 0
