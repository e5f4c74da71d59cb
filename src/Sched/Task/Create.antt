-- ===== src/Sched/Task/Create.antt =====
-- task_init and task_create. The heap's kmalloc is a parameter: its state and its function.
pub mod Init
pub mod Outcome
use ki_os.Base.{
  ℕ, ◌+◌, ◌-◌, ◌%◌, ◌^◌, ◌≤◌, ◌<◌, ◌≡◌, ◌≢◌, ◌⊎◌, inl, inr, refl, ap, sym, ◌∙◌, true, false, ◌||◌,
  List, [], ◌∷◌, ◌++◌, arith, leb, ◌==◌, if◌then◌else◌, add64, sub64, u32, bit_and, length-append,
  Bool-cases, ==_self, ==_ne, take, replicate,
}
use ki_os.Base.Bits.{bit_and_align_mask}
use ki_os.Sched.Task.{
  ready, running, Registers, Tcb, Tasks, task_name_max, max_tasks, task_size, frame_size,
  task_count, put, set_state, padded,
}
use ki_os.Sched.Task.Running.{listed, IsValid, nonzero}

-- What task_create returns, and which error line it prints.
pub data CreateResult : Type 0 where
  created : ℕ → CreateResult
  max_tasks_reached no_tcb no_stack : CreateResult

-- The frame that a new task starts from.
abbrev pub entry_frame : (entry stack_top : ℕ) → Registers
entry_frame entry stack_top = record {
  gs = 0x10;
  fs = 0x10;
  es = 0x10;
  ds = 0x10;
  r15 = 0;
  r14 = 0;
  r13 = 0;
  r12 = 0;
  r11 = 0;
  r10 = 0;
  r9 = 0;
  r8 = 0;
  rbp = 0;
  rdi = 0;
  rsi = 0;
  rdx = 0;
  rcx = 0;
  rbx = 0;
  rax = 0;
  int_no = 0;
  err_code = 0;
  rip = entry;
  cs = 0x08;
  rflags = 0x202;
  rsp = stack_top;
  ss = 0x10;
}

-- `((stack_base + stack_size) & ~0xFULL) - sizeof(registers_t)`
abbrev pub frame_addr : (stack stack_size : ℕ) → ℕ
frame_addr stack stack_size = sub64 (bit_and (add64 stack stack_size) (2 ^ 64 - 16)) frame_size

-- The new TCB and frame, the list with the new task, and the current task if there was none.
pub add_task : (task stack : ℕ) (name : List ℕ) (entry stack_size : ℕ) → Tasks → Tasks
add_task task stack name entry stack_size s =
    let top = frame_addr stack stack_size in
    let fresh : Tcb = record {
      pid = s.next_pid;
      name = padded task_name_max name;
      state = ready;
      regs = top;
      stack_base = stack;
      stack_size = stack_size;
      sleep_until = 0;
      next = 0;
    } in
    let s' : Tasks = record (put task fresh s) {
      next_pid = u32 (s.next_pid + 1);
      frame = λ q. if q == top then entry_frame entry top else s.frame q;
      task_list = s.task_list ++ (task ∷ []);
    } in
    if s.current_task == 0 then set_state task running (record s' { current_task = task }) else s'

-- The text "kernel_idle".
abbrev idle_name : List ℕ
idle_name = 107 ∷ 101 ∷ 114 ∷ 110 ∷ 101 ∷ 108 ∷ 95 ∷ 105 ∷ 100 ∷ 108 ∷ 101 ∷ []

module _ {H : Type 0} (kmalloc : ℕ → H → ℕ × H) where
  -- `task_create`; `kfree` does nothing.
  pub task_create : List ℕ → (entry stack_size : ℕ) → H × Tasks → CreateResult × H × Tasks
  unfolding add_task
  task_create name entry stack_size (h, s) =
      if leb max_tasks (task_count s)
      then (max_tasks_reached, h, s)
      else let (task, h₁) = kmalloc task_size h in
        if task == 0
        then (no_tcb, h₁, s)
        else let (stack, h₂) = kmalloc stack_size h₁ in
          if stack == 0
          then (no_stack, h₂, s)
          else (created task, h₂, add_task task stack name entry stack_size s)

  -- `task_init`: the list is emptied, and a TCB for the running kernel becomes its first entry.
  pub task_init : H × Tasks → H × Tasks
  task_init (h, s) =
      let empty : Tasks = record s { task_list = []; current_task = 0; next_pid = 1 } in
      let (task, h₁) = kmalloc task_size h in
      if task == 0 then (h₁, empty) else (
        h₁,
        record (put task
            (record {
              pid = 0;
              name = padded task_name_max idle_name;
              state = running;
              regs = 0;
              stack_base = 0;
              stack_size = 0;
              sleep_until = 0;
              next = 0;
            })
            empty) { task_list = task ∷ []; current_task = task },
      )
