-- ===== src/Sched/Task/Create/Outcome.antt =====
-- What task_create does with the blocks that kmalloc gives.
use ki_os.Base.{
  ℕ, ◌+◌, ◌%◌, ◌^◌, ◌≤◌, ◌<◌, ◌≡◌, ◌≢◌, ◌⊎◌, inl, inr, refl, ap, sym, ◌∙◌, true, false, ◌||◌, List,
  [], ◌∷◌, ◌++◌, arith, leb, ◌==◌, if◌then◌else◌, add64, u32, length-append, Bool-cases, ==_self,
  ==_ne, take, replicate,
}
use ki_os.Base.Bits.{bit_and_align_mask}
use ki_os.Sched.Task.{ready, running, Tcb, Tasks, max_tasks, task_size, frame_size, task_count}
use ki_os.Sched.Task.Running.{listed, IsValid, nonzero}
use ki_os.Sched.Task.Create.{
  CreateResult, created, max_tasks_reached, no_tcb, no_stack, frame_addr, add_task, task_create,
}

-- In a stack of at least 223 bytes that does not wrap round the address space, the frame of a new
-- task is aligned to 16 bytes and lies inside the stack.
pub frame_addr_bounds :
    (stack stack_size : ℕ)
    → stack + stack_size < 2 ^ 64
    → frame_size + 15 ≤ stack_size
    → (frame_addr stack stack_size % 16 ≡ 0)
      × (stack ≤ frame_addr stack stack_size)
      × (frame_addr stack stack_size + frame_size ≤ stack + stack_size)
frame_addr_bounds stack stack_size fits room =
    omega (arith, bit_and_align_mask (add64 stack stack_size) (omega arith))

listed-snoc : (p t : ℕ) (ts : List ℕ) → listed p (ts ++ (t ∷ [])) ≡ (listed p ts || (p == t))
listed-snoc p t [] = ground arith
listed-snoc p t (x ∷ ts) = ground (arith, listed-snoc p t ts)

-- Adding an entry that does not run, at an unused address, keeps the invariant.
Extended-IsValid :
    (s t : Tasks) (task : ℕ) (new : Tcb)
    → IsValid s
    → task ≢ 0
    → listed task s.task_list ≡ false
    → new.state ≢ running
    → t.task_list ≡ s.task_list ++ (task ∷ [])
    → t.current_task ≡ s.current_task
    → ((q : ℕ) → t.tcb q ≡ (if q == task then new else s.tcb q))
    → IsValid t
Extended-IsValid s t task new valid nonnull fresh stopped list current tcb = record {
  current_listed = rw (list, current, listed-snoc, valid.current_listed) refl;
  current_set = λ e. valid.current_set (sym current ∙ e);
  no_null = rw (list, listed-snoc) (ground (arith, valid.no_null));
  alone = λ p l run. rw current (only p (rw (list, listed-snoc) at l) run);
}
  where
    only :
        (p : ℕ)
        → (listed p s.task_list || (p == task)) ≡ true
        → (t.tcb p).state ≡ running
        → p ≡ s.current_task
    only p l run = elim (Bool-cases (p == task)) [
      | inl e ↦ absurd (
          stopped (
            ap (λ (x : Tcb). x.state) (sym (tcb p ∙ ap (λ b. if b then new else s.tcb p) e)) ∙ run))
      | inr e ↦
          valid.alone p (ground arith)
            (ap (λ (x : Tcb). x.state) (sym (tcb p ∙ ap (λ b. if b then new else s.tcb p) e)) ∙ run)
    ]

-- What a successful task_create has done, with the blocks `task` and `stack` that it was given.
pub record Created (name : List ℕ) (entry stack_size task stack : ℕ) (s t : Tasks) : Type 0 where
  pub valid : IsValid t
  pub room : task_count t ≤ max_tasks
  pub list : t.task_list ≡ s.task_list ++ (task ∷ [])
  pub current : t.current_task ≡ s.current_task
  pub pid : ((t.tcb task).pid ≡ s.next_pid) × (t.next_pid ≡ u32 (s.next_pid + 1))
  pub named : (t.tcb task).name ≡ take 32 (name ++ replicate 32 0)
  pub startable : ((t.tcb task).state ≡ ready) × ((t.tcb task).sleep_until ≡ 0)
  pub stack_block : ((t.tcb task).stack_base ≡ stack) × ((t.tcb task).stack_size ≡ stack_size)
  pub place : (t.tcb task).regs ≡ frame_addr stack stack_size
  pub starts : (t.frame (t.tcb task).regs).rip ≡ entry
  pub on_stack : (t.frame (t.tcb task).regs).rsp ≡ (t.tcb task).regs
  pub interruptible : (t.frame (t.tcb task).regs).rflags ≡ 0x202
  pub others : (q : ℕ) → q ≢ task → t.tcb q ≡ s.tcb q
  pub frames : (q : ℕ) → q ≢ (t.tcb task).regs → t.frame q ≡ s.frame q

add_task-Created :
    (task stack : ℕ) (name : List ℕ) (entry stack_size : ℕ) (s : Tasks)
    → IsValid s
    → task_count s < max_tasks
    → task ≢ 0
    → listed task s.task_list ≡ false
    → Created name entry stack_size task stack s (add_task task stack name entry stack_size s)
unfolding add_task
add_task-Created task stack name entry stack_size s valid room nonnull fresh =
    rw (nonzero s valid) (record {
      valid = Extended-IsValid s _ task _ valid nonnull fresh (λ e. cc) refl refl (λ q. refl);
      room = omega (arith, length-append s.task_list (task ∷ []));
      list = refl;
      current = refl;
      pid = (rw self refl, refl);
      named = rw self refl;
      startable = (rw self refl, rw self refl);
      stack_block = (rw self refl, rw self refl);
      place = rw self refl;
      starts = rw (self, top) refl;
      on_stack = rw (self, top) refl;
      interruptible = rw (self, top) refl;
      others = λ q ne. rw (==_ne q task ne) refl;
      frames = λ q ne. rw (==_ne q (frame_addr stack stack_size) (λ e. ne (rw self e))) refl;
    })
  where
    self : (task == task) ≡ true
    self = ==_self task

    top : (frame_addr stack stack_size == frame_addr stack stack_size) ≡ true
    top = ==_self (frame_addr stack stack_size)

-- The failures, by the number of tasks and the two blocks that kmalloc gave: the table is full, or
-- there is no block for the TCB, or none for the stack.
pub data Failed (count task stack : ℕ) : CreateResult → Type 0 where
  table_full : max_tasks ≤ count → Failed count task stack max_tasks_reached
  tcb_missing : count < max_tasks → task ≡ 0 → Failed count task stack no_tcb
  stack_missing : count < max_tasks → task ≢ 0 → stack ≡ 0 → Failed count task stack no_stack

module _ {H : Type 0} (kmalloc : ℕ → H → ℕ × H) (stack_size : ℕ) (h : H) where
  -- The two blocks that kmalloc gives.
  abbrev pub tcb_block : ℕ
  tcb_block = (kmalloc task_size h).0

  abbrev pub stack_block : ℕ
  stack_block = (kmalloc stack_size (kmalloc task_size h).1).0

-- A new task with its two blocks, or a failure and its reason.
abbrev pub Creation :
    (name : List ℕ) (entry stack_size task stack : ℕ) → (r : CreateResult) (s t : Tasks) → Type 0
Creation name entry stack_size task stack r s t =
    ((task_count s < max_tasks)
      × (task ≢ 0)
      × (stack ≢ 0)
      × (r ≡ created task)
      × Created name entry stack_size task stack s t)
    ⊎ (Failed (task_count s) task stack r × (t ≡ s))

pub task_create-Creation :
    {H : Type 0} (kmalloc : ℕ → H → ℕ × H) (name : List ℕ) (entry stack_size : ℕ) (h : H)
    (s : Tasks)
    → IsValid s
    → listed (tcb_block kmalloc stack_size h) s.task_list ≡ false
    → let (r, h', t) = task_create kmalloc name entry stack_size (h, s) in
      Creation name entry stack_size
        (tcb_block kmalloc stack_size h)
        (stack_block kmalloc stack_size h)
        r
        s
        t
unfolding task_create
task_create-Creation kmalloc name entry stack_size h s valid fresh =
    elim (Bool-cases (leb max_tasks (task_count s))) [
      | inl full ↦ rw full (inr (table_full (ground arith), refl))
      | inr room ↦ rw room (elim (Bool-cases ((kmalloc task_size h).0 == 0)) [
        | inl null ↦ rw null (inr (tcb_missing (ground arith) (ground arith), refl))
        | inr task ↦
            rw task (elim (Bool-cases ((kmalloc stack_size (kmalloc task_size h).1).0 == 0)) [
              | inl null ↦
                  rw null (inr (stack_missing (ground arith) (ground arith) (ground arith), refl))
              | inr stack ↦ rw stack (
                  inl (
                    ground arith,
                    ground arith,
                    ground arith,
                    refl,
                    add_task-Created _ _ name entry stack_size s valid (ground arith) (ground arith)
                        fresh,
                  ))
            ])
      ])
    ]

-- Where a new frame lies in its stack.
abbrev pub InStack : (regs stack stack_size : ℕ) → Type 0
InStack regs stack stack_size = (regs % 16 ≡ 0) × (stack ≤ regs) × (regs + 208 ≤ stack + stack_size)

-- On a valid table, with a kmalloc whose TCBs are unused addresses and a stack of at least 223 bytes
-- that does not wrap round the address space, task_create has one of two ends. With less than 64 tasks
-- and both blocks there, it appends a ready task in the first block, with the next pid, its name and
-- the second block as its stack, whose frame lies aligned inside the stack and starts at `entry` with
-- interrupts enabled; it keeps the invariant, the limit of 64, the other tasks and their frames.
-- Otherwise it fails with the reason, a full table, no TCB or no stack, and leaves the table as it was.
pub task_create_lem :
    {H : Type 0} (kmalloc : ℕ → H → ℕ × H) (name : List ℕ) (entry stack_size : ℕ) (h : H)
    (s : Tasks)
    → IsValid s
    → listed (tcb_block kmalloc stack_size h) s.task_list ≡ false
    → stack_block kmalloc stack_size h + stack_size < 2 ^ 64
    → 223 ≤ stack_size
    → let (r, h', t) = task_create kmalloc name entry stack_size (h, s) in
      let task = tcb_block kmalloc stack_size h in
      let stack = stack_block kmalloc stack_size h in
      ((task_count s < max_tasks)
        × (task ≢ 0)
        × (stack ≢ 0)
        × (r ≡ created task)
        × Created name entry stack_size task stack s t
        × InStack (t.tcb task).regs stack stack_size)
      ⊎ (Failed (task_count s) task stack r × (t ≡ s))
task_create_lem kmalloc name entry stack_size h s valid fresh fits room =
    elim (task_create-Creation kmalloc name entry stack_size h s valid fresh) [
      | inl (few, task, stack, result, made) ↦ inl (
        few,
        task,
        stack,
        result,
        made,
        rw made.place (frame_addr_bounds (stack_block kmalloc stack_size h) stack_size fits room),
      )
      | inr failed ↦ inr failed
    ]
