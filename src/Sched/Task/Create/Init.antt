-- ===== src/Sched/Task/Create/Init.antt =====
-- task_init and task_create, by what kmalloc gave them.
use ki_os.Base.{
  ℕ, ◌<◌, ◌≡◌, ◌≢◌, refl, false, List, [], ◌∷◌, arith, leb, ◌==◌, inl, inr, Bool-cases, ==_ne,
  ==_iff,
}
use ki_os.Sched.Task.{Tasks, max_tasks, task_size, task_count}
use ki_os.Sched.Task.Create.{task_init, task_create}
use ki_os.Sched.Task.Running.{IsValid}

module _ {H : Type 0} (kmalloc : ℕ → H → ℕ × H) (h : H) (s : Tasks) where
  abbrev pub got : ℕ
  got = (kmalloc task_size h).0

  -- The heap that task_init leaves.
  pub task_init-heap : (task_init kmalloc (h, s)).0 ≡ (kmalloc task_size h).1
  unfolding task_init
  task_init-heap = elim (Bool-cases (got == 0)) [ inl e ↦ rw e refl | inr e ↦ rw e refl ]

  pub task_init-none : got ≡ 0 → (task_init kmalloc (h, s)).1.task_list ≡ []
  unfolding task_init
  task_init-none e = rw ((==_iff got 0).1 e) refl

  pub task_init-list : got ≢ 0 → (task_init kmalloc (h, s)).1.task_list ≡ got ∷ []
  unfolding task_init
  task_init-list ne = rw (==_ne got 0 ne) refl

  -- The table of task_init is valid: it has the one task that runs.
  pub task_init-IsValid : got ≢ 0 → IsValid (task_init kmalloc (h, s)).1
  unfolding task_init
  task_init-IsValid ne = rw (==_ne got 0 ne) (record {
    current_listed = ground (arith);
    current_set = ne;
    no_null = ground (arith, ne);
    alone = λ p l run. ground (arith, l);
  })

  -- The heap after task_create, which asks it for one block or two.
  pub task_create-heap :
      (name : List ℕ) (entry stack_size : ℕ)
      → task_count s < max_tasks
      → (P : H → Type 0) → P (kmalloc task_size h).1
      → P (kmalloc stack_size (kmalloc task_size h).1).1
      → P (task_create kmalloc name entry stack_size (h, s)).1
  unfolding task_create
  task_create-heap name entry stack_size few P one two =
      let room : leb max_tasks (task_count s) ≡ false = ground arith in
      elim (Bool-cases (got == 0)) [
        | inl null ↦ rw (room, null) one
        | inr task ↦ elim (Bool-cases ((kmalloc stack_size (kmalloc task_size h).1).0 == 0)) [
          | inl null ↦ rw (room, task, null) two
          | inr stack ↦ rw (room, task, stack) two
        ]
      ]
