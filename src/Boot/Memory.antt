-- ===== src/Boot/Memory.antt =====
-- The heap blocks that the kernel's start asks for.
use mathlib.Core.Path.{subst}
use ki_os.Base.{
  ℕ, ◌^◌, ◌≤◌, ◌<◌, ◌≡◌, ◌≢◌, ◌⊎◌, inl, inr, refl, sym, ◌∙◌, false, Option, some, arith,
}
use ki_os.Base.Bytes.{bytes}
use ki_os.Mm.Heap.{Heap}
use ki_os.Mm.Heap.Backing.{kmalloc-Served}
use ki_os.Mm.Heap.Blocks.{IsValid, Outcome, kmalloc_lem}
use ki_os.Mm.Vmm.Tree.{Area, IsTree}
use ki_os.Sched.Task.{Tasks, task_size, task_count, max_tasks}
use ki_os.Sched.Task.Create.{task_init}
use ki_os.Sched.Task.Create.Outcome.{task_create-Creation}
use ki_os.Sched.Task.Create.Init.{
  task_init-heap, task_init-none, task_init-list, task_init-IsValid, task_create-heap,
}
use ki_os.Sched.Task.Running
use ki_os.Sched.Task.Running.{listed}
use ki_os.Boot.{Setting, malloc, start_tasks, shell_stack}
use native.Mathlib.Decide.{ℕ_discrete}

-- A heap that is there, valid, and mapped by a tree of page tables.
pub record Good (a : Area) (o : Option Heap) : Type 0 where
  pub heap : Heap
  pub there : o ≡ some heap
  pub level : ℕ → ℕ
  pub tree : IsTree a level heap.machine
  pub valid : IsValid heap

-- One request.
pub record Given (a : Area) (h : Heap) (r : ℕ × Option Heap) : Type 0 where
  pub good : Good a r.1
  pub order : (r.0 ≡ 0) ⊎ ((r.0 ≡ h.current_ptr) × (h.current_ptr < good.heap.current_ptr))

placed :
    {n : ℕ} {h h' : Heap} {ptr : ℕ}
    → IsValid h
    → Outcome n h ptr h'
    → IsValid h' × ((ptr ≡ 0) ⊎ ((ptr ≡ h.current_ptr) × (h.current_ptr < h'.current_ptr)))
placed v (Outcome.block some_bytes room tight w) = (w, inr (refl, omega arith))
placed v (Outcome.failed m) = (
  record { above = v.above; below = v.below; aligned = v.aligned; counted = v.counted },
  inl refl,
)

module _ {a : Area} (higher : a.first ≤ 256) (n : ℕ) (positive : 0 < n) (small : n < 2 ^ 46) where
  malloc-Given :
      (h : Heap) {level : ℕ → ℕ}
      → IsTree a level h.machine
      → IsValid h
      → Given a h (malloc n (some h))
  malloc-Given h tree v =
      let (ptr, h', run, s) = kmalloc-Served n h tree higher v positive small in
      let (w, order) = placed v (kmalloc_lem n h v small run) in
      rw (run, malloc)
        (record {
          good = record { heap = h'; there = refl; level = s.level'; tree = s.tree; valid = w };
          order = order;
        })

  malloc-Good : {o : Option Heap} → Good a o → Good a (malloc n o).1
  malloc-Good {o} g =
      subst (λ x. Good a (malloc n x).1) (sym g.there) (malloc-Given g.heap g.tree g.valid).good

module _ (c : Setting) {a : Area} {level : ℕ → ℕ} (h : Heap) (tree : IsTree a level h.machine)
    (higher : a.first ≤ 256) (valid : IsValid h) (s : Tasks) where
  first : Given a h (malloc task_size (some h))
  first = malloc-Given higher task_size (omega arith) (omega arith) h tree valid

  abbrev initial : Option Heap × Tasks
  initial = task_init malloc (some h, s)

  initial-Good : Good a initial.0
  initial-Good = subst (Good a) (sym (task_init-heap malloc (some h) s)) first.good

  initial_few : task_count initial.1 < max_tasks
  initial_few = elim (ℕ_discrete (malloc task_size (some h)).0 0) [
    | yes e ↦ rw (task_init-none malloc (some h) s e) (omega arith)
    | no ne ↦ rw (task_init-list malloc (some h) s ne) (omega arith)
  ]

  -- The start of the tasks leaves a valid heap.
  pub start_tasks-Good : Good a (start_tasks c h s).1
  unfolding start_tasks
  start_tasks-Good =
      let g = malloc-Good higher task_size (omega arith) (omega arith) initial-Good in
      task_create-heap malloc initial.0 initial.1 (bytes "shell") c.shell_task shell_stack
        initial_few (Good a) g (malloc-Good higher shell_stack (omega arith) (omega arith) g)

  -- The second block is not the first.
  second_apart :
      (malloc task_size (some h)).0 ≢ 0
      → (malloc task_size initial.0).0 ≢ (malloc task_size (some h)).0
  second_apart ne =
      subst (λ o. (malloc task_size o).0 ≢ (malloc task_size (some h)).0)
        (sym (task_init-heap malloc (some h) s ∙ first.good.there))
        (apart first.order
          (malloc-Given higher task_size (omega arith) (omega arith) first.good.heap first.good.tree
            first.good.valid).order)
    where
      apart :
          ((malloc task_size (some h)).0 ≡ 0)
            ⊎ (((malloc task_size (some h)).0 ≡ h.current_ptr)
                × (h.current_ptr < first.good.heap.current_ptr))
          → ((malloc task_size (some first.good.heap)).0 ≡ 0)
            ⊎ (((malloc task_size (some first.good.heap)).0 ≡ first.good.heap.current_ptr)
                × (first.good.heap.current_ptr
                    < (malloc-Given higher task_size
                        (omega arith)
                        (omega arith)
                        first.good.heap
                        first.good.tree
                        first.good.valid).good.heap.current_ptr))
          → (malloc task_size (some first.good.heap)).0 ≢ (malloc task_size (some h)).0
      apart (inl z) two e = ne z
      apart (inr one) (inl z) e = ne (sym e ∙ z)
      apart (inr one) (inr two) e = omega (arith, one, two, e)

  -- If there is memory for the first task, the task table is valid.
  pub start_tasks-IsValid :
      (malloc task_size (some h)).0 ≢ 0 → Running.IsValid (start_tasks c h s).2
  unfolding start_tasks
  start_tasks-IsValid ne =
      let ok = task_init-IsValid malloc (some h) s ne in
      let fresh : listed (malloc task_size initial.0).0 initial.1.task_list ≡ false =
        rw (task_init-list malloc (some h) s ne) (ground (arith, second_apart ne)) in
      elim (task_create-Creation malloc (bytes "shell") c.shell_task shell_stack initial.0 initial.1
        ok fresh) [
          | inl (few, task, stack, result, made) ↦ made.valid
          | inr (failed, same) ↦ subst Running.IsValid (sym same) ok
        ]
