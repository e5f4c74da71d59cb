-- ===== src/Sched/Task/Choice.antt =====
-- task_switch: which task it picks, and what it changes.
mod Search
pub use Search.*
use ki_os.Base.{
  List, [], ◌∷◌, ℕ, zero, suc, ◌+◌, ◌%◌, ◌≤◌, ◌<◌, ◌≡◌, ◌≢◌, ◌⊎◌, inl, inr, refl, ap, sym, ◌∙◌,
  Bool, true, false, not, ◌&&◌, ◌||◌, Option, none, some, arith, leb, ◌==◌, if◌then◌else◌, get_or,
  length, Bool-cases, ==_self, ==_ne,
}
use mathlib.Core.Path.{subst}
use native.Mathlib.Decide.{ℕ_discrete}
use ki_os.Sched.Task.{
  TaskState, ready, running, blocked, sleeping, zombie, Tcb, Tasks, task_count, is_ready,
  is_sleeping, set_state, start_from, search_from, save_current, resume, task_switch,
}

-- Where an address stands first in a list, counted from `i`.
pub index_of : List ℕ → ℕ → ℕ → Option ℕ
index_of [] i p = none
index_of (t ∷ ts) i p = let rest = index_of ts (i + 1) p in if t == p then some i else rest

-- No entry of the list stands in it twice.
abbrev pub Distinct : List ℕ → Type 0
Distinct ts = (i j : ℕ) → i < length ts → j < length ts → get_or ts i 0 ≡ get_or ts j 0 → i ≡ j

pub index_of-get_or :
    (ts : List ℕ) (b i : ℕ)
    → Distinct ts
    → i < length ts
    → index_of ts b (get_or ts i 0) ≡ some (b + i)
unfolding index_of
index_of-get_or [] b i apart lt = absurd (omega arith)
index_of-get_or (t ∷ ts) b zero apart lt = rw (==_self t) (ap some (omega arith))
index_of-get_or (t ∷ ts) b (suc i) apart lt =
    rw (==_ne t (get_or ts i 0) (λ e. absurd (omega (arith, apart 0 (suc i) (omega arith) lt e)))) (
      index_of-get_or ts (b + 1) i
        (λ j k hj hk e. omega (arith, apart (suc j) (suc k) (omega arith) (omega arith) e))
        (omega arith))
    ∙ ap some {x = b + 1 + i} {y = b + suc i} (omega arith)

abbrev pub past : Option ℕ → ℕ → ℕ
past none n = 0
past (some i) n = (i + 1) % n

-- The place after the current task in the cyclic order, or the first if there is no current task.
abbrev pub first_index : Tasks → ℕ
first_index s = past (index_of s.task_list 0 s.current_task) (task_count s)

start_from-past :
    (ts : List ℕ) (i current n : ℕ) → start_from ts i current n ≡ past (index_of ts i current) n
unfolding start_from index_of
start_from-past [] i current n = refl
start_from-past (t ∷ ts) i current n = elim (Bool-cases (t == current)) [
  | inl here ↦ rw here refl
  | inr later ↦ rw later (start_from-past ts (i + 1) current n)
]

-- What the search and `resume` do when they find task `t`: it is the first that may run after the
-- current one in the cyclic order of the list; it becomes the current task, runs, and its saved
-- frame is returned. The other tasks are as before.
pub record Switched (ticks : ℕ) (before : Tasks) (r : ℕ × Tasks) (t : ℕ) : Type 0 where
  pub offset : ℕ
  pub chosen : t ≡ nth ticks (first_index before) before offset
  pub range : offset < task_count before
  pub can_run : runnable ticks (before.tcb t) ≡ true
  pub first :
      (j : ℕ)
      → j < offset
      → runnable ticks (before.tcb (nth ticks (first_index before) before j)) ≡ false
  pub current : r.1.current_task ≡ t
  pub list : r.1.task_list ≡ before.task_list
  pub frame : r.0 ≡ (before.tcb t).regs
  pub runs : r.1.tcb t ≡ record (before.tcb t) { state = running }
  pub others : (q : ℕ) → q ≢ t → r.1.tcb q ≡ before.tcb q

-- What they do when they find none: the frame that was given is returned, and the current task is
-- set to running.
pub record Stayed (ticks regs : ℕ) (before : Tasks) (r : ℕ × Tasks) : Type 0 where
  pub idle :
      (j : ℕ)
      → j < task_count before
      → runnable ticks (before.tcb (nth ticks (first_index before) before j)) ≡ false
  pub result : r ≡ (
    regs,
    if not (before.current_task == 0) then set_state before.current_task running before else before,
  )

pub save_current-same :
    (regs : ℕ) (s : Tasks)
    → ((save_current regs s).task_list ≡ s.task_list)
      × ((save_current regs s).current_task ≡ s.current_task)
unfolding save_current
save_current-same regs s = (ground arith, ground arith)

module _ (ticks regs : ℕ) (before : Tasks) where
  resume-Switched :
      {found : Option ℕ × Tasks} {k : ℕ}
      → Picked ticks (first_index before) 0 (task_count before) k before found
      → Switched ticks before (resume regs found) (nth ticks (first_index before) before k)
  unfolding resume
  resume-Switched {found = (none, u)} {k} p = absurd (cc p.chosen)
  resume-Switched {found = (some t, u)} {k} p =
      subst (Switched ticks before (resume regs (some t, u))) e (record {
        offset = k;
        chosen = e;
        range = omega (arith, p.range);
        can_run = rw e p.can_run;
        first = λ j lt. p.first j (omega arith) lt;
        current = refl;
        list = p.same.0;
        frame = rw (==_self t) (ap (λ x. x.regs) woken);
        runs = rw (==_self t) (ap (λ (x : Tcb). record x { state = running }) woken);
        others = λ q ne. ground (arith, p.others q (λ h. ne (h ∙ sym e)));
      })
    where
      e : t ≡ nth ticks (first_index before) before k
      e = cc p.chosen

      woken : u.tcb t ≡ record (before.tcb t) { state = ready }
      woken = rw e p.woken

  resume-Stayed :
      {found : Option ℕ × Tasks}
      → Nobody ticks (first_index before) 0 (task_count before) before found
      → Stayed ticks regs before (resume regs found)
  unfolding resume
  resume-Stayed n = record {
    idle = λ j lt. n.idle j (omega arith) (omega arith);
    result = ap (resume regs) n.result;
  }

  resume-cases :
      Searched ticks
        (first_index before)
        0
        (task_count before)
        before
        (search_from ticks (first_index before) (task_count before) 0 before)
      → ((t : ℕ) × Switched ticks before
            (resume regs (search_from ticks (first_index before) (task_count before) 0 before))
            t)
        ⊎ Stayed ticks regs before
            (resume regs (search_from ticks (first_index before) (task_count before) 0 before))
  resume-cases (inl (k, p)) = inl (nth ticks (first_index before) before k, resume-Switched p)
  resume-cases (inr n) = inr (resume-Stayed n)

-- With at least one task, `task_switch` saves the current task and then either switches to the
-- first runnable task after it in the cyclic order of the list, or finds none and stays.
pub task_switch_lem :
    (ticks regs : ℕ) (s : Tasks)
    → 0 < task_count s
    → ((t : ℕ) × Switched ticks (save_current regs s) (task_switch ticks regs s) t)
      ⊎ Stayed ticks regs (save_current regs s) (task_switch ticks regs s)
unfolding task_switch
task_switch_lem ticks regs s some_task =
    rw (nonempty, start_from-past)
      (resume-cases ticks regs (save_current regs s) (
        search_from-Searched ticks (first_index (save_current regs s))
          (task_count (save_current regs s)) 0 (save_current regs s)))
  where
    nonempty : (task_count s == 0) ≡ false
    nonempty = ground arith
