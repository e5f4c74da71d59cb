-- ===== src/Sched/Task/Choice/Search.antt =====
-- The search loop of task_switch: the first task that may run, in cyclic order.
use ki_os.Base.{
  ℕ, zero, suc, ◌+◌, ◌%◌, ◌≤◌, ◌<◌, ◌≡◌, ◌≢◌, ◌⊎◌, inl, inr, refl, ap, Bool, true, false, not, ◌&&◌,
  ◌||◌, Option, none, some, arith, leb, ◌==◌, if◌then◌else◌, get_or, Bool-cases,
}
use native.Mathlib.Decide.{ℕ_discrete}
use ki_os.Sched.Task.{
  TaskState, ready, running, blocked, sleeping, zombie, Tcb, Tasks, task_count, is_ready,
  is_sleeping, set_state, search_from,
}

-- The scheduler may run `t`: not the idle task, and ready or due to wake.
abbrev pub runnable : (ticks : ℕ) → Tcb → Bool
runnable ticks t =
    not (t.pid == 0) && (is_ready t.state || is_sleeping t.state && leb t.sleep_until ticks)

ready_of : (st : TaskState) → is_ready st ≡ true → st ≡ ready
ready_of ready h = refl
ready_of running h = cc
ready_of blocked h = cc
ready_of sleeping h = cc
ready_of zombie h = cc

-- The three tests of the search loop as one.
tests :
    (idle is due : Bool) (t : ℕ) (s woken : Tasks) (rest : Option ℕ × Tasks)
    → (if idle then rest else if is then (some t, s) else if due then (some t, woken) else rest)
      ≡ (if not idle && (is || due) then (some t, if is then s else woken) else rest)
tests true is due t s woken rest = refl
tests false true due t s woken rest = refl
tests false false true t s woken rest = refl
tests false false false t s woken rest = refl

module _ (ticks start : ℕ) where
  -- The task at an offset from the start of the search, round the list.
  abbrev pub nth : Tasks → ℕ → ℕ
  nth s k = get_or s.task_list ((start + k) % task_count s) 0

  pub record Picked (i left k : ℕ) (s : Tasks) (r : Option ℕ × Tasks) : Type 0 where
    pub chosen : r.0 ≡ some (nth s k)
    pub same : (r.1.task_list ≡ s.task_list) × (r.1.current_task ≡ s.current_task)
    pub others : (q : ℕ) → q ≢ nth s k → r.1.tcb q ≡ s.tcb q
    pub woken : r.1.tcb (nth s k) ≡ record (s.tcb (nth s k)) { state = ready }
    pub range : (i ≤ k) × (k < i + left)
    pub can_run : runnable ticks (s.tcb (nth s k)) ≡ true
    pub first : (j : ℕ) → i ≤ j → j < k → runnable ticks (s.tcb (nth s j)) ≡ false

  pub record Nobody (i left : ℕ) (s : Tasks) (r : Option ℕ × Tasks) : Type 0 where
    pub result : r ≡ (none, s)
    pub idle : (j : ℕ) → i ≤ j → j < i + left → runnable ticks (s.tcb (nth s j)) ≡ false

  abbrev pub Searched : ℕ → ℕ → Tasks → Option ℕ × Tasks → Type 0
  Searched i left s r = ((k : ℕ) × Picked i left k s r) ⊎ Nobody i left s r

  -- One candidate that may not run.
  skip :
      (i left : ℕ) (s : Tasks) {r : Option ℕ × Tasks}
      → runnable ticks (s.tcb (nth s i)) ≡ false
      → Searched (i + 1) left s r
      → Searched i (suc left) s r
  skip i left s no_run (inl (k, p)) = inl (
    k,
    record {
      chosen = p.chosen;
      same = p.same;
      others = p.others;
      woken = p.woken;
      range = omega (arith, p.range);
      can_run = p.can_run;
      first = λ j le lt. elim (ℕ_discrete i j) [
        | yes e ↦ rw (← e) no_run
        | no ne ↦ p.first j (omega arith) lt
      ];
    },
  )
  skip i left s no_run (inr n) = inr (record {
    result = n.result;
    idle = λ j le lt. elim (ℕ_discrete i j) [
      | yes e ↦ rw (← e) no_run
      | no ne ↦ n.idle j (omega arith) (omega arith)
    ];
  })

  -- One candidate that may run.
  awake : ℕ → Tasks → Tasks
  awake t s = if is_ready (s.tcb t).state then s else set_state t ready s

  search_step :
      (left i : ℕ) (s : Tasks)
      → search_from ticks start (suc left) i s ≡ (
          if runnable ticks (s.tcb (nth s i))
          then (some (nth s i), awake (nth s i) s)
          else search_from ticks start left (i + 1) s)
  unfolding search_from awake
  search_step left i s =
      tests ((s.tcb (nth s i)).pid == 0) (is_ready (s.tcb (nth s i)).state)
        (is_sleeping (s.tcb (nth s i)).state && leb (s.tcb (nth s i)).sleep_until ticks) (nth s i) s
        (set_state (nth s i) ready s) (search_from ticks start left (i + 1) s)

  awake_lem :
      (t : ℕ) (s : Tasks)
      → ((q : ℕ) → q ≢ t → (awake t s).tcb q ≡ s.tcb q)
        × ((awake t s).tcb t ≡ record (s.tcb t) { state = ready })
        × ((awake t s).task_list ≡ s.task_list)
        × ((awake t s).current_task ≡ s.current_task)
  unfolding awake
  awake_lem t s = elim (Bool-cases (is_ready (s.tcb t).state)) [
    | inl e ↦
        rw e (λ q ne. refl, ap (λ x. record (s.tcb t) { state = x }) (ready_of _ e), refl, refl)
    | inr e ↦ rw e (λ q ne. ground arith, ground arith, refl, refl)
  ]

  take :
      (i left : ℕ) (s : Tasks)
      → runnable ticks (s.tcb (nth s i)) ≡ true
      → Picked i (suc left) i s (search_from ticks start (suc left) i s)
  take i left s run =
      rw (search_step left i s, run)
        (record {
          chosen = refl;
          same = ((awake_lem (nth s i) s).2, (awake_lem (nth s i) s).3);
          others = (awake_lem (nth s i) s).0;
          woken = (awake_lem (nth s i) s).1;
          range = omega arith;
          can_run = run;
          first = λ j le lt. absurd (omega arith);
        })

  pub search_from-Searched :
      (left i : ℕ) (s : Tasks) → Searched i left s (search_from ticks start left i s)
  search_from-Searched zero i s =
      inr (record { result = unfold search_from in refl; idle = λ j le lt. absurd (omega arith) })
  search_from-Searched (suc left) i s = elim (Bool-cases (runnable ticks (s.tcb (nth s i)))) [
    | inl run ↦ inl (i, take i left s run)
    | inr no_run ↦
        rw (search_step left i s, no_run)
          (skip i left s no_run (search_from-Searched left (i + 1) s))
  ]
