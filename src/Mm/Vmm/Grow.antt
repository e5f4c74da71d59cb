-- ===== src/Mm/Vmm/Grow.antt =====
-- One level of vmm_get_pte_flags on a tree: the table that it finds or creates.
use ki_os.Base.{
  ℕ, ◌+◌, ◌*◌, ◌/◌, ◌<◌, ◌≡◌, ◌≢◌, refl, ap, ◌∙◌, true, false, Option, some, none, inl, inr, arith,
  Bool-cases, bit_or, not, ◌&&◌, ==_self, ==_ne,
}
use ki_os.Mm.Pmm.{Pmm, alloc_page}
use ki_os.Mm.Pmm.View.{page_used}
use ki_os.Mm.Pmm.Alloc.{Found, Outcome, alloc_page_lem}
use ki_os.Mm.Vmm.{
  Machine, page_present, page_user, has, table_of, store, clear, descend, parent_flags,
}
use ki_os.Mm.Vmm.Lookup.{child}
use ki_os.Mm.Vmm.Entries.{child_user, parent_entry, clear_zero, clear_outside}
use ki_os.Mm.Vmm.Tree.{IsTree, free_level, Area, Mine, child-has}
use ki_os.Mm.Vmm.Keeps.{Keeps, Keeps-same, Keeps-pointers}
use ki_os.Mm.Vmm.Link.{linked_level, Keeps-linked}
use native.Mathlib.Decide.{ℕ_discrete}

-- The level `x` of the walk has run from `m` to `m'` with the result `o`.
pub record Grown (a : Area) (level : ℕ → ℕ) (m : Machine) (x : ℕ) (o : Option ℕ) (m' : Machine)
    : Type 0 where
  pub level' : ℕ → ℕ
  pub keeps : Keeps a level level' m m'
  pub found : (t : ℕ) → o ≡ some t → child m'.mem x ≡ some t
  pub full : o ≡ none → (q : ℕ) → q < m'.pmm.total_pages → page_used m'.pmm q ≡ true
  pub lost : o ≡ none → child m'.mem x ≡ none

child-some : (mem : ℕ → ℕ) (x c : ℕ) → child mem x ≡ some c → child mem x ≡ some (table_of (mem x))
child-some mem x c e = elim (child-has mem x) [ inl h ↦ h.0 | inr h ↦ absurd (cc (e, h.0)) ]

module _ {a : Area} {level : ℕ → ℕ} {m : Machine} (tree : IsTree a level m) (x flags : ℕ)
    (place : Mine a x × (1 < level (x / 4096))) where
  Grown-present :
      (mem' : ℕ → ℕ) {c : ℕ}
      → ((y : ℕ) → child mem' y ≡ child m.mem y)
      → ((y : ℕ) → y ≢ x → mem' y ≡ m.mem y)
      → child m.mem x ≡ some c
      → Grown a level m x (some (table_of (mem' x))) (record m { mem = mem' })
  Grown-present mem' {c} pointers same here = record {
    level' = level;
    keeps =
        Keeps-pointers tree mem' (λ y h. pointers y)
          (λ y one. same y λ e. omega (arith, one, place.1, ap (λ (z : ℕ). level (z / 4096)) e));
    found = λ t e. child-some mem' x c (pointers x ∙ here) ∙ e;
    full = λ e. cc;
    lost = λ e. cc;
  }

  -- Setting the user bit.
  user_pointers : (y : ℕ) → child (store m.mem x (bit_or (m.mem x) page_user)) y ≡ child m.mem y
  user_pointers y = elim (ℕ_discrete y x) [
    | yes e ↦ rw e (child_user m.mem x)
    | no ne ↦ rw (==_ne y x ne) refl
  ]

  abbrev new_mem : ℕ → ℕ → ℕ
  new_mem page = store (clear page 512 m.mem) x (bit_or page (parent_flags flags))

  Grown-linked :
      {p : ℕ} {s : Pmm} {r : Option (ℕ × Pmm)}
      → child m.mem x ≡ none
      → Found 0 p m.pmm s r
      → Grown a level m x
          (some (table_of (new_mem (p * 4096) x)))
          (record m { pmm = s; mem = new_mem (p * 4096) })
  Grown-linked {p} {s} missing f = record {
    level' =
        linked_level tree x place missing f.was_free f.marks (new_mem (p * 4096)) linked cleared
          other;
    keeps =
        Keeps-linked tree x place missing f.was_free f.marks (new_mem (p * 4096)) linked cleared
          other;
    found = λ t e. child-some (new_mem (p * 4096)) x (p * 4096) linked ∙ e;
    full = λ e. cc;
    lost = λ e. cc;
  }
    where
      linked : child (new_mem (p * 4096)) x ≡ some (p * 4096)
      linked =
          let (here, at) = parent_entry p flags (omega (arith, f.managed, tree.valid.small)) in
          rw (==_self x, here, at) refl

      cleared : (i : ℕ) → i < 512 → new_mem (p * 4096) (p * 4096 + 8 * i) ≡ 0
      cleared i lt =
          rw
            (==_ne (p * 4096 + 8 * i) x (λ e. omega (
              arith,
              place.1,
              free_level tree p f.was_free,
              ap level {x = x / 4096} {y = p} (omega arith),
            )))
            (clear_zero (p * 4096) 512 i m.mem lt)

      other : (y : ℕ) → y ≢ x → y / 4096 ≢ p → new_mem (p * 4096) y ≡ m.mem y
      other y ne out =
          rw (==_ne y x ne) (clear_outside (p * 4096) 512 y m.mem (λ i lt e. out (omega arith)))

  abbrev pub Ran : Option (Option ℕ × Machine) → Type 0
  Ran r = (o : Option ℕ) × (m' : Machine) × (r ≡ some (o, m')) × Grown a level m x o m'

  descend_found :
      has (m.mem x) page_present ≡ true
      → child m.mem x ≡ some (table_of (m.mem x))
      → Ran (descend x true flags m)
  unfolding descend
  descend_found here e = elim (Bool-cases (has flags page_user && not (has (m.mem x) page_user))) [
    | inl user ↦
        let mem' = store m.mem x (bit_or (m.mem x) page_user) in
        (
          some (table_of (mem' x)),
          record m { mem = mem' },
          rw (here, user) refl,
          Grown-present mem' user_pointers (λ y ne. rw (==_ne y x ne) refl) e,
        )
    | inr as_is ↦ (
      some (table_of (m.mem x)),
      m,
      rw (here, as_is) refl,
      Grown-present m.mem (λ y. refl) (λ y ne. refl) e,
    )
  ]

  descend_new :
      has (m.mem x) page_present ≡ false
      → child m.mem x ≡ none
      → Outcome 0 m.pmm (alloc_page m.pmm)
      → Ran (descend x true flags m)
  unfolding descend
  descend_new missing e (inl (p, s, f)) = (
    some (table_of (new_mem (p * 4096) x)),
    record m { pmm = s; mem = new_mem (p * 4096) },
    rw (missing, f.result, ==_ne (p * 4096) 0 (λ z. cc (f.was_free, tree.low, page_zero z))) refl,
    Grown-linked e f,
  )
    where
      page_zero : p * 4096 ≡ 0 → page_used m.pmm p ≡ page_used m.pmm 0
      page_zero z = ap (page_used m.pmm) {x = p} {y = 0} (omega arith)
  descend_new missing e (inr f) = (
    none,
    m,
    rw (missing, f.result) refl,
    record {
      level' = level;
      keeps = Keeps-same tree;
      found = λ t h. cc;
      full = λ h q lt. f.all q (omega arith) lt;
      lost = λ h. e;
    },
  )

  -- One level of the walk never faults, keeps the tree, and fails only when no page is free.
  pub descend-Grown : Ran (descend x true flags m)
  descend-Grown = elim (child-has m.mem x) [
    | inl (e, here) ↦ descend_found here e
    | inr (e, missing) ↦ descend_new missing e (alloc_page_lem m.pmm tree.valid)
  ]
