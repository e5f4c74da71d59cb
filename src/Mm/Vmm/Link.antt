-- ===== src/Mm/Vmm/Link.antt =====
-- A new table, linked into the tree.
use ki_os.Base.{
  ℕ, zero, suc, ◌+◌, ◌-◌, ◌*◌, ◌/◌, ◌%◌, ◌<◌, ◌≡◌, ◌≢◌, refl, ap, sym, ◌∙◌, true, false, Option,
  some, none, inl, inr, arith, if◌then◌else◌, Option-cases, ◌⊎◌, ◌==◌, ==_self, ==_ne,
}
use ki_os.Mm.Pmm.{Pmm}
use ki_os.Mm.Pmm.View.{page_used, Marks}
use ki_os.Mm.Vmm.{Machine, page_present, has, table_of}
use ki_os.Mm.Vmm.Lookup.{child}
use ki_os.Mm.Vmm.Tree.{
  index, index_lt, slot, entry_from, value, IsTree, child-aligned, slot_in, free_level, Area, Mine,
  Covers, slot-Mine,
}
use ki_os.Mm.Vmm.Keeps.{Keeps}
use native.Mathlib.Decide.{ℕ_discrete}

-- Linking a cleared page, free until now, below the entry `x`, which had no table.
module _ {a : Area} {level : ℕ → ℕ} {m : Machine} (tree : IsTree a level m) (x : ℕ)
    (place : Mine a x × (1 < level (x / 4096))) (missing : child m.mem x ≡ none) {p : ℕ} {s : Pmm}
    (free : page_used m.pmm p ≡ false) (marks : Marks true p m.pmm s) (mem' : ℕ → ℕ)
    (linked : child mem' x ≡ some (p * 4096))
    (cleared : (i : ℕ) → i < 512 → mem' (p * 4096 + 8 * i) ≡ 0)
    (other : (y : ℕ) → y ≢ x → y / 4096 ≢ p → mem' y ≡ m.mem y) where
  no_table : level p ≡ 0
  no_table = free_level tree p free

  abbrev pub linked_level : ℕ → ℕ
  linked_level q = if q == p then level (x / 4096) - 1 else level q

  not_new : (y : ℕ) → 0 < level (y / 4096) → y / 4096 ≢ p
  not_new y h e = omega (arith, ap level e, no_table)

  child_other : (y : ℕ) → y ≢ x → y / 4096 ≢ p → child mem' y ≡ child m.mem y
  child_other y ne out = rw (other y ne out) refl

  zero_entry : (y : ℕ) → y % 8 ≡ 0 → y / 4096 ≡ p → mem' y ≡ 0
  zero_entry y a e =
      let at : y ≡ p * 4096 + 8 * ((y - p * 4096) / 8) = omega arith in
      ap mem' at ∙ cleared ((y - p * 4096) / 8) (omega arith)

  empty_value : (k v : ℕ) → value mem' v k (p * 4096) ≡ 0
  unfolding entry_from
  empty_value zero v = refl
  empty_value (suc zero) v = rw (cleared (index 1 v) (index_lt 1 v)) refl
  empty_value (suc (suc k)) v = rw (cleared (index (suc (suc k)) v) (index_lt (suc (suc k)) v)) refl

  values_linked :
      (k t v : ℕ)
      → (level (t / 4096) ≡ k) × (t % 4096 ≡ 0)
      → Covers a v
      → value mem' v k t ≡ value m.mem v k t
  unfolding entry_from
  values_linked zero t v h hv = refl
  values_linked (suc zero) t v h hv =
      let here : level (slot 1 t v / 4096) ≡ 1 = ap level (slot_in 1 t v h.1).0 ∙ h.0 in
      rw
        (other (slot 1 t v) (λ e. omega (arith, here, place.1, ap (λ (y : ℕ). level (y / 4096)) e))
          (not_new (slot 1 t v) (omega (arith, here))))
        refl
  values_linked (suc (suc k)) t v h hv = elim (ℕ_discrete (slot (suc (suc k)) t v) x) [
    | yes e ↦ rw (e, missing, linked) (empty_value (suc k) v)
    | no ne ↦ elim (Option-cases (child m.mem (slot (suc (suc k)) t v))) [
      | inl e ↦
          rw (child_other (slot (suc (suc k)) t v) ne (not_new _ (omega (arith, here))), e) refl
      | inr (c, e) ↦
          rw (child_other (slot (suc (suc k)) t v) ne (not_new _ (omega (arith, here))), e)
            (values_linked (suc k) c v (omega (arith, below here e), child-aligned m.mem _ c e) hv)
    ]
  ]
    where
      here : level (slot (suc (suc k)) t v / 4096) ≡ suc (suc k)
      here = ap level (slot_in (suc (suc k)) t v h.1).0 ∙ h.0

      below :
          {c : ℕ}
          → level (slot (suc (suc k)) t v / 4096) ≡ suc (suc k)
          → child m.mem (slot (suc (suc k)) t v) ≡ some c
          → level (c / 4096) ≡ suc k
      below {c} at e =
          omega (arith, tree.down _ c (slot-Mine tree k t v h hv) (omega (arith, at)) e, at)

  -- A pointer between tables is the new one, or one from before.
  old_or_new :
      (y c : ℕ)
      → Mine a y × (1 < linked_level (y / 4096))
      → child mem' y ≡ some c
      → ((y ≡ x) × (c ≡ p * 4096)) ⊎ ((1 < level (y / 4096)) × (child m.mem y ≡ some c))
  old_or_new y c h e = elim (ℕ_discrete y x) [
    | yes same ↦ inl (same, ground (arith, sym linked ∙ ap (child mem') (sym same) ∙ e))
    | no ne ↦ elim (ℕ_discrete (y / 4096) p) [
      | yes new ↦ absurd (cc (e, ap no_child (zero_entry y h.0.0 new)))
      | no old ↦ inr (ground (arith, h.1), sym (child_other y ne old) ∙ e)
    ]
  ]
    where
      no_child : ℕ → Option ℕ
      no_child v = if has v page_present then some (table_of v) else none

  old_level : (q : ℕ) → 0 < level q → linked_level q ≡ level q
  old_level q h = elim (ℕ_discrete q p) [
    | yes e ↦ omega (arith, ap level e, no_table)
    | no ne ↦ rw (==_ne q p ne) refl
  ]

  new_level :
      (y c : ℕ) → y ≡ x → c ≡ p * 4096 → suc (linked_level (c / 4096)) ≡ linked_level (y / 4096)
  new_level y c same new =
      let fresh : linked_level p ≡ level (x / 4096) - 1 = rw (==_self p) refl in
      omega (
        arith,
        ap linked_level {x = c / 4096} {y = p} (omega arith),
        fresh,
        ap linked_level {x = y / 4096} {y = x / 4096} (omega arith),
        old_level (x / 4096) (omega arith),
        place.1,
      )

  not_linked_before :
      (z c : ℕ) → Mine a z → 1 < level (z / 4096) → c ≡ p * 4096 → child m.mem z ≢ some c
  not_linked_before z c mine big new e =
      omega
        (arith, tree.down z c mine big e, ap level {x = c / 4096} {y = p} (omega arith), no_table)

  linked-IsTree : IsTree a linked_level (record m { pmm = s; mem = mem' })
  linked-IsTree = record {
    valid = marks.valid;
    low = ground (arith, marks.view 0, tree.low);
    at_root = tree.at_root;
    root = (old_level (m.pml4 / 4096) (omega (arith, tree.root.0)) ∙ tree.root.0, tree.root.1);
    used = λ q h. ground (arith, marks.view q, tree.used q);
    down = λ y c a h e. elim (old_or_new y c (a, h) e) [
      | inl (same, new) ↦ new_level y c same new
      | inr (big, old) ↦
          let under = tree.down y c a big old in
          omega (
            arith,
            under,
            old_level (c / 4096) (omega (arith, under)),
            old_level (y / 4096) (omega arith),
          )
    ];
    single = λ y z c hy hz ey ez. elim (old_or_new y c hy ey) [
      | inl (yx, new) ↦ elim (old_or_new z c hz ez) [
        | inl (zx, _) ↦ yx ∙ sym zx
        | inr (big, old) ↦ absurd (not_linked_before z c hz.0 big new old)
      ]
      | inr (big, old) ↦ elim (old_or_new z c hz ez) [
        | inl (zx, new) ↦ absurd (not_linked_before y c hy.0 big new old)
        | inr (big', old') ↦ tree.single y z c (hy.0, big) (hz.0, big') old old'
      ]
    ];
  }

  pub Keeps-linked : Keeps a level linked_level m (record m { pmm = s; mem = mem' })
  Keeps-linked = record {
    tree = linked-IsTree;
    root = refl;
    total = marks.total;
    spends = λ q u. ground (arith, marks.view q);
    fresh =
        λ q h. elim (ℕ_discrete q p) [ yes e ↦ inr (rw e free) | no ne ↦ inl (ground (arith, h)) ];
    grows = old_level;
    ways = λ y c a h e.
        child_other y (λ same. cc (e, missing, ap (child m.mem) same)) (not_new y (omega arith))
        ∙ e;
    values = values_linked;
  }
