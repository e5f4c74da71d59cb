-- ===== src/Mm/Vmm/Walk.antt =====
-- vmm_get_pte_flags with `create` on a tree: three levels, then the page table entry.
use ki_os.Base.{
  ℕ, zero, suc, ◌+◌, ◌*◌, ◌/◌, ◌%◌, ◌<◌, ◌≡◌, refl, ap, ◌∙◌, true, Option, some, none, inl, inr,
  arith, Bool-cases, ◌>>=◌,
}
use ki_os.Mm.Pmm.View.{page_used}
use ki_os.Mm.Vmm.{Machine, pt_index, descend, below, get_pte_flags}
use ki_os.Mm.Vmm.Lookup.{child}
use ki_os.Mm.Vmm.Tree.{
  index, slot, entry_from, IsTree, child-aligned, slot_in, value, Area, Mine, Covers, slot-Mine,
}
use ki_os.Mm.Vmm.Keeps.{Keeps, Keeps-same}
use ki_os.Mm.Vmm.Grow.{descend-Grown}

pub Keeps-trans :
    {r : Area} {a b c : ℕ → ℕ} {m n o : Machine}
    → Keeps r a b m n
    → Keeps r b c n o
    → Keeps r a c m o
unfolding entry_from
Keeps-trans {r} {a} {b} {c} {m} {n} {o} f g = record {
  tree = g.tree;
  root = g.root ∙ f.root;
  total = g.total ∙ f.total;
  spends = λ q u. g.spends q (f.spends q u);
  fresh = λ p h. elim (g.fresh p h) [
    | inl old ↦ f.fresh p old
    | inr free ↦ elim (Bool-cases (page_used m.pmm p)) [
      | inl in_use ↦ absurd (cc (f.spends p in_use, free))
      | inr unused ↦ inr unused
    ]
  ];
  grows = λ p h. g.grows p (omega (arith, f.grows p h)) ∙ f.grows p h;
  ways = λ x t e h w.
      g.ways x t e (omega (arith, f.grows (x / 4096) (omega arith))) (f.ways x t e h w);
  values = both;
}
  where
    both :
        (k t v : ℕ)
        → (a (t / 4096) ≡ k) × (t % 4096 ≡ 0)
        → Covers r v
        → value o.mem v k t ≡ value m.mem v k t
    both zero t v h hv = refl
    both (suc k) t v h hv =
        g.values (suc k) t v (f.grows (t / 4096) (omega (arith, h.0)) ∙ h.0, h.1) hv
        ∙ f.values (suc k) t v h hv

-- The walk has ended at the entry `e` of a page table, or has failed with no page free.
pub record Entry (a : Area) (level : ℕ → ℕ) (m : Machine) (virt : ℕ) (o : Option ℕ) (m' : Machine)
    : Type 0 where
  pub level' : ℕ → ℕ
  pub keeps : Keeps a level level' m m'
  pub at :
      (e : ℕ) → o ≡ some e → (entry_from m'.mem virt 4 m.pml4 ≡ some e) × (level' (e / 4096) ≡ 1)
  pub full : o ≡ none → (q : ℕ) → q < m'.pmm.total_pages → page_used m'.pmm q ≡ true
  pub lost : o ≡ none → entry_from m'.mem virt 4 m.pml4 ≡ none

-- `mem` has every pointer between tables of `m`.
abbrev pub Extends : Area → (level : ℕ → ℕ) → Machine → (ℕ → ℕ) → Type 0
Extends a level m mem =
    (x c : ℕ) → Mine a x → 1 < level (x / 4096) → child m.mem x ≡ some c → child mem x ≡ some c

-- The walk for `virt` that began at `m` has come to a table of level `l` in `m'`, or has failed.
pub record Reached (a : Area) (level : ℕ → ℕ) (m : Machine) (virt l : ℕ) (o : Option ℕ)
    (m' : Machine) : Type 0 where
  pub level' : ℕ → ℕ
  pub keeps : Keeps a level level' m m'
  pub table : (t : ℕ) → o ≡ some t → (level' (t / 4096) ≡ l) × (t % 4096 ≡ 0)
  pub way :
      (t : ℕ)
      → o ≡ some t
      → (mem : ℕ → ℕ) → Extends a level' m' mem
      → entry_from mem virt 4 m.pml4 ≡ entry_from mem virt l t
  pub full : o ≡ none → (q : ℕ) → q < m'.pmm.total_pages → page_used m'.pmm q ≡ true
  pub lost : o ≡ none → entry_from m'.mem virt 4 m.pml4 ≡ none

module _ {a : Area} {level : ℕ → ℕ} {m : Machine} (tree : IsTree a level m) (virt flags : ℕ)
    (covers : Covers a virt) where
  start : Reached a level m virt 4 (some m.pml4) m
  start = record {
    level' = level;
    keeps = Keeps-same tree;
    table = λ t e. ground (arith, tree.root, e);
    way = λ t e mem x. ap (entry_from mem virt 4) {x = m.pml4} {y = t} (ground (arith, e));
    full = λ e. cc;
    lost = λ e. cc;
  }

  abbrev Next : (l : ℕ) → Option ℕ → Machine → Type 0
  Next l o n =
      (o' : Option ℕ) × (n' : Machine) × (below
          (λ t. descend (slot (suc (suc l)) t virt) true flags) (o, n)
        ≡ some (o', n'))
      × Reached a level m virt (suc l) o' n'

  next :
      (l : ℕ) (o : Option ℕ) (n : Machine) → Reached a level m virt (suc (suc l)) o n → Next l o n
  unfolding entry_from
  next l none n r = (
    none,
    n,
    refl,
    record {
      level' = r.level';
      keeps = r.keeps;
      table = λ t e. cc;
      way = λ t e mem x. cc;
      full = r.full;
      lost = r.lost;
    },
  )
  next l (some t) n r =
      let place = (slot_in (suc (suc l)) t virt (r.table t refl).1).0 in
      let low = slot-Mine r.keeps.tree l t virt (r.table t refl) covers in
      let at : r.level' (slot (suc (suc l)) t virt / 4096) ≡ suc (suc l) =
        ap r.level' place ∙ (r.table t refl).0 in
      let (o', n', run, g) =
        descend-Grown r.keeps.tree (slot (suc (suc l)) t virt) flags (low, omega (arith, at)) in
      let at' : g.level' (slot (suc (suc l)) t virt / 4096) ≡ suc (suc l) =
        g.keeps.grows _ (omega (arith, at)) ∙ at in
      (
        o',
        n',
        run,
        record {
          level' = g.level';
          keeps = Keeps-trans r.keeps g.keeps;
          table = λ u e. (
            omega (arith, at', g.keeps.tree.down _ u low (omega (arith, at')) (g.found u e)),
            child-aligned n'.mem _ u (g.found u e),
          );
          way = λ u e mem x.
              r.way t refl mem (λ y c a h w.
                x y c a (omega (arith, h, g.keeps.grows (y / 4096) (omega arith)))
                  (g.keeps.ways y c a h w))
              ∙ ap (λ s. s >>= entry_from mem virt (suc l))
                  (x _ u low (omega (arith, at')) (g.found u e));
          full = g.full;
          lost = λ e.
              r.way t refl n'.mem (λ y c a h w. g.keeps.ways y c a h w)
              ∙ ap (λ s. s >>= entry_from n'.mem virt (suc l)) (g.lost e);
        },
      )

  abbrev Ends : Option ℕ → Machine → Type 0
  Ends o n =
      (o' : Option ℕ) × (n' : Machine) × (below (λ t n'. some (some (t + 8 * pt_index virt), n'))
          (o, n)
        ≡ some (o', n'))
      × Entry a level m virt o' n'

  last : (o : Option ℕ) (n : Machine) → Reached a level m virt 1 o n → Ends o n
  unfolding entry_from index
  last none n r = (
    none,
    n,
    refl,
    record { level' = r.level'; keeps = r.keeps; at = λ e h. cc; full = r.full; lost = r.lost },
  )
  last (some t) n r = (
    some (slot 1 t virt),
    n,
    refl,
    record {
      level' = r.level';
      keeps = r.keeps;
      at = λ e h. (
        r.way t refl n.mem (λ x c a b w. w) ∙ h,
        ap (λ y. r.level' (y / 4096)) {x = e} {y = slot 1 t virt} (ground (arith, h))
            ∙ ap r.level' (slot_in 1 t virt (r.table t refl).1).0
            ∙ (r.table t refl).0,
      );
      full = λ e. cc;
      lost = λ e. cc;
    },
  )

  -- On a tree the walk that creates missing tables never faults.
  pub get_pte_flags-Entry :
      (o : Option ℕ) × (m' : Machine) × (get_pte_flags virt true flags m ≡ some (o, m'))
      × Entry a level m virt o m'
  unfolding get_pte_flags index
  get_pte_flags-Entry =
      let (o₁, m₁, run₁, r₁) = next 2 (some m.pml4) m start in
      let (o₂, m₂, run₂, r₂) = next 1 o₁ m₁ r₁ in
      let (o₃, m₃, run₃, r₃) = next 0 o₂ m₂ r₂ in
      let (o, m', run, e) = last o₃ m₃ r₃ in (o, m', rw (run₁, run₂, run₃) run, e)
