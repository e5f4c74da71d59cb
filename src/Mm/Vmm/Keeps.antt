-- ===== src/Mm/Vmm/Keeps.antt =====
-- What a walk that creates tables keeps: the tree and the translation of every address.
use ki_os.Base.{
  ℕ, zero, suc, ◌/◌, ◌%◌, ◌<◌, ◌≡◌, refl, ap, sym, ◌∙◌, true, false, some, inl, inr, arith,
  Option-cases, ◌⊎◌,
}
use ki_os.Mm.Pmm.View.{page_used}
use ki_os.Mm.Vmm.{Machine}
use ki_os.Mm.Vmm.Lookup.{child}
use ki_os.Mm.Vmm.Tree.{
  slot, entry_from, value, IsTree, child-aligned, slot_in, Area, Mine, Covers, slot-Mine,
}

-- What a walk that creates tables leaves as it was.
pub record Keeps (a : Area) (level level' : ℕ → ℕ) (m m' : Machine) : Type 0 where
  pub tree : IsTree a level' m'
  pub root : m'.pml4 ≡ m.pml4
  pub total : m'.pmm.total_pages ≡ m.pmm.total_pages
  pub spends : (q : ℕ) → page_used m.pmm q ≡ true → page_used m'.pmm q ≡ true
  pub fresh : (p : ℕ) → 0 < level' p → (0 < level p) ⊎ (page_used m.pmm p ≡ false)
  pub grows : (p : ℕ) → 0 < level p → level' p ≡ level p
  pub ways :
      (x c : ℕ) → Mine a x → 1 < level (x / 4096) → child m.mem x ≡ some c → child m'.mem x ≡ some c
  pub values :
      (k t v : ℕ)
      → (level (t / 4096) ≡ k) × (t % 4096 ≡ 0)
      → Covers a v
      → value m'.mem v k t ≡ value m.mem v k t

pub Keeps-same :
    {a : Area} {level : ℕ → ℕ} {m : Machine} → IsTree a level m → Keeps a level level m m
Keeps-same tree = record {
  tree = tree;
  root = refl;
  total = refl;
  spends = λ q u. u;
  fresh = λ p h. inl h;
  grows = λ p h. refl;
  ways = λ x c a h e. e;
  values = λ k t v h hv. refl;
}

-- Memories with the same pointers between tables, and the same entries in page tables.
module _ {a : Area} {level : ℕ → ℕ} {m : Machine} (tree : IsTree a level m) (mem' : ℕ → ℕ)
    (pointers : (x : ℕ) → 1 < level (x / 4096) → child mem' x ≡ child m.mem x) where
  pub entry_same :
      (k t v : ℕ)
      → (level (t / 4096) ≡ k) × (t % 4096 ≡ 0)
      → Covers a v
      → entry_from mem' v k t ≡ entry_from m.mem v k t
  unfolding entry_from
  entry_same zero t v h hv = refl
  entry_same (suc zero) t v h hv = refl
  entry_same (suc (suc k)) t v h hv = elim (Option-cases (child m.mem (slot (suc (suc k)) t v))) [
    | inl e ↦ rw (pointers (slot (suc (suc k)) t v) big, e) refl
    | inr (c, e) ↦
        rw (pointers (slot (suc (suc k)) t v) big, e)
          (entry_same (suc k) c v
            (
              omega (arith, tree.down _ c (slot-Mine tree k t v h hv) big e, h.0, here),
              child-aligned m.mem _ c e,
            )
            hv)
  ]
    where
      here : level (slot (suc (suc k)) t v / 4096) ≡ suc (suc k)
      here = ap level (slot_in (suc (suc k)) t v h.1).0 ∙ h.0

      big : 1 < level (slot (suc (suc k)) t v / 4096)
      big = omega (arith, here)

  pub pointers-IsTree : IsTree a level (record m { mem = mem' })
  pointers-IsTree = record {
    valid = tree.valid;
    low = tree.low;
    at_root = tree.at_root;
    root = tree.root;
    used = tree.used;
    down = λ x c a h e. tree.down x c a h (sym (pointers x h) ∙ e);
    single = λ x y c hx hy ex ey.
        tree.single x y c hx hy (sym (pointers x hx.1) ∙ ex) (sym (pointers y hy.1) ∙ ey);
  }

module _ {a : Area} {level : ℕ → ℕ} {m : Machine} (tree : IsTree a level m) (mem' : ℕ → ℕ)
    (pointers : (x : ℕ) → 1 < level (x / 4096) → child mem' x ≡ child m.mem x)
    (leaves : (x : ℕ) → level (x / 4096) ≡ 1 → mem' x ≡ m.mem x) where
  value_same :
      (k t v : ℕ)
      → (level (t / 4096) ≡ k) × (t % 4096 ≡ 0)
      → Covers a v
      → value mem' v k t ≡ value m.mem v k t
  unfolding entry_from
  value_same zero t v h hv = refl
  value_same (suc zero) t v h hv =
      rw (leaves (slot 1 t v) (ap level (slot_in 1 t v h.1).0 ∙ h.0)) refl
  value_same (suc (suc k)) t v h hv = elim (Option-cases (child m.mem (slot (suc (suc k)) t v))) [
    | inl e ↦ rw (pointers (slot (suc (suc k)) t v) big, e) refl
    | inr (c, e) ↦
        rw (pointers (slot (suc (suc k)) t v) big, e)
          (value_same (suc k) c v
            (
              omega (arith, tree.down _ c (slot-Mine tree k t v h hv) big e, h.0, here),
              child-aligned m.mem _ c e,
            )
            hv)
  ]
    where
      here : level (slot (suc (suc k)) t v / 4096) ≡ suc (suc k)
      here = ap level (slot_in (suc (suc k)) t v h.1).0 ∙ h.0

      big : 1 < level (slot (suc (suc k)) t v / 4096)
      big = omega (arith, here)

  -- A step that only changes bits which no walk reads keeps the tree.
  pub Keeps-pointers : Keeps a level level m (record m { mem = mem' })
  Keeps-pointers = record {
    tree = pointers-IsTree tree mem' pointers;
    root = refl;
    total = refl;
    spends = λ q u. u;
    fresh = λ p h. inl h;
    grows = λ p h. refl;
    ways = λ x c a h e. pointers x h ∙ e;
    values = value_same;
  }
