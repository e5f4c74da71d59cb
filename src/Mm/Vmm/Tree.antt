-- ===== src/Mm/Vmm/Tree.antt =====
-- The page tables as a tree: each table page has a level, from 4 for the root to 1 for a page
-- table, and one parent.
use ki_os.Base.{
  ℕ, zero, suc, ◌+◌, ◌*◌, ◌/◌, ◌%◌, ◌^◌, ◌≤◌, ◌<◌, ◌≡◌, refl, ap, sym, ◌∙◌, true, false, Option,
  some, none, inl, inr, arith, if◌then◌else◌, Bool-cases, ◌>>=◌, bit_and, bit_or, not, ◌⊎◌,
}
use ki_os.Base.Bits.{bit_and_low_mask}
use ki_os.Mm.Pmm.View.{page_used, IsValid}
use ki_os.Mm.Vmm.{
  Machine, page_present, pml4_index, pdpt_index, pd_index, pt_index, has, physical, table_of,
}
use ki_os.Mm.Vmm.Lookup.{child, entry_addr, translate}
use ki_os.Mm.Vmm.Entries.{table_of_value}
use native.Mathlib.Decide.{ℕ_discrete}

-- The index of an address into a table of a level.
unfoldable pub index : (level virt : ℕ) → ℕ
index zero virt = 0
index (suc zero) virt = pt_index virt
index (suc (suc zero)) virt = pd_index virt
index (suc (suc (suc zero))) virt = pdpt_index virt
index (suc (suc (suc (suc l)))) virt = pml4_index virt

pub index_lt : (level virt : ℕ) → index level virt < 512
unfolding index
index_lt zero virt = omega arith
index_lt (suc zero) virt = omega (arith, bit_and_low_mask 9 (virt / 2 ^ 12))
index_lt (suc (suc zero)) virt = omega (arith, bit_and_low_mask 9 (virt / 2 ^ 21))
index_lt (suc (suc (suc zero))) virt = omega (arith, bit_and_low_mask 9 (virt / 2 ^ 30))
index_lt (suc (suc (suc (suc l)))) virt = omega (arith, bit_and_low_mask 9 (virt / 2 ^ 39))

-- The entry for an address in a table.
abbrev pub slot : (level table virt : ℕ) → ℕ
slot level table virt = table + 8 * index level virt

-- The walk from a table of a level to the page table entry of an address.
unfoldable pub entry_from : (ℕ → ℕ) → (virt level table : ℕ) → Option ℕ
entry_from mem virt zero table = none
entry_from mem virt (suc zero) table = some (slot 1 table virt)
entry_from mem virt (suc (suc l)) table =
    child mem (slot (suc (suc l)) table virt) >>= (λ t. entry_from mem virt (suc l) t)

-- What an address translates to, given its page table entry.
abbrev pub frame_at : (ℕ → ℕ) → (virt : ℕ) → Option ℕ → ℕ
frame_at mem virt none = 0
frame_at mem virt (some e) =
    if not (has (mem e) page_present) then 0 else bit_or (table_of (mem e)) (bit_and virt 0xFFF)

abbrev pub value : (ℕ → ℕ) → (virt level table : ℕ) → ℕ
value mem virt level table = frame_at mem virt (entry_from mem virt level table)

physical_frame :
    (virt : ℕ) (m : Machine) (o : Option ℕ) → physical virt (o, m) ≡ frame_at m.mem virt o
physical_frame virt m none = refl
physical_frame virt m (some e) = refl

pub translate-eq-value : (virt : ℕ) (m : Machine) → translate m virt ≡ value m.mem virt 4 m.pml4
unfolding entry_from index
translate-eq-value virt m = physical_frame virt m (entry_addr m.mem m.pml4 virt)

-- The part of the address space that the tree is about: what lies under the root table from its entry
-- `first` on. The entries before it may point to pages of 2 MiB, which the walks of vmm.c cannot tell
-- from tables.
pub record Area : Type 0 where
  pub root_table : ℕ
  pub first : ℕ

-- An entry that the tree may read.
abbrev pub Mine : Area → ℕ → Type 0
Mine a x = (x % 8 ≡ 0) × (x / 4096 ≡ a.root_table / 4096 → a.root_table + 8 * a.first ≤ x)

-- An address in the area.
abbrev pub Covers : Area → ℕ → Type 0
Covers a v = a.first ≤ index 4 v

-- `level p` is 0 for a page that is no table.
pub record IsTree (a : Area) (level : ℕ → ℕ) (m : Machine) : Type 0 where
  pub valid : IsValid m.pmm
  pub low : page_used m.pmm 0 ≡ true
  pub at_root : m.pml4 ≡ a.root_table
  pub root : (level (m.pml4 / 4096) ≡ 4) × (m.pml4 % 4096 ≡ 0)
  pub used : (p : ℕ) → 0 < level p → page_used m.pmm p ≡ true
  pub down :
      (x c : ℕ)
      → Mine a x
      → 1 < level (x / 4096)
      → child m.mem x ≡ some c
      → suc (level (c / 4096)) ≡ level (x / 4096)
  pub single :
      (x y c : ℕ)
      → Mine a x × (1 < level (x / 4096))
      → Mine a y × (1 < level (y / 4096))
      → child m.mem x ≡ some c
      → child m.mem y ≡ some c
      → x ≡ y

pub child-aligned : (mem : ℕ → ℕ) (x c : ℕ) → child mem x ≡ some c → c % 4096 ≡ 0
child-aligned mem x c e = elim (Bool-cases (has (mem x) page_present)) [
  | inl here ↦ omega (arith, table_of_value (mem x), same here)
  | inr missing ↦ absurd (cc (e, ap (λ b. if b then some (table_of (mem x)) else none) missing))
]
  where
    same : has (mem x) page_present ≡ true → c ≡ table_of (mem x)
    same here = ground (arith, e, here)

-- Whether an entry is present, read off the walk.
pub child-has :
    (mem : ℕ → ℕ) (x : ℕ)
    → ((child mem x ≡ some (table_of (mem x))) × (has (mem x) page_present ≡ true))
      ⊎ ((child mem x ≡ none) × (has (mem x) page_present ≡ false))
child-has mem x = elim (Bool-cases (has (mem x) page_present)) [
  | inl here ↦ inl (rw here refl, here)
  | inr missing ↦ inr (rw missing refl, missing)
]

-- A free page is no table.
pub free_level :
    {a : Area} {level : ℕ → ℕ} {m : Machine} (tree : IsTree a level m) (p : ℕ)
    → page_used m.pmm p ≡ false
    → level p ≡ 0
free_level {level = level} tree p free = elim (ℕ_discrete (level p) 0) [
  | yes e ↦ e
  | no ne ↦ absurd (cc (free, tree.used p (omega arith)))
]

-- An entry for an address lies in its table.
pub slot_in :
    (level table virt : ℕ)
    → table % 4096 ≡ 0
    → (slot level table virt / 4096 ≡ table / 4096) × (slot level table virt % 8 ≡ 0)
slot_in level table virt h = omega (arith, index_lt level virt)

pub slot-Mine :
    {a : Area} {level : ℕ → ℕ} {m : Machine} (tree : IsTree a level m) (k t v : ℕ)
    → (level (t / 4096) ≡ suc (suc k)) × (t % 4096 ≡ 0)
    → Covers a v
    → Mine a (slot (suc (suc k)) t v)
slot-Mine {a} {level} {m} tree k t v h hv = (
  (slot_in (suc (suc k)) t v h.1).1,
  λ e.
      let same : t ≡ a.root_table =
        omega (arith, e, h.1, tree.root.1, tree.at_root, index_lt (suc (suc k)) v) in
      let at : suc (suc k) ≡ 4 =
        sym h.0 ∙ ap (λ x. level (x / 4096)) (same ∙ sym tree.at_root) ∙ tree.root.0 in
      omega (arith, same, hv, ap (λ l. index l v) at),
)

-- Two addresses agree on the indices up to a level.
unfoldable pub Agree : (level v w : ℕ) → Type 0
Agree zero v w = Unit {0}
Agree (suc l) v w = (index (suc l) v ≡ index (suc l) w) × Agree l v w

pub >>=-eq-some {ℓ κ} :
    {A : Type ℓ} {B : Type κ} (o : Option A) (f : A → Option B) {b : B}
    → (o >>= f) ≡ some b
    → (a : A) × (o ≡ some a) × (f a ≡ some b)
>>=-eq-some none f e = cc
>>=-eq-some (some a) f e = (a, refl, e)

-- In a tree, two addresses with one page table entry take the same way to it.
module _ {a : Area} {level : ℕ → ℕ} {m : Machine} (tree : IsTree a level m) where
  pub entry_from-level :
      (k t v e : ℕ)
      → (level (t / 4096) ≡ k) × (t % 4096 ≡ 0)
      → Covers a v
      → entry_from m.mem v k t ≡ some e
      → level (e / 4096) ≡ 1
  unfolding entry_from
  entry_from-level zero t v e h hv w = cc
  entry_from-level (suc zero) t v e h hv w =
      ap (λ y. level (y / 4096)) {x = e} {y = slot 1 t v} (ground (arith, w))
      ∙ ap level (slot_in 1 t v h.1).0
      ∙ h.0
  entry_from-level (suc (suc k)) t v e h hv w =
      let (c, ec, w') = >>=-eq-some (child m.mem (slot (suc (suc k)) t v)) _ w in
      let (tx, x8) = slot_in (suc (suc k)) t v h.1 in
      let lc = tree.down _ c (slot-Mine tree k t v h hv) (omega (arith, h.0, ap level tx)) ec in
      entry_from-level (suc k) c v e
        (omega (arith, lc, h.0, ap level tx), child-aligned m.mem _ c ec) hv w'

  pub entry_from_unique :
      (k t u v w e : ℕ)
      → (level (t / 4096) ≡ k) × (t % 4096 ≡ 0)
      → (level (u / 4096) ≡ k) × (u % 4096 ≡ 0)
      → Covers a v × Covers a w
      → entry_from m.mem v k t ≡ some e
      → entry_from m.mem w k u ≡ some e
      → (t ≡ u) × Agree k v w
  unfolding entry_from Agree
  entry_from_unique zero t u v w e ht hu hv ev ew = cc
  entry_from_unique (suc zero) t u v w e ht hu hv ev ew =
      let same : slot 1 t v ≡ slot 1 u w = ground (arith, ev, ew) in
      (
        omega (arith, same, index_lt 1 v, index_lt 1 w),
        (omega (arith, same, index_lt 1 v, index_lt 1 w), tt),
      )
  entry_from_unique (suc (suc k)) t u v w e ht hu hv ev ew =
      let (c, ec, ev') = >>=-eq-some (child m.mem (slot (suc (suc k)) t v)) _ ev in
      let (d, ed, ew') = >>=-eq-some (child m.mem (slot (suc (suc k)) u w)) _ ew in
      let (tx, x8) = slot_in (suc (suc k)) t v ht.1 in
      let (uy, y8) = slot_in (suc (suc k)) u w hu.1 in
      let lc = tree.down _ c (slot-Mine tree k t v ht hv.0) (omega (arith, ht.0, ap level tx)) ec in
      let ld = tree.down _ d (slot-Mine tree k u w hu hv.1) (omega (arith, hu.0, ap level uy)) ed in
      let (cd, agree) =
        entry_from_unique (suc k) c d v w e
          (omega (arith, lc, ht.0, ap level tx), child-aligned m.mem _ c ec)
          (omega (arith, ld, hu.0, ap level uy), child-aligned m.mem _ d ed) hv ev' ew' in
      let same =
        tree.single _ _ c (slot-Mine tree k t v ht hv.0, omega (arith, ht.0, ap level tx))
          (slot-Mine tree k u w hu hv.1, omega (arith, hu.0, ap level uy)) ec (rw cd ed) in
      (
        omega (arith, same, index_lt (suc (suc k)) v, index_lt (suc (suc k)) w, ht.1, hu.1),
        (
          omega (arith, same, index_lt (suc (suc k)) v, index_lt (suc (suc k)) w, ht.1, hu.1),
          agree,
        ),
      )

-- Agreeing on all four indices is lying in one page of the 48 bits that the tables translate.
pub Agree-page : (v w : ℕ) → Agree 4 v w → v / 4096 % 2 ^ 36 ≡ w / 4096 % 2 ^ 36
unfolding Agree index
Agree-page v w h = omega (
  arith,
  h,
  bit_and_low_mask 9 (v / 2 ^ 39),
  bit_and_low_mask 9 (v / 2 ^ 30),
  bit_and_low_mask 9 (v / 2 ^ 21),
  bit_and_low_mask 9 (v / 2 ^ 12),
  bit_and_low_mask 9 (w / 2 ^ 39),
  bit_and_low_mask 9 (w / 2 ^ 30),
  bit_and_low_mask 9 (w / 2 ^ 21),
  bit_and_low_mask 9 (w / 2 ^ 12),
)
