-- ===== src/Mm/Vmm/Leaf.antt =====
-- The change of one page table entry in a tree, as vmm_map_page and vmm_unmap_page make it.
use ki_os.Base.{
  ℕ, ◌/◌, ◌%◌, ◌^◌, ◌<◌, ◌≡◌, ◌≢◌, refl, ap, sym, ◌∙◌, some, inl, inr, arith, not, bit_and, bit_or,
  if◌then◌else◌, Option-cases, ==_self, ==_ne,
}
use ki_os.Mm.Vmm.{Machine, page_present, table_of, has, store, virt_to_phys}
use ki_os.Mm.Vmm.Lookup.{child, virt_to_phys_lem}
use ki_os.Mm.Vmm.Tree.{
  entry_from, value, translate-eq-value, IsTree, Area, Covers, entry_from_unique, Agree-page,
}
use ki_os.Mm.Vmm.Keeps.{entry_same, pointers-IsTree}

pub virt_to_phys_value : (v : ℕ) (m : Machine) → virt_to_phys v m ≡ some (value m.mem v 4 m.pml4)
virt_to_phys_value v m = virt_to_phys_lem v m ∙ ap some (translate-eq-value v m)

-- Two addresses in different pages of the 48 bits that are translated.
abbrev pub OtherPage : ℕ → ℕ → Type 0
OtherPage v w = v / 4096 % 2 ^ 36 ≢ w / 4096 % 2 ^ 36

-- Writing the page table entry `e` of the address `virt`.
module _ {a : Area} {level : ℕ → ℕ} {m : Machine} (tree : IsTree a level m) (virt e w : ℕ)
    (covers : Covers a virt) (at : entry_from m.mem virt 4 m.pml4 ≡ some e)
    (leaf : level (e / 4096) ≡ 1) where
  pointers : (x : ℕ) → 1 < level (x / 4096) → child (store m.mem e w) x ≡ child m.mem x
  pointers x h =
      rw (==_ne x e (λ same. omega (arith, leaf, h, ap (λ (z : ℕ). level (z / 4096)) same))) refl

  pub leaf-IsTree : IsTree a level (record m { mem = store m.mem e w })
  leaf-IsTree = pointers-IsTree tree (store m.mem e w) pointers

  same_entry :
      (v : ℕ) → Covers a v → entry_from (store m.mem e w) v 4 m.pml4 ≡ entry_from m.mem v 4 m.pml4
  same_entry v hv = entry_same tree (store m.mem e w) pointers 4 m.pml4 v tree.root hv

  pub leaf_value :
      value (store m.mem e w) virt 4 m.pml4
      ≡ (if not (has w page_present) then 0 else bit_or (table_of w) (bit_and virt 0xFFF))
  leaf_value = rw (same_entry virt covers, at, ==_self e) refl

  pub leaf_others :
      (v : ℕ)
      → Covers a v
      → OtherPage v virt
      → value (store m.mem e w) v 4 m.pml4 ≡ value m.mem v 4 m.pml4
  leaf_others v hv apart = elim (Option-cases (entry_from m.mem v 4 m.pml4)) [
    | inl h ↦ rw (same_entry v hv, h) refl
    | inr (d, h) ↦ rw (same_entry v hv, h, ==_ne d e (different h)) refl
  ]
    where
      different : {d : ℕ} → entry_from m.mem v 4 m.pml4 ≡ some d → d ≢ e
      different {d} h same = apart (
          Agree-page v virt
            (entry_from_unique tree 4 m.pml4 m.pml4 v virt d tree.root tree.root (hv, covers) h
              (at ∙ ap some (sym same))).1)
