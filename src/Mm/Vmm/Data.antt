-- ===== src/Mm/Vmm/Data.antt =====
-- Pages of data beside a tree of page tables: taking one, reading and writing it, giving it back.
use ki_os.Base.{
  ℕ, ◌*◌, ◌/◌, ◌<◌, ◌≡◌, ◌≢◌, refl, ap, ◌∙◌, sym, true, false, some, arith, ==_self, ==_ne,
}
use ki_os.Mm.Pmm.{Pmm, free_page}
use ki_os.Mm.Pmm.Alloc.{free_page-Marks}
use ki_os.Mm.Pmm.View.{Marks}
use ki_os.Mm.Vmm.{Machine, store, virt_to_phys}
use ki_os.Mm.Vmm.Access.{store64, load64}
use ki_os.Mm.Vmm.Keeps.{Keeps-pointers, Keeps}
use ki_os.Mm.Vmm.Leaf.{virt_to_phys_value}
use ki_os.Mm.Vmm.Tree.{IsTree, Area, Covers}

pub alloc-IsTree :
    {a : Area} {level : ℕ → ℕ} {m : Machine} {p : ℕ} {s : Pmm}
    → IsTree a level m
    → Marks true p m.pmm s
    → IsTree a level (record m { pmm = s })
alloc-IsTree {m = m} {p = p} tree marks = record {
  valid = marks.valid;
  low = ground (arith, marks.view 0, tree.low);
  at_root = tree.at_root;
  root = tree.root;
  used = λ q h. ground (arith, marks.view q, tree.used q h);
  down = tree.down;
  single = tree.single;
}

module _ {a : Area} {level : ℕ → ℕ} {m : Machine} (tree : IsTree a level m) where
  -- Freeing a page in use that is no table.
  pub free-IsTree :
      (p : ℕ)
      → p ≢ 0
      → level p ≡ 0
      → p < m.pmm.total_pages
      → (u : Pmm) × (free_page (p * 4096) m.pmm ≡ some u)
        × Marks false p m.pmm u
        × IsTree a level (record m { pmm = u })
  free-IsTree p some_page plain within =
      let (u, freed, marks) = free_page-Marks tree.valid p within in
      (
        u,
        freed,
        marks,
        record {
          valid = marks.valid;
          low = marks.view 0 ∙ rw (==_ne p 0 some_page) tree.low;
          at_root = tree.at_root;
          root = tree.root;
          used = λ q h.
              marks.view q
              ∙ rw (==_ne p q (λ e. omega (arith, plain, h, ap level e))) (tree.used q h);
          down = tree.down;
          single = tree.single;
        },
      )

  -- A write to a page of data changes no table.
  module _ (x w : ℕ) (plain : level (x / 4096) ≡ 0) where
    apart : (y : ℕ) → 0 < level (y / 4096) → store m.mem x w y ≡ m.mem y
    apart y h =
        rw (==_ne y x (λ e. omega (arith, plain, h, ap (λ (z : ℕ). level (z / 4096)) e))) refl

    data-Keeps : Keeps a level level m (record m { mem = store m.mem x w })
    data-Keeps =
        Keeps-pointers tree (store m.mem x w)
          (λ y h.
            rw (==_ne y x (λ e. omega (arith, plain, h, ap (λ (z : ℕ). level (z / 4096)) e))) refl)
          (λ y h. apart y (omega (arith, h)))

    pub data-IsTree : IsTree a level (record m { mem = store m.mem x w })
    data-IsTree = data-Keeps.tree

    pub data_same :
        (v : ℕ)
        → Covers a v
        → virt_to_phys v (record m { mem = store m.mem x w }) ≡ virt_to_phys v m
    data_same v hv =
        virt_to_phys_value v _
        ∙ ap some (data-Keeps.values 4 m.pml4 v tree.root hv)
        ∙ sym (virt_to_phys_value v m)

    -- Writing a word through a mapped address and reading it back.
    pub store64_lem :
        (virt : ℕ)
        → virt_to_phys virt m ≡ some x
        → x ≢ 0
        → store64 virt w m ≡ some (record m { mem = store m.mem x w })
    unfolding store64
    store64_lem virt at set = rw (at, ==_ne x 0 set) refl

    pub load64-store64 :
        (virt : ℕ)
        → Covers a virt
        → virt_to_phys virt m ≡ some x
        → x ≢ 0
        → load64 virt (record m { mem = store m.mem x w }) ≡ some w
    unfolding load64
    load64-store64 virt covers at set =
        rw (data_same virt covers, at, ==_ne x 0 set, ==_self x) refl
