-- ===== src/Mm/Vmm/Mapped.antt =====
-- vmm_map_page and vmm_unmap_page on a tree of page tables.
use ki_os.Base.{
  ℕ, ◌+◌, ◌*◌, ◌/◌, ◌%◌, ◌^◌, ◌<◌, ◌≡◌, ◌⊎◌, refl, ap, sym, ◌∙◌, true, false, Bool, Option, some,
  none, inl, inr, arith, bit_and, bit_or, Bool-cases,
}
use ki_os.Base.Bits.{bit_or_page, bit_and_low_mask}
use ki_os.Mm.Pmm.View.{page_used}
use ki_os.Mm.Vmm.{
  Machine, page_present, has, store, map_page, unmap_page, virt_to_phys, write_entry, erase_entry,
}
use ki_os.Mm.Vmm.Lookup.{entry_addr, get_pte_lookup}
use ki_os.Mm.Vmm.Mapping.{new_entry, new_entry_frame}
use ki_os.Mm.Vmm.Tree.{index, entry_from, value, frame_at, IsTree, Area, Covers, entry_from-level}
use ki_os.Mm.Vmm.Keeps.{Keeps}
use native.Mathlib.Decide.{ℕ_discrete}
use ki_os.Mm.Vmm.Leaf.{virt_to_phys_value, OtherPage, leaf-IsTree, leaf_value, leaf_others}
use ki_os.Mm.Vmm.Walk.{Entry, get_pte_flags-Entry}

-- What `vmm_map_page` leaves, by whether it printed its error line.
pub record Mapped (a : Area) (level : ℕ → ℕ) (m : Machine) (virt phys : ℕ) (done : Bool)
    (m' : Machine) : Type 0 where
  pub level' : ℕ → ℕ
  pub tree : IsTree a level' m'
  pub total : m'.pmm.total_pages ≡ m.pmm.total_pages
  pub spends : (q : ℕ) → page_used m.pmm q ≡ true → page_used m'.pmm q ≡ true
  pub maps : done ≡ true → virt_to_phys virt m' ≡ some (phys / 4096 * 4096 + virt % 4096)
  pub full : done ≡ false → (q : ℕ) → q < m'.pmm.total_pages → page_used m'.pmm q ≡ true
  pub lost : done ≡ false → virt_to_phys virt m ≡ some 0
  pub keeps_level : (p : ℕ) → page_used m.pmm p ≡ true → level p ≡ 0 → level' p ≡ 0
  pub others :
      (v : ℕ)
      → Covers a v
      → (done ≡ false) ⊎ OtherPage v virt
      → virt_to_phys v m' ≡ virt_to_phys v m

module _ {a : Area} {level : ℕ → ℕ} {m : Machine} (tree : IsTree a level m) (virt : ℕ)
    (covers : Covers a virt) where
  abbrev MapRan : (phys : ℕ) → Option (Bool × Machine) → Type 0
  MapRan phys r =
      (done : Bool) × (m' : Machine) × (r ≡ some (done, m')) × Mapped a level m virt phys done m'

  kept_value :
      {level' : ℕ → ℕ} {m' : Machine}
      → Keeps a level level' m m'
      → (v : ℕ) → Covers a v
      → value m'.mem v 4 m'.pml4 ≡ value m.mem v 4 m.pml4
  kept_value {m' = m'} k v hv = ap (value m'.mem v 4) k.root ∙ k.values 4 m.pml4 v tree.root hv

  -- A page in use that is no table does not become one.
  no_table :
      {level' : ℕ → ℕ} {m' : Machine}
      → Keeps a level level' m m'
      → (p : ℕ) → page_used m.pmm p ≡ true
      → level p ≡ 0
      → level' p ≡ 0
  no_table {level' = level'} k p in_use none_yet = elim (ℕ_discrete (level' p) 0) [
    | yes e ↦ e
    | no ne ↦ elim (k.fresh p (omega arith)) [
      | inl old ↦ absurd (omega arith)
      | inr free ↦ absurd (cc (free, in_use))
    ]
  ]

  written :
      (phys flags : ℕ) (o : Option ℕ) (n : Machine)
      → phys < 2 ^ 64
      → flags < 4096
      → Entry a level m virt o n
      → MapRan phys (some (write_entry (new_entry phys flags) (o, n)))
  written phys flags none n hp hf w = (
    false,
    n,
    refl,
    record {
      level' = w.level';
      tree = w.keeps.tree;
      total = w.keeps.total;
      spends = w.keeps.spends;
      maps = λ e. cc;
      full = λ e. w.full refl;
      lost = λ e.
          virt_to_phys_value virt m
          ∙ ap some (
              sym (kept_value w.keeps virt covers)
              ∙ ap (value n.mem virt 4) w.keeps.root
              ∙ ap (frame_at n.mem virt) (w.lost refl));
      keeps_level = no_table w.keeps;
      others = λ v hv e.
          virt_to_phys_value v n ∙ ap some (kept_value w.keeps v hv) ∙ sym (virt_to_phys_value v m);
    },
  )
  written phys flags (some e) n hp hf w =
      let (here, leaf) = w.at e refl in
      let at : entry_from n.mem virt 4 n.pml4 ≡ some e =
        ap (entry_from n.mem virt 4) w.keeps.root ∙ here in
      let entry = new_entry phys flags in
      (
        true,
        record n { mem = store n.mem e entry },
        refl,
        record {
          level' = w.level';
          tree = leaf-IsTree w.keeps.tree virt e entry covers at leaf;
          total = w.keeps.total;
          spends = w.keeps.spends;
          maps = λ _.
              virt_to_phys_value virt _
              ∙ ap some (
                  leaf_value w.keeps.tree virt e entry covers at leaf
                  ∙ rw ((new_entry_frame phys flags hp hf).0, (new_entry_frame phys flags hp hf).1)
                      offset);
          full = λ e. cc;
          lost = λ e. cc;
          keeps_level = no_table w.keeps;
          others = λ v hv away.
              virt_to_phys_value v _
              ∙ ap some (
                  elim away [
                    | inl e ↦ cc
                    | inr apart ↦ leaf_others w.keeps.tree virt e entry covers at leaf v hv apart
                  ]
                  ∙ kept_value w.keeps v hv)
              ∙ sym (virt_to_phys_value v m);
        },
      )
    where
      offset : bit_or (phys / 4096 * 4096) (bit_and virt 0xFFF) ≡ phys / 4096 * 4096 + virt % 4096
      offset = rw (bit_and_low_mask 12 virt) (bit_or_page (phys / 4096) (virt % 4096) (omega arith))

  -- On a tree of page tables, mapping a page at a 64-bit physical address with 12 bits of flags
  -- never faults and leaves a tree, in which every page of the other addresses translates as
  -- before, pages in use stay in use and become no tables, and their number is the same. If it reports success, missing
  -- tables were created and the address translates to its offset in the page; if it prints its error
  -- line, no page is free, the address was not mapped, and every address translates as before.
  pub map_page-Mapped :
      (phys flags : ℕ) → phys < 2 ^ 64 → flags < 4096 → MapRan phys (map_page virt phys flags m)
  unfolding map_page
  map_page-Mapped phys flags hp hf =
      let (o, n, run, w) = get_pte_flags-Entry tree virt flags covers in
      let (done, n', same, mapped) = written phys flags o n hp hf w in
      (done, n', rw run same, mapped)

  abbrev UnmapRan : Option Machine → Type 0
  UnmapRan r =
      (n : Machine) × (r ≡ some n)
      × (n.pmm ≡ m.pmm)
      × IsTree a level n
      × (virt_to_phys virt n ≡ some 0)
      × ((v : ℕ) → Covers a v → OtherPage v virt → virt_to_phys v n ≡ virt_to_phys v m)

  erased :
      (o : Option ℕ) → entry_from m.mem virt 4 m.pml4 ≡ o → UnmapRan (some (erase_entry (o, m)))
  erased none h =
      (m, refl, refl, tree, virt_to_phys_value virt m ∙ ap some (rw h refl), λ v hv apart. refl)
  erased (some e) h =
      let leaf = entry_from-level tree 4 m.pml4 virt e tree.root covers h in
      elim (Bool-cases (has (m.mem e) page_present)) [
        | inl here ↦ (
          record m { mem = store m.mem e 0 },
          rw here refl,
          refl,
          leaf-IsTree tree virt e 0 covers h leaf,
          virt_to_phys_value virt _ ∙ ap some (leaf_value tree virt e 0 covers h leaf),
          λ v hv apart.
              virt_to_phys_value v _
              ∙ ap some (leaf_others tree virt e 0 covers h leaf v hv apart)
              ∙ sym (virt_to_phys_value v m),
        )
        | inr missing ↦ (
          m,
          rw missing refl,
          refl,
          tree,
          virt_to_phys_value virt m ∙ ap some (rw (h, missing) refl),
          λ v hv apart. refl,
        )
      ]

  -- On a tree of page tables `vmm_unmap_page` never faults, allocates and frees nothing, and leaves a
  -- tree of the same tables, in which the address is not mapped, and every address of another page translates as before.
  pub unmap_page_lem : UnmapRan (unmap_page virt m)
  unfolding unmap_page entry_from index
  unmap_page_lem =
      let (n, same, kept, t, gone, others) = erased (entry_addr m.mem m.pml4 virt) refl in
      (n, rw (get_pte_lookup virt m) same, kept, t, gone, others)
