-- ===== src/Mm/Vmm/Lookup.antt =====
-- Walks that create nothing: vmm_virt_to_phys and vmm_unmap_page.
use ki_os.Base.{
  ℕ, ◌+◌, ◌*◌, ◌≡◌, ◌≢◌, refl, ap, ◌∙◌, false, Option, none, some, if◌then◌else◌, ◌>>=◌, inl, inr,
  ==_ne, ==_self, Bool-cases,
}
use ki_os.Mm.Vmm.{
  Machine, page_present, pml4_index, pdpt_index, pd_index, pt_index, store, table_of, has, descend,
  below, get_pte_flags, get_pte, physical, virt_to_phys, unmap_page,
}

-- One level of the walk without a write: the table that a present entry points to.
abbrev pub child : (ℕ → ℕ) → ℕ → Option ℕ
child mem slot = if has (mem slot) page_present then some (table_of (mem slot)) else none

-- The address of the page table entry of an address, where the three tables above it are there.
abbrev pub entry_addr : (ℕ → ℕ) → (pml4 virt : ℕ) → Option ℕ
entry_addr mem pml4 virt = do
  pdpt ← child mem (pml4 + 8 * pml4_index virt)
  pd ← child mem (pdpt + 8 * pdpt_index virt)
  pt ← child mem (pd + 8 * pd_index virt)
  some (pt + 8 * pt_index virt)

descend_lookup : (slot : ℕ) (m : Machine) → descend slot false 0 m ≡ some (child m.mem slot, m)
unfolding descend
descend_lookup slot m = elim (Bool-cases (has (m.mem slot) page_present)) [
  | inl here ↦ rw here
  | inr missing ↦ rw missing
]

-- One more level of the walk.
below_lookup :
    (o : Option ℕ) (m : Machine) (index : ℕ)
    → below (λ t. descend (t + 8 * index) false 0) (o, m)
      ≡ some (o >>= (λ t. child m.mem (t + 8 * index)), m)
below_lookup none m index = refl
below_lookup (some t) m index = descend_lookup (t + 8 * index) m

below_entry :
    (o : Option ℕ) (m : Machine) (index : ℕ)
    → below (λ t m'. some (some (t + 8 * index), m')) (o, m)
      ≡ some (o >>= (λ t. some (t + 8 * index)), m)
below_entry none m index = refl
below_entry (some t) m index = refl

>>=-assoc {ℓ} :
    {A B C : Type ℓ} (o : Option A) (f : A → Option B) (g : B → Option C)
    → ((o >>= f) >>= g) ≡ (o >>= (λ a. f a >>= g))
>>=-assoc none f g = refl
>>=-assoc (some a) f g = refl

pub get_pte_lookup :
    (virt : ℕ) (m : Machine) → get_pte virt false m ≡ some (entry_addr m.mem m.pml4 virt, m)
unfolding get_pte get_pte_flags
get_pte_lookup virt m =
    rw
      (
        descend_lookup,
        below_lookup (child m.mem (m.pml4 + 8 * pml4_index virt)) m (pdpt_index virt),
        below_lookup
            (child m.mem (m.pml4 + 8 * pml4_index virt)
              >>= (λ t. child m.mem (t + 8 * pdpt_index virt)))
            m (pd_index virt),
        below_entry
            (child m.mem (m.pml4 + 8 * pml4_index virt)
              >>= (λ t. child m.mem (t + 8 * pdpt_index virt))
              >>= (λ t. child m.mem (t + 8 * pd_index virt)))
            m (pt_index virt),
      )
      (ap (λ o. some (o, m)) (simp >>=-assoc))

-- What the walk gives for an address: 0, or the frame of its page table entry with the offset in the page.
abbrev pub translate : Machine → ℕ → ℕ
translate m virt = physical virt (entry_addr m.mem m.pml4 virt, m)

-- `vmm_virt_to_phys` reads the entry that the walk of present entries leads to.
pub virt_to_phys_lem : (virt : ℕ) (m : Machine) → virt_to_phys virt m ≡ some (translate m virt)
unfolding virt_to_phys
virt_to_phys_lem virt m = rw get_pte_lookup

-- The tables on the way to an address, and that its entry is none of theirs.
pub record Path3 (mem : ℕ → ℕ) (pml4 virt pt : ℕ) : Type 0 where
  pub pdpt : ℕ
  pub pd : ℕ
  pub first : child mem (pml4 + 8 * pml4_index virt) ≡ some pdpt
  pub second : child mem (pdpt + 8 * pdpt_index virt) ≡ some pd
  pub third : child mem (pd + 8 * pd_index virt) ≡ some pt
  pub apart :
      (pml4 + 8 * pml4_index virt ≢ pt + 8 * pt_index virt)
      × (pdpt + 8 * pdpt_index virt ≢ pt + 8 * pt_index virt)
      × (pd + 8 * pd_index virt ≢ pt + 8 * pt_index virt)

module _ {mem : ℕ → ℕ} {pml4 virt pt : ℕ} (w : Path3 mem pml4 virt pt) where
  pub entry_addr-Path3 : entry_addr mem pml4 virt ≡ some (pt + 8 * pt_index virt)
  entry_addr-Path3 = rw (w.first, w.second, w.third)

  child-store :
      (slot v : ℕ)
      → slot ≢ pt + 8 * pt_index virt
      → child (store mem (pt + 8 * pt_index virt) v) slot ≡ child mem slot
  child-store slot v ne = rw (==_ne slot (pt + 8 * pt_index virt) ne)

  -- Writing the entry keeps the way to it.
  pub entry_addr-store :
      (v : ℕ)
      → entry_addr (store mem (pt + 8 * pt_index virt) v) pml4 virt ≡ some (pt + 8 * pt_index virt)
  entry_addr-store v = rw (
    child-store _ v w.apart.0,
    w.first,
    child-store _ v w.apart.1,
    w.second,
    child-store _ v w.apart.2,
    w.third,
  )

-- Where the three tables of an address are there and none of the entries on the way is its own,
-- `vmm_unmap_page` does not fault, and then the address is not mapped.
pub virt_to_phys-unmap_page :
    (virt : ℕ) (m : Machine) {pt : ℕ}
    → Path3 m.mem m.pml4 virt pt
    → (m' : Machine) × (unmap_page virt m ≡ some m') × (virt_to_phys virt m' ≡ some 0)
unfolding unmap_page
virt_to_phys-unmap_page virt m {pt} w =
    elim (Bool-cases (has (m.mem (pt + 8 * pt_index virt)) page_present)) [
      | inl here ↦ (
        record m { mem = store m.mem (pt + 8 * pt_index virt) 0 },
        rw (get_pte_lookup virt m, entry_addr-Path3 w, here),
        virt_to_phys_lem virt (record m { mem = store m.mem (pt + 8 * pt_index virt) 0 })
            ∙ ap some (rw (entry_addr-store w 0, ==_self (pt + 8 * pt_index virt))),
      )
      | inr missing ↦ (
        m,
        rw (get_pte_lookup virt m, entry_addr-Path3 w, missing),
        virt_to_phys_lem virt m ∙ ap some (rw (entry_addr-Path3 w, missing)),
      )
    ]
