-- ===== src/Mm/Vmm/Tests.antt =====
-- Page tables with one page mapped.
use ki_os.Base.{ℕ, ◌≡◌, Bool, none, some, refl, ◌⊎◌, arith}
use ki_os.Mm.Vmm.{Machine, map_page, unmap_page, virt_to_phys}
use ki_os.Mm.Vmm.Hardware.{IsPlain, hardware_walk, virt_to_phys-hardware}
use ki_os.Mm.Vmm.Leaf.{OtherPage}
use ki_os.Mm.Vmm.Mapped.{Mapped, map_page-Mapped, unmap_page_lem}
use ki_os.Mm.Vmm.Tree.{IsTree, Covers}
use ki_os.Mm.Vmm.Sample.{sample, sample_area, sample_level, sample-IsTree}

-- This mapping creates a page table.
map_page-Mapped_example :
    (done : Bool) × (m' : Machine) × (map_page 0x200000 0x9000 7 sample ≡ some (done, m'))
    × Mapped sample_area sample_level sample 0x200000 0x9000 done m'
map_page-Mapped_example =
    map_page-Mapped sample-IsTree 0x200000 (omega arith) 0x9000 7 (omega arith) (omega arith)

unmap_page_lem_example :
    (n : Machine) × (unmap_page 0 sample ≡ some n)
    × (n.pmm ≡ sample.pmm)
    × IsTree sample_area sample_level n
    × (virt_to_phys 0 n ≡ some 0)
    × ((v : ℕ) → Covers sample_area v → OtherPage v 0 → virt_to_phys v n ≡ virt_to_phys v sample)
unmap_page_lem_example = unmap_page_lem sample-IsTree 0 (omega arith)

sample_plain : IsPlain sample.mem sample.pml4 0x234
sample_plain = record {
  pml4_small = omega arith;
  pdpt_small = omega arith;
  pd_small = omega arith;
  pt_small = omega arith;
  pdpt_table = refl;
  pd_table = refl;
}

virt_to_phys-hardware_example :
    ((hardware_walk sample.mem sample.pml4 0x234 ≡ none) × (virt_to_phys 0x234 sample ≡ some 0))
    ⊎ ((x : ℕ) × (hardware_walk sample.mem sample.pml4 0x234 ≡ some x)
        × (virt_to_phys 0x234 sample ≡ some x))
virt_to_phys-hardware_example = virt_to_phys-hardware 0x234 sample sample_plain
