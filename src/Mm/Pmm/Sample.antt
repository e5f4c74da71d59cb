-- ===== src/Mm/Pmm/Sample.antt =====
-- A machine with two megabytes of memory and a kernel of five pages.
use ki_os.Base.{List, [], ◌∷◌, arith, inr}
use ki_os.Mm.Pmm.{MapEntry, Image, max_addr}
use ki_os.Mm.Pmm.Range.{Aligned}
use ki_os.Mm.Pmm.Init.{IsBootable}

abbrev pub entries : List MapEntry
entries = record { base = 0; length = 0x200000; kind = 1 } ∷ []

abbrev pub image : Image
image = record { kernel_start = 0x100000; kernel_end = 0x105000 }

pub aligned : Aligned entries
aligned = (inr (omega arith), tt)

pub bootable : IsBootable entries image
unfolding max_addr
bootable = record {
  fits = (omega arith, tt);
  megabyte = omega arith;
  image = omega arith;
  low = omega arith;
  inside = omega arith;
}
