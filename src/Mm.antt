-- ===== src/Mm.antt =====
-- Memory management: kernel/mm.
pub mod Pmm
pub mod Vmm
pub mod Heap
