-- ===== src/Interrupts.antt =====
-- Interrupts: kernel/isr.c, kernel/pit.c, kernel/pic.c, kernel/idt.c, kernel/gdt.c and kernel/tss.c.
pub mod Exceptions
pub mod Irq
pub mod Pic
pub mod Idt
