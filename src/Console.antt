-- ===== src/Console.antt =====
-- The text console and the shell on it: kernel/vga.h, kernel/vga.c and kernel/shell.c.
pub mod Vga
pub mod Output
pub mod Shell
pub mod Syscall
