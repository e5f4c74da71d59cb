-- ===== src/Input.antt =====
-- The keyboard: kernel/keyboard.h and kernel/keyboard_irq.c.
pub mod Ring
pub mod Keyboard
