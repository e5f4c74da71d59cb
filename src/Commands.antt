-- ===== src/Commands.antt =====
-- kernel/commands.c and kernel/commands/: the shell's commands. What a command prints is the list of
-- its calls of the console.
pub mod Simple
pub mod Table
pub mod Report
pub mod Memtest
pub mod Vmtest
pub mod Usertest
mod Tests
