-- ===== src/Sched.antt =====
-- Tasks and time: kernel/task.c and kernel/pit.c.
pub mod Task
