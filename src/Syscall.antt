-- ===== src/Syscall.antt =====
-- sched/kern/syscall.c.
pub mod Env
pub mod Page
pub mod Ipc
pub mod Prio
pub mod Dispatch
