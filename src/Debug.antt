-- ===== src/Debug.antt =====
-- The debugging information of the kernel and its monitor (sched/kern/kdebug.c, monitor.c).
pub mod Search
pub mod Eip
pub mod Monitor
mod Tests
