-- ===== src/Trap.antt =====
-- sched/kern/trap.c: the entry into the kernel by a trap, its dispatch, and page faults of users.
pub mod PageFault
pub mod Entry
pub mod Gates
