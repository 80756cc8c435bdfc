-- ===== src/UserLib.antt =====
-- The user library (sched/lib): code of an environment, which acts through system calls.
pub mod Call
pub mod Fork
pub mod Ipc
pub mod Thread
mod Tests
