-- ===== src/Process.antt =====
-- The life of an environment: sched/kern/env.c.
pub mod Cmd
pub mod Lookup
pub mod Create
pub mod Free
pub mod Load
