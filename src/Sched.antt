-- ===== src/Sched.antt =====
-- sched/kern/sched.c, with env_run of sched/kern/env.c, which every scheduling decision ends in.
pub mod Run
pub mod Account
pub mod Sleep
pub mod Scan
pub mod Yield
pub mod Exclusive
pub mod Tests
