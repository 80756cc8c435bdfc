-- ===== src/Format.antt =====
-- sched/lib/printfmt.c, and the buffers of sched/lib/printfmt.c and sched/lib/printf.c.
pub mod Digits
pub mod Escape
pub mod Buffer
mod Tests
