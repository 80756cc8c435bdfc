-- ===== src/UserLib/Tests.antt =====
-- The user library at concrete values.
use sched_v2_solution.Base.{◌+◌, ◌≡◌, refl, false}
use sched_v2_solution.UserLib.Fork.{bad_fault}
use sched_v2_solution.UserLib.Thread.{thread_stack_base, thread_stack_top}

-- A write (FEC_WR is 2) to a page that is not copy-on-write passes the check of pgfault.
write-passes : bad_fault 2 0x7 ≡ false
unfolding bad_fault
write-passes = refl

-- The page below the stack of thread 0 is the one above the stack of thread 1.
guard_page : thread_stack_base 0 ≡ 0x1000 + thread_stack_top 1
guard_page = refl
