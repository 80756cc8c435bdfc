-- ===== src/Sched/Sleep.antt =====
-- sched_wakeup_sleeping of sched/kern/sched.c.
pub mod Wakeup
use sched_v2_solution.Base.{ℕ, not, ◌||◌, ◌==◌, leb, if◌then◌else◌, for_each}
use sched_v2_solution.Kernel.{Kernel}
use sched_v2_solution.Kernel.Pcb.{Env, nenv, runnable, is_not_runnable}

-- One round of the loop, on the environment of the slot.
unfoldable pub wake : ℕ → ℕ → Env → Env
wake ticks i e =
    if not (is_not_runnable e.env_status) || e.env_sleep_until == 0
    then e
    else if leb e.env_sleep_until ticks
    then record e { env_sleep_until = 0; env_status = runnable }
    else e

unfoldable pub sched_wakeup_sleeping : Kernel → Kernel
unfolding wake
sched_wakeup_sleeping k = record k { envs = for_each nenv 0 (wake k.ticks) k.envs }
