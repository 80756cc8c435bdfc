-- ===== src/Syscall/Prio.antt =====
-- sys_getpriority and sys_setpriority.
pub mod Bounds
use sched_v2_solution.Base.{ℕ, ◌&&◌, true, ltb, ◌==◌, if◌then◌else◌}
use sched_v2_solution.Kernel.{set_env}
use sched_v2_solution.Kernel.Pcb.{env_priority_max}
use sched_v2_solution.Process.Cmd.{Cmd, done, Result, ok, err, inval, pure}
use sched_v2_solution.Syscall.Env.{with_env}

unfoldable pub sys_getpriority : (me envid : ℕ) → Cmd (Result ℕ)
unfolding with_env
sys_getpriority me envid = with_env me envid true λ e k. done (ok (k.envs e).env_priority) k

unfoldable pub sys_setpriority : (me envid priority : ℕ) → Cmd (Result ℕ)
unfolding with_env set_env
sys_setpriority me envid priority =
    if ltb env_priority_max priority
    then pure (err inval)
    else with_env me envid true λ e k.
      if e == me && ltb (k.envs e).env_priority priority
      then done (err inval) k
      else done (ok 0) (set_env k e (record (k.envs e) { env_priority = priority }))
