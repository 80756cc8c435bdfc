-- ===== src/Syscall/Env/Twice.antt =====
-- sys_env_set_status on an environment that is on another CPU.
use sched_v2_solution.Base.{ℕ, ◌≡◌, ◌≢◌, true, false, some, ==_self}
use sched_v2_solution.Kernel.{Kernel, set_env}
use sched_v2_solution.Kernel.Pcb.{runnable}
use sched_v2_solution.Sched.Exclusive.{InKernel, env_on, is_live}
use sched_v2_solution.Process.Cmd.{done, ok}
use sched_v2_solution.Process.Lookup.{envid2env}
use sched_v2_solution.Syscall.Env.{with_env, set_status, sys_env_set_status}

-- A RUNNABLE environment on another CPU breaks the invariant of the scheduler.
pub ready-elsewhere :
    (k : Kernel) (c e : ℕ)
    → c ≢ k.cpunum
    → env_on k c ≡ some e
    → (k.envs e).env_status ≡ runnable
    → ¬ InKernel k
ready-elsewhere k c e away on ready inv =
    let live : is_live (k.envs e) ≡ true = inv.live c e away on in
    let not_live : is_live (k.envs e) ≡ false = rw ready in absurd (cc)

-- sys_env_set_status(envid, ENV_RUNNABLE) does not look at the old status: when the environment
-- named, which the caller may act on, is on another CPU, the call succeeds and leaves it both
-- RUNNABLE and on that CPU, so that the scheduler may run it a second time.
pub sys_env_set_status-runs_twice :
    (me envid e c : ℕ) (k : Kernel)
    → envid2env me k envid true ≡ some e
    → c ≢ k.cpunum
    → env_on k c ≡ some e
    → (k' : Kernel) × (sys_env_set_status me envid 2 k ≡ done (ok 0) k')
      × ((k'.envs e).env_status ≡ runnable)
      × (env_on k' c ≡ some e)
      × ¬ InKernel k'
unfolding sys_env_set_status set_status with_env set_env
sys_env_set_status-runs_twice me envid e c k found away on =
    let k' = set_env k e (record (k.envs e) { env_status = runnable }) in
    let ready : (k'.envs e).env_status ≡ runnable = rw (==_self e) in
    (k', rw (with_env, found), ready, on, ready-elsewhere k' c e away on ready)
