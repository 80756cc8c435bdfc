-- ===== src/Sched/Run.antt =====
-- env_run of sched/kern/env.c: the switch to an environment.
pub mod Switch
use sched_v2_solution.Base.{ℕ, ◌+◌, Bool, false, Option, none, some, if◌then◌else◌}
use sched_v2_solution.Kernel.{Kernel, Stop, to_user, panicked, curenv, set_curenv, set_env}
use sched_v2_solution.Kernel.Pcb.{runnable, running, is_running, word}

-- `curenv && curenv->env_status == ENV_RUNNING`, for a value of curenv.
abbrev pub runs_on : Kernel → Option ℕ → Bool
runs_on k none = false
runs_on k (some c) = is_running (k.envs c).env_status

abbrev pub curenv_running : Kernel → Bool
curenv_running k = runs_on k (curenv k)

-- The environment that was running goes back to the ready queue.
unfoldable pub requeue : Kernel → Option ℕ → Kernel
unfolding set_env
requeue k none = k
requeue k (some c) =
    if is_running (k.envs c).env_status
    then set_env k c (record (k.envs c) { env_status = runnable })
    else k

-- curenv = e, its status and its count of runs.
unfoldable pub occupy : Kernel → ℕ → Kernel
unfolding set_curenv set_env
occupy k e =
    set_env (set_curenv k (some e)) e
      (record (k.envs e) { env_status = running; env_runs = word ((k.envs e).env_runs + 1) })

-- env_load_pgdir, the release of the big kernel lock, and the jump to user mode. PADDR of a null
-- page directory panics.
unfoldable pub enter : Kernel → ℕ → Option ℕ → Stop
unfolding set_env
enter k e none = record { exit = panicked; kernel = k }
enter k e (some pgdir) = record {
  exit = to_user e;
  kernel =
      set_env (record k { cr3 = pgdir; locked = 0 }) e
        (record (k.envs e) { env_cpunum = k.cpunum });
}

unfoldable pub env_run : Kernel → ℕ → Stop
unfolding requeue occupy enter
env_run k e = let k' = occupy (requeue k (curenv k)) e in enter k' e (k'.envs e).env_pgdir
