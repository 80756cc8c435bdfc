-- ===== src/Sched/Yield.antt =====
-- sched_halt and sched_yield of sched/kern/sched.c.
pub mod Decide
pub mod Priority
pub mod Aging
pub mod Loaded
pub mod Waiting
pub mod Starvation
pub mod Halt
use sched_v2_solution.Base.{
  ℕ, zero, suc, ◌+◌, Bool, true, false, not, ◌||◌, ◌&&◌, Option, none, some, ◌==◌, if◌then◌else◌,
  update, for_each,
}
use sched_v2_solution.Kernel.{
  Kernel, Stop, Policy, round_robin, priorities, in_monitor, halted, cpu_halted, curenv, set_curenv,
  set_cpu_status, set_env,
}
use sched_v2_solution.Kernel.Pcb.{
  Env, nenv, envx, word, is_runnable, is_running, is_dying, is_not_runnable,
}
use sched_v2_solution.Kernel.Stats.{SchedStats}
use sched_v2_solution.Sched.Run.{curenv_running}
use sched_v2_solution.Sched.Account.{sched_account_cputicks, sched_run}
use sched_v2_solution.Sched.Scan.{
  Best, rr_scan, best_scan, challenge, age, sched_effective_priority,
}

-- An environment that is alive or asleep keeps the system going.
unfoldable pub is_pending : Env → Bool
is_pending e =
    is_runnable e.env_status
    || is_running e.env_status
    || is_dying e.env_status
    || (is_not_runnable e.env_status && not (e.env_sleep_until == 0))

-- The search of sched_halt with its `break`, over the slots i, ..., i + n - 1.
unfoldable pub any_pending : (n i : ℕ) → (ℕ → Env) → Bool
unfolding is_pending
any_pending zero i envs = false
any_pending (suc n) i envs =
    let rest = any_pending n (suc i) envs in if is_pending (envs i) then true else rest

-- sched_print_stats changes nothing but the accounting.
unfoldable pub sched_halt : Kernel → Stop
unfolding sched_account_cputicks set_curenv set_cpu_status
sched_halt k =
    if any_pending nenv 0 k.envs
    then record {
      exit = halted;
      kernel =
          let idle = set_cpu_status (set_curenv k none) cpu_halted in
          record idle { cr3 = k.memory.kern_pgdir; locked = 0 };
    }
    else record {
      exit = in_monitor;
      kernel = record k { stats = sched_account_cputicks k.ticks k.stats };
    }

-- The slot after the environment that ran on this CPU.
abbrev pub scan_start : Kernel → Option ℕ → ℕ
scan_start k none = 0
scan_start k (some c) = envx (k.envs c).env_id + 1

-- EFFECTIVE_PRIORITY under each policy.
abbrev pub effective_priority : Policy → Env → ℕ
effective_priority round_robin e = e.env_priority
effective_priority priorities e = sched_effective_priority e

-- The end of sched_yield, for a value of curenv: pick the current environment again, or halt.
unfoldable pub again_or_halt : Policy → Kernel → Option ℕ → Stop
again_or_halt p k none = sched_halt k
again_or_halt p k (some c) =
    if is_running (k.envs c).env_status
    then sched_run k c (effective_priority p (k.envs c))
    else sched_halt k

unfoldable pub yield_rr : Kernel → Option ℕ → Stop
yield_rr k none = again_or_halt round_robin k (curenv k)
yield_rr k (some e) = sched_run k e (k.envs e).env_priority

-- Whether curenv takes part, and against what.
unfoldable pub with_current : Kernel → Option ℕ → Best → Best
with_current k none b = b
with_current k (some c) b = if is_running (k.envs c).env_status then challenge k.envs c b else b

-- Aging, then the chosen one goes back to zero.
unfoldable pub age_all : ℕ → (ℕ → Env) → ℕ → Env
age_all best envs = update aged best (record (aged best) { env_wait_ticks = 0 })
  where
    aged : ℕ → Env
    aged = for_each nenv 0 (age best) envs

unfoldable pub yield_priorities : Kernel → Option ℕ → ℕ → Stop
yield_priorities k none prio = again_or_halt priorities k (curenv k)
yield_priorities k (some best) prio = sched_run (record k { envs = age_all best k.envs }) best prio

-- best and best_prio when the search of the priority policy is over.
unfoldable pub choose : Kernel → Best
choose k =
    with_current k (curenv k)
      (best_scan nenv 0 (scan_start k (curenv k)) k.envs (record { best = none; best_prio = 0 }))

unfoldable pub count_call : Kernel → Kernel
count_call k =
    let s = k.stats in record k { stats = record s { sched_calls = word (s.sched_calls + 1) } }

unfoldable pub sched_yield : Policy → Kernel → Stop
sched_yield round_robin k =
    let k' = count_call k in yield_rr k' (rr_scan nenv 0 (scan_start k' (curenv k')) k'.envs)
sched_yield priorities k =
    let k' = count_call k in let b = choose k' in yield_priorities k' b.best b.best_prio
