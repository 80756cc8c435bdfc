-- ===== src/Sched/Scan.antt =====
-- The scans of sched_yield (sched/kern/sched.c) over the process table in circular order.
pub mod RoundRobin
pub mod Highest
use sched_v2_solution.Base.{
  ℕ, zero, suc, ◌+◌, ◌/◌, ◌%◌, not, ◌||◌, ◌&&◌, Option, none, some, is_some, ◌==◌, ltb,
  if◌then◌else◌,
}
use sched_v2_solution.Kernel.Pcb.{Env, nenv, is_runnable, word, env_priority_max}
use sched_v2_solution.Kernel.Stats.{aging_threshold}

-- &envs[(start + i) % NENV]
abbrev pub slot_at : ℕ → ℕ → ℕ
slot_at start i = (start + i) % nenv

-- Round robin: the first ENV_RUNNABLE of the rounds i, ..., i + n - 1.
unfoldable pub rr_scan : (n i start : ℕ) → (ℕ → Env) → Option ℕ
rr_scan zero i start envs = none
rr_scan (suc n) i start envs =
    let rest = rr_scan n (suc i) start envs in
    if is_runnable (envs (slot_at start i)).env_status then some (slot_at start i) else rest

unfoldable pub sched_effective_priority : Env → ℕ
sched_effective_priority e = word (e.env_priority + capped)
  where
    bonus : ℕ
    bonus = e.env_wait_ticks / aging_threshold

    capped : ℕ
    capped = if ltb env_priority_max bonus then env_priority_max else bonus

-- The variables best and best_prio.
pub record Best : Type 0 where
  pub best : Option ℕ
  pub best_prio : ℕ

unfoldable pub consider : (ℕ → Env) → ℕ → Best → Best
unfolding sched_effective_priority
consider envs j b =
    if not (is_runnable (envs j).env_status)
    then b
    else if not (is_some b.best) || ltb b.best_prio (sched_effective_priority (envs j))
    then record { best = some j; best_prio = sched_effective_priority (envs j) }
    else b

-- Priorities: the rounds i, ..., i + n - 1 of the search for the highest effective priority.
unfoldable pub best_scan : (n i start : ℕ) → (ℕ → Env) → Best → Best
unfolding consider
best_scan zero i start envs b = b
best_scan (suc n) i start envs b =
    best_scan n (suc i) start envs (consider envs (slot_at start i) b)

-- The environment on the CPU keeps it only with a strictly higher effective priority.
unfoldable pub challenge : (ℕ → Env) → ℕ → Best → Best
unfolding sched_effective_priority
challenge envs c b =
    if not (is_some b.best) || ltb b.best_prio (sched_effective_priority (envs c))
    then record { best = some c; best_prio = sched_effective_priority (envs c) }
    else b

-- Aging: the others of the ready queue accrue one decision of waiting.
unfoldable pub age : ℕ → ℕ → Env → Env
age best i e =
    if not (i == best) && is_runnable e.env_status
    then record e { env_wait_ticks = word (e.env_wait_ticks + 1) }
    else e
