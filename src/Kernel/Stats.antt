-- ===== src/Kernel/Stats.antt =====
-- The static variables of sched/kern/sched.c.
use sched_v2_solution.Base.{ℕ}

pub record EnvStat : Type 0 where
  pub env_id : ℕ
  pub runs : ℕ
  pub cputicks : ℕ
  pub priority : ℕ
  pub maxbonus : ℕ

pub record SchedHistory : Type 0 where
  pub env_id : ℕ
  pub tick : ℕ
  pub priority : ℕ
  pub effective : ℕ

pub record SchedStats : Type 0 where
  pub sched_calls : ℕ
  pub sched_env_stats : ℕ → EnvStat
  pub sched_history : ℕ → SchedHistory
  pub sched_history_count : ℕ
  pub sched_prio_ticks : ℕ → ℕ
  pub sched_running_id : ℕ
  pub sched_running_prio : ℕ
  pub sched_running_since : ℕ

-- AGING_THRESHOLD and SCHED_HISTORY_LEN.
abbrev pub aging_threshold : ℕ
aging_threshold = 4

abbrev pub sched_history_len : ℕ
sched_history_len = 16
