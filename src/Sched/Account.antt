-- ===== src/Sched/Account.antt =====
-- The statistics of sched/kern/sched.c: sched_account_cputicks and the book-keeping of sched_run.
pub mod Recorded
use sched_v2_solution.Base.{ℕ, ◌+◌, ◌-◌, ◌%◌, ◌==◌, ltb, if◌then◌else◌, update}
use sched_v2_solution.Kernel.{Kernel, Stop}
use sched_v2_solution.Kernel.Pcb.{Env, envx, word, npriorities}
use sched_v2_solution.Kernel.Stats.{EnvStat, SchedStats, sched_history_len}
use sched_v2_solution.Sched.Run.{env_run}

-- uint32_t subtraction.
abbrev pub sub32 : ℕ → ℕ → ℕ
sub32 a b = (a + 0x1_0000_0000 - b) % 0x1_0000_0000

-- The ticks since the last decision go to the environment that was running, and to its priority.
unfoldable pub charge : ℕ → SchedStats → SchedStats
charge delta s = record s {
  sched_env_stats =
      update s.sched_env_stats slot (record st { cputicks = word (st.cputicks + delta) });
  sched_prio_ticks =
      if ltb prio npriorities
      then update s.sched_prio_ticks prio (word (s.sched_prio_ticks prio + delta))
      else s.sched_prio_ticks;
  sched_running_id = 0;
}
  where
    slot : ℕ
    slot = envx s.sched_running_id

    prio : ℕ
    prio = s.sched_running_prio

    st : EnvStat
    st = s.sched_env_stats slot

unfoldable pub sched_account_cputicks : ℕ → SchedStats → SchedStats
unfolding charge
sched_account_cputicks ticks s =
    if s.sched_running_id == 0 then s else charge (sub32 ticks s.sched_running_since) s

-- The slot of a finished environment is reset for the new one.
unfoldable pub recycle : ℕ → EnvStat → EnvStat
recycle id st =
    if st.env_id == id then st else record st { env_id = id; runs = 0; cputicks = 0; maxbonus = 0 }

unfoldable pub count_run : Env → ℕ → EnvStat → EnvStat
unfolding recycle
count_run e bonus st = record fresh {
  runs = word (fresh.runs + 1);
  priority = e.env_priority;
  maxbonus = if ltb fresh.maxbonus bonus then bonus else fresh.maxbonus;
}
  where
    fresh : EnvStat
    fresh = recycle e.env_id st

-- What sched_run records of a decision, after the ticks are accounted.
unfoldable pub record_decision : ℕ → Env → ℕ → SchedStats → SchedStats
unfolding count_run
record_decision ticks e effective s = record s {
  sched_env_stats =
      update s.sched_env_stats (envx e.env_id)
        (count_run e (sub32 effective e.env_priority) (s.sched_env_stats (envx e.env_id)));
  sched_history = update s.sched_history (s.sched_history_count % sched_history_len) (record {
    env_id = e.env_id;
    tick = ticks;
    priority = e.env_priority;
    effective = effective;
  });
  sched_history_count = word (s.sched_history_count + 1);
  sched_running_id = e.env_id;
  sched_running_prio = e.env_priority;
  sched_running_since = ticks;
}

unfoldable pub sched_run : Kernel → ℕ → ℕ → Stop
unfolding sched_account_cputicks record_decision env_run
sched_run k e effective =
    env_run
      (record k {
        stats =
            record_decision k.ticks (k.envs e) effective (sched_account_cputicks k.ticks k.stats);
      })
      e
