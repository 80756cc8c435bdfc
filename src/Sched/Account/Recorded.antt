-- ===== src/Sched/Account/Recorded.antt =====
-- sched_run switches to the environment that it records.
use sched_v2_solution.Base.{ℕ, ◌≡◌, some}
use sched_v2_solution.Kernel.{Kernel, Stop}
use sched_v2_solution.Kernel.Stats.{SchedStats}
use sched_v2_solution.Sched.Run.Switch.{Ran, env_run-Ran}
use sched_v2_solution.Sched.Account.{sched_run}

-- The switch does not depend on the statistics.
Ran-stats :
    (k : Kernel) (st : SchedStats) (e pgdir : ℕ) (s : Stop)
    → Ran (record k { stats = st }) e pgdir s
    → Ran k e pgdir s
Ran-stats k st e pgdir s r = record {
  exit = r.exit;
  current = r.current;
  other_cpus = r.other_cpus;
  chosen = r.chosen;
  others = r.others;
  cpunum = r.cpunum;
  ticks = r.ticks;
  free_list = r.free_list;
  memory = r.memory;
  cr3 = r.cr3;
  unlocked = r.unlocked;
}

pub sched_run-Ran :
    (k : Kernel) (e effective pgdir : ℕ)
    → (k.envs e).env_pgdir ≡ some pgdir
    → Ran k e pgdir (sched_run k e effective)
unfolding sched_run
sched_run-Ran k e effective pgdir d = Ran-stats k _ e pgdir _ (env_run-Ran _ e pgdir d)

-- The same through a count of the calls, which sched_yield makes first.
pub Ran-count :
    (k : Kernel) (st : SchedStats) (e pgdir : ℕ) (s : Stop)
    → Ran (record k { stats = st }) e pgdir s
    → Ran k e pgdir s
Ran-count = Ran-stats
