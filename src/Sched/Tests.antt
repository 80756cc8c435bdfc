-- ===== src/Sched/Tests.antt =====
-- Small kernels that the scheduler is run on, and the theorems at them.
use sched_v2_solution.Base.{
  ℕ, ◌+◌, ◌-◌, ◌%◌, ◌≡◌, ◌≢◌, ◌<◌, refl, sym, ◌∙◌, false, Option, none, some, arith, ltb, leb, ◌==◌,
  if◌then◌else◌, for_each,
}
use sched_v2_solution.Kernel.{
  Kernel, CpuInfo, cpu_started, to_user, in_monitor, priorities, round_robin,
}
use sched_v2_solution.Kernel.Pcb.{
  Env, Status, free, runnable, running, not_runnable, user, zero_trapframe, nenv,
}
use sched_v2_solution.Kernel.Stats.{SchedStats}
use sched_v2_solution.Kernel.Ram.{Memory}
use sched_v2_solution.Sched.Sleep.Wakeup.{wakeup_wakes-IsDue, IsDue}
use sched_v2_solution.Sched.Sleep.{sched_wakeup_sleeping}
use sched_v2_solution.Sched.Run.{env_run}
use sched_v2_solution.Sched.Account.{sched_run}
use sched_v2_solution.Sched.Scan.{rr_scan, best_scan, challenge, age, sched_effective_priority}
use sched_v2_solution.Sched.Scan.RoundRobin.{PassedOver, here, turn, PassedOver-lt}
use sched_v2_solution.Sched.Yield.{
  sched_yield, count_call, yield_rr, yield_priorities, choose, with_current, age_all,
}
use sched_v2_solution.Sched.Yield.Decide.{HasPgdir, RrDecision, yield_round_robin-RrDecision}
use sched_v2_solution.Sched.Yield.Priority.{PriorityDecision, yield_priorities-PriorityDecision}
use sched_v2_solution.Sched.Yield.Waiting.{alone-waits_at_most, never-overtakes}
use sched_v2_solution.Sched.Yield.Starvation.{Rotating}
use sched_v2_solution.Sched.Yield.Starvation.Forever.{decisions, priority-starves}
use sched_v2_solution.Sched.Exclusive.{InKernel, Exclusive}
use sched_v2_solution.Sched.Exclusive.Decision.{sched_yield-Exclusive}

abbrev pub env_of : ℕ → Status → ℕ → ℕ → Env
env_of i s prio wait = record {
  env_tf = zero_trapframe;
  env_link = none;
  env_id = 4096 + i;
  env_parent_id = 0;
  env_type = user;
  env_status = s;
  env_runs = 0;
  env_cpunum = 0;
  env_pgdir = some (i + 100);
  env_pgfault_upcall = 0;
  env_ipc_recving = false;
  env_ipc_dstva = 0;
  env_ipc_value = 0;
  env_ipc_from = 0;
  env_ipc_perm = 0;
  env_sleep_until = 0;
  env_priority = prio;
  env_wait_ticks = wait;
}

abbrev no_stats : SchedStats
no_stats = record {
  sched_calls = 0;
  sched_env_stats = λ i. record { env_id = 0; runs = 0; cputicks = 0; priority = 0; maxbonus = 0 };
  sched_history = λ i. record { env_id = 0; tick = 0; priority = 0; effective = 0 };
  sched_history_count = 0;
  sched_prio_ticks = λ i. 0;
  sched_running_id = 0;
  sched_running_prio = 0;
  sched_running_since = 0;
}

abbrev pub some_memory : Memory
some_memory = record {
  npages = 2000;
  pages = λ i. record { pp_link = none; pp_ref = 1 };
  page_free_list = none;
  frame = λ p i. 0;
  kern_pgdir = 9;
}

-- CPU 0 runs c, every other CPU nothing.
abbrev cpu_of : Option ℕ → ℕ → CpuInfo
cpu_of c i = record { cpu_id = i; cpu_status = cpu_started; cpu_env = if i == 0 then c else none }

abbrev pub kernel_of : (ℕ → Env) → Option ℕ → Kernel
kernel_of envs c = record {
  envs = envs;
  env_free_list = none;
  cpus = cpu_of c;
  cpunum = 0;
  ticks = 50;
  stats = no_stats;
  memory = some_memory;
  cr3 = 9;
  locked = 1;
}

-- Slot 0 runs; slot 2 is asleep until tick 40; slots 3 and 5 are ready.
abbrev pub some_status : ℕ → Status
some_status i =
    if i == 0
    then running
    else if i == 2
    then not_runnable
    else if i == 3
    then runnable
    else if i == 5
    then runnable
    else free

abbrev pub asleep : ℕ → Env
asleep i =
    let e = env_of i (some_status i) (if i == 5 then 9 else 8) 0 in
    record e { env_sleep_until = if i == 2 then 40 else 0 }

abbrev pub mixed : Kernel
mixed = kernel_of asleep (some 0)

pub mixed-HasPgdir : HasPgdir mixed
mixed-HasPgdir i h = (i + 100, refl)

mixed-InKernel : InKernel mixed
mixed-InKernel = record {
  apart = λ c d i on_c on_d. ground arith;
  live = λ c i away on. absurd (ground arith);
  owned = λ i up. (0, ground arith);
}

-- Round robin goes to the slot behind the current one, the priorities to the highest.
round_robin_picks : (sched_yield round_robin mixed).exit ≡ to_user 3
unfolding sched_yield count_call yield_rr rr_scan sched_run env_run
round_robin_picks = refl

priorities_pick : (sched_yield priorities mixed).exit ≡ to_user 5
unfolding sched_yield count_call yield_priorities choose with_current challenge best_scan
    sched_effective_priority age_all age for_each sched_run env_run
priorities_pick = refl

yield_round_robin-RrDecision_example : RrDecision mixed (sched_yield round_robin mixed)
yield_round_robin-RrDecision_example = yield_round_robin-RrDecision mixed mixed-HasPgdir

yield_priorities-PriorityDecision_example : PriorityDecision mixed (sched_yield priorities mixed)
yield_priorities-PriorityDecision_example = yield_priorities-PriorityDecision mixed mixed-HasPgdir

sched_yield-Exclusive_example : Exclusive (sched_yield round_robin mixed).kernel
sched_yield-Exclusive_example =
    sched_yield-Exclusive round_robin mixed mixed-HasPgdir mixed-InKernel (λ e. leaves e)
  where
    leaves : (sched_yield round_robin mixed).exit ≢ in_monitor
    leaves e = let same : to_user 3 ≡ in_monitor = sym round_robin_picks ∙ e in cc

wakeup_wakes-IsDue_example :
    (IsDue 50 (asleep 2)
      → (sched_wakeup_sleeping mixed).envs 2
        ≡ record (asleep 2) { env_sleep_until = 0; env_status = runnable })
    × (¬ IsDue 50 (asleep 2) → (sched_wakeup_sleeping mixed).envs 2 ≡ asleep 2)
wakeup_wakes-IsDue_example = wakeup_wakes-IsDue mixed 2 (omega arith)

-- Slot 5 is passed over once for slot 3.
passed_once : PassedOver 5 1 1
unfolding rr_scan
passed_once = turn asleep refl refl (omega arith) here

PassedOver-lt_example : 1 < nenv
PassedOver-lt_example = PassedOver-lt 5 1 1 (omega arith) passed_once

-- One environment of priority 0 that has waited 60 decisions, behind a busy one of priority 15.
abbrev patient : ℕ → Env
patient i =
    env_of i (if i == 0 then running else if i == 1 then runnable else free)
      (if i == 0 then 15 else 0) (if i == 1 then 60 else 0)

abbrev two : Kernel
two = kernel_of patient (some 0)

alone-waits_at_most_example : (sched_yield priorities two).exit ≡ to_user 1
alone-waits_at_most_example =
    alone-waits_at_most two (λ i h. (i + 100, refl)) 1 (omega arith) refl (λ i lt ne. ground arith)
      (λ c now. (ground arith, ground arith)) (omega arith) (omega arith)

-- Six of priority 15 take turns, slot 6 has waited a thousand decisions.
abbrev crowd : ℕ → Env
crowd i =
    env_of i (if i == 0 then running else if leb i 6 then runnable else free)
      (if ltb i 6 then 15 else 0) (if i == 0 then 0 else if i == 6 then 1000 else (5 - i) % 6)

abbrev seven : Kernel
seven = kernel_of crowd (some 0)

seven-HasPgdir : HasPgdir seven
seven-HasPgdir i h = (i + 100, refl)

never-overtakes_example : (sched_yield priorities seven).exit ≢ to_user 6
unfolding sched_effective_priority
never-overtakes_example =
    never-overtakes seven seven-HasPgdir 6 (omega arith) refl 1 (omega arith) refl (omega arith)
      (omega arith)

seven-Rotating : Rotating seven 0
seven-Rotating = record {
  slot = omega arith;
  current = refl;
  busy = refl;
  queue = λ i lt ne. ground arith;
  top = λ i lt. ground arith;
  turn = λ i lt ne. ground arith;
  fresh = refl;
  low = refl;
  bottom = refl;
  others = λ i lt hi. ground arith;
  pgdirs = seven-HasPgdir;
}

priority-starves_example : (sched_yield priorities (decisions 100 seven)).exit ≢ to_user 6
priority-starves_example = priority-starves 100 seven 0 seven-Rotating
