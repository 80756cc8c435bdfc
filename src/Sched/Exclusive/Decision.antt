-- ===== src/Sched/Exclusive/Decision.antt =====
-- sched_yield keeps every environment on at most one CPU, under both policies.
use sched_v2_solution.Base.{
  ℕ, ◌≡◌, ◌≢◌, sym, ap, ◌∙◌, inl, inr, true, false, none, some, arith, ◌==◌, Bool-cases, ==_iff,
}
use sched_v2_solution.Kernel.{
  Kernel, CpuInfo, Stop, Policy, round_robin, priorities, in_monitor, curenv,
}
use sched_v2_solution.Kernel.Pcb.{is_running}
use sched_v2_solution.Sched.Run.{curenv_running}
use sched_v2_solution.Sched.Yield.{sched_halt, sched_yield, count_call}
use sched_v2_solution.Sched.Yield.Halt.{Idles, sched_halt-cases}
use sched_v2_solution.Sched.Yield.Aging.{age_all-aged_env}
use sched_v2_solution.Sched.Yield.Decide.{
  HasPgdir, NoneReady, goes_on, halts, RrDecision, picks, nobody, yield_round_robin-RrDecision,
}
use sched_v2_solution.Sched.Yield.Priority
use sched_v2_solution.Sched.Yield.Priority.{
  PriorityDecision, keeps, nobody_left, aged, yield_priorities-PriorityDecision,
}
use sched_v2_solution.Sched.Exclusive.{InKernel, Exclusive, Ran-Exclusive}

-- Aging changes no status.
aged-status : (k : Kernel) (j i : ℕ) → ((aged k j).envs i).env_status ≡ (k.envs i).env_status
aged-status k j i = rw (age_all-aged_env j k.envs i) (ground arith)

aged-InKernel : (k : Kernel) (j : ℕ) → InKernel k → InKernel (aged k j)
aged-InKernel k j inv = record {
  apart = inv.apart;
  live = λ c i away on. rw (aged-status k j i) (inv.live c i away on);
  owned = λ i up. inv.owned i (rw (aged-status k j i) at up);
}

idle-Exclusive :
    (k : Kernel) (s : Stop)
    → InKernel k
    → ((c : ℕ) → curenv k ≡ some c → is_running (k.envs c).env_status ≡ false)
    → Idles k s
    → Exclusive s.kernel
idle-Exclusive k s inv off idle = record {
  apart = λ c d i on_c on_d. inv.apart c d i (before c i on_c).1 (before d i on_d).1;
  live = λ c i on. rw idle.envs (inv.live c i (before c i on).0 (before c i on).1);
  owned = λ i up.
      let was : is_running (k.envs i).env_status ≡ true = rw idle.envs at up in
      let (c, on) = inv.owned i was in
      let away : c ≢ k.cpunum = λ here.
        let mine : curenv k ≡ some i = rw here at on in
        let down : is_running (k.envs i).env_status ≡ false = off i mine in cc in
      (c, ap (λ (x : CpuInfo). x.cpu_env) (idle.other_cpus c away) ∙ on);
}
  where
    before :
        (c i : ℕ)
        → (s.kernel.cpus c).cpu_env ≡ some i
        → (c ≢ k.cpunum) × ((k.cpus c).cpu_env ≡ some i)
    before c i on = elim (Bool-cases (c == k.cpunum)) [
      | inl here ↦
          let same : c ≡ s.kernel.cpunum = (==_iff c k.cpunum).0 here ∙ sym idle.cpunum in
          let mine : curenv s.kernel ≡ some i = rw same at on in
          let none_here : curenv s.kernel ≡ none = idle.nobody in absurd (cc)
      | inr away ↦
          let ne : c ≢ k.cpunum = ground arith in
          (ne, ap (λ (x : CpuInfo). x.cpu_env) (sym (idle.other_cpus c ne)) ∙ on)
    ]

count-InKernel : (k : Kernel) → InKernel k → InKernel (count_call k)
unfolding count_call
count-InKernel k inv = record { apart = inv.apart; live = inv.live; owned = inv.owned }

not-running :
    (k : Kernel) (c : ℕ)
    → curenv_running k ≡ false
    → curenv k ≡ some c
    → is_running (k.envs c).env_status ≡ false
not-running k c off e = rw e at off

halts-Exclusive :
    (k : Kernel)
    → InKernel k
    → curenv_running k ≡ false
    → (sched_halt (count_call k)).exit ≢ in_monitor
    → Exclusive (sched_halt (count_call k)).kernel
unfolding count_call
halts-Exclusive k inv off on = elim (sched_halt-cases (count_call k)) [
  | inl (_, idle) ↦
      idle-Exclusive (count_call k) _ (count-InKernel k inv) (λ c e. not-running k c off e) idle
  | inr (_, over, _) ↦ absurd (on over)
]

NoneReady-Exclusive :
    (k : Kernel) (s : Stop) → InKernel k → s.exit ≢ in_monitor → NoneReady k s → Exclusive s.kernel
NoneReady-Exclusive k s inv on (goes_on c pgdir e _ ran) = Ran-Exclusive k c pgdir s inv (inr e) ran
NoneReady-Exclusive k s inv on (halts off e) = rw e (halts-Exclusive k inv off (rw e at on))

RrDecision-Exclusive :
    (k : Kernel) (s : Stop) → InKernel k → s.exit ≢ in_monitor → RrDecision k s → Exclusive s.kernel
RrDecision-Exclusive k s inv on (picks j pgdir first ran) =
    Ran-Exclusive k j pgdir s inv (inl first.ready) ran
RrDecision-Exclusive k s inv on (nobody _ rest) = NoneReady-Exclusive k s inv on rest

PriorityDecision-Exclusive :
    (k : Kernel) (s : Stop)
    → InKernel k
    → s.exit ≢ in_monitor
    → PriorityDecision k s
    → Exclusive s.kernel
PriorityDecision-Exclusive k s inv on (Priority.picks j prio pgdir leads _ ran) =
    Ran-Exclusive (aged k j) j pgdir s (aged-InKernel k j inv)
      (inl (rw (aged-status k j j) leads.ready)) ran
PriorityDecision-Exclusive k s inv on (keeps c pgdir now _ ran) =
    Ran-Exclusive (aged k c) c pgdir s (aged-InKernel k c inv) (inr now.0) ran
PriorityDecision-Exclusive k s inv on (nobody_left _ rest) = NoneReady-Exclusive k s inv on rest

-- Whenever sched_yield leaves the kernel for user mode or to halt, under either policy, no
-- environment is on two CPUs, the environment of every CPU is RUNNING or DYING, and every RUNNING
-- one is on a CPU, provided that this held of the other CPUs before and that every environment in
-- use has a page directory.
pub sched_yield-Exclusive :
    (p : Policy) (k : Kernel)
    → HasPgdir k
    → InKernel k
    → (sched_yield p k).exit ≢ in_monitor
    → Exclusive (sched_yield p k).kernel
sched_yield-Exclusive round_robin k d inv on =
    RrDecision-Exclusive k _ inv on (yield_round_robin-RrDecision k d)
sched_yield-Exclusive priorities k d inv on =
    PriorityDecision-Exclusive k _ inv on (yield_priorities-PriorityDecision k d)
