-- ===== src/Sched/Yield/Waiting.antt =====
-- Aging against starvation: what it guarantees, and what no amount of waiting can win.
use sched_v2_solution.Base.{
  ℕ, ◌+◌, ◌*◌, ◌≤◌, ◌<◌, ◌≡◌, ◌≢◌, sym, ap, ◌∙◌, inl, inr, true, false, arith, ◌==◌, Bool-cases,
  ==_iff,
}
use sched_v2_solution.Kernel.{Kernel, to_user, priorities}
use sched_v2_solution.Kernel.Pcb.{Env, nenv, is_runnable, is_running, env_priority_max}
use sched_v2_solution.Kernel.Stats.{aging_threshold}
use sched_v2_solution.Sched.Scan.{slot_at, sched_effective_priority}
use sched_v2_solution.Sched.Scan.RoundRobin.{distance, slot_at-distance}
use sched_v2_solution.Sched.Scan.Highest.{Leads, eff_at}
use sched_v2_solution.Sched.Yield.{sched_yield}
use sched_v2_solution.Sched.Yield.Decide.{HasPgdir, NobodyReady}
use sched_v2_solution.Sched.Yield.Priority.{
  picks, keeps, nobody_left, RunsNow, eff, yield_priorities-PriorityDecision,
}

-- The effective priority is the base priority and at most ENV_PRIORITY_MAX more.
pub effective_bounds :
    (e : Env)
    → e.env_priority ≤ env_priority_max
    → (e.env_priority ≤ sched_effective_priority e)
      × (sched_effective_priority e ≤ e.env_priority + env_priority_max)
unfolding sched_effective_priority
effective_bounds e h = (ground arith, ground arith)

effective-saturated :
    (e : Env)
    → e.env_priority ≤ env_priority_max
    → env_priority_max * aging_threshold ≤ e.env_wait_ticks
    → sched_effective_priority e ≡ e.env_priority + env_priority_max
unfolding sched_effective_priority
effective-saturated e h w = ground arith

effective-fresh :
    (e : Env)
    → e.env_priority ≤ env_priority_max
    → e.env_wait_ticks ≡ 0
    → sched_effective_priority e ≡ e.env_priority
unfolding sched_effective_priority
effective-fresh e h w = ground arith

-- The leader of the ready queue is not behind any ready environment.
pub Leads-slot :
    (k : Kernel) (start j prio i : ℕ)
    → Leads k.envs start nenv j prio
    → i < nenv
    → is_runnable (k.envs i).env_status ≡ true
    → eff k i ≤ prio
Leads-slot k start j prio i l h ready =
    let at_i : slot_at start (distance start i) ≡ i = slot_at-distance start i h in
    let ready' : is_runnable (k.envs (slot_at start (distance start i))).env_status ≡ true =
      rw at_i ready in
    let le : eff_at k.envs start (distance start i) ≤ prio =
      l.highest (distance start i) (omega arith) ready' in
    rw at_i at le

pub Leads-below : (k : Kernel) (start j prio : ℕ) → Leads k.envs start nenv j prio → j < nenv
Leads-below k start j prio l = let e : j ≡ slot_at start l.round = l.slot in omega arith

module _ (k : Kernel) (pgdirs : HasPgdir k) (j : ℕ) (slot : j < nenv)
    (ready : is_runnable (k.envs j).env_status ≡ true) where
  not-nobody : ¬ NobodyReady k
  not-nobody idle = let no_one : is_runnable (k.envs j).env_status ≡ false = idle j slot in cc

  -- When it is alone in the ready queue, an environment waits at most ENV_PRIORITY_MAX *
  -- AGING_THRESHOLD decisions: after as many, sched_yield runs it, whatever the priority of the
  -- environment on the CPU, if that one's own wait is zero and priorities are within the range.
  pub alone-waits_at_most :
      ((i : ℕ) → i < nenv → i ≢ j → is_runnable (k.envs i).env_status ≡ false)
      → ((c : ℕ)
          → RunsNow k c
          → ((k.envs c).env_priority ≤ env_priority_max) × ((k.envs c).env_wait_ticks ≡ 0))
      → (k.envs j).env_priority ≤ env_priority_max
      → env_priority_max * aging_threshold ≤ (k.envs j).env_wait_ticks
      → (sched_yield priorities k).exit ≡ to_user j
  alone-waits_at_most alone current range long = elim (yield_priorities-PriorityDecision k pgdirs) [
    | picks i prio pgdir leads _ ran ↦ elim (Bool-cases (i == j)) [
      | inl same ↦ ran.exit ∙ ap to_user ((==_iff i j).0 same)
      | inr other ↦
          let off : is_runnable (k.envs i).env_status ≡ false =
            alone i (Leads-below k _ i prio leads) (ground arith) in
          let on : is_runnable (k.envs i).env_status ≡ true = leads.ready in absurd (cc)
    ]
    | keeps c pgdir now lower ran ↦
        let fresh : eff k c ≡ (k.envs c).env_priority =
          effective-fresh (k.envs c) (current c now).0 (current c now).1 in
        let bound : (k.envs c).env_priority ≤ env_priority_max = (current c now).0 in
        let full : eff k j ≡ (k.envs j).env_priority + env_priority_max =
          effective-saturated (k.envs j) range long in
        let behind : eff k j < eff k c = lower j slot ready in absurd (omega arith)
    | nobody_left idle _ ↦ absurd (not-nobody idle)
  ]

  -- When every environment in use has a page directory, a ready environment whose effective priority
  -- is more than ENV_PRIORITY_MAX above the base priority of j keeps j off the CPU, however long j
  -- has waited.
  pub never-overtakes :
      (h : ℕ)
      → h < nenv
      → is_runnable (k.envs h).env_status ≡ true
      → (k.envs j).env_priority ≤ env_priority_max
      → (k.envs j).env_priority + env_priority_max < eff k h
      → (sched_yield priorities k).exit ≢ to_user j
  never-overtakes h lt ready_h range ahead runs =
      elim (yield_priorities-PriorityDecision k pgdirs) [
        | picks i prio pgdir leads _ ran ↦
            let same : to_user i ≡ to_user j = sym ran.exit ∙ runs in
            let is_j : i ≡ j = cc in
            let top : eff k h ≤ prio = Leads-slot k _ i prio h leads lt ready_h in
            let own : prio ≡ eff k i = leads.effective in
            let own_j : prio ≡ eff k j = rw is_j at own in
            let bound : eff k j ≤ (k.envs j).env_priority + env_priority_max =
              (effective_bounds (k.envs j) range).1 in
            absurd (omega arith)
        | keeps c pgdir now _ ran ↦
            let same : to_user c ≡ to_user j = sym ran.exit ∙ runs in
            let is_j : c ≡ j = cc in
            let on : is_running (k.envs j).env_status ≡ true = rw is_j at now.1 in
            absurd (ground arith)
        | nobody_left idle _ ↦ absurd (not-nobody idle)
      ]
