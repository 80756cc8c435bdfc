-- ===== src/Sched/Yield/Priority.antt =====
-- What sched_yield decides under the priority policy.
use sched_v2_solution.Base.{
  ℕ, ◌≤◌, ◌<◌, ◌≡◌, refl, inl, inr, true, false, ◌∙◌, Option, none, some, arith, ltb, Bool-cases,
}
use sched_v2_solution.Kernel.{Kernel, Stop, priorities, curenv}
use sched_v2_solution.Kernel.Pcb.{Env, nenv, is_runnable, is_running}
use sched_v2_solution.Sched.Run.Switch.{Ran}
use sched_v2_solution.Sched.Account.Recorded.{sched_run-Ran, Ran-count}
use sched_v2_solution.Sched.Yield.Aging.{age_all-aged_env}
use sched_v2_solution.Sched.Scan.{Best, slot_at, sched_effective_priority, best_scan, challenge}
use sched_v2_solution.Sched.Scan.RoundRobin.{distance, slot_at-distance}
use sched_v2_solution.Sched.Scan.Highest.{
  Leads, Searched, nobody, leader, no_best, best_scan-Leads, eff_at,
}
use sched_v2_solution.Sched.Yield.{
  scan_start, count_call, age_all, with_current, choose, yield_priorities, sched_yield,
}
use sched_v2_solution.Sched.Yield.Decide.{
  HasPgdir, NobodyReady, NoneReady, again_or_halt-NoneReady, runnable-not-free, running-not-free,
}

abbrev pub eff : Kernel → ℕ → ℕ
eff k i = sched_effective_priority (k.envs i)

abbrev pub RunsNow : Kernel → ℕ → Type 0
RunsNow k c = (curenv k ≡ some c) × (is_running (k.envs c).env_status ≡ true)

-- The outcome of the search: the leader of the ready queue, to which the current environment must
-- give way unless it is strictly ahead; or the current environment, strictly ahead of them all;
-- or nobody.
pub data Choice (k : Kernel) (b : Best) : Type 0 where
  waiting :
      (j : ℕ)
      → b.best ≡ some j
      → Leads k.envs (scan_start k (curenv k)) nenv j b.best_prio
      → ((c : ℕ) → RunsNow k c → eff k c ≤ b.best_prio)
      → Choice k b
  current :
      (c : ℕ)
      → b.best ≡ some c
      → b.best_prio ≡ eff k c
      → RunsNow k c
      → ((i : ℕ) → i < nenv → is_runnable (k.envs i).env_status ≡ true → eff k i < eff k c)
      → Choice k b
  no_one :
      b.best ≡ none
      → NobodyReady k
      → ((c : ℕ) → curenv k ≡ some c → is_running (k.envs c).env_status ≡ false)
      → Choice k b

-- A property of every round is one of every slot.
every_slot :
    (P : ℕ → Type 0) (start : ℕ)
    → ((m : ℕ) → m < nenv → P (slot_at start m))
    → (i : ℕ) → i < nenv
    → P i
every_slot P start all i h =
    let at_round : P (slot_at start (distance start i)) = all (distance start i) (omega arith) in
    rw (slot_at-distance start i h) at at_round

module _ (k : Kernel) where
  abbrev start : ℕ
  start = scan_start k (curenv k)

  -- Whoever runs now is c, if c is curenv.
  RunsNow-only : (c d : ℕ) → curenv k ≡ some c → RunsNow k d → d ≡ c
  RunsNow-only c d h on = let e : some d ≡ some c = cc in cc

  nobody-no_one :
      (b : Best) (c : Option ℕ)
      → curenv k ≡ c
      → b.best ≡ none
      → ((m : ℕ) → m < nenv → is_runnable (k.envs (slot_at start m)).env_status ≡ false)
      → Choice k (with_current k c b)
  unfolding with_current challenge
  nobody-no_one b none h e idle =
      no_one e (every_slot (λ i. is_runnable (k.envs i).env_status ≡ false) start idle)
        (λ c on. absurd (cc))
  nobody-no_one b (some c) h e idle = elim (Bool-cases (is_running (k.envs c).env_status)) [
    | inl on ↦
        rw (on, e)
          (current c refl refl (h, on)
            λ i lt ready.
              let not_ready : is_runnable (k.envs i).env_status ≡ false =
                every_slot (λ i. is_runnable (k.envs i).env_status ≡ false) start idle i lt in
              absurd (cc))
    | inr off ↦ rw off (
        no_one e (every_slot (λ i. is_runnable (k.envs i).env_status ≡ false) start idle)
          λ d on. let same : d ≡ c = (let e : some d ≡ some c = cc in cc) in rw same off)
  ]

  Leads-lt_top :
      (j prio top : ℕ)
      → Leads k.envs start nenv j prio
      → prio < top
      → (i : ℕ) → i < nenv
      → is_runnable (k.envs i).env_status ≡ true
      → eff k i < top
  Leads-lt_top j prio top l h =
      every_slot (λ i. is_runnable (k.envs i).env_status ≡ true → eff k i < top) start
        λ m lt ready. let le : eff_at k.envs start m ≤ prio = l.highest m lt ready in omega arith

  leader-Choice :
      (b : Best) (j : ℕ) (c : Option ℕ)
      → curenv k ≡ c
      → b.best ≡ some j
      → Leads k.envs start nenv j b.best_prio
      → Choice k (with_current k c b)
  unfolding with_current challenge
  leader-Choice b j none h e l = waiting j e l (λ d on. absurd (cc))
  leader-Choice b j (some c) h e l = elim (Bool-cases (is_running (k.envs c).env_status)) [
    | inl on ↦ elim (Bool-cases (ltb b.best_prio (eff k c))) [
      | inl ahead ↦
          rw (on, e, ahead)
            (current c refl refl (h, on) (Leads-lt_top j _ (eff k c) l (ground arith)))
      | inr behind ↦
          rw (on, e, behind)
            (waiting j refl l
              λ d now. let same : d ≡ c = RunsNow-only c d h now in rw same (ground arith))
    ]
    | inr off ↦ rw off (
        waiting j e l λ d now.
          let same : d ≡ c = RunsNow-only c d h now in
          let on : is_running (k.envs c).env_status ≡ true = rw same at now.1 in absurd (cc))
  ]

  -- The search picks the waiting environment with the highest effective priority, the first of its
  -- equals, unless the current one is strictly ahead.
  pub choose-Choice : Choice k (choose k)
  unfolding choose
  choose-Choice = go (best_scan-Leads nenv start k.envs)
    where
      go :
          Searched k.envs start nenv (best_scan nenv 0 start k.envs no_best)
          → Choice k (
              with_current k (curenv k) (best_scan nenv 0 (scan_start k (curenv k)) k.envs no_best))
      go (nobody e idle) = nobody-no_one _ (curenv k) refl e idle
      go (leader j e l) = leader-Choice _ j (curenv k) refl e l

-- The kernel that the chosen environment is run on.
abbrev pub aged : Kernel → ℕ → Kernel
aged k j = record k { envs = age_all j k.envs }

pub data PriorityDecision (k : Kernel) (s : Stop) : Type 0 where
  picks :
      (j prio pgdir : ℕ)
      → Leads k.envs (scan_start k (curenv k)) nenv j prio
      → ((c : ℕ) → RunsNow k c → eff k c ≤ prio)
      → Ran (aged k j) j pgdir s
      → PriorityDecision k s
  keeps :
      (c pgdir : ℕ)
      → RunsNow k c
      → ((i : ℕ) → i < nenv → is_runnable (k.envs i).env_status ≡ true → eff k i < eff k c)
      → Ran (aged k c) c pgdir s
      → PriorityDecision k s
  nobody_left : NobodyReady k → NoneReady k s → PriorityDecision k s

age_all-pgdir : (envs : ℕ → Env) (j : ℕ) → (age_all j envs j).env_pgdir ≡ (envs j).env_pgdir
age_all-pgdir envs j = rw (age_all-aged_env j envs j) (ground arith)

aged-Ran :
    (k : Kernel) (j prio pgdir : ℕ)
    → (k.envs j).env_pgdir ≡ some pgdir
    → Ran (aged k j) j pgdir (yield_priorities (count_call k) (some j) prio)
unfolding yield_priorities count_call
aged-Ran k j prio pgdir d = Ran-count (aged k j) (count_call k).stats j pgdir _ (
    sched_run-Ran (record (aged k j) { stats = (count_call k).stats }) j prio pgdir
      (age_all-pgdir k.envs j ∙ d))

PriorityDecision-intro :
    (k : Kernel) (b : Best)
    → HasPgdir k
    → Choice (count_call k) b
    → PriorityDecision k (yield_priorities (count_call k) b.best b.best_prio)
unfolding count_call yield_priorities
PriorityDecision-intro k b d (waiting j e l ahead) =
    let (pgdir, q) = d j (runnable-not-free (k.envs j) l.ready) in
    rw e (picks j b.best_prio pgdir l ahead (aged-Ran k j b.best_prio pgdir q))
PriorityDecision-intro k b d (current c e p on lower) =
    let (pgdir, q) = d c (running-not-free (k.envs c) on.1) in
    rw e (keeps c pgdir on lower (aged-Ran k c b.best_prio pgdir q))
PriorityDecision-intro k b d (no_one e idle off) =
    rw e (nobody_left idle (again_or_halt-NoneReady priorities k (curenv k) d refl))

-- When every environment in use has a page directory, sched_yield under the priority policy runs
-- the waiting environment with the highest effective priority, the first of its equals in circular
-- order, after aging the ready queue; the current environment keeps the CPU exactly when it is
-- strictly ahead of all that wait, or nobody waits.
pub yield_priorities-PriorityDecision :
    (k : Kernel) → HasPgdir k → PriorityDecision k (sched_yield priorities k)
unfolding sched_yield
yield_priorities-PriorityDecision k d =
    PriorityDecision-intro k (choose (count_call k)) d (choose-Choice (count_call k))
