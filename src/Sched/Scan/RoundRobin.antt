-- ===== src/Sched/Scan/RoundRobin.antt =====
-- The round-robin scan of sched_yield: what it finds, and how long an environment can be passed over.
use sched_v2_solution.Base.{
  ℕ, zero, suc, ◌+◌, ◌-◌, ◌%◌, ◌≤◌, ◌<◌, ◌≡◌, ◌≢◌, inl, inr, true, false, none, some, arith, ◌==◌,
  Bool-cases,
}
use sched_v2_solution.Kernel.Pcb.{Env, nenv, is_runnable}
use sched_v2_solution.Sched.Scan.{slot_at, rr_scan}

-- Slot j is the first with an ENV_RUNNABLE environment among the rounds i, ..., i + n - 1.
pub record FirstRunnable (n i start : ℕ) (envs : ℕ → Env) (j : ℕ) : Type 0 where
  pub round : ℕ
  pub from : i ≤ round
  pub below : round < i + n
  pub slot : j ≡ slot_at start round
  pub ready : is_runnable (envs j).env_status ≡ true
  pub earlier :
      (m : ℕ) → i ≤ m → m < round → is_runnable (envs (slot_at start m)).env_status ≡ false

pub rr_scan-FirstRunnable :
    (n i start : ℕ) (envs : ℕ → Env) (j : ℕ)
    → rr_scan n i start envs ≡ some j
    → FirstRunnable n i start envs j
unfolding rr_scan
rr_scan-FirstRunnable zero i start envs j e = cc
rr_scan-FirstRunnable (suc n) i start envs j e =
    elim (Bool-cases (is_runnable (envs (slot_at start i)).env_status)) [
      | inl hit ↦
          let here : slot_at start i ≡ j = ground arith in
          record {
            round = i;
            from = omega arith;
            below = omega arith;
            slot = ground arith;
            ready = rw (← here) hit;
            earlier = λ m lo hi. absurd (omega arith);
          }
      | inr miss ↦
          let rest : FirstRunnable n (suc i) start envs j =
            rr_scan-FirstRunnable n (suc i) start envs j (ground arith) in
          record {
            round = rest.round;
            from = omega arith;
            below = omega arith;
            slot = rest.slot;
            ready = rest.ready;
            earlier = λ m lo hi. ground (arith, rest.earlier m);
          }
    ]

pub rr_scan-none :
    (n i start : ℕ) (envs : ℕ → Env)
    → rr_scan n i start envs ≡ none
    → (m : ℕ) → i ≤ m
    → m < i + n
    → is_runnable (envs (slot_at start m)).env_status ≡ false
unfolding rr_scan
rr_scan-none zero i start envs e m lo hi = absurd (omega arith)
rr_scan-none (suc n) i start envs e m lo hi =
    elim (Bool-cases (is_runnable (envs (slot_at start i)).env_status)) [
      | inl hit ↦ absurd (ground arith)
      | inr miss ↦ elim (Bool-cases (m == i)) [
        | inl here ↦ let at_i : m ≡ i = ground arith in rw at_i miss
        | inr after ↦
            rr_scan-none n (suc i) start envs (ground arith) m (ground arith) (omega arith)
      ]
    ]

-- The number of slots from `start` on, in circular order, before slot j.
abbrev pub distance : ℕ → ℕ → ℕ
distance start j = (j + nenv - start % nenv) % nenv

pub slot_at-distance : (start j : ℕ) → j < nenv → slot_at start (distance start j) ≡ j
slot_at-distance start j h = omega arith

-- A full round finds a ready environment wherever it is.
pub rr_scan_finds :
    (start : ℕ) (envs : ℕ → Env) (j : ℕ)
    → j < nenv
    → is_runnable (envs j).env_status ≡ true
    → rr_scan nenv 0 start envs ≢ none
rr_scan_finds start envs j h ready e =
    let miss : is_runnable (envs (slot_at start (distance start j))).env_status ≡ false =
      rr_scan-none nenv 0 start envs e (distance start j) (omega arith) (omega arith) in
    let found : is_runnable (envs j).env_status ≡ false = rw (slot_at-distance start j h) at miss in
    cc

-- A decision for another environment brings the scan closer to a ready one.
pub rr_scan_approaches :
    (start : ℕ) (envs : ℕ → Env) (j e : ℕ)
    → j < nenv
    → is_runnable (envs j).env_status ≡ true
    → rr_scan nenv 0 start envs ≡ some e
    → e ≢ j
    → distance (e + 1) j < distance start j
rr_scan_approaches start envs j e h ready pick other =
    let first : FirstRunnable nenv 0 start envs e =
      rr_scan-FirstRunnable nenv 0 start envs e pick in
    let before : ¬ (distance start j < first.round) = λ lt.
      let miss : is_runnable (envs (slot_at start (distance start j))).env_status ≡ false =
        first.earlier (distance start j) (omega arith) lt in
      let found : is_runnable (envs j).env_status ≡ false =
        rw (slot_at-distance start j h) at miss in
      cc in
    let at_j : slot_at start (distance start j) ≡ j = slot_at-distance start j h in
    let e_slot : e ≡ slot_at start first.round = first.slot in omega arith

-- n decisions in a row that pass over slot j though it is ready, on a CPU whose scan starts
-- behind the environment that it picked last. The process table may change between them.
pub data PassedOver (j : ℕ) : ℕ → ℕ → Type 0 where
  here : {start : ℕ} → PassedOver j start 0
  turn :
      {start e n : ℕ} (envs : ℕ → Env)
      → is_runnable (envs j).env_status ≡ true
      → rr_scan nenv 0 start envs ≡ some e
      → e ≢ j
      → PassedOver j (e + 1) n
      → PassedOver j start (suc n)

passed-le-distance : (j : ℕ) {start n : ℕ} → j < nenv → PassedOver j start n → n ≤ distance start j
passed-le-distance j h here = omega arith
passed-le-distance j h (turn {start} {e} envs ready pick other rest) =
    omega (arith, rr_scan_approaches start envs j e h ready pick other, passed-le-distance j h rest)

-- Under round robin an environment that stays ready in slot j is passed over fewer than NENV times
-- in a row, as long as every scan starts behind the environment that was picked last.
pub PassedOver-lt : (j start n : ℕ) → j < nenv → PassedOver j start n → n < nenv
PassedOver-lt j start n h passed = omega (arith, passed-le-distance j h passed)
