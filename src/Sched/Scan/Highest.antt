-- ===== src/Sched/Scan/Highest.antt =====
-- The search of the priority policy: the highest effective priority, and the first of its equals.
use sched_v2_solution.Base.{
  ℕ, zero, suc, ◌+◌, ◌≤◌, ◌<◌, ◌≡◌, refl, inl, inr, true, false, none, some, arith, ltb, Bool-cases,
  below_suc,
}
use native.Mathlib.Nat.{add-zero}
use sched_v2_solution.Kernel.Pcb.{Env, is_runnable}
use sched_v2_solution.Sched.Scan.{Best, slot_at, sched_effective_priority, consider, best_scan}

abbrev pub eff_at : (ℕ → Env) → ℕ → ℕ → ℕ
eff_at envs start m = sched_effective_priority (envs (slot_at start m))

abbrev pub ReadyAt : (ℕ → Env) → ℕ → ℕ → Type 0
ReadyAt envs start m = is_runnable (envs (slot_at start m)).env_status ≡ true

-- Slot j leads the rounds 0, ..., hi - 1: it is ready, no ready environment among them has a
-- higher effective priority, and those that come before it have a lower one.
pub record Leads (envs : ℕ → Env) (start hi : ℕ) (j : ℕ) (prio : ℕ) : Type 0 where
  pub round : ℕ
  pub below : round < hi
  pub slot : j ≡ slot_at start round
  pub ready : is_runnable (envs j).env_status ≡ true
  pub effective : prio ≡ sched_effective_priority (envs j)
  pub highest : (m : ℕ) → m < hi → ReadyAt envs start m → eff_at envs start m ≤ prio
  pub first : (m : ℕ) → m < round → ReadyAt envs start m → eff_at envs start m < prio

-- The state of the search after the rounds 0, ..., hi - 1.
pub data Searched (envs : ℕ → Env) (start hi : ℕ) (b : Best) : Type 0 where
  nobody :
      b.best ≡ none
      → ((m : ℕ) → m < hi → is_runnable (envs (slot_at start m)).env_status ≡ false)
      → Searched envs start hi b
  leader : (j : ℕ) → b.best ≡ some j → Leads envs start hi j b.best_prio → Searched envs start hi b

module _ (envs : ℕ → Env) (start hi : ℕ) where
  not-ready : is_runnable (envs (slot_at start hi)).env_status ≡ false → ReadyAt envs start hi → ⊥
  not-ready idle ready = cc

  -- A ready environment that beats every earlier one takes the lead.
  takes_lead :
      (prio : ℕ)
      → is_runnable (envs (slot_at start hi)).env_status ≡ true
      → prio ≡ eff_at envs start hi
      → ((m : ℕ) → m < hi → ReadyAt envs start m → eff_at envs start m < prio)
      → Leads envs start (suc hi) (slot_at start hi) prio
  takes_lead prio ready e lower = record {
    round = hi;
    below = omega arith;
    slot = refl;
    ready = ready;
    effective = e;
    highest =
        below_suc (λ m. ReadyAt envs start m → eff_at envs start m ≤ prio) hi
          (λ m lt r. let l : eff_at envs start m < prio = lower m lt r in omega arith)
          (λ r. omega arith);
    first = lower;
  }

  keeps_lead :
      (j prio : ℕ)
      → Leads envs start hi j prio
      → (ReadyAt envs start hi → eff_at envs start hi ≤ prio)
      → Leads envs start (suc hi) j prio
  keeps_lead j prio l h = record {
    round = l.round;
    below = omega arith;
    slot = l.slot;
    ready = l.ready;
    effective = l.effective;
    highest = below_suc (λ m. ReadyAt envs start m → eff_at envs start m ≤ prio) hi l.highest h;
    first = l.first;
  }

  consider-Searched :
      (b : Best)
      → Searched envs start hi b
      → Searched envs start (suc hi) (consider envs (slot_at start hi) b)
  unfolding consider
  consider-Searched b (nobody e idle) =
      elim (Bool-cases (is_runnable (envs (slot_at start hi)).env_status)) [
        | inl hit ↦
            rw (hit, e)
              (leader (slot_at start hi) refl (
                takes_lead _ hit refl λ m lt r.
                  let no_one : is_runnable (envs (slot_at start m)).env_status ≡ false =
                    idle m lt in
                  absurd (cc)))
        | inr miss ↦ rw miss (
            nobody e (
              below_suc (λ m. is_runnable (envs (slot_at start m)).env_status ≡ false) hi idle
                miss))
      ]
  consider-Searched b (leader j e l) =
      elim (Bool-cases (is_runnable (envs (slot_at start hi)).env_status)) [
        | inl hit ↦ elim (Bool-cases (ltb b.best_prio (eff_at envs start hi))) [
          | inl higher ↦
              rw (hit, e, higher)
                (leader (slot_at start hi) refl (
                  takes_lead _ hit refl λ m lt r.
                    let top : eff_at envs start m ≤ b.best_prio = l.highest m lt r in ground arith))
          | inr lower ↦ rw (hit, e, lower) (leader j refl (keeps_lead j _ l (λ r. ground arith)))
        ]
        | inr miss ↦ rw miss (leader j e (keeps_lead j _ l (λ r. absurd (not-ready miss r))))
      ]

best_scan-Searched :
    (n i start : ℕ) (envs : ℕ → Env) (b : Best)
    → Searched envs start i b
    → Searched envs start (i + n) (best_scan n i start envs b)
unfolding best_scan
best_scan-Searched zero i start envs b s = rw add-zero s
best_scan-Searched (suc n) i start envs b s =
    let rest : Searched envs start (suc i + n) (best_scan (suc n) i start envs b) =
      best_scan-Searched n (suc i) start envs _ (consider-Searched envs start i b s) in
    let same : i + suc n ≡ suc i + n = omega arith in rw same rest

abbrev pub no_best : Best
no_best = record { best = none; best_prio = 0 }

-- The whole search finds the leader of all the rounds, or that there is none.
pub best_scan-Leads :
    (n start : ℕ) (envs : ℕ → Env) → Searched envs start n (best_scan n 0 start envs no_best)
best_scan-Leads n start envs =
    let s : Searched envs start (0 + n) (best_scan n 0 start envs no_best) =
      best_scan-Searched n 0 start envs no_best (nobody refl (λ m h. absurd (omega arith))) in
    let same : 0 + n ≡ n = omega arith in rw same at s
