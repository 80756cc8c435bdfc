-- ===== src/Sched/Yield/Aging.antt =====
-- The aging of the ready queue in sched_yield.
use sched_v2_solution.Base.{
  ℕ, ◌+◌, ◌≡◌, ◌≢◌, ◌&&◌, arith, ◌==◌, ltb, if◌then◌else◌, for_each, for_each-pointwise, Bool-cases,
  inl, inr, ==_iff, ==_self,
}
use sched_v2_solution.Kernel.Pcb.{Env, nenv, is_runnable, word}
use sched_v2_solution.Sched.Scan.{age}
use sched_v2_solution.Sched.Yield.{age_all}

-- The chosen environment starts to wait anew; every other one of the ready queue has waited one
-- decision more; nothing else changes.
abbrev pub aged_env : ℕ → (ℕ → Env) → ℕ → Env
aged_env best envs i =
    if best == i
    then record (envs i) { env_wait_ticks = 0 }
    else if ltb i nenv && is_runnable (envs i).env_status
    then record (envs i) { env_wait_ticks = word ((envs i).env_wait_ticks + 1) }
    else envs i

age_at : (best : ℕ) (envs : ℕ → Env) (i : ℕ) → ℕ → Env
age_at best envs i n = if ltb i n then age best i (envs i) else envs i

age_at_self :
    (best n : ℕ) (envs : ℕ → Env)
    → record (age_at best envs best n) { env_wait_ticks = 0 }
      ≡ record (envs best) { env_wait_ticks = 0 }
unfolding age_at age
age_at_self best n envs = ground arith

age_at-other :
    (best i : ℕ) (envs : ℕ → Env) → best ≢ i → age_at best envs i nenv ≡ aged_env best envs i
unfolding age_at age
age_at-other best i envs h = ground arith

pub age_all-aged_env :
    (best : ℕ) (envs : ℕ → Env) (i : ℕ) → age_all best envs i ≡ aged_env best envs i
unfolding age_all age_at
age_all-aged_env best envs i = elim (Bool-cases (best == i)) [
  | inl here ↦
      rw (← (==_iff best i).0 here) (rw (==_self best, loop best) (age_at_self best nenv envs))
  | inr away ↦ rw (away, loop i) (rw away at (age_at-other best i envs (λ e. ground arith)))
]
  where
    loop : (j : ℕ) → for_each nenv 0 (age best) envs j ≡ age_at best envs j nenv
    loop = for_each-pointwise nenv (age best) envs
