-- ===== src/Sched/Sleep/Wakeup.antt =====
-- Whom sched_wakeup_sleeping wakes.
use sched_v2_solution.Base.{
  ℕ, ◌≤◌, ◌<◌, ◌≡◌, ◌≢◌, inl, inr, Bool-cases, ◌∙◌, arith, leb, ◌==◌, for_each-pointwise, lt→ltb,
}
use sched_v2_solution.Kernel.{Kernel}
use sched_v2_solution.Kernel.Pcb.{Env, nenv, runnable, not_runnable, is_not_runnable}
use sched_v2_solution.Sched.Sleep.{wake, sched_wakeup_sleeping}

-- Blocked by sys_sleep with a wake-up time that has come. A time of 0 stands for none.
pub record IsDue (ticks : ℕ) (e : Env) : Type 0 where
  pub blocked : e.env_status ≡ not_runnable
  pub sleeping : e.env_sleep_until ≢ 0
  pub due : e.env_sleep_until ≤ ticks

woken : Kernel → ℕ → Env
woken k i = (sched_wakeup_sleeping k).envs i

woken-wake : (k : Kernel) (i : ℕ) → i < nenv → woken k i ≡ wake k.ticks i (k.envs i)
unfolding woken sched_wakeup_sleeping
woken-wake k i h = for_each-pointwise nenv (wake k.ticks) k.envs i ∙ rw (lt→ltb i nenv h)

wake-due :
    (ticks i : ℕ) (e : Env)
    → IsDue ticks e
    → wake ticks i e ≡ record e { env_sleep_until = 0; env_status = runnable }
unfolding wake
wake-due ticks i e h = ground arith

wake-other : (ticks i : ℕ) (e : Env) → ¬ IsDue ticks e → wake ticks i e ≡ e
unfolding wake
wake-other ticks i e h = elim (Bool-cases (is_not_runnable e.env_status)) [
  | inl blocked ↦ elim (Bool-cases (e.env_sleep_until == 0)) [
    | inl awake ↦ rw (blocked, awake)
    | inr asleep ↦ elim (Bool-cases (leb e.env_sleep_until ticks)) [
      | inl due ↦
          absurd
            (h (record { blocked = ground arith; sleeping = ground arith; due = ground arith }))
      | inr early ↦ rw (blocked, asleep, early)
    ]
  ]
  | inr other ↦ rw other
]

-- sched_wakeup_sleeping wakes exactly the environments that are due: each of them becomes RUNNABLE
-- with no wake-up time, and every other environment stays as it was, those that are blocked for
-- another reason among them.
pub wakeup_wakes-IsDue :
    (k : Kernel) (i : ℕ)
    → i < nenv
    → (IsDue k.ticks (k.envs i)
        → (sched_wakeup_sleeping k).envs i
          ≡ record (k.envs i) { env_sleep_until = 0; env_status = runnable })
      × (¬ IsDue k.ticks (k.envs i) → (sched_wakeup_sleeping k).envs i ≡ k.envs i)
unfolding woken
wakeup_wakes-IsDue k i h = (
  (λ due. woken-wake k i h ∙ wake-due k.ticks i (k.envs i) due),
  (λ early. woken-wake k i h ∙ wake-other k.ticks i (k.envs i) early),
)
