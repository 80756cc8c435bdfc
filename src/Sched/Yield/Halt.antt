-- ===== src/Sched/Yield/Halt.antt =====
-- sched_halt: when the CPU idles, and when the system is over.
use sched_v2_solution.Base.{
  ℕ, zero, suc, ◌+◌, ◌≤◌, ◌<◌, ◌≡◌, ◌≢◌, refl, ◌⊎◌, inl, inr, true, false, none, arith, Bool-cases,
  ◌==◌,
}
use sched_v2_solution.Kernel.{Kernel, Stop, in_monitor, halted, cpu_halted, curenv}
use sched_v2_solution.Kernel.Pcb.{Env, nenv}
use sched_v2_solution.Sched.Yield.{is_pending, any_pending, sched_halt}

any_pending-true :
    (n i : ℕ) (envs : ℕ → Env)
    → any_pending n i envs ≡ true
    → (j : ℕ) × (i ≤ j) × (j < i + n) × (is_pending (envs j) ≡ true)
unfolding any_pending
any_pending-true zero i envs e = absurd (cc)
any_pending-true (suc n) i envs e = elim (Bool-cases (is_pending (envs i))) [
  | inl hit ↦ (i, omega arith, omega arith, hit)
  | inr miss ↦
      let (j, lo, hi, p) = any_pending-true n (suc i) envs (ground arith) in
      (j, omega arith, omega arith, p)
]

any_pending-false :
    (n i : ℕ) (envs : ℕ → Env)
    → any_pending n i envs ≡ false
    → (j : ℕ) → i ≤ j
    → j < i + n
    → is_pending (envs j) ≡ false
unfolding any_pending
any_pending-false zero i envs e j lo hi = absurd (omega arith)
any_pending-false (suc n) i envs e j lo hi = elim (Bool-cases (is_pending (envs i))) [
  | inl hit ↦ absurd (ground arith)
  | inr miss ↦ elim (Bool-cases (j == i)) [
    | inl here ↦ let at_i : j ≡ i = ground arith in rw at_i miss
    | inr after ↦ any_pending-false n (suc i) envs (ground arith) j (ground arith) (omega arith)
  ]
]

-- The CPU halts, to be woken by the timer, with no environment on it and the kernel unlocked.
pub record Idles (k : Kernel) (s : Stop) : Type 0 where
  pub exit : s.exit ≡ halted
  pub nobody : curenv s.kernel ≡ none
  pub status : (s.kernel.cpus s.kernel.cpunum).cpu_status ≡ cpu_halted
  pub unlocked : s.kernel.locked ≡ 0
  pub envs : s.kernel.envs ≡ k.envs
  pub other_cpus : (c : ℕ) → c ≢ k.cpunum → s.kernel.cpus c ≡ k.cpus c
  pub cpunum : s.kernel.cpunum ≡ k.cpunum
  pub same_ticks : s.kernel.ticks ≡ k.ticks

-- sched_halt idles exactly when some environment is ready, running, dying or asleep with a
-- wake-up time, and enters the monitor for good, with the process table as it was, when none is.
pub sched_halt-cases :
    (k : Kernel)
    → (((j : ℕ) × (j < nenv) × (is_pending (k.envs j) ≡ true)) × Idles k (sched_halt k))
      ⊎ (((j : ℕ) → j < nenv → is_pending (k.envs j) ≡ false)
          × ((sched_halt k).exit ≡ in_monitor)
          × ((sched_halt k).kernel.envs ≡ k.envs))
unfolding sched_halt
sched_halt-cases k = elim (Bool-cases (any_pending nenv 0 k.envs)) [
  | inl some_left ↦
      let (j, lo, hi, p) = any_pending-true nenv 0 k.envs some_left in
      inl (
        (j, omega arith, p),
        rw some_left (record {
          exit = refl;
          nobody = ground arith;
          status = ground arith;
          unlocked = refl;
          envs = refl;
          other_cpus = λ c h. ground arith;
          cpunum = refl;
          same_ticks = refl;
        }),
      )
  | inr none_left ↦ inr (
    (λ j h. any_pending-false nenv 0 k.envs none_left j (omega arith) (omega arith)),
    rw none_left,
    rw none_left,
  )
]
