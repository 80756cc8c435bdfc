-- ===== src/Sched/Exclusive.antt =====
-- Which environment is on which CPU: sched_yield never puts one environment on two CPUs.
pub mod Decision
pub mod InUse
pub mod Update
use sched_v2_solution.Base.{
  ℕ, ◌≡◌, ◌≢◌, ◌⊎◌, refl, sym, ap, ◌∙◌, inl, inr, Bool, true, ◌||◌, Option, none, some, arith, ◌==◌,
  Bool-cases, ==_iff,
}
use sched_v2_solution.Kernel.{Kernel, CpuInfo, Stop, curenv}
use sched_v2_solution.Kernel.Pcb.{Env, is_runnable, is_running, is_dying}
use sched_v2_solution.Sched.Run.Switch.{Ran, stepped_down, stepped_down-off}

abbrev pub env_on : Kernel → ℕ → Option ℕ
env_on k c = (k.cpus c).cpu_env

abbrev pub OnACpu : Kernel → ℕ → Type 0
OnACpu k i = (c : ℕ) × (env_on k c ≡ some i)

-- RUNNING, or DYING because another CPU destroyed it while it ran.
abbrev pub is_live : Env → Bool
is_live e = is_running e.env_status || is_dying e.env_status

-- In the kernel on CPU cpunum: no environment is on two CPUs, those on the other CPUs are RUNNING
-- or DYING, and whatever is RUNNING is on some CPU.
pub record InKernel (k : Kernel) : Type 0 where
  pub apart : (c d i : ℕ) → env_on k c ≡ some i → env_on k d ≡ some i → c ≡ d
  pub live : (c i : ℕ) → c ≢ k.cpunum → env_on k c ≡ some i → is_live (k.envs i) ≡ true
  pub owned : (i : ℕ) → is_running (k.envs i).env_status ≡ true → OnACpu k i

-- Out of the kernel it holds of this CPU too.
pub record Exclusive (k : Kernel) : Type 0 where
  pub apart : (c d i : ℕ) → env_on k c ≡ some i → env_on k d ≡ some i → c ≡ d
  pub live : (c i : ℕ) → env_on k c ≡ some i → is_live (k.envs i) ≡ true
  pub owned : (i : ℕ) → is_running (k.envs i).env_status ≡ true → OnACpu k i

-- An environment that may be switched to: ready, or the one that is on this CPU.
abbrev pub MayRun : Kernel → ℕ → Type 0
MayRun k e = (is_runnable (k.envs e).env_status ≡ true) ⊎ (curenv k ≡ some e)

-- What is still RUNNING after the step down was so before, and is not this CPU's.
stepped_down-running :
    (k : Kernel) (i : ℕ)
    → is_running (stepped_down k i).env_status ≡ true
    → (is_running (k.envs i).env_status ≡ true) × (curenv k ≢ some i)
stepped_down-running k i up = (ground arith, λ mine. absurd (ground arith))

module _ (k : Kernel) (e pgdir : ℕ) (s : Stop) (inv : InKernel k) (may : MayRun k e)
    (ran : Ran k e pgdir s) where
  -- No other CPU has it.
  not-elsewhere : (c : ℕ) → env_on k c ≡ some e → c ≡ k.cpunum
  not-elsewhere c on = elim (Bool-cases (c == k.cpunum)) [
    | inl here ↦ (==_iff c k.cpunum).0 here
    | inr away ↦ elim may [
      | inl ready ↦
          let live : is_live (k.envs e) ≡ true = inv.live c e (ground arith) on in
          absurd (ground arith)
      | inr mine ↦ inv.apart c k.cpunum e on mine
    ]
  ]

  moved : (c : ℕ) → c ≢ k.cpunum → env_on s.kernel c ≡ env_on k c
  moved c h = ap (λ (i : CpuInfo). i.cpu_env) (ran.other_cpus c h)

  here_now : env_on s.kernel k.cpunum ≡ some e
  here_now = rw ran.cpunum at ran.current

  -- Where an environment is after the switch.
  whereabouts :
      (c i : ℕ)
      → env_on s.kernel c ≡ some i
      → ((c ≡ k.cpunum) × (i ≡ e)) ⊎ ((c ≢ k.cpunum) × (i ≢ e) × (env_on k c ≡ some i))
  whereabouts c i on = elim (Bool-cases (c == k.cpunum)) [
    | inl here ↦
        let at_home : c ≡ k.cpunum = (==_iff c k.cpunum).0 here in
        let on_home : env_on s.kernel k.cpunum ≡ some i = rw at_home at on in inl (at_home, cc)
    | inr away ↦
        let ne : c ≢ k.cpunum = ground arith in
        let before : env_on k c ≡ some i = sym (moved c ne) ∙ on in
        inr (ne, (λ same. ne (not-elsewhere c (rw same at before))), before)
  ]

  others_status : (i : ℕ) → i ≢ e → curenv k ≢ some i → s.kernel.envs i ≡ k.envs i
  others_status i ne off = ran.others i ne ∙ stepped_down-off k i off

  pub Ran-Exclusive : Exclusive s.kernel
  Ran-Exclusive = record {
    apart = λ c d i on_c on_d. elim (whereabouts c i on_c) [
      | inl (c_here, is_e) ↦ elim (whereabouts d i on_d) [
        | inl (d_here, _) ↦ c_here ∙ sym d_here
        | inr (_, not_e, _) ↦ absurd (not_e is_e)
      ]
      | inr (_, not_e, before_c) ↦ elim (whereabouts d i on_d) [
        | inl (_, is_e) ↦ absurd (not_e is_e)
        | inr (_, _, before_d) ↦ inv.apart c d i before_c before_d
      ]
    ];
    live = λ c i on. elim (whereabouts c i on) [
      | inl (_, is_e) ↦ rw (is_e, ran.chosen) refl
      | inr (away, not_e, before) ↦
          rw (others_status i not_e (λ mine. away (inv.apart c k.cpunum i before mine)))
            (inv.live c i away before)
    ];
    owned = λ i up. elim (Bool-cases (i == e)) [
      | inl is_e ↦ let same : i ≡ e = (==_iff i e).0 is_e in (k.cpunum, rw same here_now)
      | inr not_e ↦
          let ne : i ≢ e = ground arith in
          let before : (is_running (k.envs i).env_status ≡ true) × (curenv k ≢ some i) =
            stepped_down-running k i (rw (ran.others i ne) at up) in
          let (c, on) = inv.owned i before.0 in
          let away : c ≢ k.cpunum = λ here. before.1 (rw here at on) in (c, moved c away ∙ on)
    ];
  }
