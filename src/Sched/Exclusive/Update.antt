-- ===== src/Sched/Exclusive/Update.antt =====
-- Changes to the process table that keep `InKernel`: the sleepers that wake up, and what a kernel
-- entry writes in the environment it came from.
use sched_v2_solution.Base.{
  ℕ, ◌≡◌, sym, ◌∙◌, inl, inr, refl, some, arith, ltb, ◌==◌, Bool-cases, ==_iff, for_each-pointwise,
}
use sched_v2_solution.Kernel.{Kernel, CpuStatus, curenv, set_env, set_cpu_status}
use sched_v2_solution.Kernel.Pcb.{Env, nenv, is_free, is_running}
use sched_v2_solution.Sched.Sleep.{wake, sched_wakeup_sleeping}
use sched_v2_solution.Sched.Exclusive.{InKernel, Exclusive, is_live}
use sched_v2_solution.Sched.Exclusive.InUse.{SameUse}

-- What waking up does to the parts of an environment that the invariants read.
record SameRun (e e' : Env) : Type 0 where
  in_use : is_free e'.env_status ≡ is_free e.env_status
  pgdir : e'.env_pgdir ≡ e.env_pgdir
  running : is_running e'.env_status ≡ is_running e.env_status
  live : is_live e' ≡ is_live e

wake-SameRun : (ticks i : ℕ) (e : Env) → SameRun e (wake ticks i e)
unfolding wake
wake-SameRun ticks i e = record {
  in_use = ground arith;
  pgdir = ground arith;
  running = ground arith;
  live = ground arith;
}

woken-SameRun : (k : Kernel) (i : ℕ) → SameRun (k.envs i) ((sched_wakeup_sleeping k).envs i)
unfolding sched_wakeup_sleeping
woken-SameRun k i =
    rw (for_each-pointwise nenv (wake k.ticks) k.envs i) (elim (Bool-cases (ltb i nenv)) [
      | inl below ↦ rw below (wake-SameRun k.ticks i (k.envs i))
      | inr above ↦ rw above (record { in_use = refl; pgdir = refl; running = refl; live = refl })
    ])

pub woken-SameUse : (k : Kernel) → SameUse k (sched_wakeup_sleeping k)
woken-SameUse k i = ((woken-SameRun k i).in_use, (woken-SameRun k i).pgdir)

-- sched_wakeup_sleeping takes no environment off a CPU and puts none on one.
pub woken-InKernel : (k : Kernel) → InKernel k → InKernel (sched_wakeup_sleeping k)
unfolding sched_wakeup_sleeping
woken-InKernel k inv = record {
  apart = inv.apart;
  live = λ c i away on. (woken-SameRun k i).live ∙ inv.live c i away on;
  owned = λ i up. inv.owned i (sym (woken-SameRun k i).running ∙ up);
}

-- The entry into the kernel from CPU c.
abbrev pub on_cpu : ℕ → Kernel → Kernel
on_cpu c k = record k { cpunum = c }

pub Exclusive-InKernel : (c : ℕ) (k : Kernel) → Exclusive k → InKernel (on_cpu c k)
Exclusive-InKernel c k ex = record {
  apart = ex.apart;
  live = λ d i away on. ex.live d i on;
  owned = ex.owned;
}

-- The status of a CPU is none of its concern.
pub set_cpu_status-InKernel :
    (k : Kernel) (s : CpuStatus) → InKernel k → InKernel (set_cpu_status k s)
unfolding set_cpu_status
set_cpu_status-InKernel k s inv = record {
  apart = λ c d i on_c on_d. inv.apart c d i (ground arith) (ground arith);
  live = λ c i away on. inv.live c i away (ground arith);
  owned = λ i up. let (c, on) = inv.owned i up in (c, ground arith);
}

-- The environment that the kernel was entered from may be changed at will.
pub set_env-InKernel :
    (k : Kernel) (me : ℕ) (e : Env) → curenv k ≡ some me → InKernel k → InKernel (set_env k me e)
unfolding set_env
set_env-InKernel k me e mine inv = record {
  apart = inv.apart;
  live = λ c i away on. elim (Bool-cases (me == i)) [
    | inl here ↦
        let same : me ≡ i = (==_iff me i).0 here in
        absurd (away (inv.apart c k.cpunum i on (rw same at mine)))
    | inr other ↦ rw other (inv.live c i away on)
  ];
  owned = λ i up. elim (Bool-cases (me == i)) [
    | inl here ↦ let same : me ≡ i = (==_iff me i).0 here in (k.cpunum, rw same at mine)
    | inr other ↦ inv.owned i (rw other at up)
  ];
}

pub set_env-SameUse :
    (k : Kernel) (me : ℕ) (e : Env)
    → is_free e.env_status ≡ is_free (k.envs me).env_status
    → e.env_pgdir ≡ (k.envs me).env_pgdir
    → SameUse k (set_env k me e)
unfolding set_env
set_env-SameUse k me e up d i = elim (Bool-cases (me == i)) [
  | inl here ↦ let same : me ≡ i = (==_iff me i).0 here in rw (here, ← same) (up, d)
  | inr other ↦ rw other (refl, refl)
]
