-- ===== src/Syscall/Prio/Bounds.antt =====
-- What a change of priority can and cannot do (sys_setpriority).
use sched_v2_solution.Base.{
  ℕ, ◌≤◌, ◌<◌, ◌≡◌, inl, inr, ◌∙◌, true, ◌&&◌, none, some, arith, ◌==◌, ltb, Bool-cases,
  Option-cases,
}
use sched_v2_solution.Kernel.{Kernel, set_env}
use sched_v2_solution.Kernel.Pcb.{env_priority_max}
use sched_v2_solution.Process.Cmd.{Run, done, stopped, Result, ok, err, bad_env, inval}
use sched_v2_solution.Process.Lookup.{envid2env}
use sched_v2_solution.Syscall.Env.{with_env}
use sched_v2_solution.Syscall.Prio.{sys_setpriority}

abbrev pub with_priority : Kernel → ℕ → ℕ → Kernel
with_priority k e priority = set_env k e (record (k.envs e) { env_priority = priority })

-- The outcomes of sys_setpriority(envid, priority).
pub data SetOutcome (me : ℕ) (k : Kernel) (envid priority : ℕ) : Run (Result ℕ) → Type 0 where
  out_of_range : env_priority_max < priority → SetOutcome me k envid priority (done (err inval) k)
  no_such_env :
      priority ≤ env_priority_max
      → envid2env me k envid true ≡ none
      → SetOutcome me k envid priority (done (err bad_env) k)
  own_raise :
      priority ≤ env_priority_max
      → envid2env me k envid true ≡ some me
      → (k.envs me).env_priority < priority
      → SetOutcome me k envid priority (done (err inval) k)
  changed :
      (e : ℕ)
      → priority ≤ env_priority_max
      → envid2env me k envid true ≡ some e
      → (e ≡ me → priority ≤ (k.envs me).env_priority)
      → SetOutcome me k envid priority (done (ok 0) (with_priority k e priority))

-- sys_setpriority refuses a priority above ENV_PRIORITY_MAX, an id that envid2env refuses, and a
-- caller that would raise its own priority, and then changes nothing; in all other cases it
-- writes the priority of the environment named and nothing else.
pub sys_setpriority-SetOutcome :
    (me envid priority : ℕ) (k : Kernel)
    → SetOutcome me k envid priority (sys_setpriority me envid priority k)
unfolding sys_setpriority with_env
sys_setpriority-SetOutcome me envid priority k = elim (Bool-cases (ltb env_priority_max priority)) [
  | inl high ↦ rw high (out_of_range (ground arith))
  | inr fits ↦ elim (Option-cases (envid2env me k envid true)) [
    | inl lost ↦ rw (fits, with_env, lost) (no_such_env (ground arith) lost)
    | inr (e, found) ↦ elim (Bool-cases (e == me && ltb (k.envs e).env_priority priority)) [
      | inl raise ↦
          let own : e ≡ me = ground arith in
          rw (fits, with_env, found, raise)
            (own_raise (ground arith) (found ∙ rw own) (ground arith))
      | inr fine ↦
          rw (fits, with_env, found, fine) (changed e (ground arith) found (λ own. ground arith))
    ]
  ]
]

-- The state that a call leaves, when it returns.
abbrev pub left_by : Kernel → Run (Result ℕ) → Kernel
left_by k (done r k') = k'
left_by k (stopped s) = s.kernel

abbrev pub InRange : Kernel → Type 0
InRange k = (i : ℕ) → (k.envs i).env_priority ≤ env_priority_max

-- A priority that fits keeps the array in range, and one that is not above the caller's own does
-- not raise the caller.
with_priority-InRange :
    (k : Kernel) (e priority : ℕ)
    → InRange k
    → priority ≤ env_priority_max
    → InRange (with_priority k e priority)
unfolding set_env
with_priority-InRange k e priority all fits i = ground (arith, all i)

with_priority-own :
    (k : Kernel) (e priority me : ℕ)
    → (e ≡ me → priority ≤ (k.envs me).env_priority)
    → ((with_priority k e priority).envs me).env_priority ≤ (k.envs me).env_priority
unfolding set_env
with_priority-own k e priority me low = ground arith

SetOutcome-bounds :
    (me envid priority : ℕ) (k : Kernel) (out : Run (Result ℕ))
    → InRange k
    → SetOutcome me k envid priority out
    → InRange (left_by k out) × (((left_by k out).envs me).env_priority ≤ (k.envs me).env_priority)
SetOutcome-bounds me envid priority k _ all (out_of_range _) = (all, omega arith)
SetOutcome-bounds me envid priority k _ all (no_such_env _ _) = (all, omega arith)
SetOutcome-bounds me envid priority k _ all (own_raise _ _ _) = (all, omega arith)
SetOutcome-bounds me envid priority k _ all (changed e fits _ low) =
    (with_priority-InRange k e priority all fits, with_priority-own k e priority me low)

-- When every priority is at most ENV_PRIORITY_MAX, sys_setpriority keeps it so, whatever its
-- arguments, and the caller's own priority is never higher after its call than before.
pub sys_setpriority-InRange :
    (me envid priority : ℕ) (k : Kernel)
    → InRange k
    → InRange (left_by k (sys_setpriority me envid priority k))
      × (((left_by k (sys_setpriority me envid priority k)).envs me).env_priority
          ≤ (k.envs me).env_priority)
sys_setpriority-InRange me envid priority k all =
    SetOutcome-bounds me envid priority k _ all (sys_setpriority-SetOutcome me envid priority k)
