-- ===== src/Syscall/Ipc/Nap.antt =====
-- How long sys_sleep sleeps.
use sched_v2_solution.Base.{ℕ, ◌+◌, ◌≤◌, ◌<◌, ◌≡◌, ◌≢◌, ◌↔◌, sym, ◌∙◌, arith, ==_self}
use sched_v2_solution.Kernel.{Kernel, set_env}
use sched_v2_solution.Kernel.Pcb.{word, nenv, runnable, not_runnable}
use sched_v2_solution.Sched.Sleep.{sched_wakeup_sleeping}
use sched_v2_solution.Sched.Sleep.Wakeup.{IsDue, wakeup_wakes-IsDue}
use sched_v2_solution.Syscall.Ipc.{fall_asleep}

-- The state that sys_sleep(n) hands to the scheduler, at a later tick t.
abbrev pub nap : (me n : ℕ) → Kernel → (t : ℕ) → Kernel
nap me n k t = record (fall_asleep me n k) { ticks = t }

nap-env :
    (me n : ℕ) (k : Kernel) → ((fall_asleep me n k).envs me).env_sleep_until ≡ word (k.ticks + n)
unfolding fall_asleep set_env
nap-env me n k = rw (==_self me)

nap-status : (me n : ℕ) (k : Kernel) → ((fall_asleep me n k).envs me).env_status ≡ not_runnable
unfolding fall_asleep set_env
nap-status me n k = rw (==_self me)

nap-IsDue :
    (me n : ℕ) (k : Kernel) (t : ℕ)
    → IsDue t ((fall_asleep me n k).envs me) ↔ ((word (k.ticks + n) ≢ 0) × (word (k.ticks + n) ≤ t))
nap-IsDue me n k t = (
  (λ due. ((λ e. due.sleeping (nap-env me n k ∙ e)), rw (nap-env me n k) at due.due)),
  (λ h. record {
    blocked = nap-status me n k;
    sleeping = λ e. h.0 (sym (nap-env me n k) ∙ e);
    due = rw (nap-env me n k) h.1;
  }),
)

-- An environment in a slot of the table that sleeps for n ticks, n not 0, is not woken by the
-- clock before n ticks have passed and is RUNNABLE at every later tick at which the sleepers are
-- woken, as long as the end of its sleep does not wrap round 2^32.
pub sys_sleep-sleeps :
    (me n : ℕ) (k : Kernel) (t : ℕ)
    → me < nenv
    → 0 < n
    → k.ticks + n < 0x1_0000_0000
    → (t < k.ticks + n → ((sched_wakeup_sleeping (nap me n k t)).envs me).env_status ≡ not_runnable)
      × (k.ticks + n ≤ t → ((sched_wakeup_sleeping (nap me n k t)).envs me).env_status ≡ runnable)
sys_sleep-sleeps me n k t slot pos fits = (
  (λ early.
      let wait : ¬ IsDue t ((fall_asleep me n k).envs me) =
        λ due. absurd (late ((nap-IsDue me n k t).0 due).1 early) in
      rw ((wakeup_wakes-IsDue (nap me n k t) me slot).1 wait) (nap-status me n k)),
  (λ over. rw (
      (wakeup_wakes-IsDue (nap me n k t) me slot).0
        ((nap-IsDue me n k t).1 ((λ e. ends e), ended over)))),
)
  where
    late : word (k.ticks + n) ≤ t → t < k.ticks + n → ⊥
    late a b = omega arith

    ends : word (k.ticks + n) ≡ 0 → ⊥
    ends e = omega arith

    ended : k.ticks + n ≤ t → word (k.ticks + n) ≤ t
    ended h = omega arith

-- When the clock plus n is 0 as a 32-bit number, the wake-up time is the value that stands for
-- none: the environment in its slot of the table stays NOT_RUNNABLE at every tick.
pub sys_sleep-never_wakes :
    (me n : ℕ) (k : Kernel) (t : ℕ)
    → me < nenv
    → word (k.ticks + n) ≡ 0
    → ((sched_wakeup_sleeping (nap me n k t)).envs me).env_status ≡ not_runnable
sys_sleep-never_wakes me n k t slot wraps =
    let asleep : ¬ IsDue t ((fall_asleep me n k).envs me) =
      λ due. ((nap-IsDue me n k t).0 due).0 wraps in
    rw ((wakeup_wakes-IsDue (nap me n k t) me slot).1 asleep) (nap-status me n k)
