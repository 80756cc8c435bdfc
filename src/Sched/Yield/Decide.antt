-- ===== src/Sched/Yield/Decide.antt =====
-- What sched_yield decides, under both policies.
use sched_v2_solution.Base.{
  ℕ, ◌<◌, ◌≡◌, refl, inl, inr, true, false, none, some, arith, Option, Bool-cases,
}
use sched_v2_solution.Kernel.{Kernel, Stop, Policy, round_robin, curenv}
use sched_v2_solution.Kernel.Pcb.{Env, nenv, is_free, is_runnable, is_running}
use sched_v2_solution.Sched.Run.{curenv_running}
use sched_v2_solution.Sched.Run.Switch.{Ran}
use sched_v2_solution.Sched.Account.{sched_run}
use sched_v2_solution.Sched.Account.Recorded.{sched_run-Ran, Ran-count}
use sched_v2_solution.Sched.Scan.{slot_at, rr_scan}
use sched_v2_solution.Sched.Scan.RoundRobin.{
  FirstRunnable, rr_scan-FirstRunnable, rr_scan-none, distance, slot_at-distance,
}
use sched_v2_solution.Sched.Yield.{
  scan_start, count_call, again_or_halt, yield_rr, sched_halt, sched_yield,
}

-- Every environment in use has a page directory.
abbrev pub HasPgdir : Kernel → Type 0
HasPgdir k =
    (i : ℕ) → is_free (k.envs i).env_status ≡ false → (p : ℕ) × ((k.envs i).env_pgdir ≡ some p)

pub runnable-not-free : (e : Env) → is_runnable e.env_status ≡ true → is_free e.env_status ≡ false
runnable-not-free e h = ground arith

pub running-not-free : (e : Env) → is_running e.env_status ≡ true → is_free e.env_status ≡ false
running-not-free e h = ground arith

abbrev pub NobodyReady : Kernel → Type 0
NobodyReady k = (j : ℕ) → j < nenv → is_runnable (k.envs j).env_status ≡ false

-- The outcomes when no environment is ready: the current one goes on, or the CPU halts.
pub data NoneReady (k : Kernel) (s : Stop) : Type 0 where
  goes_on :
      (c pgdir : ℕ)
      → curenv k ≡ some c
      → is_running (k.envs c).env_status ≡ true
      → Ran k c pgdir s
      → NoneReady k s
  halts : curenv_running k ≡ false → s ≡ sched_halt (count_call k) → NoneReady k s

pub data RrDecision (k : Kernel) (s : Stop) : Type 0 where
  picks :
      (j pgdir : ℕ)
      → FirstRunnable nenv 0 (scan_start k (curenv k)) k.envs j
      → Ran k j pgdir s
      → RrDecision k s
  nobody : NobodyReady k → NoneReady k s → RrDecision k s

pub sched_run-count :
    (k : Kernel) (e effective pgdir : ℕ)
    → (k.envs e).env_pgdir ≡ some pgdir
    → Ran k e pgdir (sched_run (count_call k) e effective)
unfolding count_call
sched_run-count k e effective pgdir d =
    Ran-count k (count_call k).stats e pgdir (sched_run (count_call k) e effective)
      (sched_run-Ran (count_call k) e effective pgdir d)

pub again_or_halt-NoneReady :
    (p : Policy) (k : Kernel) (c : Option ℕ)
    → HasPgdir k
    → curenv k ≡ c
    → NoneReady k (again_or_halt p (count_call k) c)
unfolding again_or_halt count_call
again_or_halt-NoneReady p k none d h = halts (rw h) refl
again_or_halt-NoneReady p k (some c) d h = elim (Bool-cases (is_running (k.envs c).env_status)) [
  | inl on ↦
      let (pgdir, e) = d c (running-not-free (k.envs c) on) in
      rw on (goes_on c pgdir h on (sched_run-count k c _ pgdir e))
  | inr off ↦ rw off (halts (rw (h, off)) refl)
]

-- A full round without a hit means that nobody is ready.
rr_scan-NobodyReady : (k : Kernel) (start : ℕ) → rr_scan nenv 0 start k.envs ≡ none → NobodyReady k
rr_scan-NobodyReady k start e j h =
    let miss : is_runnable (k.envs (slot_at start (distance start j))).env_status ≡ false =
      rr_scan-none nenv 0 start k.envs e (distance start j) (omega arith) (omega arith) in
    rw (slot_at-distance start j h) at miss

yield_rr-RrDecision :
    (k : Kernel) (o : Option ℕ)
    → HasPgdir k
    → rr_scan nenv 0 (scan_start k (curenv k)) k.envs ≡ o
    → RrDecision k (yield_rr (count_call k) o)
unfolding yield_rr count_call
yield_rr-RrDecision k none d e =
    nobody (rr_scan-NobodyReady k _ e) (again_or_halt-NoneReady round_robin k (curenv k) d refl)
yield_rr-RrDecision k (some j) d e =
    let first : FirstRunnable nenv 0 (scan_start k (curenv k)) k.envs j =
      rr_scan-FirstRunnable nenv 0 _ k.envs j e in
    let (pgdir, q) = d j (runnable-not-free (k.envs j) first.ready) in
    picks j pgdir first (sched_run-count k j _ pgdir q)

-- When every environment in use has a page directory, sched_yield under round robin runs the first
-- ready environment in circular order from the slot behind the current one; when none is ready, the current one goes on if it is still RUNNING, and
-- otherwise the CPU halts.
pub yield_round_robin-RrDecision :
    (k : Kernel) → HasPgdir k → RrDecision k (sched_yield round_robin k)
unfolding sched_yield count_call
yield_round_robin-RrDecision k d =
    yield_rr-RrDecision k (rr_scan nenv 0 (scan_start k (curenv k)) k.envs) d refl
