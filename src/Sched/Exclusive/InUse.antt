-- ===== src/Sched/Exclusive/InUse.antt =====
-- sched_yield neither allocates nor frees: the environments in use keep their page directories.
use sched_v2_solution.Base.{
  ℕ, ◌≡◌, sym, ◌∙◌, inl, inr, refl, false, arith, ◌==◌, Bool-cases, ==_iff,
}
use sched_v2_solution.Kernel.{Kernel, Stop, Policy, round_robin, priorities}
use sched_v2_solution.Kernel.Pcb.{is_free}
use sched_v2_solution.Sched.Run.Switch.{Ran, stepped_down}
use sched_v2_solution.Sched.Yield.{sched_yield, count_call}
use sched_v2_solution.Sched.Yield.Halt.{sched_halt-cases}
use sched_v2_solution.Sched.Yield.Aging.{age_all-aged_env}
use sched_v2_solution.Sched.Yield.Decide.{
  HasPgdir, NoneReady, goes_on, halts, RrDecision, picks, nobody, yield_round_robin-RrDecision,
  runnable-not-free, running-not-free,
}
use sched_v2_solution.Sched.Yield.Priority
use sched_v2_solution.Sched.Yield.Priority.{
  PriorityDecision, keeps, nobody_left, aged, yield_priorities-PriorityDecision,
}

-- The same environments are in use, with the same page directories.
abbrev pub SameUse : Kernel → Kernel → Type 0
SameUse k k' =
    (i : ℕ)
    → (is_free (k'.envs i).env_status ≡ is_free (k.envs i).env_status)
      × ((k'.envs i).env_pgdir ≡ (k.envs i).env_pgdir)

pub SameUse-HasPgdir : (k k' : Kernel) → SameUse k k' → HasPgdir k → HasPgdir k'
SameUse-HasPgdir k k' same d i up =
    let (pgdir, e) = d i (sym (same i).0 ∙ up) in (pgdir, (same i).1 ∙ e)

stepped_down-use :
    (k : Kernel) (i : ℕ)
    → (is_free (stepped_down k i).env_status ≡ is_free (k.envs i).env_status)
      × ((stepped_down k i).env_pgdir ≡ (k.envs i).env_pgdir)
stepped_down-use k i = (ground arith, ground arith)

pub Ran-SameUse :
    (k : Kernel) (e pgdir : ℕ) (s : Stop)
    → is_free (k.envs e).env_status ≡ false
    → Ran k e pgdir s
    → SameUse k s.kernel
Ran-SameUse k e pgdir s up ran i = elim (Bool-cases (i == e)) [
  | inl here ↦ rw ((==_iff i e).0 here, ran.chosen) (sym up, refl)
  | inr away ↦ rw (ran.others i (ground arith)) (stepped_down-use k i)
]

aged-SameUse : (k : Kernel) (j : ℕ) → SameUse k (aged k j)
aged-SameUse k j i = rw (age_all-aged_env j k.envs i) (ground arith, ground arith)

count-SameUse : (k : Kernel) → SameUse k (count_call k)
unfolding count_call
count-SameUse k j = (refl, refl)

NoneReady-SameUse : (k : Kernel) (s : Stop) → NoneReady k s → SameUse k s.kernel
NoneReady-SameUse k s (goes_on c pgdir e on ran) =
    Ran-SameUse k c pgdir s (running-not-free (k.envs c) on) ran
NoneReady-SameUse k s (halts off e) = λ i. elim (sched_halt-cases (count_call k)) [
  | inl (_, idle) ↦ rw (e, idle.envs) (count-SameUse k i)
  | inr (_, _, same) ↦ rw (e, same) (count-SameUse k i)
]

aged-Ran-SameUse :
    (k : Kernel) (j pgdir : ℕ) (s : Stop)
    → is_free (k.envs j).env_status ≡ false
    → Ran (aged k j) j pgdir s
    → SameUse k s.kernel
aged-Ran-SameUse k j pgdir s up ran i =
    let before = aged-SameUse k j i in
    let after = Ran-SameUse (aged k j) j pgdir s ((aged-SameUse k j j).0 ∙ up) ran i in
    (after.0 ∙ before.0, after.1 ∙ before.1)

-- Whatever sched_yield decides, exactly the environments that were in use still are, with the
-- page directories they had.
pub sched_yield-SameUse :
    (p : Policy) (k : Kernel) → HasPgdir k → SameUse k (sched_yield p k).kernel
sched_yield-SameUse round_robin k d = go (yield_round_robin-RrDecision k d)
  where
    go : RrDecision k (sched_yield round_robin k) → SameUse k (sched_yield round_robin k).kernel
    go (picks j pgdir first ran) =
        Ran-SameUse k j pgdir _ (runnable-not-free (k.envs j) first.ready) ran
    go (nobody _ rest) = NoneReady-SameUse k _ rest
sched_yield-SameUse priorities k d = go (yield_priorities-PriorityDecision k d)
  where
    go : PriorityDecision k (sched_yield priorities k) → SameUse k (sched_yield priorities k).kernel
    go (Priority.picks j prio pgdir leads _ ran) =
        aged-Ran-SameUse k j pgdir _ (runnable-not-free (k.envs j) leads.ready) ran
    go (keeps c pgdir now _ ran) =
        aged-Ran-SameUse k c pgdir _ (running-not-free (k.envs c) now.1) ran
    go (nobody_left _ rest) = NoneReady-SameUse k _ rest
