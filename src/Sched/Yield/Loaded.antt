-- ===== src/Sched/Yield/Loaded.antt =====
-- Every environment in use keeps its page directory through a scheduling decision.
use sched_v2_solution.Base.{ℕ, ◌≡◌, sym, ◌∙◌, inl, inr, false, arith, ◌==◌, Bool-cases, ==_iff}
use sched_v2_solution.Kernel.{Kernel, Stop}
use sched_v2_solution.Kernel.Pcb.{is_free}
use sched_v2_solution.Sched.Run.Switch.{Ran, stepped_down}
use sched_v2_solution.Sched.Yield.Aging.{age_all-aged_env}
use sched_v2_solution.Sched.Yield.Decide.{HasPgdir}
use sched_v2_solution.Sched.Yield.Priority.{aged}

stepped_down-loaded :
    (k : Kernel) (i : ℕ)
    → ((stepped_down k i).env_pgdir ≡ (k.envs i).env_pgdir)
      × (is_free (stepped_down k i).env_status ≡ is_free (k.envs i).env_status)
stepped_down-loaded k i = (ground arith, ground arith)

pub Ran-HasPgdir :
    (k : Kernel) (e pgdir : ℕ) (s : Stop)
    → HasPgdir k
    → is_free (k.envs e).env_status ≡ false
    → Ran k e pgdir s
    → HasPgdir s.kernel
Ran-HasPgdir k e pgdir s all used ran i h = elim (Bool-cases (i == e)) [
  | inl same ↦
      let is_e : i ≡ e = (==_iff i e).0 same in
      let (p, q) = all e used in (p, rw (is_e, ran.chosen) q)
  | inr other ↦
      let at_i : s.kernel.envs i ≡ stepped_down k i = ran.others i (ground arith) in
      let used_i : is_free (stepped_down k i).env_status ≡ false = rw at_i at h in
      let (p, q) = all i (sym (stepped_down-loaded k i).1 ∙ used_i) in
      (p, rw at_i ((stepped_down-loaded k i).0 ∙ q))
]

aged-loaded :
    (k : Kernel) (j i : ℕ)
    → (((aged k j).envs i).env_pgdir ≡ (k.envs i).env_pgdir)
      × (is_free ((aged k j).envs i).env_status ≡ is_free (k.envs i).env_status)
aged-loaded k j i = (
  rw (age_all-aged_env j k.envs i) (ground arith),
  rw (age_all-aged_env j k.envs i) (ground arith),
)

pub aged-HasPgdir : (k : Kernel) (j : ℕ) → HasPgdir k → HasPgdir (aged k j)
aged-HasPgdir k j all i h =
    let (p, q) = all i (sym (aged-loaded k j i).1 ∙ h) in (p, (aged-loaded k j i).0 ∙ q)
