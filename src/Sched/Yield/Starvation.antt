-- ===== src/Sched/Yield/Starvation.antt =====
-- Six busy environments at the maximum priority starve one at the minimum priority for good: each
-- of the six waits four decisions for its turn, which is worth a point that the bonus of the
-- starving one, capped at ENV_PRIORITY_MAX, never reaches.
pub mod Forever
use sched_v2_solution.Base.{
  ℕ, zero, suc, ◌+◌, ◌-◌, ◌%◌, ◌/◌, ◌≤◌, ◌<◌, ◌≡◌, ◌≢◌, refl, sym, ap, subst, ltb, ◌∙◌, inl, inr,
  true, false, some, arith, ◌==◌, Bool-cases, ==_iff, ==_self,
}
use sched_v2_solution.Kernel.{Kernel, Stop, to_user, priorities, curenv}
use sched_v2_solution.Kernel.Pcb.{
  Env, nenv, Status, runnable, running, word, is_free, is_runnable, is_running, env_priority_max,
}
use sched_v2_solution.Sched.Run.Switch.{Ran, stepped_down, stepped_down-off}
use sched_v2_solution.Sched.Scan.{sched_effective_priority}
use sched_v2_solution.Sched.Scan.Highest.{Leads}
use sched_v2_solution.Sched.Yield.{age_all, sched_yield}
use sched_v2_solution.Sched.Yield.Aging.{aged_env, age_all-aged_env}
use sched_v2_solution.Sched.Yield.Decide.{HasPgdir}
use sched_v2_solution.Sched.Yield.Loaded.{Ran-HasPgdir, aged-HasPgdir}
use sched_v2_solution.Sched.Yield.Waiting.{Leads-slot, Leads-below, effective_bounds}
use sched_v2_solution.Sched.Yield.Priority.{
  PriorityDecision, picks, keeps, nobody_left, aged, eff, yield_priorities-PriorityDecision,
}

-- Slots 0 to 5 take turns, c is on the CPU, and the one behind it has waited longest; slot 6 waits
-- with priority 0; nobody else is ready.
pub record Rotating (k : Kernel) (c : ℕ) : Type 0 where
  pub slot : c < 6
  pub current : curenv k ≡ some c
  pub busy : (k.envs c).env_status ≡ running
  pub queue : (i : ℕ) → i < 6 → i ≢ c → (k.envs i).env_status ≡ runnable
  pub top : (i : ℕ) → i < 6 → (k.envs i).env_priority ≡ env_priority_max
  pub turn : (i : ℕ) → i < 6 → i ≢ c → (k.envs i).env_wait_ticks ≡ (c + 5 - i) % 6
  pub fresh : (k.envs c).env_wait_ticks ≡ 0
  pub low : (k.envs 6).env_status ≡ runnable
  pub bottom : (k.envs 6).env_priority ≡ 0
  pub others : (i : ℕ) → i < nenv → 6 < i → is_runnable (k.envs i).env_status ≡ false
  pub pgdirs : HasPgdir k

abbrev pub next_turn : ℕ → ℕ
next_turn c = (c + 1) % 6

waited-eff :
    (e : Env) (w : ℕ)
    → e.env_priority ≡ env_priority_max
    → e.env_wait_ticks ≡ w
    → w < 5
    → sched_effective_priority e ≡ env_priority_max + w / 4
unfolding sched_effective_priority
waited-eff e w p q h = ground arith

module _ (k : Kernel) (c : ℕ) (r : Rotating k c) where
  pub next-lt : next_turn c < 6
  next-lt = let h : c < 6 = r.slot in omega arith

  pub next-ne : next_turn c ≢ c
  next-ne = let h : c < 6 = r.slot in omega arith

  -- The effective priority of the oldest of the six, and of the others.
  eff-next : eff k (next_turn c) ≡ 16
  eff-next =
      let h : c < 6 = r.slot in
      waited-eff (k.envs (next_turn c)) 4 (r.top (next_turn c) next-lt)
        (r.turn (next_turn c) next-lt next-ne ∙ omega arith) (omega arith)

  eff-queue : (i : ℕ) → i < 6 → i ≢ c → i ≢ next_turn c → eff k i ≡ 15
  eff-queue i h ne ne' =
      let lt : c < 6 = r.slot in
      waited-eff (k.envs i) ((c + 5 - i) % 6) (r.top i h) (r.turn i h ne) (omega arith)
      ∙ omega arith

  eff-current : eff k c ≡ 15
  eff-current = waited-eff (k.envs c) 0 (r.top c r.slot) r.fresh (omega arith)

  eff-low : eff k 6 ≤ 15
  eff-low =
      let p : (k.envs 6).env_priority ≡ 0 = r.bottom in
      let b : eff k 6 ≤ (k.envs 6).env_priority + env_priority_max =
        (effective_bounds (k.envs 6) (omega arith)).1 in
      omega arith

  -- The only possible outcome: the oldest of the six.
  pub decides :
      (s : Stop)
      → PriorityDecision k s
      → (pgdir : ℕ) × Ran (aged k (next_turn c)) (next_turn c) pgdir s
  decides s (picks i prio pgdir leads _ ran) = elim (Bool-cases (i == next_turn c)) [
    | inl same ↦
        let is_next : i ≡ next_turn c = (==_iff i (next_turn c)).0 same in
        (pgdir, subst (λ n. Ran (aged k n) n pgdir s) is_next ran)
    | inr other ↦
        let best : eff k (next_turn c) ≤ prio =
          Leads-slot k _ i prio (next_turn c) leads (omega (arith, next-lt))
            (rw (r.queue (next_turn c) next-lt next-ne)) in
        absurd (
          not-ahead i (ground arith) leads.ready (Leads-below k _ i prio leads)
            (omega (arith, eff-next, leads.effective)))
  ]
    where
      not-ahead :
          (i : ℕ)
          → i ≢ next_turn c
          → is_runnable (k.envs i).env_status ≡ true
          → i < nenv
          → 16 ≤ eff k i
          → ⊥
      not-ahead i ne on lt ahead = elim (Bool-cases (i == c)) [
        | inl same ↦
            let is_c : i ≡ c = (==_iff i c).0 same in
            let idle : (k.envs i).env_status ≡ running = rw is_c r.busy in
            let off : is_runnable (k.envs i).env_status ≡ false = rw idle in cc
        | inr other ↦ elim (Bool-cases (ltb i 6)) [
          | inl six ↦ omega (arith, eff-queue i (ground arith) (ground arith) ne)
          | inr out ↦ elim (Bool-cases (i == 6)) [
            | inl is_low ↦
                let at_low : i ≡ 6 = (==_iff i 6).0 is_low in
                let low : 16 ≤ eff k 6 = rw at_low at ahead in omega (arith, eff-low)
            | inr high ↦
                let off : is_runnable (k.envs i).env_status ≡ false =
                  r.others i lt (ground arith) in
                cc
          ]
        ]
      ]
  decides s (keeps d pgdir now lower _) =
      let same : some d ≡ some c = sym now.0 ∙ r.current in
      let is_c : d ≡ c = cc in
      let ahead : eff k (next_turn c) < eff k d =
        lower (next_turn c) (omega (arith, next-lt)) (rw (r.queue (next_turn c) next-lt next-ne)) in
      let ahead' : eff k (next_turn c) < eff k c = rw is_c at ahead in
      absurd (omega (arith, eff-next, eff-current))
  decides s (nobody_left idle _) =
      let off : is_runnable (k.envs (next_turn c)).env_status ≡ false =
        idle (next_turn c) (omega (arith, next-lt)) in
      let on : is_runnable (k.envs (next_turn c)).env_status ≡ true =
        rw (r.queue (next_turn c) next-lt next-ne) in
      absurd (cc)
