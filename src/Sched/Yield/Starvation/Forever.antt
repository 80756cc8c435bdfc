-- ===== src/Sched/Yield/Starvation/Forever.antt =====
-- The turns of the six environments go on for ever.
use sched_v2_solution.Base.{
  ℕ, zero, suc, ◌+◌, ◌-◌, ◌%◌, ◌<◌, ◌≡◌, ◌≢◌, refl, sym, ◌∙◌, inl, inr, false, some, arith, ◌==◌,
  Bool-cases, ==_iff, ==_self,
}
use sched_v2_solution.Kernel.{Kernel, Stop, to_user, priorities, curenv}
use sched_v2_solution.Kernel.Pcb.{nenv, runnable, running, word, is_runnable, env_priority_max}
use sched_v2_solution.Sched.Run.Switch.{Ran, stepped_down-off}
use sched_v2_solution.Sched.Yield.{sched_yield}
use sched_v2_solution.Sched.Yield.Aging.{age_all-aged_env}
use sched_v2_solution.Sched.Yield.Loaded.{Ran-HasPgdir, aged-HasPgdir}
use sched_v2_solution.Sched.Yield.Priority.{aged, yield_priorities-PriorityDecision}
use sched_v2_solution.Sched.Yield.Starvation.{Rotating, next_turn, next-lt, next-ne, decides}

-- The process table after the switch, one kind of environment at a time.
module _ (k : Kernel) (c : ℕ) (r : Rotating k c) (pgdir : ℕ) (s : Stop)
    (ran : Ran (aged k (next_turn c)) (next_turn c) pgdir s) where
  -- One that keeps waiting.
  waits-on :
      (i : ℕ)
      → i < nenv
      → i ≢ c
      → i ≢ next_turn c
      → (k.envs i).env_status ≡ runnable
      → s.kernel.envs i
        ≡ record (k.envs i) { env_wait_ticks = word ((k.envs i).env_wait_ticks + 1) }
  waits-on i lt ne ne' ready =
      ran.others i ne'
      ∙ stepped_down-off (aged k (next_turn c)) i (λ mine. ne (ground (arith, r.current)))
      ∙ age_all-aged_env (next_turn c) k.envs i
      ∙ ground arith

  -- One that is not ready.
  stays-off :
      (i : ℕ)
      → i ≢ c
      → i ≢ next_turn c
      → is_runnable (k.envs i).env_status ≡ false
      → s.kernel.envs i ≡ k.envs i
  stays-off i ne ne' off =
      ran.others i ne'
      ∙ stepped_down-off (aged k (next_turn c)) i (λ mine. ne (ground (arith, r.current)))
      ∙ age_all-aged_env (next_turn c) k.envs i
      ∙ ground arith

  aged-current : (aged k (next_turn c)).envs c ≡ k.envs c
  aged-current =
      age_all-aged_env (next_turn c) k.envs c
      ∙ (let ne : next_turn c ≢ c = next-ne k c r in
          let busy : (k.envs c).env_status ≡ running = r.busy in ground arith)

  -- The one that was on the CPU.
  gives-way : s.kernel.envs c ≡ record (k.envs c) { env_status = runnable }
  gives-way =
      ran.others c (λ e. next-ne k c r (sym e))
      ∙ (let cur : curenv k ≡ some c = r.current in
          let busy : (k.envs c).env_status ≡ running = r.busy in
          let same : (aged k (next_turn c)).envs c ≡ k.envs c = aged-current in
          rw same (ground arith))

  takes-over :
      ((s.kernel.envs (next_turn c)).env_status ≡ running)
      × ((s.kernel.envs (next_turn c)).env_wait_ticks ≡ 0)
      × ((s.kernel.envs (next_turn c)).env_priority ≡ (k.envs (next_turn c)).env_priority)
  takes-over =
      rw (ran.chosen, age_all-aged_env (next_turn c) k.envs (next_turn c), ==_self (next_turn c))
        (refl, refl, refl)

  queue-next : (i : ℕ) → i < 6 → i ≢ next_turn c → (s.kernel.envs i).env_status ≡ runnable
  queue-next i lt ne = elim (Bool-cases (i == c)) [
    | inl same ↦ let is_c : i ≡ c = (==_iff i c).0 same in rw (is_c, gives-way)
    | inr other ↦
        let ready : (k.envs i).env_status ≡ runnable = r.queue i lt (ground arith) in
        rw (waits-on i (omega arith) (ground arith) ne ready) ready
  ]

  top-next : (i : ℕ) → i < 6 → (s.kernel.envs i).env_priority ≡ env_priority_max
  top-next i lt = elim (Bool-cases (i == c)) [
    | inl same ↦ let is_c : i ≡ c = (==_iff i c).0 same in rw (is_c, gives-way) (r.top c r.slot)
    | inr other ↦ elim (Bool-cases (i == next_turn c)) [
      | inl same ↦
          let is_n : i ≡ next_turn c = (==_iff i (next_turn c)).0 same in
          rw is_n (takes-over.2 ∙ r.top (next_turn c) (next-lt k c r))
      | inr ne ↦
          rw (waits-on i (omega arith) (ground arith) (ground arith) (r.queue i lt (ground arith)))
            (r.top i lt)
    ]
  ]

  turn-next :
      (i : ℕ)
      → i < 6
      → i ≢ next_turn c
      → (s.kernel.envs i).env_wait_ticks ≡ (next_turn c + 5 - i) % 6
  turn-next i lt ne = elim (Bool-cases (i == c)) [
    | inl same ↦
        let is_c : i ≡ c = (==_iff i c).0 same in
        let h : c < 6 = r.slot in
        let fresh : (s.kernel.envs c).env_wait_ticks ≡ 0 = rw gives-way r.fresh in
        let zero_left : (next_turn c + 5 - c) % 6 ≡ 0 = omega arith in
        rw is_c (fresh ∙ sym zero_left)
    | inr other ↦
        let ne_c : i ≢ c = ground arith in
        let h : c < 6 = r.slot in
        let before : (k.envs i).env_wait_ticks ≡ (c + 5 - i) % 6 = r.turn i lt ne_c in
        rw (waits-on i (omega arith) ne_c ne (r.queue i lt ne_c)) (omega arith)
  ]

  Rotating-next : Rotating s.kernel (next_turn c)
  Rotating-next =
      let h : c < 6 = r.slot in
      let n : next_turn c < 6 = next-lt k c r in
      record {
        slot = n;
        current = ran.current;
        busy = takes-over.0;
        queue = queue-next;
        top = top-next;
        turn = turn-next;
        fresh = takes-over.1;
        low = rw (waits-on 6 (omega arith) (omega arith) (omega arith) r.low) r.low;
        bottom = rw (waits-on 6 (omega arith) (omega arith) (omega arith) r.low) r.bottom;
        others = λ i lt hi.
            rw (stays-off i (omega arith) (omega arith) (r.others i lt hi)) (r.others i lt hi);
        pgdirs =
            Ran-HasPgdir (aged k (next_turn c)) (next_turn c) pgdir s
              (aged-HasPgdir k (next_turn c) r.pgdirs)
              (rw (
                age_all-aged_env (next_turn c) k.envs (next_turn c),
                ==_self (next_turn c),
                r.queue (next_turn c) n (next-ne k c r),
              ))
              ran;
      }

-- One decision moves the turn on.
rotates :
    (k : Kernel) (c : ℕ)
    → Rotating k c
    → let s = sched_yield priorities k in
      (s.exit ≡ to_user (next_turn c)) × Rotating s.kernel (next_turn c)
rotates k c r =
    let (pgdir, ran) = decides k c r _ (yield_priorities-PriorityDecision k r.pgdirs) in
    (ran.exit, Rotating-next k c r pgdir _ ran)

-- The kernel after n decisions with nothing in between but the return to the kernel.
unfoldable pub decisions : ℕ → Kernel → Kernel
decisions zero k = k
decisions (suc n) k = decisions n (sched_yield priorities k).kernel

-- Six environments at the maximum priority that take turns on the CPU starve an environment of
-- priority 0 for ever: no decision, after any number of decisions and whatever its wait, runs it.
pub priority-starves :
    (n : ℕ) (k : Kernel) (c : ℕ)
    → Rotating k c
    → (sched_yield priorities (decisions n k)).exit ≢ to_user 6
unfolding decisions
priority-starves zero k c r runs =
    let next : to_user (next_turn c) ≡ to_user 6 = sym (rotates k c r).0 ∙ runs in
    let is_low : next_turn c ≡ 6 = cc in omega arith
priority-starves (suc n) k c r runs =
    priority-starves n (sched_yield priorities k).kernel (next_turn c) (rotates k c r).1 runs
