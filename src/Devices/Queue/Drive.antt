-- ===== src/Devices/Queue/Drive.antt =====
-- The loop of cons_intr over a driver is the loop over the values that the driver returns.
use sched_v2_solution.Base.{
  ℕ, zero, suc, ◌≡◌, refl, ◌∙◌, Option, none, some, List, [], ◌∷◌, ◌==◌, if◌then◌else◌,
}
use sched_v2_solution.Devices.Ports.{Io, Hardware, Trace}
use sched_v2_solution.Devices.Queue.{Cons, store, cons_intr, drive}

module _ {S : Type 0} where
  unfoldable pub prepend : ℕ → Option (List ℕ × S) × Trace → Option (List ℕ × S) × Trace
  prepend c (none, t) = (none, t)
  prepend c (some (cs, s), t) = (some (c ∷ cs, s), t)

  -- The values that the driver returns before -1, and the state that it is left in.
  unfoldable pub inputs : (rounds : ℕ) → (S → Io (Option ℕ × S)) → S → Io (Option (List ℕ × S))
  unfolding prepend
  inputs zero proc s hw t = (none, t)
  inputs (suc n) proc s hw t =
      let r = proc s hw t in
      elim r.0.0 [
        | none ↦ (some ([], r.0.1), r.1)
        | some c ↦ prepend c (inputs n proc r.0.1 hw r.1)
      ]

  -- The buffer after these values.
  unfoldable pub after : Cons → Option (List ℕ × S) × Trace → Option (Cons × S) × Trace
  unfolding cons_intr
  after q (none, t) = (none, t)
  after q (some (cs, s), t) = (some (cons_intr cs q, s), t)

  after-prepend :
      (q : Cons) (c : ℕ) (r : Option (List ℕ × S) × Trace)
      → after (if c == 0 then q else store c q) r ≡ after q (prepend c r)
  unfolding after cons_intr prepend
  after-prepend q c (none, t) = refl
  after-prepend q c (some (cs, s), t) = refl

  -- The loop of cons_intr puts into the buffer what its driver returns before -1: in any number
  -- of rounds it is cons_intr on these values.
  pub drive-inputs :
      (rounds : ℕ) (proc : S → Io (Option ℕ × S)) (q : Cons) (s : S) (hw : Hardware) (t : Trace)
      → drive rounds proc q s hw t ≡ after q (inputs rounds proc s hw t)
  unfolding drive inputs after
  drive-inputs zero proc q s hw t = refl
  drive-inputs (suc n) proc q s hw t =
      let r = proc s hw t in
      elim r.0.0
        as (λ o.
          Path (Option (Cons × S) × Trace)
            (elim o [
              | none ↦ (some (q, r.0.1), r.1)
              | some c ↦ drive n proc (if c == 0 then q else store c q) r.0.1 hw r.1
            ])
            (after q (elim o [
              | none ↦ (some ([], r.0.1), r.1)
              | some c ↦ prepend c (inputs n proc r.0.1 hw r.1)
            ]))) [
              | none ↦ refl
              | some c ↦
                  drive-inputs n proc (if c == 0 then q else store c q) r.0.1 hw r.1
                  ∙ after-prepend q c (inputs n proc r.0.1 hw r.1)
            ]
