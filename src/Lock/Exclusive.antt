-- ===== src/Lock/Exclusive.antt =====
-- Mutual exclusion on the lock, and that a step of a CPU keeps it.
pub mod Runs
use sched_v2_solution.Base.{
  ℕ, ◌≡◌, ◌≢◌, refl, sym, ◌∙◌, ap, subst, ◌⊎◌, inl, inr, Bool, true, false, Option, none, some,
  List, [], ◌∷◌, arith, ◌==◌, if◌then◌else◌, Bool-cases, update, update_self, update_ne,
  some-injective, none≢some,
}
use sched_v2_solution.Lock.Place.{
  outside, asking, spinning, recording, tracing, inside, checking, clearing, leaving, releasing,
  already_holding, not_holding,
}
use sched_v2_solution.Lock.{
  Spinlock, spin_initlock, Place, Machine, Turn, go, is_cpu, access, take_turn, run, boot,
}

-- From the successful xchg to the one that releases the lock.
pub owns : Place → Bool
owns outside = false
owns asking = false
owns spinning = false
owns recording = true
owns tracing = true
owns inside = true
owns checking = true
owns clearing = true
owns leaving = true
owns releasing = true
owns already_holding = false
owns not_holding = false

-- From the record of the owner to its removal.
pub recorded : Place → Bool
recorded outside = false
recorded asking = false
recorded spinning = false
recorded recording = false
recorded tracing = true
recorded inside = true
recorded checking = true
recorded clearing = true
recorded leaving = true
recorded releasing = false
recorded already_holding = false
recorded not_holding = false

pub panicked : Place → Bool
panicked already_holding = true
panicked not_holding = true
panicked p = false

-- At most one CPU owns the lock, which is then locked; the lock names a CPU exactly while the CPU
-- has recorded itself; and no CPU has panicked.
pub record Exclusive (m : Machine) : Type 0 where
  pub alone : (i j : ℕ) → owns (m.at i) ≡ true → owns (m.at j) ≡ true → i ≡ j
  pub closed : (i : ℕ) → owns (m.at i) ≡ true → m.lock.locked ≢ 0
  pub named : (i : ℕ) → m.lock.cpu ≡ some i → recorded (m.at i) ≡ true
  pub names : (i : ℕ) → recorded (m.at i) ≡ true → m.lock.cpu ≡ some i
  pub calm : (i : ℕ) → panicked (m.at i) ≡ false

recorded-owns : (p : Place) → recorded p ≡ true → owns p ≡ true
unfolding recorded owns
recorded-owns outside e = e
recorded-owns asking e = e
recorded-owns spinning e = e
recorded-owns recording e = refl
recorded-owns tracing e = e
recorded-owns inside e = e
recorded-owns checking e = e
recorded-owns clearing e = e
recorded-owns leaving e = e
recorded-owns releasing e = refl
recorded-owns already_holding e = e
recorded-owns not_holding e = e

true≢false : {b : Bool} → b ≡ true → b ≢ false
true≢false e e' = absurd (ground (arith, sym e ∙ e'))

-- What holds of CPU i at q and of every other CPU where it was holds of all after a move.
after_move :
    (P : ℕ → Place → Type 0) (at : ℕ → Place) (i : ℕ) (q : Place)
    → P i q
    → ((j : ℕ) → i ≢ j → P j (at j))
    → (j : ℕ) → P j (update at i q j)
after_move P at i q here there j = elim (Bool-cases (i == j)) [
  | inl e ↦
      let same : i ≡ j = ground arith in
      subst (λ j. P j (update at i q j)) same (subst (P i) (sym (update_self at i q)) here)
  | inr e ↦
      let apart : i ≢ j = ground arith in
      subst (P j) (sym (update_ne at i j q apart)) (there j apart)
]

-- What a step may do to the word of the lock.
data Word (m : Machine) (i : ℕ) (q : Place) (lk : Spinlock) : Type 0 where
  shut : lk.locked ≢ 0 → Word m i q lk
  opened : owns q ≡ false → owns (m.at i) ≡ true → Word m i q lk
  untouched : lk.locked ≡ m.lock.locked → owns q ≡ owns (m.at i) → Word m i q lk

-- What a step may do to the CPU that the lock names.
data Owner (m : Machine) (i : ℕ) (q : Place) (lk : Spinlock) : Type 0 where
  as_before : lk.cpu ≡ m.lock.cpu → recorded q ≡ recorded (m.at i) → Owner m i q lk
  set : lk.cpu ≡ some i → recorded q ≡ true → owns (m.at i) ≡ true → Owner m i q lk
  cleared : lk.cpu ≡ none → recorded q ≡ false → recorded (m.at i) ≡ true → Owner m i q lk

module _ (m : Machine) (i : ℕ) (q : Place) (lk : Spinlock) (x : Exclusive m) where
  move-alone :
      (owns q ≡ true → (owns (m.at i) ≡ true) ⊎ (m.lock.locked ≡ 0))
      → (j k : ℕ) → owns (update m.at i q j) ≡ true
      → owns (update m.at i q k) ≡ true
      → j ≡ k
  move-alone take =
      after_move (λ j p. (k : ℕ) → owns p ≡ true → owns (update m.at i q k) ≡ true → j ≡ k) m.at i q
        (after_move (λ k p. owns q ≡ true → owns p ≡ true → i ≡ k) m.at i q (λ e e'. refl)
          (λ k apart e e'. others k e e'))
        (λ j apart.
          after_move (λ k p. owns (m.at j) ≡ true → owns p ≡ true → j ≡ k) m.at i q
            (λ e e'. sym (others j e' e)) (λ k apart' e e'. x.alone j k e e'))
    where
      others : (k : ℕ) → owns q ≡ true → owns (m.at k) ≡ true → i ≡ k
      others k e e' = elim (take e) [
        | inl own ↦ x.alone i k own e'
        | inr free ↦ absurd (x.closed k e' free)
      ]

  move-closed : Word m i q lk → (j : ℕ) → owns (update m.at i q j) ≡ true → lk.locked ≢ 0
  move-closed (shut h) = λ j e. h
  move-closed (opened h own) =
      after_move (λ j p. owns p ≡ true → lk.locked ≢ 0) m.at i q (λ e. absurd (true≢false e h))
        (λ j apart e. absurd (apart (x.alone i j own e)))
  move-closed (untouched h own) =
      after_move (λ j p. owns p ≡ true → lk.locked ≢ 0) m.at i q
        (λ e zero. x.closed i (sym own ∙ e) (sym h ∙ zero))
        (λ j apart e zero. x.closed j e (sym h ∙ zero))

  move-named : Owner m i q lk → (j : ℕ) → lk.cpu ≡ some j → recorded (update m.at i q j) ≡ true
  move-named (as_before h r) =
      after_move (λ j p. lk.cpu ≡ some j → recorded p ≡ true) m.at i q
        (λ e. r ∙ x.named i (sym h ∙ e)) (λ j apart e. x.named j (sym h ∙ e))
  move-named (set h r own) =
      after_move (λ j p. lk.cpu ≡ some j → recorded p ≡ true) m.at i q (λ e. r)
        (λ j apart e. absurd (apart (some-injective (sym h ∙ e))))
  move-named (cleared h r was) = λ j e. absurd (none≢some (sym h ∙ e))

  move-names : Owner m i q lk → (j : ℕ) → recorded (update m.at i q j) ≡ true → lk.cpu ≡ some j
  move-names (as_before h r) =
      after_move (λ j p. recorded p ≡ true → lk.cpu ≡ some j) m.at i q
        (λ e. h ∙ x.names i (sym r ∙ e)) (λ j apart e. h ∙ x.names j e)
  move-names (set h r own) =
      after_move (λ j p. recorded p ≡ true → lk.cpu ≡ some j) m.at i q (λ e. h)
        (λ j apart e. absurd (apart (x.alone i j own (recorded-owns (m.at j) e))))
  move-names (cleared h r was) =
      after_move (λ j p. recorded p ≡ true → lk.cpu ≡ some j) m.at i q
        (λ e. absurd (true≢false e r))
        (λ j apart e. absurd (apart (some-injective (sym (x.names i was) ∙ x.names j e))))

  move-Exclusive :
      (owns q ≡ true → (owns (m.at i) ≡ true) ⊎ (m.lock.locked ≡ 0))
      → Word m i q lk
      → Owner m i q lk
      → panicked q ≡ false
      → Exclusive (record { lock = lk; at = update m.at i q })
  move-Exclusive take word owner calm = record {
    alone = move-alone take;
    closed = move-closed word;
    named = move-named owner;
    names = move-names owner;
    calm = after_move (λ j p. panicked p ≡ false) m.at i q calm (λ j apart. x.calm j);
  }
