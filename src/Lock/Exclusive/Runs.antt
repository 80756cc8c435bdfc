-- ===== src/Lock/Exclusive/Runs.antt =====
-- Whatever the CPUs do with the lock, in any order, at most one has it.
use sched_v2_solution.Base.{
  ℕ, ◌≡◌, refl, sym, ap, inl, inr, ◌∙◌, true, false, Option, none, some, List, [], ◌∷◌, arith, ◌==◌,
  Bool-cases, none≢some, update,
}
use sched_v2_solution.Lock.Place.{
  outside, asking, spinning, recording, tracing, inside, checking, clearing, leaving, releasing,
  already_holding, not_holding,
}
use sched_v2_solution.Lock.Exclusive.{
  Exclusive, owns, recorded, panicked, true≢false, move-Exclusive,
}
use sched_v2_solution.Lock.Exclusive.Word.{shut, opened, untouched}
use sched_v2_solution.Lock.Exclusive.Owner.{as_before, set, cleared}
use sched_v2_solution.Lock.{
  Spinlock, spin_initlock, Place, Machine, Turn, is_cpu, access, take_turn, run, boot,
  get_caller_pcs,
}

is_cpu-some : (i : ℕ) (o : Option ℕ) → is_cpu i o ≡ true → o ≡ some i
is_cpu-some i none e = absurd (ground (arith, e))
is_cpu-some i (some j) e = let same : j ≡ i = ground arith in ap some same

is_cpu_self : (i : ℕ) (o : Option ℕ) → o ≡ some i → is_cpu i o ≡ true
is_cpu_self i o e = rw e (ground arith)

-- A step that leaves the word of the lock and its CPU alone and does not change what the CPU has.
stay-Exclusive :
    (m : Machine) (i : ℕ) (p q : Place) (lk : Spinlock)
    → m.at i ≡ p
    → owns q ≡ owns p
    → recorded q ≡ recorded p
    → panicked q ≡ false
    → lk.locked ≡ m.lock.locked
    → lk.cpu ≡ m.lock.cpu
    → Exclusive m
    → Exclusive (record { lock = lk; at = update m.at i q })
stay-Exclusive m i p q lk at own rec calm word cpu x =
    let same : owns q ≡ owns (m.at i) = own ∙ sym (ap owns at) in
    move-Exclusive m i q lk x (λ e. inl (sym same ∙ e)) (untouched word same)
      (as_before cpu (rec ∙ sym (ap recorded at))) calm

-- An xchg that finds the lock open.
take-Exclusive :
    (i : ℕ) (m : Machine)
    → m.at i ≡ spinning
    → m.lock.locked == 0 ≡ true
    → Exclusive m
    → Exclusive (record { lock = record m.lock { locked = 1 }; at = update m.at i recording })
unfolding owns recorded panicked
take-Exclusive i m e free x =
    let zeroed : m.lock.locked ≡ 0 = ground arith in
    move-Exclusive m i recording (record m.lock { locked = 1 }) x (λ own. inr zeroed)
      (shut (λ bad. absurd (omega (arith, bad)))) (as_before refl (sym (ap recorded e))) refl

-- An xchg that finds it taken.
spin-Exclusive :
    (m : Machine) → Exclusive m → Exclusive (record m { lock = record m.lock { locked = 1 } })
spin-Exclusive m x = record {
  alone = x.alone;
  closed = λ i own bad. absurd (omega (arith, bad));
  named = x.named;
  names = x.names;
  calm = x.calm;
}

access-Exclusive :
    (u : Turn) (p : Place) (m : Machine)
    → m.at u.cpu_id ≡ p
    → Exclusive m
    → Exclusive (access u p m)
unfolding access owns recorded panicked
access-Exclusive u outside m e x = elim (Bool-cases (m.lock.locked == 0)) [
  | inl free ↦
      rw free (stay-Exclusive m u.cpu_id outside spinning m.lock e refl refl refl refl refl x)
  | inr taken ↦
      rw taken (stay-Exclusive m u.cpu_id outside asking m.lock e refl refl refl refl refl x)
]
access-Exclusive u asking m e x = elim (Bool-cases (is_cpu u.cpu_id m.lock.cpu)) [
  | inl mine ↦
      absurd (true≢false (x.named u.cpu_id (is_cpu-some u.cpu_id m.lock.cpu mine)) (ap recorded e))
  | inr other ↦
      rw other (stay-Exclusive m u.cpu_id asking spinning m.lock e refl refl refl refl refl x)
]
access-Exclusive u spinning m e x = elim (Bool-cases (m.lock.locked == 0)) [
  | inl free ↦ rw free (take-Exclusive u.cpu_id m e free x)
  | inr taken ↦ rw taken (spin-Exclusive m x)
]
access-Exclusive u recording m e x =
    move-Exclusive m u.cpu_id tracing (record m.lock { cpu = some u.cpu_id }) x
      (λ own. inl (ap owns e)) (untouched refl (sym (ap owns e))) (set refl refl (ap owns e)) refl
access-Exclusive u tracing m e x =
    stay-Exclusive m u.cpu_id tracing inside
      (record m.lock { pcs = get_caller_pcs u.words u.ebp m.lock.pcs }) e refl refl refl refl refl x
access-Exclusive u inside m e x = elim (Bool-cases (m.lock.locked == 0)) [
  | inl free ↦
      let zeroed : m.lock.locked ≡ 0 = ground arith in absurd (x.closed u.cpu_id (ap owns e) zeroed)
  | inr taken ↦
      rw taken (stay-Exclusive m u.cpu_id inside checking m.lock e refl refl refl refl refl x)
]
access-Exclusive u checking m e x =
    let mine : is_cpu u.cpu_id m.lock.cpu ≡ true =
      is_cpu_self u.cpu_id m.lock.cpu (x.names u.cpu_id (ap recorded e)) in
    rw mine (stay-Exclusive m u.cpu_id checking clearing m.lock e refl refl refl refl refl x)
access-Exclusive u clearing m e x =
    stay-Exclusive m u.cpu_id clearing leaving (record m.lock { pcs = update m.lock.pcs 0 0 }) e
      refl refl refl refl refl x
access-Exclusive u leaving m e x =
    move-Exclusive m u.cpu_id releasing (record m.lock { cpu = none }) x (λ own. inl (ap owns e))
      (untouched refl (sym (ap owns e))) (cleared refl refl (ap recorded e)) refl
access-Exclusive u releasing m e x =
    move-Exclusive m u.cpu_id outside (record m.lock { locked = 0 }) x
      (λ bad. absurd (true≢false bad refl)) (opened refl (ap owns e))
      (as_before refl (sym (ap recorded e))) refl
access-Exclusive u already_holding m e x = x
access-Exclusive u not_holding m e x = x

run-Exclusive : (us : List Turn) (m : Machine) → Exclusive m → Exclusive (run us m)
unfolding run take_turn
run-Exclusive [] m x = x
run-Exclusive (u ∷ us) m x =
    run-Exclusive us (access u (m.at u.cpu_id) m) (access-Exclusive u (m.at u.cpu_id) m refl x)

-- From an initialised lock with every CPU outside, after any turns of the CPUs in any order, at
-- most one CPU is between its successful xchg and the release of the lock, the lock is locked
-- then, it names exactly the CPU that has recorded itself, and no CPU has reached a panic of the
-- lock.
pub boot-Exclusive : (lk : Spinlock) (us : List Turn) → Exclusive (run us (boot lk))
unfolding spin_initlock owns recorded panicked
boot-Exclusive lk us = run-Exclusive us (boot lk) (record {
  alone = λ i j bad. absurd (true≢false bad refl);
  closed = λ i bad. absurd (true≢false bad refl);
  named = λ i bad. absurd (none≢some bad);
  names = λ i bad. absurd (true≢false bad refl);
  calm = λ i. refl;
})
