-- ===== src/Devices/Queue.antt =====
-- The input buffer of the console (cons, cons_intr and the end of cons_getc in console.c).
pub mod Drive
pub mod Fifo
use sched_v2_solution.Base.{
  ℕ, zero, suc, ◌+◌, ◌%◌, Option, none, some, List, [], ◌∷◌, ◌==◌, if◌then◌else◌, update,
}
use sched_v2_solution.Devices.Ports.{Io}

abbrev pub consbufsize : ℕ
consbufsize = 512

pub record Cons : Type 0 where
  pub buf : ℕ → ℕ
  pub rpos : ℕ
  pub wpos : ℕ

-- One character into the buffer, which holds bytes.
unfoldable pub store : ℕ → Cons → Cons
store c q = record q {
  buf = update q.buf q.wpos (c % 256);
  wpos = if q.wpos + 1 == consbufsize then 0 else q.wpos + 1;
}

-- cons_intr, on the values that proc returns before -1: a 0 is no character.
unfoldable pub cons_intr : List ℕ → Cons → Cons
unfolding store
cons_intr [] q = q
cons_intr (c ∷ cs) q = cons_intr cs (if c == 0 then q else store c q)

-- The next character, or 0 if none waits.
unfoldable pub take_char : Cons → ℕ × Cons
take_char q =
    if q.rpos == q.wpos
    then (0, q)
    else (q.buf q.rpos, record q { rpos = if q.rpos + 1 == consbufsize then 0 else q.rpos + 1 })

-- What the loop of cons_intr does when proc is a driver with a state of its own, in at most
-- `rounds` calls of it; none is a driver that never returns -1 (none).
unfoldable pub drive :
    {S : Type 0} → (rounds : ℕ) → (S → Io (Option ℕ × S)) → Cons → S → Io (Option (Cons × S))
unfolding store
drive zero proc q s hw t = (none, t)
drive (suc n) proc q s hw t =
    let r = proc s hw t in
    elim r.0.0 [
      | none ↦ (some (q, r.0.1), r.1)
      | some c ↦ drive n proc (if c == 0 then q else store c q) r.0.1 hw r.1
    ]
