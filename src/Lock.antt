-- ===== src/Lock.antt =====
-- The spin lock of the kernel (sched/kern/spinlock.c), at the grain of its memory accesses: one
-- step of a CPU reads or writes one field of the lock.
pub mod Exclusive
mod Tests
use sched_v2_solution.Base.{
  ℕ, zero, suc, ◌+◌, ◌||◌, Bool, true, false, Option, none, some, List, [], ◌∷◌, ltb, ◌==◌,
  if◌then◌else◌, update,
}

-- struct spinlock, but for its name: cpu is the number of the CPU it points to.
pub record Spinlock : Type 0 where
  pub locked : ℕ
  pub cpu : Option ℕ
  pub pcs : ℕ → ℕ

-- __spin_initlock leaves pcs as it was.
unfoldable pub spin_initlock : Spinlock → Spinlock
spin_initlock lk = record lk { locked = 0; cpu = none }

abbrev pub ulim : ℕ
ulim = 0xef80_0000

-- The loops of get_caller_pcs from pcs[i] on, over n more entries and the chain of frames at ebp.
unfoldable pub caller_pcs : (n i : ℕ) → (words : ℕ → ℕ) → (ebp : ℕ) → (ℕ → ℕ) → ℕ → ℕ
caller_pcs zero i words ebp pcs = pcs
caller_pcs (suc n) i words ebp pcs =
    let next = if ebp == 0 || ltb ebp ulim then 0 else words ebp in
    let pc = if ebp == 0 || ltb ebp ulim then 0 else words (ebp + 4) in
    caller_pcs n (i + 1) words next (update pcs i pc)

unfoldable pub get_caller_pcs : (words : ℕ → ℕ) → (ebp : ℕ) → (ℕ → ℕ) → ℕ → ℕ
unfolding caller_pcs
get_caller_pcs words ebp pcs = caller_pcs 10 0 words ebp pcs

-- Where a CPU is: outside; in spin_lock before the reads of holding, before xchg, and before the
-- records; inside of the critical section; in spin_unlock before the second read of holding and
-- before each of its three writes; or in the panic of a lock that is held, or is not.
pub data Place : Type 0 where
  outside asking spinning recording tracing : Place
  inside checking clearing leaving releasing : Place
  already_holding not_holding : Place

-- The lock and where each CPU is.
pub record Machine : Type 0 where
  pub lock : Spinlock
  pub at : ℕ → Place

-- What a turn of a CPU depends on: the CPU, its memory and its ebp.
pub record Turn : Type 0 where
  pub cpu_id : ℕ
  pub words : ℕ → ℕ
  pub ebp : ℕ

abbrev pub go : ℕ → Place → Machine → Machine
go i p m = record m { at = update m.at i p }

abbrev pub is_cpu : ℕ → Option ℕ → Bool
is_cpu i none = false
is_cpu i (some j) = j == i

-- One access of CPU i.
unfoldable pub access : Turn → Place → Machine → Machine
unfolding get_caller_pcs
access u outside m = if m.lock.locked == 0 then go u.cpu_id spinning m else go u.cpu_id asking m
access u asking m =
    if is_cpu u.cpu_id m.lock.cpu then go u.cpu_id already_holding m else go u.cpu_id spinning m
access u spinning m =
    let taken : Machine = record m { lock = record m.lock { locked = 1 } } in
    if m.lock.locked == 0 then go u.cpu_id recording taken else taken
access u recording m =
    go u.cpu_id tracing (record m { lock = record m.lock { cpu = some u.cpu_id } })
access u tracing m =
    go u.cpu_id inside
      (record m { lock = record m.lock { pcs = get_caller_pcs u.words u.ebp m.lock.pcs } })
access u inside m = if m.lock.locked == 0 then go u.cpu_id not_holding m else go u.cpu_id checking m
access u checking m =
    if is_cpu u.cpu_id m.lock.cpu then go u.cpu_id clearing m else go u.cpu_id not_holding m
access u clearing m =
    go u.cpu_id leaving (record m { lock = record m.lock { pcs = update m.lock.pcs 0 0 } })
access u leaving m = go u.cpu_id releasing (record m { lock = record m.lock { cpu = none } })
access u releasing m = go u.cpu_id outside (record m { lock = record m.lock { locked = 0 } })
access u already_holding m = m
access u not_holding m = m

unfoldable pub take_turn : Turn → Machine → Machine
unfolding access
take_turn u m = access u (m.at u.cpu_id) m

-- Turns of the CPUs in any order.
unfoldable pub run : List Turn → Machine → Machine
unfolding take_turn
run [] m = m
run (u ∷ us) m = run us (take_turn u m)

-- An initialised lock, with every CPU outside.
abbrev pub boot : Spinlock → Machine
boot lk = record { lock = spin_initlock lk; at = λ i. outside }
