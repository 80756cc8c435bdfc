-- ===== src/Lock/Tests.antt =====
-- Two CPUs that take turns with the lock.
use sched_v2_solution.Base.{ℕ, ◌≡◌, refl, some, List, [], ◌∷◌, ◌==◌, if◌then◌else◌}
use sched_v2_solution.Lock.{
  Spinlock, spin_initlock, Place, Turn, Machine, run, boot, get_caller_pcs,
}
use sched_v2_solution.Lock.Exclusive.{Exclusive}
use sched_v2_solution.Lock.Exclusive.Runs.{boot-Exclusive}

abbrev some_lock : Spinlock
some_lock = record { locked = 7; cpu = some 3; pcs = λ i. 0 }

-- A stack of two frames, the first at 0xf0000000.
abbrev turn : ℕ → Turn
turn i = record {
  cpu_id = i;
  words = λ a. if a == 0xf000_0000 then 0xf000_0010 else if a == 0xf000_0010 then 0 else a;
  ebp = 0xf000_0000;
}

-- Both CPUs call spin_lock; CPU 0 enters, CPU 1 spins, and gets the lock when CPU 0 leaves.
abbrev turns : List Turn
turns =
    turn 0
    ∷ turn 1
    ∷ turn 0
    ∷ turn 1
    ∷ turn 0
    ∷ turn 0
    ∷ turn 0
    ∷ turn 1
    ∷ turn 0
    ∷ turn 0
    ∷ turn 0
    ∷ turn 0
    ∷ turn 1
    ∷ turn 1
    ∷ turn 1
    ∷ []

boot-Exclusive_example : Exclusive (run turns (boot some_lock))
boot-Exclusive_example = boot-Exclusive some_lock turns

pcs_of_frames : get_caller_pcs (Turn.words (turn 0)) 0xf000_0000 (λ i. 9) 1 ≡ 0xf000_0014
unfolding get_caller_pcs
pcs_of_frames = refl

handed_over : Machine.at (run turns (boot some_lock)) 1 ≡ Place.inside
unfolding run spin_initlock
handed_over = refl
