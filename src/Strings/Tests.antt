-- ===== src/Strings/Tests.antt =====
-- The theorems on the string routines at small strings.
use sched_v2_solution.Base.{ℕ, ◌+◌, ◌≡◌, ◌<◌, ◌≤◌, ◌⊎◌, refl, some, arith, ◌==◌, if◌then◌else◌}
use sched_v2_solution.Strings.{Bytes, strlcpy}
use sched_v2_solution.Strings.Length.{HasLength}
use sched_v2_solution.Strings.Bounded.{strlcpy-Terminated}
use sched_v2_solution.Strings.Number.{strtol}

-- "hi" at address 100, copied into two bytes at 200.
abbrev greeting : Bytes
greeting a = if a == 100 then 104 else if a == 101 then 105 else if a == 102 then 0 else 7

greeting-HasLength : HasLength greeting 100 2
greeting-HasLength = record { before = λ i lt. ground arith; end = refl }

strlcpy-Terminated_example :
    ((strlcpy 200 100 2 greeting).0 < 2)
    × ((strlcpy 200 100 2 greeting).1 (200 + (strlcpy 200 100 2 greeting).0) ≡ 0)
    × ((a : ℕ) → (a < 200) ⊎ (202 ≤ a) → (strlcpy 200 100 2 greeting).1 a ≡ greeting a)
strlcpy-Terminated_example = strlcpy-Terminated 200 100 2 greeting (omega arith)

-- "-0x1f " is minus 31.
abbrev hex : Bytes
hex a =
    if a == 0
    then 45
    else if a == 1
    then 48
    else if a == 2
    then 120
    else if a == 3
    then 49
    else if a == 4
    then 102
    else 32

hex-number : strtol 9 hex 0 0 ≡ some (0xffff_ffe1, 5)
unfolding strtol
hex-number = refl
