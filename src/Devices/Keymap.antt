-- ===== src/Devices/Keymap.antt =====
-- The tables of the keyboard (shiftcode to charcode of sched/kern/console.c).
use sched_v2_solution.Base.{ℕ, zero, suc, List, [], ◌∷◌, ◌==◌, if◌then◌else◌}

-- Element i of a table, 0 behind its row.
unfoldable pub entry : List ℕ → ℕ → ℕ
entry [] i = 0
entry (c ∷ cs) zero = c
entry (c ∷ cs) (suc i) = entry cs i

-- CTL is 2, SHIFT 1 and ALT 4.
unfoldable pub shiftcode : ℕ → ℕ
shiftcode i =
    if i == 0x1d
    then 2
    else if i == 0x2a
    then 1
    else if i == 0x36
    then 1
    else if i == 0x38
    then 4
    else if i == 0x9d
    then 2
    else if i == 0xb8
    then 4
    else 0

-- CAPSLOCK is 8, NUMLOCK 16 and SCROLLLOCK 32.
unfoldable pub togglecode : ℕ → ℕ
togglecode i = if i == 0x3a then 8 else if i == 0x45 then 16 else if i == 0x46 then 32 else 0

-- The entries from 0 on; behind them are those with a designator.
abbrev pub normalmap_row : List ℕ
normalmap_row =
    0 ∷ 27 ∷ 49 ∷ 50 ∷ 51 ∷ 52 ∷ 53 ∷ 54 ∷ 55 ∷ 56 ∷ 57 ∷ 48 ∷ 45 ∷ 61 ∷ 8 ∷ 9 ∷ 113 ∷ 119 ∷ 101
    ∷ 114 ∷ 116 ∷ 121 ∷ 117 ∷ 105 ∷ 111 ∷ 112 ∷ 91 ∷ 93 ∷ 10 ∷ 0 ∷ 97 ∷ 115 ∷ 100 ∷ 102 ∷ 103 ∷ 104
    ∷ 106 ∷ 107 ∷ 108 ∷ 59 ∷ 39 ∷ 96 ∷ 0 ∷ 92 ∷ 122 ∷ 120 ∷ 99 ∷ 118 ∷ 98 ∷ 110 ∷ 109 ∷ 44 ∷ 46 ∷ 47
    ∷ 0 ∷ 42 ∷ 0 ∷ 32 ∷ 0 ∷ 0 ∷ 0 ∷ 0 ∷ 0 ∷ 0 ∷ 0 ∷ 0 ∷ 0 ∷ 0 ∷ 0 ∷ 0 ∷ 0 ∷ 55 ∷ 56 ∷ 57 ∷ 45 ∷ 52
    ∷ 53 ∷ 54 ∷ 43 ∷ 49 ∷ 50 ∷ 51 ∷ 48 ∷ 46 ∷ 0 ∷ 0 ∷ 0 ∷ 0 ∷ []

unfoldable pub normalmap : ℕ → ℕ
normalmap i =
    if i == 0xc7
    then 0xe0
    else if i == 0x9c
    then 0x0a
    else if i == 0xb5
    then 0x2f
    else if i == 0xc8
    then 0xe2
    else if i == 0xc9
    then 0xe6
    else if i == 0xcb
    then 0xe4
    else if i == 0xcd
    then 0xe5
    else if i == 0xcf
    then 0xe1
    else if i == 0xd0
    then 0xe3
    else if i == 0xd1
    then 0xe7
    else if i == 0xd2
    then 0xe8
    else if i == 0xd3
    then 0xe9
    else entry normalmap_row i

-- The entries from 0 on; behind them are those with a designator.
abbrev pub shiftmap_row : List ℕ
shiftmap_row =
    0 ∷ 27 ∷ 33 ∷ 64 ∷ 35 ∷ 36 ∷ 37 ∷ 94 ∷ 38 ∷ 42 ∷ 40 ∷ 41 ∷ 95 ∷ 43 ∷ 8 ∷ 9 ∷ 81 ∷ 87 ∷ 69 ∷ 82
    ∷ 84 ∷ 89 ∷ 85 ∷ 73 ∷ 79 ∷ 80 ∷ 123 ∷ 125 ∷ 10 ∷ 0 ∷ 65 ∷ 83 ∷ 68 ∷ 70 ∷ 71 ∷ 72 ∷ 74 ∷ 75 ∷ 76
    ∷ 58 ∷ 34 ∷ 126 ∷ 0 ∷ 124 ∷ 90 ∷ 88 ∷ 67 ∷ 86 ∷ 66 ∷ 78 ∷ 77 ∷ 60 ∷ 62 ∷ 63 ∷ 0 ∷ 42 ∷ 0 ∷ 32
    ∷ 0 ∷ 0 ∷ 0 ∷ 0 ∷ 0 ∷ 0 ∷ 0 ∷ 0 ∷ 0 ∷ 0 ∷ 0 ∷ 0 ∷ 0 ∷ 55 ∷ 56 ∷ 57 ∷ 45 ∷ 52 ∷ 53 ∷ 54 ∷ 43 ∷ 49
    ∷ 50 ∷ 51 ∷ 48 ∷ 46 ∷ 0 ∷ 0 ∷ 0 ∷ 0 ∷ []

unfoldable pub shiftmap : ℕ → ℕ
shiftmap i =
    if i == 0xc7
    then 0xe0
    else if i == 0x9c
    then 0x0a
    else if i == 0xb5
    then 0x2f
    else if i == 0xc8
    then 0xe2
    else if i == 0xc9
    then 0xe6
    else if i == 0xcb
    then 0xe4
    else if i == 0xcd
    then 0xe5
    else if i == 0xcf
    then 0xe1
    else if i == 0xd0
    then 0xe3
    else if i == 0xd1
    then 0xe7
    else if i == 0xd2
    then 0xe8
    else if i == 0xd3
    then 0xe9
    else entry shiftmap_row i

-- The entries from 0 on; behind them are those with a designator.
abbrev pub ctlmap_row : List ℕ
ctlmap_row =
    0 ∷ 0 ∷ 0 ∷ 0 ∷ 0 ∷ 0 ∷ 0 ∷ 0 ∷ 0 ∷ 0 ∷ 0 ∷ 0 ∷ 0 ∷ 0 ∷ 0 ∷ 0 ∷ 17 ∷ 23 ∷ 5 ∷ 18 ∷ 20 ∷ 25 ∷ 21
    ∷ 9 ∷ 15 ∷ 16 ∷ 0 ∷ 0 ∷ 13 ∷ 0 ∷ 1 ∷ 19 ∷ 4 ∷ 6 ∷ 7 ∷ 8 ∷ 10 ∷ 11 ∷ 12 ∷ 0 ∷ 0 ∷ 0 ∷ 0 ∷ 28 ∷ 26
    ∷ 24 ∷ 3 ∷ 22 ∷ 2 ∷ 14 ∷ 13 ∷ 0 ∷ 0 ∷ 239 ∷ 0 ∷ 0 ∷ []

unfoldable pub ctlmap : ℕ → ℕ
ctlmap i =
    if i == 0x97
    then 0xe0
    else if i == 0xb5
    then 0xef
    else if i == 0xc8
    then 0xe2
    else if i == 0xc9
    then 0xe6
    else if i == 0xcb
    then 0xe4
    else if i == 0xcd
    then 0xe5
    else if i == 0xcf
    then 0xe1
    else if i == 0xd0
    then 0xe3
    else if i == 0xd1
    then 0xe7
    else if i == 0xd2
    then 0xe8
    else if i == 0xd3
    then 0xe9
    else entry ctlmap_row i

-- The table for the values of SHIFT and CTL.
unfoldable pub charcode : (keys : ℕ) → ℕ → ℕ
unfolding normalmap shiftmap ctlmap
charcode keys i = if keys == 0 then normalmap i else if keys == 1 then shiftmap i else ctlmap i
