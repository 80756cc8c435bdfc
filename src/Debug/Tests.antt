-- ===== src/Debug/Tests.antt =====
-- The search for a stab at concrete tables.
use sched_v2_solution.Base.{
  ℕ, false, [], ◌∷◌, ◌+◌, ◌*◌, ◌≡◌, refl, some, ◌==◌, ◌||◌, if◌then◌else◌, arith,
}
use sched_v2_solution.Debug.Search.{Stab, Region, stab_binsearch}
use sched_v2_solution.Debug.Search.Ends.{Returns, stab_binsearch-ends}
use sched_v2_solution.Debug.Search.Around.{Contains}
use sched_v2_solution.Debug.Search.Found.{Found, stab_binsearch-Brackets}
use sched_v2_solution.Strings.{Bytes}
use sched_v2_solution.Strings.Length.{HasLength}
use sched_v2_solution.Debug.Monitor.{is_blank, gobble, scan, split_args, runcmd, runs}
use sched_v2_solution.Debug.Monitor.Scan.{words}
use sched_v2_solution.Debug.Monitor.Words.{Answer, split_args-words}

-- A table of functions (0x24) at the even indices, function 2 i at 100 i, with other stabs between.
abbrev table : ℕ → Stab
table i = record {
  n_strx = 0;
  n_type = if i == 0 || i == 2 || i == 4 then 0x24 else 0x44;
  n_other = 0;
  n_desc = 0;
  n_value = 50 * i;
}

abbrev whole : Region
whole = record { left = 1; right = 6 }

stab_binsearch-ends_example : Returns (stab_binsearch 14 table whole 0x24 130)
stab_binsearch-ends_example = stab_binsearch-ends table 0x24 whole 130 14 (omega arith)

table-Contains : Contains table 0x24 130 0 6 2
table-Contains = record {
  first = omega arith;
  last = omega arith;
  has_type = refl;
  upto = λ j lo hi same. omega arith;
  beyond = λ j lo hi same. ground arith;
}

stab_binsearch-Brackets_example : Found table 0x24 6 2 (stab_binsearch 14 table whole 0x24 130)
stab_binsearch-Brackets_example =
    stab_binsearch-Brackets table 0x24 130 2 14 whole (omega arith) table-Contains (omega arith)

bracketed : stab_binsearch 14 table whole 0x24 130 ≡ some (record { left = 3; right = 4 })
unfolding stab_binsearch
bracketed = refl

-- Lines at 10 and at 11: the search for 10 returns the second one.
abbrev close : ℕ → Stab
close i = record { n_strx = 0; n_type = 0x44; n_other = 0; n_desc = 0; n_value = 10 + i }

overshoots :
    stab_binsearch 14 close (record { left = 1; right = 2 }) 0x44 10
    ≡ some (record { left = 2; right = 2 })
unfolding stab_binsearch
overshoots = refl

-- A function that starts behind the address: the region that is returned is not empty.
abbrev ahead : ℕ → Stab
ahead i = record {
  n_strx = 0;
  n_type = if i == 1 then 0x24 else 0x64;
  n_other = 0;
  n_desc = 0;
  n_value = 100;
}

not_contained :
    stab_binsearch 14 ahead (record { left = 1; right = 2 }) 0x24 50
    ≡ some (record { left = 1; right = 1 })
unfolding stab_binsearch
not_contained = refl

-- " ps me" at 100, and the names of two commands at 40 and at 50: "no" and "ps".
abbrev line : Bytes
line a =
    if a == 100 || a == 103
    then 32
    else if a == 101 || a == 50
    then 112
    else if a == 102 || a == 51
    then 115
    else if a == 104
    then 109
    else if a == 105
    then 101
    else if a == 40
    then 110
    else if a == 41
    then 111
    else 0

line-HasLength : HasLength line 100 6
line-HasLength = record { before = λ i lt. ground arith; end = refl }

split_args-words_example : Answer 15 line 100 (words 6 false line 100) (split_args 15 7 line 100)
split_args-words_example = split_args-words 15 7 6 line 100 line-HasLength (omega arith)

line-words : words 6 false line 100 ≡ 101 ∷ 104 ∷ []
unfolding words is_blank
line-words = refl

second_command : runcmd (40 ∷ 50 ∷ []) 9 line 100 ≡ some (runs 1 2)
unfolding runcmd gobble is_blank scan
second_command = refl
