-- ===== src/Debug/Search.antt =====
-- stab_binsearch of sched/kern/kdebug.c. The indices of the code are ints that may be -1: the
-- bounds of a region, and r, are modelled by the number one above them.
pub mod Ends
pub mod Around
pub mod Found
use sched_v2_solution.Base.{
  ℕ, zero, suc, ◌+◌, ◌-◌, ◌/◌, ◌%◌, Bool, true, false, Option, none, some, ltb, ◌==◌, if◌then◌else◌,
}

-- struct Stab (sched/inc/stab.h).
pub record Stab : Type 0 where
  pub n_strx : ℕ
  pub n_type : ℕ
  pub n_other : ℕ
  pub n_desc : ℕ
  pub n_value : ℕ

-- *region_left + 1 and *region_right + 1.
pub record Region : Type 0 where
  pub left : ℕ
  pub right : ℕ

-- The variables of the search: l, r + 1, the region, addr and any_matches.
pub record Search : Type 0 where
  pub l : ℕ
  pub r : ℕ
  pub region : Region
  pub addr : ℕ
  pub any_matches : Bool

-- The last of the n stabs from l on that has the type.
unfoldable pub earlier : (stabs : ℕ → Stab) (type l n : ℕ) → Option ℕ
earlier stabs type l zero = none
earlier stabs type l (suc n) =
    if Stab.n_type (stabs (l + n)) == type then some (l + n) else earlier stabs type l n

-- The round of the loop behind the search for a stab of the type.
unfoldable pub narrow : (stabs : ℕ → Stab) (true_m : ℕ) → Option ℕ → Search → Search
narrow stabs true_m none s = record s { l = true_m + 1 }
narrow stabs true_m (some m) s =
    let value = Stab.n_value (stabs m) in
    if ltb value s.addr
    then record s { region = record s.region { left = m + 1 }; l = true_m + 1; any_matches = true }
    else if ltb s.addr value
    then record s { region = record s.region { right = m }; r = m; any_matches = true }
    else record s {
      region = record s.region { left = m + 1 };
      l = m;
      addr = (s.addr + 1) % 0x1_0000_0000;
      any_matches = true;
    }

unfoldable pub probe : (stabs : ℕ → Stab) (type : ℕ) → Search → Search
unfolding earlier narrow
probe stabs type s =
    let true_m = (s.l + (s.r - 1)) / 2 in
    narrow stabs true_m (earlier stabs type s.l (true_m + 1 - s.l)) s

-- The loop, in at most `rounds` tests of its condition.
unfoldable pub search_loop : (rounds : ℕ) (stabs : ℕ → Stab) (type : ℕ) → Search → Option Search
unfolding probe
search_loop zero stabs type s = none
search_loop (suc n) stabs type s =
    let rest = search_loop n stabs type (probe stabs type s) in if ltb s.l s.r then rest else some s

-- The for loop over the n stabs behind the one at left.
unfoldable pub rightmost : (stabs : ℕ → Stab) (type left n : ℕ) → ℕ
rightmost stabs type left zero = left
rightmost stabs type left (suc n) =
    if Stab.n_type (stabs (left + n)) == type then left + suc n else rightmost stabs type left n

-- What follows the loop.
unfoldable pub settle : (stabs : ℕ → Stab) (type : ℕ) → Search → Region
unfolding rightmost
settle stabs type s =
    let g = s.region in
    if s.any_matches
    then (if ltb g.right g.left
        then record g { left = g.right }
        else record g { left = rightmost stabs type g.left (g.right - g.left) })
    else record g { right = g.left - 1 }

-- On a region whose left bound is an index, not -1.
unfoldable pub stab_binsearch :
    (rounds : ℕ) (stabs : ℕ → Stab) → Region → (type addr : ℕ) → Option Region
unfolding search_loop settle
stab_binsearch rounds stabs g type addr =
    elim (search_loop rounds stabs type
      (record { l = g.left - 1; r = g.right; region = g; addr = addr; any_matches = false })) [
        | none ↦ none
        | some s ↦ some (settle stabs type s)
      ]
