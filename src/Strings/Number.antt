-- ===== src/Strings/Number.antt =====
-- memcmp, memfind and strtol of sched/lib/string.c. A long is a bit pattern below 2 ^ 32.
use sched_v2_solution.Base.{
  ℕ, zero, suc, ◌+◌, ◌-◌, ◌*◌, ◌%◌, ◌<◌, ◌≡◌, ◌↔◌, inl, inr, refl, Bool, true, false, not, ◌&&◌,
  ◌||◌, Option, none, some, arith, ◌==◌, leb, if◌then◌else◌, Bool-cases, ==_iff,
}
use sched_v2_solution.Kernel.Pcb.{word}
use sched_v2_solution.Strings.{Bytes, ℤ, pos, difference}

unfoldable pub memcmp : Bytes → (v1 v2 n : ℕ) → ℤ
memcmp m v1 v2 zero = pos 0
memcmp m v1 v2 (suc n) =
    let rest = memcmp m (v1 + 1) (v2 + 1) n in
    if not (m v1 == m v2) then difference (m v1) (m v2) else rest

unfoldable pub memfind : Bytes → (s c n : ℕ) → ℕ
memfind m s c zero = s
memfind m s c (suc n) = let rest = memfind m (s + 1) c n in if m s == c % 256 then s else rest

unfoldable pub skip_blanks : (rounds : ℕ) → Bytes → ℕ → Option ℕ
skip_blanks zero m s = none
skip_blanks (suc r) m s =
    let rest = skip_blanks r m (s + 1) in if m s == 32 || m s == 9 then rest else some s

-- The value of a digit or a letter.
unfoldable pub digit : ℕ → Option ℕ
digit c =
    if leb 48 c && leb c 57
    then some (c - 48)
    else if leb 97 c && leb c 122
    then some (c - 97 + 10)
    else if leb 65 c && leb c 90
    then some (c - 65 + 10)
    else none

-- The loop over the digits: the value, and where it stopped.
unfoldable pub strtol_digits : (rounds : ℕ) → Bytes → (base s val : ℕ) → Option (ℕ × ℕ)
strtol_digits zero m base s val = none
strtol_digits (suc r) m base s val = elim (digit (m s)) [
  | none ↦ some (val, s)
  | some dig ↦
      let rest = strtol_digits r m base (s + 1) (word (val * base + dig)) in
      if leb base dig then some (val, s) else rest
]

-- The sign: whether it is a minus, and what follows.
unfoldable pub sign : Bytes → ℕ → Bool × ℕ
sign m s = if m s == 43 then (false, s + 1) else if m s == 45 then (true, s + 1) else (false, s)

-- The prefix: the base, and what follows.
unfoldable pub prefix : Bytes → (s base : ℕ) → ℕ × ℕ
prefix m s base =
    if (base == 0 || base == 16) && m s == 48 && m (s + 1) == 120
    then (16, s + 2)
    else if base == 0 && m s == 48
    then (8, s + 1)
    else if base == 0
    then (10, s)
    else (base, s)

unfoldable pub signed : Bool → Option (ℕ × ℕ) → Option (ℕ × ℕ)
signed neg none = none
signed neg (some (val, end)) = some ((if neg then word (0x1_0000_0000 - val) else val), end)

-- The number and *endptr.
unfoldable pub strtol_from : (rounds : ℕ) → Bytes → (base : ℕ) → Option ℕ → Option (ℕ × ℕ)
unfolding strtol_digits digit sign prefix signed
strtol_from rounds m base none = none
strtol_from rounds m base (some s) =
    let (neg, s') = sign m s in
    let (b, s'') = prefix m s' base in signed neg (strtol_digits rounds m b s'' 0)

unfoldable pub strtol : (rounds : ℕ) → Bytes → (s base : ℕ) → Option (ℕ × ℕ)
unfolding strtol_from skip_blanks
strtol rounds m s base = strtol_from rounds m base (skip_blanks rounds m s)

-- The difference is 0 only for equal characters.
difference-zero : (a b : ℕ) → difference a b ≡ pos 0 → a ≡ b
difference-zero a b e = ground arith

SameBytes : Bytes → (v1 v2 n : ℕ) → Type 0
SameBytes m v1 v2 n = (i : ℕ) → i < n → m (v1 + i) ≡ m (v2 + i)

SameBytes-suc :
    (m : Bytes) (v1 v2 n : ℕ)
    → m v1 ≡ m v2
    → SameBytes m (v1 + 1) (v2 + 1) n
    → SameBytes m v1 v2 (suc n)
unfolding SameBytes
SameBytes-suc m v1 v2 n first rest zero lt =
    let a : v1 + 0 ≡ v1 = omega arith in let b : v2 + 0 ≡ v2 = omega arith in rw (a, b) first
SameBytes-suc m v1 v2 n first rest (suc i) lt =
    let a : v1 + suc i ≡ v1 + 1 + i = omega arith in
    let b : v2 + suc i ≡ v2 + 1 + i = omega arith in rw (a, b) (rest i (omega arith))

SameBytes-rest :
    (m : Bytes) (v1 v2 n : ℕ) → SameBytes m v1 v2 (suc n) → SameBytes m (v1 + 1) (v2 + 1) n
unfolding SameBytes
SameBytes-rest m v1 v2 n same i lt =
    let a : v1 + 1 + i ≡ v1 + suc i = omega arith in
    let b : v2 + 1 + i ≡ v2 + suc i = omega arith in rw (a, b) (same (suc i) (omega arith))

SameBytes-first : (m : Bytes) (v1 v2 n : ℕ) → SameBytes m v1 v2 (suc n) → m v1 ≡ m v2
unfolding SameBytes
SameBytes-first m v1 v2 n same =
    let a : v1 + 0 ≡ v1 = omega arith in
    let b : v2 + 0 ≡ v2 = omega arith in rw (a, b) at (same 0 (omega arith))

memcmp-SameBytes : (m : Bytes) (v1 v2 n : ℕ) → memcmp m v1 v2 n ≡ pos 0 → SameBytes m v1 v2 n
unfolding memcmp SameBytes
memcmp-SameBytes m v1 v2 zero e i lt = absurd (omega arith)
memcmp-SameBytes m v1 v2 (suc n) e i lt = elim (Bool-cases (m v1 == m v2)) [
  | inl same ↦
      SameBytes-suc m v1 v2 n (ground arith) (memcmp-SameBytes m (v1 + 1) (v2 + 1) n (rw same at e))
        i lt
  | inr other ↦
      let equal : m v1 ≡ m v2 = difference-zero (m v1) (m v2) (rw other at e) in
      absurd (ground arith)
]

SameBytes-memcmp : (m : Bytes) (v1 v2 n : ℕ) → SameBytes m v1 v2 n → memcmp m v1 v2 n ≡ pos 0
unfolding memcmp
SameBytes-memcmp m v1 v2 zero same = refl
SameBytes-memcmp m v1 v2 (suc n) same =
    let first : (m v1 == m v2) ≡ true = (==_iff (m v1) (m v2)).1 (SameBytes-first m v1 v2 n same) in
    rw first (SameBytes-memcmp m (v1 + 1) (v2 + 1) n (SameBytes-rest m v1 v2 n same))

-- memcmp returns 0 exactly when the n bytes at v1 and at v2 are the same.
pub memcmp-zero :
    (m : Bytes) (v1 v2 n : ℕ)
    → (memcmp m v1 v2 n ≡ pos 0) ↔ ((i : ℕ) → i < n → m (v1 + i) ≡ m (v2 + i))
unfolding SameBytes
memcmp-zero m v1 v2 n = (memcmp-SameBytes m v1 v2 n, SameBytes-memcmp m v1 v2 n)
