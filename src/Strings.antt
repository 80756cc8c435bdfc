-- ===== src/Strings.antt =====
-- The routines of sched/lib/string.c on memory as a function from addresses to bytes. A loop that
-- ends at a null character takes a bound on its rounds and gives `none` when that is too small.
pub mod Length
pub mod Bounded
pub mod Number
mod Tests
use sched_v2_solution.Base.{
  ℕ, zero, suc, ◌+◌, ◌-◌, Bool, true, false, not, ◌&&◌, Option, none, some, ◌==◌, ltb,
  if◌then◌else◌, update,
}

abbrev pub Bytes : Type 0
Bytes = ℕ → ℕ

-- The int difference of two unsigned characters.
pub data ℤ : Type 0 where
  pos negsuc : ℕ → ℤ

abbrev pub difference : ℕ → ℕ → ℤ
difference a b = if ltb a b then negsuc (b - a - 1) else pos (a - b)

-- The loop of strlen, with n characters counted.
unfoldable pub strlen_loop : (rounds : ℕ) → Bytes → (s n : ℕ) → Option ℕ
strlen_loop zero m s n = none
strlen_loop (suc r) m s n =
    let rest = strlen_loop r m (s + 1) (n + 1) in if m s == 0 then some n else rest

abbrev pub strlen : (rounds : ℕ) → Bytes → (s : ℕ) → Option ℕ
strlen rounds m s = strlen_loop rounds m s 0

unfoldable pub strnlen_loop : (size : ℕ) → Bytes → (s n : ℕ) → ℕ
strnlen_loop zero m s n = n
strnlen_loop (suc size) m s n =
    let rest = strnlen_loop size m (s + 1) (n + 1) in if m s == 0 then n else rest

abbrev pub strnlen : Bytes → (s size : ℕ) → ℕ
strnlen m s size = strnlen_loop size m s 0

-- Memory after the copy.
unfoldable pub strcpy : (rounds : ℕ) → (dst src : ℕ) → Bytes → Option Bytes
strcpy zero dst src m = none
strcpy (suc r) dst src m =
    let m' = update m dst (m src) in
    let rest = strcpy r (dst + 1) (src + 1) m' in if m src == 0 then some m' else rest

unfoldable pub strcat : (rounds : ℕ) → (dst src : ℕ) → Bytes → Option Bytes
strcat rounds dst src m = elim (strlen rounds m dst) [
  | none ↦ none
  | some len ↦ strcpy rounds (dst + len) src m
]

unfoldable pub strncpy : (size dst src : ℕ) → Bytes → Bytes
strncpy zero dst src m = m
strncpy (suc size) dst src m =
    let m' = update m dst (m src) in
    strncpy size (dst + 1) (if m' src == 0 then src else src + 1) m'

-- The rounds of strlcpy, and then the null character, with the address where it stands.
unfoldable pub strlcpy_loop : (rounds dst src : ℕ) → Bytes → ℕ × Bytes
strlcpy_loop zero dst src m = (dst, update m dst 0)
strlcpy_loop (suc r) dst src m =
    let rest = strlcpy_loop r (dst + 1) (src + 1) (update m dst (m src)) in
    if m src == 0 then (dst, update m dst 0) else rest

unfoldable pub strlcpy : (dst src size : ℕ) → Bytes → ℕ × Bytes
unfolding strlcpy_loop
strlcpy dst src zero m = (0, m)
strlcpy dst src (suc size) m = let (end, m') = strlcpy_loop size dst src m in (end - dst, m')

unfoldable pub strcmp : (rounds : ℕ) → Bytes → (p q : ℕ) → Option ℤ
strcmp zero m p q = none
strcmp (suc r) m p q =
    let rest = strcmp r m (p + 1) (q + 1) in
    if not (m p == 0) && m p == m q then rest else some (difference (m p) (m q))

unfoldable pub strncmp : Bytes → (p q n : ℕ) → ℤ
strncmp m p q zero = pos 0
strncmp m p q (suc n) =
    let rest = strncmp m (p + 1) (q + 1) n in
    if not (m p == 0) && m p == m q then rest else difference (m p) (m q)

-- The outer `none` is a bound that is too small, the inner one the null pointer.
unfoldable pub strchr : (rounds : ℕ) → Bytes → (s c : ℕ) → Option (Option ℕ)
strchr zero m s c = none
strchr (suc r) m s c =
    let rest = strchr r m (s + 1) c in
    if m s == 0 then some none else if m s == c then some (some s) else rest

unfoldable pub strfind : (rounds : ℕ) → Bytes → (s c : ℕ) → Option ℕ
strfind zero m s c = none
strfind (suc r) m s c =
    let rest = strfind r m (s + 1) c in
    if m s == 0 then some s else if m s == c then some s else rest
