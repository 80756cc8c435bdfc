-- ===== src/Debug/Monitor.antt =====
-- The command line of the kernel monitor: runcmd of sched/kern/monitor.c. The commands only print.
pub mod Scan
pub mod Words
use sched_v2_solution.Base.{
  ℕ, zero, suc, ◌+◌, Bool, ◌||◌, Option, none, some, List, [], ◌∷◌, length, ◌==◌, if◌then◌else◌,
  update,
}
use sched_v2_solution.Strings.{Bytes, ℤ, pos, strcmp}

-- strchr(WHITESPACE, c) of a character that is not null.
unfoldable pub is_blank : ℕ → Bool
is_blank c = c == 9 || c == 13 || c == 10 || c == 32

-- "gobble whitespace": where it ends, and memory with the blanks overwritten.
unfoldable pub gobble : (rounds : ℕ) → Bytes → (buf : ℕ) → Option (ℕ × Bytes)
gobble zero m buf = none
gobble (suc r) m buf =
    let rest = gobble r (update m buf 0) (buf + 1) in
    if m buf == 0 then some (buf, m) else if is_blank (m buf) then rest else some (buf, m)

-- "scan past next arg".
unfoldable pub scan : (rounds : ℕ) → Bytes → (buf : ℕ) → Option ℕ
scan zero m buf = none
scan (suc r) m buf =
    let rest = scan r m (buf + 1) in
    if m buf == 0 then some buf else if is_blank (m buf) then some buf else rest

-- argv and memory behind the loop, or its return with too many arguments.
pub data Line : Type 0 where
  args : List ℕ → Bytes → Line
  too_many : Bytes → Line

abbrev pub add_arg : ℕ → Option Line → Option Line
add_arg a none = none
add_arg a (some (args l m)) = some (args (a ∷ l) m)
add_arg a (some (too_many m)) = some (too_many m)

-- The loop of runcmd with n places left in argv, MAXARGS - 1 = 15 at first.
unfoldable pub split_args : (n rounds : ℕ) → Bytes → (buf : ℕ) → Option Line
split_args zero r m buf = elim (gobble r m buf) [
  | none ↦ none
  | some (s, m') ↦ if m' s == 0 then some (args [] m') else some (too_many m')
]
split_args (suc n) r m buf = elim (gobble r m buf) [
  | none ↦ none
  | some (s, m') ↦
      if m' s == 0
      then some (args [] m')
      else elim (scan r m' s) [ none ↦ none | some s' ↦ add_arg s (split_args n r m' s') ]
]

-- What runcmd does with the line: nothing, a complaint, or command number i with its arguments.
pub data Action : Type 0 where
  nothing complains unknown : Action
  runs : (i argc : ℕ) → Action

abbrev is_zero : ℤ → Bool
is_zero (pos zero) = Bool.true
is_zero _ = Bool.false

-- names are the addresses of the names of the commands, from number i on.
unfoldable pub lookup_command :
    (names : List ℕ) (i rounds : ℕ) → Bytes → (argv0 argc : ℕ) → Option Action
unfolding strcmp
lookup_command [] i r m argv0 argc = some unknown
lookup_command (name ∷ names) i r m argv0 argc =
    let rest = lookup_command names (suc i) r m argv0 argc in
    elim (strcmp r m argv0 name) [
      | none ↦ none
      | some d ↦ if is_zero d then some (runs i argc) else rest
    ]

abbrev pub act : (names : List ℕ) (rounds : ℕ) → Line → Option Action
act names r (too_many m) = some complains
act names r (args [] m) = some nothing
act names r (args (a ∷ l) m) = lookup_command names 0 r m a (length (a ∷ l))

unfoldable pub runcmd : (names : List ℕ) (rounds : ℕ) → Bytes → (buf : ℕ) → Option Action
unfolding split_args lookup_command
runcmd names r m buf = elim (split_args 15 r m buf) [ none ↦ none | some l ↦ act names r l ]
