-- ===== src/Devices/Console/Line.antt =====
-- The line editor: readline of sched/lib/readline.c, on what getchar returns.
pub mod Edit
use sched_v2_solution.Base.{
  ℕ, zero, suc, ◌+◌, ◌-◌, ◌%◌, Bool, ◌&&◌, ◌||◌, Option, none, some, List, [], ◌∷◌, ◌++◌, ltb, leb,
  ◌==◌, if◌then◌else◌, update,
}
use sched_v2_solution.Format.Escape.{codes, error_text}

-- What getchar returns: a character, or a negative error code of this magnitude.
pub data Got : Type 0 where
  char failed : ℕ → Got

abbrev pub buflen : ℕ
buflen = 1024

-- The static buffer, i, and what has been printed.
pub record Line : Type 0 where
  pub buf : ℕ → ℕ
  pub pos : ℕ
  pub echo : List ℕ

abbrev pub put : ℕ → Line → Line
put c l = record l { echo = l.echo ++ c ∷ [] }

-- A round of the loop that does not return.
unfoldable pub edit : ℕ → Line → Line
edit c l =
    if (c == 8 || c == 0x7f) && ltb 0 l.pos
    then record (put 8 l) { pos = l.pos - 1 }
    else if leb 32 c && ltb l.pos (buflen - 1)
    then record (put c l) { buf = update l.buf l.pos (c % 256); pos = l.pos + 1 }
    else l

-- Whether the round returns: the first two tests of the loop come before this one.
unfoldable pub ends : ℕ → Bool
ends c = c == 10 || c == 13

-- How readline returns: the line in the buffer, or NULL.
pub data Returned : Type 0 where
  line null : Line → Returned

-- The loop of readline; none still waits for characters.
unfoldable pub read_loop : List Got → Line → Option Returned
unfolding edit ends
read_loop [] l = none
read_loop (failed n ∷ input) l =
    some (null (record l { echo = l.echo ++ codes "read error: " ++ error_text n ++ 10 ∷ [] }))
read_loop (char c ∷ input) l =
    let rest = read_loop input (edit c l) in
    if ends c then some (line (record (put 10 l) { buf = update l.buf l.pos 0 })) else rest

-- readline with its prompt, none for NULL, and the buffer as it was.
unfoldable pub readline :
    (prompt : Option (List ℕ)) (buf : ℕ → ℕ) (input : List Got) → Option Returned
unfolding read_loop
readline prompt buf input =
    read_loop input
      (record { buf = buf; pos = 0; echo = elim prompt [ none ↦ [] | some text ↦ text ] })
