-- ===== src/Devices/Console/Line/Edit.antt =====
-- What readline returns for printable characters, and that it stays in its buffer.
use sched_v2_solution.Base.{
  ℕ, ◌+◌, ◌%◌, ◌<◌, ◌≤◌, ◌≡◌, ◌≢◌, refl, ◌∙◌, inl, inr, Bool, true, false, ◌&&◌, ◌||◌, Option, none,
  some, List, [], ◌∷◌, ◌++◌, arith, ltb, leb, ◌==◌, Bool-cases, update, update_ne, update_self, map,
}
use sched_v2_solution.Format.Escape.{count}
use sched_v2_solution.Devices.Console.Line.{
  Got, char, failed, buflen, Line, put, edit, ends, Returned, line, null, read_loop, readline,
}

-- The characters lie in the buffer from address p on, with a null character behind them.
pub Text : (ℕ → ℕ) → (p : ℕ) → List ℕ → Type 0
Text buf p [] = buf p ≡ 0
Text buf p (c ∷ cs) = (buf p ≡ c) × Text buf (p + 1) cs

-- Each of the characters is printable.
unfoldable pub Printable : List ℕ → Type 0
Printable [] = Unit {0}
Printable (c ∷ cs) = (32 ≤ c) × (c < 127) × Printable cs

-- The line of these characters, behind those of the buffer below p.
pub record Typed (old : ℕ → ℕ) (p : ℕ) (cs : List ℕ) (r : Option Returned) : Type 0 where
  pub final : Line
  pub returns : r ≡ some (line final)
  pub text : Text final.buf p cs
  pub before : (i : ℕ) → i < p → final.buf i ≡ old i

edit_printable :
    (c : ℕ) (l : Line)
    → 32 ≤ c
    → c < 127
    → l.pos < 1023
    → edit c l ≡ record (put c l) { buf = update l.buf l.pos c; pos = l.pos + 1 }
unfolding edit
edit_printable c l low high room =
    let not_backspace : (c == 8) ≡ false = ground arith in
    let not_delete : (c == 0x7f) ≡ false = ground arith in
    let shows : leb 32 c ≡ true = ground arith in
    let fits : ltb l.pos 1023 ≡ true = ground arith in
    let byte : c % 256 ≡ c = omega arith in rw (not_backspace, not_delete, shows, fits, byte) refl

not_end : (c : ℕ) → 32 ≤ c → ends c ≡ false
unfolding ends
not_end c low =
    let no_lf : (c == 10) ≡ false = ground arith in
    let no_cr : (c == 13) ≡ false = ground arith in rw (no_lf, no_cr) refl

read_loop-Typed :
    (cs : List ℕ) (input : List Got) (l : Line)
    → Printable cs
    → l.pos + count cs < buflen
    → Typed l.buf l.pos cs (read_loop (map char cs ++ char 10 ∷ input) l)
unfolding read_loop Text Printable
read_loop-Typed [] input l ok room = record {
  final = record (put 10 l) { buf = update l.buf l.pos 0 };
  returns = refl;
  text = update_self l.buf l.pos 0;
  before = λ i lt.
      let apart : l.pos ≢ i = λ e. absurd (omega (arith, e, lt)) in update_ne l.buf l.pos i 0 apart;
}
read_loop-Typed (c ∷ cs) input l (low, high, ok) room =
    let l' : Line = record (put c l) { buf = update l.buf l.pos c; pos = l.pos + 1 } in
    let goes_on : ends c ≡ false = not_end c low in
    let rest : Typed l'.buf l'.pos cs (read_loop (map char cs ++ char 10 ∷ input) l') =
      read_loop-Typed cs input l' ok (omega (arith, room)) in
    rw (goes_on, edit_printable c l low high (omega (arith, room)))
      (record {
        final = rest.final;
        returns = rest.returns;
        text = (rest.before l.pos (omega arith) ∙ update_self l.buf l.pos c, rest.text);
        before = λ i lt.
            let apart : l.pos ≢ i = λ e. absurd (omega (arith, e, lt)) in
            rest.before i (omega (arith, lt)) ∙ update_ne l.buf l.pos i c apart;
      })

-- When fewer than 1024 printable characters and a newline are typed, readline returns these
-- characters in its buffer, with a null character behind them, whatever comes after the newline.
pub readline-Text :
    (prompt : Option (List ℕ)) (buf : ℕ → ℕ) (cs : List ℕ) (input : List Got)
    → Printable cs
    → count cs < buflen
    → Typed buf 0 cs (readline prompt buf (map char cs ++ char 10 ∷ input))
unfolding readline
readline-Text prompt buf cs input ok fits =
    read_loop-Typed cs input
      (record { buf = buf; pos = 0; echo = elim prompt [ none ↦ [] | some text ↦ text ] }) ok
      (omega (arith, fits))

-- The position is in the buffer, and what lies behind the buffer is as it was.
record Kept (old : ℕ → ℕ) (l : Line) : Type 0 where
  pos_lt : l.pos < buflen
  behind : (i : ℕ) → buflen ≤ i → l.buf i ≡ old i

-- A returned buffer that is unchanged behind its end and has a null character in it.
pub record EndsInside (old : ℕ → ℕ) (l : Line) : Type 0 where
  pub at : ℕ
  pub at_lt : at < buflen
  pub null_at : l.buf at ≡ 0
  pub unchanged : (i : ℕ) → buflen ≤ i → l.buf i ≡ old i

-- What is true of whatever readline returns.
pub WhenLine : (ℕ → ℕ) → Option Returned → Type 0
WhenLine old none = Unit {0}
WhenLine old (some (null l)) = Unit {0}
WhenLine old (some (line l)) = EndsInside old l

edit-Kept : (old : ℕ → ℕ) (c : ℕ) (l : Line) → Kept old l → Kept old (edit c l)
unfolding edit
edit-Kept old c l k = elim (Bool-cases ((c == 8 || c == 0x7f) && ltb 0 l.pos)) [
  | inl erases ↦ rw erases (record { pos_lt = omega (arith, k.pos_lt); behind = k.behind })
  | inr types ↦ rw types (elim (Bool-cases (leb 32 c && ltb l.pos 1023)) [
    | inl stores ↦
        let room : l.pos < 1023 = has_room (leb 32 c) stores in
        rw stores (record {
          pos_lt = omega (arith, room);
          behind = λ i le.
              let apart : l.pos ≢ i = λ e. absurd (omega (arith, e, le, room)) in
              update_ne l.buf l.pos i (c % 256) apart ∙ k.behind i le;
        })
    | inr drops ↦ rw drops k
  ])
]
  where
    has_room : {p : ℕ} (b : Bool) → b && ltb p 1023 ≡ true → p < 1023
    has_room true e = ground arith
    has_room false e = absurd (ground (arith, e))

read_loop-Kept :
    (old : ℕ → ℕ) (input : List Got) (l : Line) → Kept old l → WhenLine old (read_loop input l)
unfolding read_loop WhenLine
read_loop-Kept old [] l k = tt
read_loop-Kept old (failed n ∷ input) l k = tt
read_loop-Kept old (char c ∷ input) l k = elim (Bool-cases (ends c)) [
  | inl done ↦ rw done (record {
    at = l.pos;
    at_lt = k.pos_lt;
    null_at = update_self l.buf l.pos 0;
    unchanged = λ i le.
        let apart : l.pos ≢ i = λ e. absurd (omega (arith, e, le, k.pos_lt)) in
        update_ne l.buf l.pos i 0 apart ∙ k.behind i le;
  })
  | inr goes_on ↦ rw goes_on (read_loop-Kept old input (edit c l) (edit-Kept old c l k))
]

-- Whatever is typed, a line that readline returns has a null character at one of the 1024
-- positions of the buffer, and nothing behind the buffer has changed.
pub readline-EndsInside :
    (prompt : Option (List ℕ)) (buf : ℕ → ℕ) (input : List Got)
    → WhenLine buf (readline prompt buf input)
unfolding readline
readline-EndsInside prompt buf input =
    read_loop-Kept buf input
      (record { buf = buf; pos = 0; echo = elim prompt [ none ↦ [] | some text ↦ text ] })
      (record { pos_lt = omega arith; behind = λ i le. refl })
