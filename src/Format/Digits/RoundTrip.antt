-- ===== src/Format/Digits/RoundTrip.antt =====
-- What printnum prints is read back by the digit loop of strtol.
use sched_v2_solution.Base.{
  ℕ, zero, suc, ◌+◌, ◌*◌, ◌/◌, ◌%◌, ◌^◌, ◌<◌, ◌≤◌, ◌≡◌, ◌⊎◌, refl, ◌∙◌, true, false, none, some,
  List, [], ◌∷◌, ◌++◌, arith, ltb, leb, Bool-cases, inl, inr, length, lt→ltb, ltb→lt, pow_suc,
}
use sched_v2_solution.Kernel.Pcb.{word}
use sched_v2_solution.Strings.{Bytes}
use sched_v2_solution.Strings.Number.{digit, strtol_digits}
use sched_v2_solution.Format.Digits.{digit_char, printnum}

length-append : (xs ys : List ℕ) → length (xs ++ ys) ≡ length xs + length ys
length-append [] ys = omega arith
length-append (x ∷ xs) ys = omega (arith, length-append xs ys)

-- Memory holds these characters from address s on.
abbrev pub Holds : Bytes → (s : ℕ) → List ℕ → Type 0
Holds m s [] = Unit {0}
Holds m s (c ∷ cs) = (m s ≡ c) × Holds m (s + 1) cs

Holds-append :
    (m : Bytes) (s : ℕ) (xs ys : List ℕ)
    → Holds m s (xs ++ ys)
    → Holds m s xs × Holds m (s + length xs) ys
Holds-append m s [] ys h = let here : s + 0 ≡ s = omega arith in (tt, rw here h)
Holds-append m s (x ∷ xs) ys h =
    let (left, right) = Holds-append m (s + 1) xs ys h.1 in
    let there : s + suc (length xs) ≡ s + 1 + length xs = omega arith in
    ((h.0, left), rw there right)

digit-digit_char : (d : ℕ) → d < 16 → digit (digit_char d) ≡ some d
unfolding digit digit_char
digit-digit_char d lt = ground arith

-- One round of the digit loop on a digit of the base.
digit_round :
    (m : Bytes) (r base s v d : ℕ)
    → base ≤ 16
    → d < base
    → m s ≡ digit_char d
    → strtol_digits (suc r) m base s v ≡ strtol_digits r m base (s + 1) (word (v * base + d))
unfolding strtol_digits
digit_round m r base s v d fits lt e =
    let below : leb base d ≡ false = ground arith in
    rw (strtol_digits, e, digit-digit_char d (omega arith), below)

abbrev digits_of : (n num base : ℕ) → List ℕ
digits_of n num base = printnum n num base 0 0

digits-one : (n num base : ℕ) → num < base → digits_of (suc n) num base ≡ digit_char num ∷ []
unfolding printnum
digits-one n num base lt =
    let small : num % base ≡ num = grind arith in rw (lt→ltb num base lt, small)

digits-more :
    (n num base : ℕ)
    → base ≤ num
    → digits_of (suc n) num base ≡ digits_of n (num / base) base ++ digit_char (num % base) ∷ []
unfolding printnum
digits-more n num base le = let big : ltb num base ≡ false = ground arith in rw big

half : (n num base : ℕ) → 2 ≤ base → num < 2 ^ suc n → num / base < 2 ^ n
half n num base h lt =
    let twice : 2 * (num / base) ≤ num = grind arith in omega (arith, pow_suc 1 n, twice)

split : (num base : ℕ) → num / base * base + num % base ≡ num
split num base = grind arith

last_round :
    (n num base : ℕ) (m : Bytes) (s r : ℕ)
    → base ≤ 16
    → num < base
    → num < 0x1_0000_0000
    → Holds m s (digits_of (suc n) num base)
    → strtol_digits (length (digits_of (suc n) num base) + r) m base s 0
      ≡ strtol_digits r m base (s + length (digits_of (suc n) num base)) num
last_round n num base m s r sixteen lt fits h =
    let all = digits-one n num base lt in
    let rounds : 1 + r ≡ suc r = omega arith in
    let value : word (0 * base + num) ≡ num = grind arith in
    let first : Holds m s (digit_char num ∷ []) = rw all at h in
    rw (all, rounds) (digit_round m r base s 0 num sixteen lt first.0 ∙ rw value)

digits-zero : (num base : ℕ) → digits_of 0 num base ≡ []
unfolding printnum
digits-zero num base = refl

-- A character that is no digit of the base: no digit or letter at all, or one that is too large.
unfoldable pub NotDigit : (base c : ℕ) → Type 0
NotDigit base c = (digit c ≡ none) ⊎ ((d : ℕ) × (digit c ≡ some d) × (base ≤ d))

-- The loop ends at a character that is no digit of the base.
digits_end :
    (m : Bytes) (r base s v : ℕ)
    → NotDigit base (m s)
    → strtol_digits (suc r) m base s v ≡ some (v, s)
unfolding strtol_digits NotDigit
digits_end m r base s v (inl stop) = rw (strtol_digits, stop)
digits_end m r base s v (inr (d, letter, large)) =
    let stop : leb base d ≡ true = ground arith in rw (strtol_digits, letter, stop)

next_round :
    (cs : List ℕ) (q d num base : ℕ) (m : Bytes) (s r : ℕ)
    → base ≤ 16
    → d < base
    → q * base + d ≡ num
    → num < 0x1_0000_0000
    → m (s + length cs) ≡ digit_char d
    → strtol_digits (length cs + suc r) m base s 0 ≡ strtol_digits (suc r) m base (s + length cs) q
    → strtol_digits (length (cs ++ digit_char d ∷ []) + r) m base s 0
      ≡ strtol_digits r m base (s + length (cs ++ digit_char d ∷ [])) num
next_round cs q d num base m s r sixteen lt sum fits e before =
    let long = length-append cs (digit_char d ∷ []) in
    let rounds : length cs + 1 + r ≡ length cs + suc r = omega arith in
    let place : s + (length cs + 1) ≡ s + length cs + 1 = omega arith in
    let value : word (q * base + d) ≡ num = rw sum (omega arith) in
    rw (long, rounds, place)
      (before ∙ digit_round m r base (s + length cs) q d sixteen lt e ∙ rw value)

round_trip :
    (n num base : ℕ) (m : Bytes) (s r : ℕ)
    → 2 ≤ base
    → base ≤ 16
    → num < 2 ^ n
    → num < 0x1_0000_0000
    → Holds m s (digits_of n num base)
    → strtol_digits (length (digits_of n num base) + r) m base s 0
      ≡ strtol_digits r m base (s + length (digits_of n num base)) num
round_trip zero num base m s r two sixteen lt fits h =
    let nothing = digits-zero num base in
    let none_left : num ≡ 0 = omega arith in
    let here : s + 0 ≡ s = omega arith in
    let rounds : 0 + r ≡ r = omega arith in rw (nothing, none_left, here, rounds)
round_trip (suc n) num base m s r two sixteen lt fits h = elim (Bool-cases (ltb num base)) [
  | inl one ↦ last_round n num base m s r sixteen (ltb→lt num base one) fits h
  | inr more ↦
      let le : base ≤ num = ground arith in
      let cs = digits_of n (num / base) base in
      let (before, last) =
        Holds-append m s cs (digit_char (num % base) ∷ []) (rw (digits-more n num base le) at h) in
      let less : num / base ≤ num = grind arith in
      rw (digits-more n num base le) (
        next_round cs (num / base) (num % base) num base m s r sixteen (grind arith)
          (split num base) fits last.0
          (round_trip n (num / base) base m s (suc r) two sixteen (half n num base two lt)
            (omega arith) before))
]

-- In a base from 2 to 16, when memory holds from s on the digits that printnum prints for a
-- number below 2^32 with no padding, and then a character that is not a digit of the base, the
-- digit loop of strtol reads the number back and stops at that character.
pub strtol_digits-printnum :
    (num base : ℕ) (m : Bytes) (s r : ℕ)
    → 2 ≤ base
    → base ≤ 16
    → num < 0x1_0000_0000
    → Holds m s (printnum 64 num base 0 0)
    → NotDigit base (m (s + length (printnum 64 num base 0 0)))
    → strtol_digits (length (printnum 64 num base 0 0) + suc r) m base s 0
      ≡ some (num, s + length (printnum 64 num base 0 0))
strtol_digits-printnum num base m s r two sixteen fits h stop =
    round_trip 64 num base m s (suc r) two sixteen (omega arith) fits h
    ∙ digits_end m r base (s + length (printnum 64 num base 0 0)) num stop
