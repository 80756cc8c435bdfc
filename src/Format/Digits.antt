-- ===== src/Format/Digits.antt =====
-- printnum of sched/lib/printfmt.c. What is printed is the list of the characters given to putch.
pub mod RoundTrip
use sched_v2_solution.Base.{
  ℕ, zero, suc, ◌+◌, ◌-◌, ◌/◌, ◌%◌, List, [], ◌∷◌, ◌++◌, ltb, if◌then◌else◌,
}

abbrev pub replicate {ℓ} : {A : Type ℓ} → ℕ → A → List A
replicate zero x = []
replicate (suc n) x = x ∷ replicate n x

-- "0123456789abcdef"[d]
unfoldable pub digit_char : ℕ → ℕ
digit_char d = if ltb d 10 then 48 + d else 87 + d

-- printnum, with the number of digits that it may print; one call for each digit. The pad
-- characters stand before the first digit: a width that is not positive prints none.
unfoldable pub printnum : (digits num base width padc : ℕ) → List ℕ
unfolding digit_char
printnum zero num base width padc = []
printnum (suc n) num base width padc =
    let before = printnum n (num / base) base (width - 1) padc in
    (if ltb num base then replicate (width - 1) padc else before) ++ digit_char (num % base) ∷ []

-- An unsigned long long has at most 64 digits, in base 2 or above.
abbrev pub max_digits : ℕ
max_digits = 64
