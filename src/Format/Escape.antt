-- ===== src/Format/Escape.antt =====
-- vprintfmt of sched/lib/printfmt.c. The output is the list of the values given to putch, and the
-- variable arguments are a list of numbers, of which each conversion takes the bits of its type.
use sched_v2_solution.Base.{
  ℕ, zero, suc, ◌+◌, ◌-◌, ◌*◌, ◌%◌, ◌^◌, Bool, true, false, ◌&&◌, ◌||◌, Option, none, some, List,
  [], ◌∷◌, ◌++◌, ltb, leb, ◌==◌, if◌then◌else◌,
}
use Prim.Native.Char.{code}
use Prim.Native.String.{String}
use sched_v2_solution.Kernel.Pcb.{word}
use sched_v2_solution.Strings.{Bytes}
use sched_v2_solution.Format.Digits.{printnum, replicate, max_digits}

-- The variables of one escape sequence. For width and precision a negative value, such as the -1
-- at the start, is `none`; `start` is the address behind the '%'.
pub record Spec : Type 0 where
  pub padc : ℕ
  pub width : Option ℕ
  pub precision : Option ℕ
  pub lflag : ℕ
  pub altflag : Bool
  pub start : ℕ

abbrev pub fresh : ℕ → Spec
fresh start = record {
  padc = b' ';
  width = none;
  precision = none;
  lflag = 0;
  altflag = false;
  start = start;
}

-- Between two characters of the format: in plain text, or behind '%'.
pub data Mode : Type 0 where
  literal : Mode
  escape : Spec → Mode

-- What one character of the format does. A missing argument, and an integer that C leaves
-- undefined, are `stuck`.
pub data Action : Type 0 where
  finish stuck : Action
  go : (printed : List ℕ) → Mode → (fmt : ℕ) → List ℕ → Action

-- A char that is promoted to int.
abbrev pub char_int : ℕ → ℕ
char_int c = if ltb c 128 then c else c + 0xffff_ff00

-- An int32_t that is negative.
abbrev pub negative : ℕ → Bool
negative n = leb 0x8000_0000 n

abbrev pub int_field : ℕ → Option ℕ
int_field n = if negative n then none else some n

abbrev pub or_zero : Option ℕ → ℕ
or_zero none = 0
or_zero (some n) = n

-- process_precision.
unfoldable pub process_precision : Spec → Option ℕ → Spec
process_precision s precision = elim s.width [
  | none ↦ record s { width = precision; precision = none }
  | some _ ↦ record s { precision = precision }
]

abbrev pub is_digit : ℕ → Bool
is_digit c = leb b'0' c && leb c b'9'

-- The digits of a width: its value, and the address behind them; none where the int overflows.
unfoldable pub width_digits : (rounds : ℕ) → Bytes → (fmt precision : ℕ) → Option (ℕ × ℕ)
width_digits zero m fmt precision = none
width_digits (suc r) m fmt precision =
    let rest = width_digits r m (fmt + 1) (precision * 10 + (m fmt - b'0')) in
    let next = if ltb (precision * 10 + m fmt) 0x8000_0000 then rest else none in
    if is_digit (m fmt) then next else some (precision, fmt)

abbrev pub spent : Option ℕ → Bool
spent none = false
spent (some n) = n == 0

abbrev pub less : Option ℕ → Option ℕ
less none = none
less (some n) = some (n - 1)

abbrev pub prepend : List ℕ → Option (List ℕ) → Option (List ℕ)
prepend cs none = none
prepend cs (some ds) = some (cs ++ ds)

-- The characters of a string, to its null character or to the precision.
unfoldable pub string_chars : (rounds : ℕ) → Bytes → (p : ℕ) → Option ℕ → Option (List ℕ)
string_chars zero m p precision = none
string_chars (suc r) m p precision =
    let rest = string_chars r m (p + 1) (less precision) in
    if m p == 0 || spent precision then some [] else prepend (m p ∷ []) rest

unfoldable pub shown : Bool → ℕ → ℕ
shown altflag c = if altflag && (ltb c b' ' || ltb b'~' c) then b'?' else char_int c

abbrev pub map_chars : (ℕ → ℕ) → List ℕ → List ℕ
map_chars f [] = []
map_chars f (c ∷ cs) = f c ∷ map_chars f cs

abbrev pub take : ℕ → List ℕ → List ℕ
take zero cs = []
take (suc n) [] = []
take (suc n) (c ∷ cs) = c ∷ take n cs

abbrev pub count : List ℕ → ℕ
count [] = 0
count (c ∷ cs) = suc (count cs)

-- The characters with their padding: on the left, or on the right with ' '.
unfoldable pub pad_string : Spec → List ℕ → List ℕ
unfolding shown
pad_string s cs =
    let missing = or_zero s.width - count cs in
    if s.padc == b'-'
    then map_chars (shown s.altflag) cs ++ replicate missing b' '
    else replicate missing s.padc ++ map_chars (shown s.altflag) cs

abbrev pub codes : String → List ℕ
codes String.[] = []
codes (String.◌∷◌ c t) = code c ∷ codes t

-- error_string
abbrev pub error_string : ℕ → Option (List ℕ)
error_string n =
    if n == 1
    then some (codes "unspecified error")
    else if n == 2
    then some (codes "bad environment")
    else if n == 3
    then some (codes "invalid parameter")
    else if n == 4
    then some (codes "out of memory")
    else if n == 5
    then some (codes "out of environments")
    else if n == 6
    then some (codes "segmentation fault")
    else if n == 7
    then some (codes "env is not recving")
    else if n == 8
    then some (codes "unexpected end of file")
    else none

-- getuint and getint.
unfoldable pub getuint : ℕ → ℕ → ℕ
getuint lflag arg = if leb 2 lflag then arg % 2 ^ 64 else word arg

-- The sign, and the magnitude.
unfoldable pub getint : ℕ → ℕ → Bool × ℕ
getint lflag arg =
    if leb 2 lflag
    then (if leb (2 ^ 63) (arg % 2 ^ 64)
        then (true, 2 ^ 64 - arg % 2 ^ 64)
        else (false, arg % 2 ^ 64))
    else if negative (word arg)
    then (true, 0x1_0000_0000 - word arg)
    else (false, word arg)

unfoldable pub number : Spec → (num base : ℕ) → List ℕ
number s num base = printnum max_digits num base (or_zero s.width) s.padc

-- The decimal print of printfmt's "%d" at a number that is not negative.
abbrev pub plain_decimal : ℕ → List ℕ
plain_decimal n = printnum max_digits n 10 0 b' '

unfoldable pub error_text : (magnitude : ℕ) → List ℕ
error_text n = elim (error_string n) [ none ↦ codes "error " ++ plain_decimal n | some text ↦ text ]

-- What a precision leaves of "(null)".
abbrev pub cut : Option ℕ → List ℕ → List ℕ
cut none cs = cs
cut (some n) cs = take n cs

abbrev pub pad_read : Spec → Option (List ℕ) → Option (List ℕ)
pad_read s none = none
pad_read s (some cs) = some (pad_string s cs)

-- The conversions that take an argument.
unfoldable pub convert : (rounds : ℕ) → Bytes → Spec → (ch arg : ℕ) → Option (List ℕ)
unfolding getuint getint number error_text pad_string string_chars
convert rounds m s ch arg =
    if ch == b'c'
    then some (word arg ∷ [])
    else if ch == b'e'
    then (if word arg == 0x8000_0000
        then none
        else some (error_text (if negative (word arg) then 0x1_0000_0000 - word arg else word arg)))
    else if ch == b's'
    then (if word arg == 0
        then some (pad_string s (cut s.precision (codes "(null)")))
        else pad_read s (string_chars rounds m (word arg) s.precision))
    else if ch == b'd'
    then (let (minus, num) = getint s.lflag arg in
        some ((if minus then b'-' ∷ [] else []) ++ number s num 10))
    else if ch == b'u'
    then some (number s (getuint s.lflag arg) 10)
    else if ch == b'o'
    then some (number s (getuint s.lflag arg) 8)
    else if ch == b'p'
    then some (b'0' ∷ b'x' ∷ number s (word arg) 16)
    else some (number s (getuint s.lflag arg) 16)

abbrev pub is_conversion : ℕ → Bool
is_conversion ch =
    ch == b'c'
    || ch == b'e'
    || ch == b's'
    || ch == b'd'
    || ch == b'u'
    || ch == b'o'
    || ch == b'p'
    || ch == b'x'

abbrev pub printed_arg : Option (List ℕ) → (fmt : ℕ) → List ℕ → Action
printed_arg none fmt args = stuck
printed_arg (some cs) fmt args = go cs literal fmt args

unfoldable pub convert_arg : (rounds : ℕ) → Bytes → Spec → (ch fmt : ℕ) → List ℕ → Action
unfolding convert
convert_arg rounds m s ch fmt [] = stuck
convert_arg rounds m s ch fmt (arg ∷ args) = printed_arg (convert rounds m s ch arg) fmt args

-- '*': the width or the precision is an argument.
unfoldable pub star : Spec → (fmt : ℕ) → List ℕ → Action
unfolding process_precision
star s fmt [] = stuck
star s fmt (arg ∷ args) = go [] (escape (process_precision s (int_field (word arg)))) fmt args

abbrev pub width_read : Spec → Option (ℕ × ℕ) → List ℕ → Action
width_read s none args = stuck
width_read s (some (precision, fmt)) args =
    go [] (escape (process_precision s (some precision))) fmt args

-- The switch on the character ch at fmt - 1. A character that is not known, the null character
-- among them, prints '%' and starts over behind it.
unfoldable pub switch : (rounds : ℕ) → Bytes → Spec → (ch fmt : ℕ) → List ℕ → Action
unfolding convert_arg star process_precision width_digits
switch rounds m s ch fmt args =
    if ch == b'-'
    then go [] (escape (record s { padc = b'-' })) fmt args
    else if ch == b'0'
    then go [] (escape (record s { padc = b'0' })) fmt args
    else if is_digit ch
    then width_read s (width_digits rounds m (fmt - 1) 0) args
    else if ch == b'*'
    then star s fmt args
    else if ch == b'.'
    then go [] (escape (record s { width = some (or_zero s.width) })) fmt args
    else if ch == b'#'
    then go [] (escape (record s { altflag = true })) fmt args
    else if ch == b'l'
    then go [] (escape (record s { lflag = s.lflag + 1 })) fmt args
    else if is_conversion ch
    then convert_arg rounds m s ch fmt args
    else if ch == b'%'
    then go (b'%' ∷ []) literal fmt args
    else go (b'%' ∷ []) literal s.start args

unfoldable pub step : (rounds : ℕ) → Bytes → Mode → (fmt : ℕ) → List ℕ → Action
unfolding switch
step rounds m literal fmt args =
    if m fmt == b'%'
    then go [] (escape (fresh (fmt + 1))) (fmt + 1) args
    else if m fmt == 0
    then finish
    else go (m fmt ∷ []) literal (fmt + 1) args
step rounds m (escape s) fmt args = switch rounds m s (m fmt) (fmt + 1) args

-- The loop, a character of the format in each round. `none` is a bound that is too small, or stuck.
unfoldable pub vprintfmt : (rounds : ℕ) → Bytes → Mode → (fmt : ℕ) → List ℕ → Option (List ℕ)
unfolding step
vprintfmt zero m mode fmt args = none
vprintfmt (suc r) m mode fmt args = elim (step (suc r) m mode fmt args) [
  | finish ↦ some []
  | stuck ↦ none
  | go cs mode' fmt' args' ↦ prepend cs (vprintfmt r m mode' fmt' args')
]
