-- ===== src/Format/Tests.antt =====
-- Formats printed, and the theorems on printing at small inputs.
use sched_v2_solution.Base.{
  length, ℕ, inl, inr, ◌+◌, ◌≡◌, refl, some, List, [], ◌∷◌, arith, ◌==◌, if◌then◌else◌,
}
use sched_v2_solution.Strings.{Bytes}
use sched_v2_solution.Strings.Number.{digit, strtol_digits}
use sched_v2_solution.Process.Cmd.{ok}
use sched_v2_solution.Format.Digits.{printnum}
use sched_v2_solution.Format.Digits.RoundTrip.{Holds, NotDigit, strtol_digits-printnum}
use sched_v2_solution.Format.Escape.{codes, literal, vprintfmt}
use sched_v2_solution.Format.Buffer.{vcprintf, vsnprintf}
use sched_v2_solution.Format.Buffer.Chunks.{concat, Short, vcprintf-concat}
use sched_v2_solution.Format.Buffer.Fits.{Fitted, vsnprintf-Fitted}

-- Memory with a text at address 100, and its null character.
abbrev at_or : ℕ → List ℕ → ℕ → ℕ
at_or start [] a = 0
at_or start (c ∷ cs) a = if start == a then c else at_or (start + 1) cs a

abbrev fmt : Bytes
fmt = at_or 100 (codes "%04x %5d|%-3d|%e%q")

printed :
    vprintfmt 40 fmt literal 100 (0x1f ∷ 0xffff_fff6 ∷ 7 ∷ 4 ∷ [])
    ≡ some (codes "001f -   10|--7|out of memory%q")
unfolding vprintfmt printnum
printed = refl

two_five_five : Holds (at_or 100 (codes "ff")) 100 (printnum 64 255 16 0 0)
unfolding printnum
two_five_five = (refl, (refl, tt))

two_chars : length (printnum 64 255 16 0 0) ≡ 2
unfolding printnum
two_chars = refl

stops : NotDigit 16 (at_or 100 (codes "ff") (100 + length (printnum 64 255 16 0 0)))
unfolding printnum digit NotDigit
stops = inl refl

strtol_digits-printnum_example :
    strtol_digits (length (printnum 64 255 16 0 0) + 1) (at_or 100 (codes "ff")) 16 100 0
    ≡ some (255, 100 + length (printnum 64 255 16 0 0))
strtol_digits-printnum_example =
    strtol_digits-printnum 255 16 (at_or 100 (codes "ff")) 100 0 (omega arith) (omega arith)
      (omega arith) two_five_five stops

vcprintf-concat_example :
    (concat (vcprintf (codes "hello")).1 ≡ codes "hello")
    × Short (vcprintf (codes "hello")).1
    × ((vcprintf (codes "hello")).0 ≡ 5)
vcprintf-concat_example = vcprintf-concat (codes "hello") (omega arith)

abbrev short_fmt : Bytes
short_fmt = at_or 100 (codes "n=%d")

short_printed : vprintfmt 20 short_fmt literal 100 (42 ∷ []) ≡ some (codes "n=42")
unfolding vprintfmt printnum
short_printed = refl

vsnprintf-Fitted_example :
    (r : ℕ × Bytes) × (vsnprintf 20 500 3 100 (42 ∷ []) short_fmt ≡ some (ok r))
    × Fitted (codes "n=42") 500 3 short_fmt r
vsnprintf-Fitted_example =
    vsnprintf-Fitted 20 500 3 100 (42 ∷ []) short_fmt (codes "n=42") (λ e. absurd (omega arith))
      (omega arith) (omega arith) short_printed (omega arith)

-- The digits "12" in base 2 are the number 1: '2' is a digit, but not of the base.
one_printed : Holds (at_or 100 (codes "12")) 100 (printnum 64 1 2 0 0)
unfolding printnum
one_printed = (refl, tt)

two-NotDigit : NotDigit 2 (at_or 100 (codes "12") (100 + length (printnum 64 1 2 0 0)))
unfolding printnum digit NotDigit
two-NotDigit = inr (2, refl, omega arith)

read_in_base_two :
    strtol_digits (length (printnum 64 1 2 0 0) + 1) (at_or 100 (codes "12")) 2 100 0
    ≡ some (1, 100 + length (printnum 64 1 2 0 0))
read_in_base_two =
    strtol_digits-printnum 1 2 (at_or 100 (codes "12")) 100 0 (omega arith) (omega arith)
      (omega arith) one_printed two-NotDigit
