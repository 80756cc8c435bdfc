-- ===== src/Format/Buffer.antt =====
-- What printed characters go into: the string of vsnprintf (sched/lib/printfmt.c), and the lines
-- that cprintf hands to sys_cputs (sched/lib/printf.c).
pub mod Chunks
pub mod Fits
use sched_v2_solution.Base.{
  ℕ, ◌+◌, ◌-◌, ◌%◌, ◌||◌, Option, none, some, List, [], ◌∷◌, ◌++◌, ltb, leb, ◌==◌, if◌then◌else◌,
  update,
}
use sched_v2_solution.Kernel.Pcb.{word}
use sched_v2_solution.Strings.{Bytes}
use sched_v2_solution.Process.Cmd.{Result, ok, err, inval}
use sched_v2_solution.Format.Escape.{literal, vprintfmt}

-- struct sprintbuf, with the memory that it points into. The int cnt is a bit pattern, which wraps.
pub record Sprintbuf : Type 0 where
  pub bytes : Bytes
  pub buf : ℕ
  pub ebuf : ℕ
  pub cnt : ℕ

unfoldable pub sprintputch : ℕ → Sprintbuf → Sprintbuf
sprintputch ch b =
    if ltb b.buf b.ebuf
    then record b {
      cnt = word (b.cnt + 1);
      bytes = update b.bytes b.buf (ch % 256);
      buf = b.buf + 1;
    }
    else record b { cnt = word (b.cnt + 1) }

-- The calls that vprintfmt makes, in order.
unfoldable pub sprint : List ℕ → Sprintbuf → Sprintbuf
unfolding sprintputch
sprint [] b = b
sprint (c ∷ cs) b = sprint cs (sprintputch c b)

-- The null character behind what was printed.
unfoldable pub terminated : Sprintbuf → ℕ × Bytes
terminated b = (b.cnt, update b.bytes b.buf 0)

unfoldable pub finish : Option (List ℕ) → (buf n : ℕ) → Bytes → Option (Result (ℕ × Bytes))
unfolding sprint terminated
finish none buf n m = none
finish (some cs) buf n m =
    some
      (ok (terminated (sprint cs (record { bytes = m; buf = buf; ebuf = buf + n - 1; cnt = 0 }))))

-- The result with the bytes of memory. The format and the strings that it prints lie outside of
-- the buffer.
unfoldable pub vsnprintf : (rounds buf n fmt : ℕ) → List ℕ → Bytes → Option (Result (ℕ × Bytes))
unfolding finish
vsnprintf rounds buf n fmt args m =
    if buf == 0 || n == 0 || leb 0x8000_0000 n
    then some (err inval)
    else finish (vprintfmt rounds m literal fmt args) buf n m

-- struct printbuf of cprintf, whose int cnt is a bit pattern too, with the arguments of the calls of sys_cputs so far.
pub record Printbuf : Type 0 where
  pub held : List ℕ
  pub idx : ℕ
  pub cnt : ℕ
  pub sent : List (List ℕ)

unfoldable pub putch : ℕ → Printbuf → Printbuf
putch ch b =
    if b.idx + 1 == 255
    then record {
      held = [];
      idx = 0;
      cnt = word (b.cnt + 1);
      sent = b.sent ++ (b.held ++ ch % 256 ∷ []) ∷ [];
    }
    else record b { held = b.held ++ ch % 256 ∷ []; idx = b.idx + 1; cnt = word (b.cnt + 1) }

unfoldable pub put_all : List ℕ → Printbuf → Printbuf
unfolding putch
put_all [] b = b
put_all (c ∷ cs) b = put_all cs (putch c b)

-- vcprintf of the user library on what vprintfmt prints: its result, and the calls of sys_cputs.
unfoldable pub vcprintf : List ℕ → ℕ × List (List ℕ)
unfolding put_all
vcprintf cs =
    let b = put_all cs (record { held = []; idx = 0; cnt = 0; sent = [] }) in
    (b.cnt, b.sent ++ b.held ∷ [])
