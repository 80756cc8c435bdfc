-- ===== src/Devices/Tests.antt =====
-- The devices at concrete inputs, and the theorems about them at these.
use sched_v2_solution.Base.{
  ℕ, ◌≡◌, refl, none, some, List, [], ◌∷◌, ◌==◌, if◌then◌else◌, arith, map, ◌++◌,
}
use sched_v2_solution.Devices.Ports.{Hardware, com1}
use sched_v2_solution.Devices.Queue.{Cons, cons_intr}
use sched_v2_solution.Devices.Queue.Fifo.{Waits, Bytes, accept, accept_all, Lies, cons_intr-Waits}
use sched_v2_solution.Devices.Queue.Drive.{inputs, prepend}
use sched_v2_solution.Devices.Screen.{Screen, put_text}
use sched_v2_solution.Devices.Screen.Inside.{Inside, put_text-Inside}
use sched_v2_solution.Devices.Keymap.{normalmap, ctlmap, entry}
use sched_v2_solution.Devices.Console.{serial_proc_data}
use sched_v2_solution.Devices.Console.Line.{char, readline}
use sched_v2_solution.Devices.Console.Line.Edit.{Typed, Printable, readline-Text}

-- A buffer with no character, right before the end of the array.
abbrev empty : Cons
empty = record { buf = λ i. 7; rpos = 511; wpos = 511 }

empty-Waits : Waits empty []
unfolding Lies
empty-Waits = record { rpos_lt = omega arith; wpos_at = refl; room = omega arith; lies = tt }

abbrev keys : List ℕ
keys = 104 ∷ 0 ∷ 105 ∷ []

keys-Bytes : Bytes keys
unfolding Bytes
keys-Bytes = (omega arith, (omega arith, (omega arith, tt)))

cons_intr-Waits_example : Waits (cons_intr keys empty) (accept_all [] keys)
cons_intr-Waits_example = cons_intr-Waits empty [] keys keys-Bytes empty-Waits

accepted : accept_all [] keys ≡ 104 ∷ 105 ∷ []
unfolding accept_all accept
accepted = refl

-- A serial port that has one character, 65.
abbrev one_char : Hardware
one_char = record {
  port = λ t p. elim t [ [] ↦ 1 | a ∷ rest ↦ if p == com1 then 65 else 0 ];
  lapic = λ t i. 0;
}

one_input : (inputs 3 serial_proc_data tt one_char []).0 ≡ some (65 ∷ [], tt)
unfolding inputs prepend serial_proc_data
one_input = refl

-- A screen whose cursor is in the last cell.
abbrev last_cell : Screen
last_cell = record { addr_6845 = 0x3d4; crt_buf = λ i. 0; crt_pos = 1999 }

-- Devices that are ready at once.
abbrev ready : Hardware
ready = record { port = λ t p. 0xff; lapic = λ t i. 0 }

put_text-Inside_example : Inside (λ i. 0) (put_text (65 ∷ 9 ∷ 10 ∷ []) last_cell ready []).0
put_text-Inside_example =
    put_text-Inside (λ i. 0) (65 ∷ 9 ∷ 10 ∷ []) last_cell ready []
      (record { on_screen = omega arith; behind = λ i le. refl })

scrolled : Screen.crt_pos (put_text (65 ∷ 9 ∷ 10 ∷ []) last_cell ready []).0 ≡ 1920
unfolding put_text
scrolled = refl

text-Printable : Printable (104 ∷ 105 ∷ [])
unfolding Printable
text-Printable = (omega arith, omega arith, (omega arith, omega arith, tt))

readline-Text_example :
    Typed
      (λ i. 7)
      0
      (104 ∷ 105 ∷ [])
      (readline none (λ i. 7) (map char (104 ∷ 105 ∷ []) ++ char 10 ∷ char 33 ∷ []))
readline-Text_example =
    readline-Text none (λ i. 7) (104 ∷ 105 ∷ []) (char 33 ∷ []) text-Printable (omega arith)

-- The Home key sends 0xe0 0x47, which is looked up as 0xc7; the table for CTL has it at 0x97.
home : normalmap 0xc7 ≡ 0xe0
unfolding normalmap
home = refl

ctl_home : ctlmap 0xc7 ≡ 0
unfolding ctlmap entry
ctl_home = refl
