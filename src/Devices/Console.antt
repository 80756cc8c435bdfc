-- ===== src/Devices/Console.antt =====
-- The console over its devices: the rest of sched/kern/console.c, and sched/lib/readline.c.
pub mod Line
use sched_v2_solution.Base.{
  ℕ, zero, suc, ◌+◌, ◌-◌, ◌%◌, Bool, true, not, Option, none, some, List, [], ◌∷◌, ◌==◌,
  if◌then◌else◌, bit_and,
}
use sched_v2_solution.Format.Escape.{codes}
use sched_v2_solution.Devices.Ports.{
  Io, Hardware, Trace, pure, ◌>>=◌, ◌>>◌, inb, outb, com1, Pic, irq_setmask_8259_a,
}
use sched_v2_solution.Devices.Queue.{Cons, drive, take_char}
use sched_v2_solution.Devices.Screen.{Screen, cga_init, cons_putc, put_text}
use sched_v2_solution.Devices.Keyboard.{Kbd, kbd_proc_data, clear}

-- The static variables of console.c.
pub record Console : Type 0 where
  pub cons : Cons
  pub kbd : Kbd
  pub serial_exists : Bool

-- serial_proc_data: none is -1.
unfoldable pub serial_proc_data : Unit {0} → Io (Option ℕ × Unit {0})
unfolding inb
serial_proc_data s = do
  status ← inb (com1 + 5)
  if bit_and status 1 == 0 then pure (none, tt) else (inb com1 >>= λ c. pure (some c, tt))

-- serial_intr and kbd_intr take in at most `rounds` values; none is a device that goes on.
unfoldable pub serial_intr : (rounds : ℕ) → Console → Io (Option Console)
unfolding drive serial_proc_data
serial_intr rounds con =
    if con.serial_exists
    then (drive rounds serial_proc_data con.cons tt >>= λ r.
        pure (elim r [ none ↦ none | some p ↦ some (record con { cons = p.0 }) ]))
    else pure (some con)

unfoldable pub kbd_intr : (rounds : ℕ) → Console → Io (Option Console)
unfolding drive kbd_proc_data
kbd_intr rounds con = drive rounds kbd_proc_data con.cons con.kbd >>= λ r.
    pure (elim r [ none ↦ none | some p ↦ some (record con { cons = p.0; kbd = p.1 }) ])

-- A step after one that may not end.
abbrev pub ◌>>?◌ : {A B : Type 0} → Io (Option A) → (A → Io (Option B)) → Io (Option B)
c >>? f = c >>= λ r. elim r [ none ↦ pure none | some a ↦ f a ]

infixl 5 ◌>>?◌
-- IRQ_KBD is 1.
unfoldable pub kbd_init : (rounds : ℕ) → Console → Pic → Io (Option (Console × Pic))
unfolding kbd_intr irq_setmask_8259_a
kbd_init rounds con p = kbd_intr rounds con >>? λ con'.
    irq_setmask_8259_a (clear p.irq_mask_8259_a 2) p >>= λ p'. pure (some (con', p'))

unfoldable pub serial_init : Console → Io Console
unfolding inb outb
serial_init con = do
  outb (com1 + 2) 0
  outb (com1 + 3) 0x80
  outb com1 12
  outb (com1 + 1) 0
  outb (com1 + 3) 3
  outb (com1 + 4) 0
  outb (com1 + 1) 1
  lsr ← inb (com1 + 5)
  iir ← inb (com1 + 2)
  rx ← inb com1
  pure (record con { serial_exists = not (lsr == 0xff) })

-- The next character, or 0.
unfoldable pub cons_getc : (rounds : ℕ) → Console → Io (Option (ℕ × Console))
unfolding serial_intr kbd_intr take_char
cons_getc rounds con = serial_intr rounds con >>? λ con'. kbd_intr rounds con' >>? λ con''.
    let r = take_char con''.cons in pure (some (r.0, record con'' { cons = r.1 }))

-- Calls cons_getc until there is a character, at most `tries` times.
unfoldable pub getchar : (tries rounds : ℕ) → Console → Io (Option (ℕ × Console))
unfolding cons_getc
getchar zero rounds con = pure none
getchar (suc n) rounds con = cons_getc rounds con >>? λ r. elim r.0 [
  | zero ↦ getchar n rounds r.1
  | suc c ↦ pure (some (suc c, r.1))
]

unfoldable pub cputchar : ℕ → Console → Io Console
unfolding cons_putc
cputchar c con =
    cons_putc c con.kbd.screen >>= λ s. pure (record con { kbd = record con.kbd { screen = s } })

unfoldable pub cons_init :
    (rounds : ℕ) (keeps : Bool) (cells : ℕ → ℕ) → Console → Pic → Io (Option (Console × Pic))
unfolding cga_init kbd_init serial_init put_text
cons_init rounds keeps cells con p = cga_init keeps cells >>= λ s.
    kbd_init rounds (record con { kbd = record con.kbd { screen = s } }) p >>? λ r.
    serial_init r.0 >>= λ con'.
    if con'.serial_exists
    then pure (some (con', r.1))
    else (put_text (codes "Serial port does not exist!\n") con'.kbd.screen >>= λ s'.
        pure (some (record con' { kbd = record con'.kbd { screen = s' } }, r.1)))
