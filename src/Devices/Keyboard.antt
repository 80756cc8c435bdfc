-- ===== src/Devices/Keyboard.antt =====
-- kbd_proc_data of sched/kern/console.c. The shift keys are bits: SHIFT 1, CTL 2, ALT 4, CAPSLOCK
-- 8, NUMLOCK 16, SCROLLLOCK 32 and E0ESC 64.
use sched_v2_solution.Base.{
  ℕ, ◌+◌, ◌-◌, ◌*◌, ◌%◌, ◌&&◌, Option, none, some, leb, ◌==◌, if◌then◌else◌, bit_and, bit_or, not,
}
use sched_v2_solution.Format.Escape.{codes}
use sched_v2_solution.Devices.Ports.{Io, pure, ◌>>=◌, ◌>>◌, inb, outb}
use sched_v2_solution.Devices.Keymap.{shiftcode, togglecode, charcode}
use sched_v2_solution.Devices.Screen.{Screen, put_text}

-- a & ~b
abbrev pub clear : ℕ → ℕ → ℕ
clear a b = a - bit_and a b

-- a ^ b
abbrev pub toggle : ℕ → ℕ → ℕ
toggle a b = a + b - 2 * bit_and a b

-- The static variable shift, and the screen that the reboot message goes to.
pub record Kbd : Type 0 where
  pub shift : ℕ
  pub screen : Screen

-- What caps lock makes of a character.
unfoldable pub swap_case : ℕ → ℕ
swap_case c = if leb 97 c && leb c 122 then c - 32 else if leb 65 c && leb c 90 then c + 32 else c

abbrev pub key_del : ℕ
key_del = 0xe9

-- Ctrl-Alt-Del.
unfoldable pub reboot : ℕ → Kbd → Io (Option ℕ × Kbd)
unfolding put_text outb
reboot c k = put_text (codes "Rebooting!\n") k.screen >>= λ s.
    outb 0x92 3 >> pure (some c, record k { screen = s })

-- The character that a pressed key stands for.
unfoldable pub key_char : (shift byte : ℕ) → ℕ
unfolding charcode swap_case
key_char shift byte =
    let c = charcode (bit_and shift 3) byte in if not (bit_and shift 8 == 0) then swap_case c else c

-- From the shift codes on.
unfoldable pub press : (byte : ℕ) → Kbd → Io (Option ℕ × Kbd)
unfolding shiftcode togglecode key_char reboot
press byte k =
    let shift = toggle (bit_or k.shift (shiftcode byte)) (togglecode byte) in
    let c = key_char shift byte in
    let k' : Kbd = record k { shift = shift } in
    if bit_and shift 6 == 6 && c == key_del then reboot c k' else pure (some c, k')

-- A scan code.
unfoldable pub scan_code : (byte : ℕ) → Kbd → Io (Option ℕ × Kbd)
unfolding shiftcode press
scan_code byte k =
    let escaped = not (bit_and k.shift 64 == 0) in
    if byte == 0xe0
    then pure (some 0, record k { shift = bit_or k.shift 64 })
    else if leb 0x80 byte
    then (let released = if escaped then byte else byte % 0x80 in
        pure (some 0, record k { shift = clear k.shift (bit_or (shiftcode released) 64) }))
    else if escaped
    then press (byte + 0x80) (record k { shift = clear k.shift 64 })
    else press byte k

-- kbd_proc_data: none is -1.
unfoldable pub kbd_proc_data : Kbd → Io (Option ℕ × Kbd)
unfolding inb scan_code
kbd_proc_data k = do
  stat ← inb 0x64
  if bit_and stat 1 == 0
      then pure (none, k)
      else if not (bit_and stat 0x20 == 0)
      then pure (none, k)
      else (inb 0x60 >>= λ byte. scan_code byte k)
