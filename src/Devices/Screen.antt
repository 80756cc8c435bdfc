-- ===== src/Devices/Screen.antt =====
-- The text screen (cga_init and cga_putc of console.c). crt_buf is indexed from the top left cell.
pub mod Inside
use sched_v2_solution.Base.{
  ℕ, zero, suc, ◌+◌, ◌-◌, ◌*◌, ◌/◌, ◌%◌, Bool, ◌&&◌, List, [], ◌∷◌, ltb, leb, ◌==◌, if◌then◌else◌,
  update,
}
use sched_v2_solution.Devices.Ports.{Io, pure, ◌>>=◌, ◌>>◌, inb, outb, serial_putc, lpt_putc}

abbrev pub crt_cols : ℕ
crt_cols = 80

abbrev pub crt_size : ℕ
crt_size = 2000

pub record Screen : Type 0 where
  pub addr_6845 : ℕ
  pub crt_buf : ℕ → ℕ
  pub crt_pos : ℕ

abbrev pub word16 : ℕ → ℕ
word16 n = n % 0x1_0000

-- Black on white where no attribute is given. The cells have 16 bits.
unfoldable pub with_attribute : ℕ → ℕ
with_attribute c = (if c / 256 == 0 then c + 0x700 else c) % 0x1_0000

-- The switch of cga_putc, but for the tab.
unfoldable pub put_cell : ℕ → Screen → Screen
put_cell c s =
    if c % 256 == 8
    then (if ltb 0 s.crt_pos
        then record s {
          crt_pos = s.crt_pos - 1;
          crt_buf = update s.crt_buf (s.crt_pos - 1) (c / 256 * 256 + 32);
        }
        else s)
    else if c % 256 == 10
    then (let p = word16 (s.crt_pos + crt_cols) in record s { crt_pos = p - p % crt_cols })
    else if c % 256 == 13
    then record s { crt_pos = s.crt_pos - s.crt_pos % crt_cols }
    else record s { crt_buf = update s.crt_buf s.crt_pos c; crt_pos = word16 (s.crt_pos + 1) }

-- A full screen moves up one line.
unfoldable pub scroll : Screen → Screen
scroll s =
    if leb crt_size s.crt_pos
    then record s {
      crt_buf = λ i.
          if ltb i (crt_size - crt_cols)
          then s.crt_buf (i + crt_cols)
          else if ltb i crt_size
          then 0x720
          else s.crt_buf i;
      crt_pos = s.crt_pos - crt_cols;
    }
    else s

unfoldable pub move_cursor : Screen → Io Screen
unfolding outb
move_cursor s = do
  outb s.addr_6845 14
  outb (s.addr_6845 + 1) (s.crt_pos / 256)
  outb s.addr_6845 15
  outb (s.addr_6845 + 1) s.crt_pos
  pure s

-- cga_putc of a character that is not a tab.
unfoldable pub cga_plain : ℕ → Screen → Io Screen
unfolding with_attribute put_cell scroll move_cursor
cga_plain c s = move_cursor (scroll (put_cell (with_attribute c) s))

-- cons_putc(' '), n times.
unfoldable pub put_spaces : (n : ℕ) → Screen → Io Screen
unfolding cga_plain
put_spaces zero s = pure s
put_spaces (suc n) s = serial_putc 32 >> lpt_putc 32 >> (cga_plain 32 s >>= λ s'. put_spaces n s')

unfoldable pub cga_putc : ℕ → Screen → Io Screen
unfolding put_spaces cga_plain scroll move_cursor
cga_putc c s =
    if with_attribute c % 256 == 9
    then (put_spaces 5 s >>= λ s'. move_cursor (scroll s'))
    else cga_plain c s

unfoldable pub cons_putc : ℕ → Screen → Io Screen
unfolding cga_putc
cons_putc c s = serial_putc c >> lpt_putc c >> cga_putc c s

-- cprintf of the kernel, on what vprintfmt prints.
unfoldable pub put_text : List ℕ → Screen → Io Screen
unfolding cons_putc
put_text [] s = pure s
put_text (c ∷ cs) s = cons_putc c s >>= λ s'. put_text cs s'

-- The screen that is there: a cell of the colour screen, at 0xb8000, keeps the pattern written to
-- it (`keeps`), or it is the monochrome one. The cells are those of the screen found.
unfoldable pub cga_init : (keeps : Bool) → (cells : ℕ → ℕ) → Io Screen
unfolding inb outb
cga_init keeps cells =
    let addr : ℕ = if keeps then 0x3d4 else 0x3b4 in
    do
      outb addr 14
      high ← inb (addr + 1)
      outb addr 15
      low ← inb (addr + 1)
      pure (record { addr_6845 = addr; crt_buf = cells; crt_pos = high * 256 + low })
