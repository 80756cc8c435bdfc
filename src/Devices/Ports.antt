-- ===== src/Devices/Ports.antt =====
-- inb and outb (sched/inc/x86.h) and the code that only uses these: sched/kern/picirq.c and
-- kclock.c, and the serial and parallel output of sched/kern/console.c.
use sched_v2_solution.Base.{
  ℕ, zero, suc, ◌+◌, ◌/◌, ◌%◌, Bool, true, List, ◌∷◌, ◌==◌, if◌then◌else◌, bit_and,
}

-- What the processor does to a device: it reads a value from a port or writes one to it; lapic
-- accesses go to a register of the local interrupt controller.
pub data Access : Type 0 where
  read write lapic_read lapic_write : ℕ → ℕ → Access

-- A machine's devices: what a read returns, from all accesses so far, the last one first.
pub record Hardware : Type 0 where
  pub port : List Access → ℕ → ℕ
  pub lapic : List Access → ℕ → ℕ

abbrev pub Trace : Type 0
Trace = List Access

-- A command on the devices, that cannot fail.
abbrev pub Io : Type 0 → Type 0
Io A = Hardware → Trace → A × Trace

abbrev pub pure : {A : Type 0} → A → Io A
pure a hw t = (a, t)

infixl 5 ◌>>=◌ ◌>>◌
abbrev pub ◌>>=◌ : {A B : Type 0} → Io A → (A → Io B) → Io B
◌>>=◌ c f hw t = let r = c hw t in f r.0 hw r.1

abbrev pub ◌>>◌ : {B : Type 0} → Io (Unit {0}) → Io B → Io B
c >> d = c >>= λ _. d

unfoldable pub inb : ℕ → Io ℕ
inb p hw t = let v = hw.port t p % 256 in (v, read p v ∷ t)

unfoldable pub outb : (port value : ℕ) → Io (Unit {0})
outb p v hw t = (tt, write p (v % 256) ∷ t)

unfoldable pub delay : Io (Unit {0})
unfolding inb
delay = do
  inb 0x84 >>= λ _. pure tt
  inb 0x84 >>= λ _. pure tt
  inb 0x84 >>= λ _. pure tt
  inb 0x84 >>= λ _. pure tt

-- At most n more rounds of waiting for the bits of the mask at a status port, whose value was
-- `status`.
unfoldable pub poll : (n port mask status : ℕ) → Io (Unit {0})
unfolding inb delay
poll zero port mask status hw t = (tt, t)
poll (suc n) port mask status hw t =
    let rest = (delay >> inb port >>= λ s. poll n port mask s) hw t in
    if bit_and status mask == 0 then rest else (tt, t)

unfoldable pub wait_for : (rounds port mask : ℕ) → Io (Unit {0})
unfolding inb poll
wait_for rounds port mask = do status ← inb port; poll rounds port mask status

abbrev pub com1 : ℕ
com1 = 0x3f8

unfoldable pub serial_putc : ℕ → Io (Unit {0})
unfolding outb
serial_putc c = do wait_for 12800 (com1 + 5) 0x20; outb com1 c

unfoldable pub lpt_putc : ℕ → Io (Unit {0})
unfolding outb
lpt_putc c = do wait_for 12800 0x379 0x80; outb 0x378 c; outb 0x37a 0x0d; outb 0x37a 0x08

unfoldable pub mc146818_read : ℕ → Io ℕ
unfolding inb outb
mc146818_read reg = do outb 0x70 reg; inb 0x71

unfoldable pub mc146818_write : (reg datum : ℕ) → Io (Unit {0})
unfolding outb
mc146818_write reg datum = do outb 0x70 reg; outb 0x71 datum

-- The start of pic_init, which sets the two controllers up with all interrupts masked.
unfoldable pub pic_setup : Io (Unit {0})
unfolding outb
pic_setup = do
  outb 0x21 0xff
  outb 0xa1 0xff
  outb 0x20 0x11
  outb 0x21 32
  outb 0x21 0x04
  outb 0x21 0x3
  outb 0xa0 0x11
  outb 0xa1 40
  outb 0xa1 2
  outb 0xa1 0x01
  outb 0x20 0x68
  outb 0x20 0x0a
  outb 0xa0 0x68
  outb 0xa0 0x0a

-- irq_mask_8259A and didinit.
pub record Pic : Type 0 where
  pub irq_mask_8259_a : ℕ
  pub didinit : Bool

-- irq_setmask_8259A; what it prints is not modelled.
unfoldable pub irq_setmask_8259_a : (mask : ℕ) → Pic → Io Pic
unfolding outb
irq_setmask_8259_a mask p =
    let m = mask % 0x1_0000 in
    let p' : Pic = record { irq_mask_8259_a = m; didinit = p.didinit } in
    if p.didinit then (do outb 0x21 m; outb 0xa1 (m / 256); pure p') else pure p'

unfoldable pub pic_init : Pic → Io Pic
unfolding pic_setup irq_setmask_8259_a
pic_init p =
    let p' : Pic = record p { didinit = true } in
    pic_setup
    >> (if p.irq_mask_8259_a == 0xffff then pure p' else irq_setmask_8259_a p.irq_mask_8259_a p')
