-- ===== src/Devices/Lapic.antt =====
-- The local interrupt controllers (sched/kern/lapic.c). A register is its index in lapic[].
use sched_v2_solution.Base.{
  ℕ, zero, suc, ◌*◌, ◌/◌, ◌%◌, Bool, Option, none, some, leb, ◌==◌, if◌then◌else◌, bit_and, bit_or,
  update, ◌∷◌,
}
use sched_v2_solution.Devices.Ports.{Io, pure, ◌>>=◌, ◌>>◌, outb, lapic_read, lapic_write}

-- A read of a register.
unfoldable pub lapicr : ℕ → Io ℕ
lapicr index hw t = let v = hw.lapic t index % 0x1_0000_0000 in (v, lapic_read index v ∷ t)

-- The write of a register, and the read that waits for its end.
unfoldable pub lapicw : (index value : ℕ) → Io (Unit {0})
unfolding lapicr
lapicw index value hw t =
    (lapicr 8 >>= λ id. pure tt) hw (lapic_write index (value % 0x1_0000_0000) ∷ t)

-- Waits for the delivery of an interrupt, at most `rounds` reads of the register.
unfoldable pub delivered : (rounds : ℕ) → Io (Option (Unit {0}))
unfolding lapicr
delivered zero hw t = (none, t)
delivered (suc n) hw t =
    let r = lapicr 0xc0 hw t in
    let rest = delivered n hw r.1 in if bit_and r.0 0x1000 == 0 then (some tt, r.1) else rest

-- lapic_init behind the mapping of the registers.
unfoldable pub lapic_setup : (rounds : ℕ) (boot : Bool) → Io (Option (Unit {0}))
unfolding lapicr lapicw delivered
lapic_setup rounds boot = do
  lapicw 0x3c 0x127
  lapicw 0xf8 0xb
  lapicw 0xc8 0x2_0020
  lapicw 0xe0 10000000
  if boot then pure tt else lapicw 0xd4 0x1_0000
  lapicw 0xd8 0x1_0000
  version ← lapicr 0xc
  if leb 4 (version / 0x1_0000 % 0x100) then lapicw 0xd0 0x1_0000 else pure tt
  lapicw 0xdc 0x33
  lapicw 0xa0 0
  lapicw 0xa0 0
  lapicw 0x2c 0
  lapicw 0xc4 0
  lapicw 0xc0 0x8_8500
  d ← delivered rounds
  elim d [ none ↦ pure none | some u ↦ lapicw 0x20 0 >> pure (some tt) ]

-- cpunum, when lapic is not NULL (exists) and when it is.
unfoldable pub cpunum : (exists : Bool) → Io ℕ
unfolding lapicr
cpunum exists = if exists then (lapicr 8 >>= λ v. pure (v / 0x100_0000)) else pure 0

unfoldable pub lapic_eoi : (exists : Bool) → Io (Unit {0})
unfolding lapicw
lapic_eoi exists = if exists then lapicw 0x2c 0 else pure tt

-- lapic_startap, with the 16-bit words of the warm reset vector, which wrv points to.
unfoldable pub lapic_startap : (apicid addr : ℕ) → (wrv : ℕ → ℕ) → Io (ℕ → ℕ)
unfolding lapicw outb
lapic_startap apicid addr wrv = do
  outb 0x70 0xf
  outb 0x71 0xa
  lapicw 0xc4 (apicid * 0x100_0000)
  lapicw 0xc0 0xc500
  lapicw 0xc0 0x8500
  lapicw 0xc4 (apicid * 0x100_0000)
  lapicw 0xc0 (bit_or 0x600 (addr / 0x1000))
  lapicw 0xc4 (apicid * 0x100_0000)
  lapicw 0xc0 (bit_or 0x600 (addr / 0x1000))
  pure (update (update wrv 0 0) 1 (addr / 0x10 % 0x1_0000))

unfoldable pub lapic_ipi : (rounds vector : ℕ) → Io (Option (Unit {0}))
unfolding lapicw delivered
lapic_ipi rounds vector = lapicw 0xc0 (bit_or 0xc_0000 vector) >> delivered rounds
