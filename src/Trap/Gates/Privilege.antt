-- ===== src/Trap/Gates/Privilege.antt =====
-- Which vectors have a gate after trap_init, where they lead, and which of them a user may raise.
use sched_v2_solution.Base.{
  ℕ, ◌+◌, ◌*◌, ◌<◌, ◌≡◌, refl, sym, subst, Bool, true, false, arith, ◌==◌, ◌||◌, ◌&&◌, leb, not,
  if◌then◌else◌, Bool-cases, inl, inr,
}
use sched_v2_solution.Trap.Gates.{Gatedesc, no_gate, setgate, gd_kt, sts_ig32, trap_init}

-- The vectors of the exceptions but 9 and 15, which the processor does not raise, of the timer and
-- of the system call.
unfoldable pub has_gate : ℕ → Bool
has_gate v = (leb v 19 && not (v == 9) && not (v == 15)) || v == 32 || v == 48

-- The address a gate leads to.
abbrev pub offset : Gatedesc → ℕ
offset g = g.gd_off_31_16 * 0x1_0000 + g.gd_off_15_0

-- `int v` in user mode, at privilege level 3, goes through the gate; without that it is a general
-- protection fault.
abbrev pub user_may_raise : Gatedesc → Bool
user_may_raise g = g.gd_p == 1 && leb 3 g.gd_dpl

-- The gate leads to the stub, in the kernel's code segment, with interrupts off.
pub record LeadsTo (stub : ℕ) (g : Gatedesc) : Type 0 where
  pub is_present : g.gd_p ≡ 1
  pub to_stub : offset g ≡ stub
  pub to_kernel : g.gd_sel ≡ gd_kt
  pub interrupts_off : g.gd_type ≡ sts_ig32

pub record Guards (stub v : ℕ) (g : Gatedesc) : Type 0 where
  pub absent : has_gate v ≡ false → g.gd_p ≡ 0
  pub leads : has_gate v ≡ true → LeadsTo stub g
  pub user : user_may_raise g ≡ (v == 3 || v == 48)

setgate-LeadsTo : (off dpl : ℕ) → off < 0x1_0000_0000 → LeadsTo off (setgate false gd_kt off dpl)
unfolding setgate
setgate-LeadsTo off dpl lt = record {
  is_present = refl;
  to_stub = omega (arith, lt);
  to_kernel = refl;
  interrupts_off = refl;
}

-- The gate that trap_init leaves at a vector.
trap_init_at :
    (stub : ℕ → ℕ) (idt : ℕ → Gatedesc) (v : ℕ)
    → trap_init stub idt v ≡ (
        if has_gate v
        then setgate false gd_kt (stub v) (if v == 3 || v == 48 then 3 else 0)
        else idt v)
unfolding trap_init has_gate
trap_init_at stub idt v = ground arith

set-Guards :
    (off v : ℕ)
    → off < 0x1_0000_0000
    → has_gate v ≡ true
    → Guards off v (setgate false gd_kt off (if v == 3 || v == 48 then 3 else 0))
unfolding has_gate setgate
set-Guards off v lt here = record {
  absent = λ gone. absurd (ground (arith, here, gone));
  leads = λ _. setgate-LeadsTo off (if v == 3 || v == 48 then 3 else 0) lt;
  user = ground arith;
}

empty-Guards : (off v : ℕ) → has_gate v ≡ false → Guards off v no_gate
unfolding has_gate
empty-Guards off v gone = record {
  absent = λ _. refl;
  leads = λ here. absurd (ground (arith, here, gone));
  user = ground (arith, gone);
}

-- When every stub has a 32-bit address, after trap_init on an empty table, a vector has a gate
-- exactly when it is an exception that the processor raises, the timer's or the system call's; the
-- gate leads to the vector's own stub, in the kernel's code segment, with interrupts off; and `int`
-- in user mode is allowed for the breakpoint and the system call alone.
pub trap_init-Guards :
    (stub : ℕ → ℕ) (v : ℕ)
    → ((n : ℕ) → stub n < 0x1_0000_0000)
    → Guards (stub v) v (trap_init stub (λ n. no_gate) v)
trap_init-Guards stub v small = elim (Bool-cases (has_gate v)) [
  | inl here ↦
      subst (Guards (stub v) v) (sym (rw here at (trap_init_at stub (λ n. no_gate) v)))
        (set-Guards (stub v) v (small v) here)
  | inr gone ↦
      subst (Guards (stub v) v) (sym (rw gone at (trap_init_at stub (λ n. no_gate) v)))
        (empty-Guards (stub v) v gone)
]
