-- ===== src/Pmap/UserMem.antt =====
-- user_mem_check of sched/kern/pmap.c.
pub mod Soundness
use sched_v2_solution.Base.{
  ℕ, zero, suc, ◌+◌, ◌-◌, ◌*◌, ◌/◌, ◌%◌, Bool, true, false, Option, none, some, ◌==◌, ltb,
  if◌then◌else◌, bit_and, bit_or,
}
use sched_v2_solution.Kernel.Ram.{Memory}
use sched_v2_solution.Kernel.Pcb.{word}
use sched_v2_solution.Pmap.Alloc.{MemCmd, pure, ◌>>=◌}
use sched_v2_solution.Pmap.Table.{PtePtr, read, pte_p, pgdir_walk}

abbrev pub pgsize : ℕ
pgsize = 0x1000

-- UTOP: KERNBASE less five regions of PTSIZE.
abbrev pub utop : ℕ
utop = 0xeec0_0000

abbrev pub rounddown : ℕ → ℕ
rounddown a = a / pgsize * pgsize

-- ROUNDUP computes in uint32_t.
abbrev pub roundup : ℕ → ℕ
roundup a = rounddown (word (a + (pgsize - 1)))

-- 0, or -E_FAULT with the value of user_mem_check_addr.
pub data Checked : Type 0 where
  allowed : Checked
  fault : ℕ → Checked

-- `(!pte) || ((*pte) & (perm | PTE_P)) != (perm | PTE_P)`, negated.
unfoldable pub grants : Memory → ℕ → Option PtePtr → Bool
grants m perm none = false
grants m perm (some pte) = bit_and (read m pte) (bit_or perm pte_p) == bit_or perm pte_p

-- n rounds of the loop, from the page at va_act.
unfoldable pub check_pages : (n pgdir va_lo va_act perm : ℕ) → MemCmd Checked
check_pages zero pgdir va_lo va_act perm = pure allowed
check_pages (suc n) pgdir va_lo va_act perm =
    let rest = check_pages n pgdir va_lo (va_act + pgsize) perm in
    do
      pte ← pgdir_walk pgdir va_act false
      λ m.
          if grants m perm pte
          then rest m
          else some (fault (if ltb va_lo va_act then va_act else va_lo), m)

-- The loop runs once for each page from va_lo, rounded down, to va_hi.
unfoldable pub user_mem_check : (pgdir va len perm : ℕ) → MemCmd Checked
user_mem_check pgdir va len perm =
    let va_hi = roundup (word (va + len)) in
    if ltb utop va_hi
    then pure (fault va)
    else check_pages ((va_hi - rounddown va) / pgsize) pgdir va (rounddown va) perm
