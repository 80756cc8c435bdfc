-- ===== src/UserLib/Fork.antt =====
-- sched/lib/fork.c and set_pgfault_handler of sched/lib/pgfault.c, for the environment in slot `me`.
use sched_v2_solution.Base.{
  ℕ, zero, suc, ◌+◌, ◌*◌, ◌/◌, ◌%◌, Bool, true, false, not, ◌&&◌, ◌||◌, ◌==◌, if◌then◌else◌,
  bit_and, bit_or,
}
use sched_v2_solution.Kernel.{Policy}
use sched_v2_solution.Process.Cmd.{ok, err}
use sched_v2_solution.Syscall.Env.{sys_exofork, sys_env_set_status, sys_env_set_pgfault_upcall}
use sched_v2_solution.Syscall.Page.{
  sys_page_alloc, sys_page_map, sys_page_unmap, has_p, has_w, has_u,
}
use sched_v2_solution.UserLib.Call.{
  User, gave_up, pure, ◌>>=◌, ◌>>◌, call, must, uvpd, uvpt, copy_page,
}

abbrev pub pftemp : ℕ
pftemp = 0x7f_f000

abbrev pub utemp : ℕ
utemp = 0x40_0000

-- PTE_COW is bit 11, and PTE_PCD | PTE_PWT the bits 3 and 4.
abbrev pub is_cow : ℕ → Bool
is_cow pte = pte / 0x800 % 2 == 1

abbrev pub is_io : ℕ → Bool
is_io pte = not (pte / 8 % 4 == 0)

abbrev pub user_panic : {A : Type 0} → User A
user_panic k = gave_up k

-- The test `(err & FEC_WR) & !(fault_pte & PTE_COW)`.
unfoldable pub bad_fault : (utf_err pte : ℕ) → Bool
bad_fault utf_err pte = not (bit_and (bit_and utf_err 2) (if is_cow pte then 0 else 1) == 0)

-- pgfault, for a fault at va with the error code.
unfoldable pub pgfault : (me va utf_err : ℕ) → User ℕ
unfolding bad_fault uvpt copy_page
pgfault me va utf_err =
    let page = va / 0x1000 * 0x1000 in
    uvpt me (va / 0x1000) >>= λ pte.
    if bad_fault utf_err pte
    then user_panic
    else (must (sys_page_alloc me 0 pftemp 7)
        >> copy_page me pftemp page
        >> must (sys_page_map me 0 pftemp 0 page 7)
        >> must (sys_page_unmap me 0 pftemp))

unfoldable pub duppage : (me envid pn : ℕ) → User ℕ
unfolding uvpt
duppage me envid pn =
    let addr = pn * 0x1000 in
    uvpt me pn >>= λ pte.
    let perm : ℕ = if is_io pte then bit_or 5 0x18 else 5 in
    if not (has_p pte) || not (has_u pte)
    then user_panic
    else if has_w pte || is_cow pte
    then (must (sys_page_map me 0 addr envid addr (bit_or perm 0x800))
        >> must (sys_page_map me 0 addr 0 addr (bit_or perm 0x800))
        >> pure 0)
    else (must (sys_page_map me 0 addr envid addr perm) >> pure 0)

-- dup_or_share with the permissions 7, the only ones it is called with.
unfoldable pub dup_or_share : (me envid pn : ℕ) → User ℕ
unfolding uvpt copy_page
dup_or_share me envid pn =
    let addr = pn * 0x1000 in
    uvpt me pn >>= λ pte.
    let perm : ℕ = bit_or (bit_and 7 (bit_and pte 2)) (if is_io pte then 0x18 else 0) in
    if not (has_p pte)
    then pure 0
    else if not (has_w pte) || is_io pte
    then must (sys_page_map me 0 addr envid addr perm)
    else (must (sys_page_alloc me envid addr perm)
        >> must (sys_page_map me envid addr 0 utemp perm)
        >> copy_page me utemp addr
        >> must (sys_page_unmap me 0 utemp))

-- Whether the directory has a table for the page that user code may read.
abbrev pub has_table : ℕ → Bool
has_table pde = has_p pde && has_u pde

-- n rounds of the loop of fork_v0, from page pn on.
unfoldable pub share_pages : (n me envid pn : ℕ) → User ℕ
unfolding uvpd dup_or_share
share_pages zero me envid pn = pure 0
share_pages (suc n) me envid pn =
    uvpd me pn
    >>= (λ pde. if has_table pde then dup_or_share me envid pn else pure 0)
    >> share_pages n me envid (pn + 1)

-- The page of the exception stack.
abbrev pub exception_page : ℕ
exception_page = 0xe_ebff

-- n rounds of the loop of fork, from page pn on.
unfoldable pub dup_pages : (n me envid pn : ℕ) → User ℕ
unfolding uvpd uvpt duppage
dup_pages zero me envid pn = pure 0
dup_pages (suc n) me envid pn =
    (if pn == exception_page
      then pure 0
      else uvpd me pn >>= λ pde.
          if has_table pde
          then (uvpt me pn >>= λ pte.
              if has_p pte && has_u pte then duppage me envid pn else pure 0)
          else pure 0)
    >> dup_pages n me envid (pn + 1)

-- UTOP >> PGSHIFT.
abbrev pub user_pages : ℕ
user_pages = 0xe_ec00

-- fork_v0 in the parent; the child returns 0 from sys_exofork.
unfoldable pub fork_v0 : (me : ℕ) → User ℕ
unfolding share_pages
fork_v0 me = must (sys_exofork me) >>= λ envid.
    share_pages user_pages me envid 0 >> must (sys_env_set_status me envid 2) >> pure envid

-- set_pgfault_handler of a handler, with whether one was installed before and the address of
-- _pgfault_upcall; it returns whether one is installed after.
unfoldable pub set_pgfault_handler : Policy → (me upcall : ℕ) → (installed : Bool) → User Bool
set_pgfault_handler p me upcall true = pure true
set_pgfault_handler p me upcall false = call (sys_page_alloc me 0 0xeebf_f000 7) >>= λ r. elim r [
  | err e ↦ pure false
  | ok n ↦ call (sys_env_set_pgfault_upcall p me 0 upcall) >>= λ r'. elim r' [
    | err e ↦ pure false
    | ok n' ↦ pure true
  ]
]

-- fork in the parent.
unfoldable pub fork : Policy → (me upcall : ℕ) → (installed : Bool) → User (ℕ × Bool)
unfolding set_pgfault_handler dup_pages
fork p me upcall installed = set_pgfault_handler p me upcall installed >>= λ now_installed.
    must (sys_exofork me) >>= λ envid.
    dup_pages user_pages me envid 0
    >> must (sys_page_alloc me envid 0xeebf_f000 7)
    >> (λ k. must (sys_env_set_pgfault_upcall p me envid (k.envs me).env_pgfault_upcall) k)
    >> must (sys_env_set_status me envid 2)
    >> pure (envid, now_installed)
