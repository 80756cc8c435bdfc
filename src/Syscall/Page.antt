-- ===== src/Syscall/Page.antt =====
-- The system calls on pages, and the helpers that check permissions.
use sched_v2_solution.Base.{
  ℕ, ◌%◌, ◌||◌, ◌&&◌, Bool, true, false, not, Option, none, some, ◌==◌, leb, if◌then◌else◌, bit_or,
}
use sched_v2_solution.Base.{◌/◌}
use sched_v2_solution.Pmap.Alloc.{page_alloc}
use sched_v2_solution.Pmap.Table.{PtePtr, read, page_insert, page_lookup, page_remove, pte_p, pte_u}
use sched_v2_solution.Pmap.UserMem.{utop, pgsize}
use sched_v2_solution.Process.Cmd.{
  Cmd, done, Result, ok, err, inval, no_mem, pure, ◌>>=◌, ◌>>◌, panic, lift,
}
use sched_v2_solution.Syscall.Env.{with_env}

-- Bits of a permission or an entry: PTE_P, PTE_W, PTE_U, and what lies outside PTE_SYSCALL =
-- 0xe07, which are the bits 3 to 8 and those from bit 12 on.
abbrev pub has_p : ℕ → Bool
has_p perm = perm % 2 == 1

abbrev pub has_w : ℕ → Bool
has_w perm = perm / 2 % 2 == 1

abbrev pub has_u : ℕ → Bool
has_u perm = perm / 4 % 2 == 1

abbrev pub outside_syscall : ℕ → Bool
outside_syscall perm = not (perm / 8 % 64 == 0) || not (perm / 0x1000 == 0)

-- check_perm with a NULL pte, the only way it is called.
unfoldable pub check_perm : ℕ → Bool
check_perm perm = not (outside_syscall perm) && has_p perm && has_u perm

-- A page directory, which pgdir_walk would fault on if it were NULL.
unfoldable pub in_pgdir : {A : Type 0} → Option ℕ → (ℕ → Cmd A) → Cmd A
in_pgdir none f = panic
in_pgdir (some pgdir) f = f pgdir

unfoldable pub inserted : Bool → Cmd (Result ℕ)
inserted true = pure (ok 0)
inserted false = pure (err no_mem)

unfoldable pub insert_new : (e va perm : ℕ) → Option ℕ → Cmd (Result ℕ)
unfolding inserted in_pgdir
insert_new e va perm none k = done (err no_mem) k
insert_new e va perm (some p) k =
    in_pgdir (k.envs e).env_pgdir (λ pgdir. lift (page_insert pgdir p va perm) >>= inserted) k

unfoldable pub env_page_alloc : (e va perm : ℕ) → Cmd (Result ℕ)
unfolding check_perm insert_new
env_page_alloc e va perm =
    if check_perm perm
    then (do p ← lift (page_alloc true); insert_new e va perm p)
    else pure (err inval)

unfoldable pub map_found : (dst dstva perm : ℕ) → Option (ℕ × PtePtr) → Cmd (Result ℕ)
unfolding inserted in_pgdir
map_found dst dstva perm none k = done (err inval) k
map_found dst dstva perm (some (page, pte)) k =
    if has_w perm && not (has_w (read k.memory pte))
    then done (err inval) k
    else in_pgdir (k.envs dst).env_pgdir
        (λ pgdir. lift (page_insert pgdir page dstva perm) >>= inserted) k

unfoldable pub env_page_map : (src srcva dst dstva perm : ℕ) → Cmd (Result ℕ)
unfolding map_found in_pgdir
env_page_map src srcva dst dstva perm = do
  found ← λ k. in_pgdir (k.envs src).env_pgdir (λ pgdir. lift (page_lookup pgdir srcva)) k
  map_found dst dstva perm found

-- `va >= UTOP` or not page-aligned.
abbrev pub bad_va : ℕ → Bool
bad_va va = leb utop va || not (va % pgsize == 0)

unfoldable pub sys_page_alloc : (me envid va perm : ℕ) → Cmd (Result ℕ)
unfolding env_page_alloc
sys_page_alloc me envid va perm =
    if bad_va va
    then pure (err inval)
    else with_env me envid true λ e. env_page_alloc e va (bit_or (bit_or perm pte_u) pte_p)

unfoldable pub sys_page_map : (me srcenvid srcva dstenvid dstva perm : ℕ) → Cmd (Result ℕ)
unfolding env_page_map
sys_page_map me srcenvid srcva dstenvid dstva perm =
    if bad_va srcva || bad_va dstva
    then pure (err inval)
    else with_env me srcenvid true λ src.
      with_env me dstenvid true
        λ dst. env_page_map src srcva dst dstva (bit_or (bit_or pte_p pte_u) perm)

unfoldable pub sys_page_unmap : (me envid va : ℕ) → Cmd (Result ℕ)
unfolding in_pgdir
sys_page_unmap me envid va =
    if bad_va va
    then pure (err inval)
    else with_env me envid true λ e. do
      λ k. in_pgdir (k.envs e).env_pgdir (λ pgdir. lift (page_remove pgdir va)) k
      pure (ok 0)
