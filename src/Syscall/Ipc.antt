-- ===== src/Syscall/Ipc.antt =====
-- sys_ipc_try_send, sys_ipc_recv and sys_sleep.
pub mod Rendezvous
pub mod Refused
pub mod Nap
use sched_v2_solution.Base.{
  ℕ, ◌+◌, ◌%◌, ◌||◌, ◌&&◌, Bool, true, false, not, Option, none, some, ◌==◌, leb, if◌then◌else◌,
  bit_or,
}
use sched_v2_solution.Kernel.{Kernel, Policy, set_env}
use sched_v2_solution.Kernel.Pcb.{runnable, not_runnable, set_eax, word}
use sched_v2_solution.Pmap.Table.{PtePtr, read, page_lookup, pte_p, pte_u}
use sched_v2_solution.Pmap.UserMem.{utop, pgsize}
use sched_v2_solution.Process.Cmd.{
  Cmd, done, Result, ok, err, inval, ipc_not_recv, pure, ◌>>=◌, ◌>>◌, ◌>>?◌, lift,
}
use sched_v2_solution.Syscall.Env.{with_env, sys_yield}
use sched_v2_solution.Syscall.Page.{has_p, has_w, bad_va, in_pgdir, env_page_alloc, env_page_map}

-- The label `bail`: the receiver gets the message and is ready again.
unfoldable pub deliver : (me value : ℕ) → (dst : ℕ) → Cmd (Result ℕ)
unfolding set_env
deliver me value dst k =
    let e = k.envs dst in
    done (ok 0) (
      set_env k dst (record e {
        env_ipc_from = (k.envs me).env_id;
        env_ipc_recving = false;
        env_ipc_value = value;
        env_tf = set_eax e.env_tf 0;
        env_status = runnable;
      }))

unfoldable pub set_ipc_perm : ℕ → ℕ → Cmd (Unit {0})
unfolding set_env
set_ipc_perm dst perm k = done tt (set_env k dst (record (k.envs dst) { env_ipc_perm = perm }))

-- Allocates a page at the receiver's address, and then maps the sender's page there.
unfoldable pub transfer : (me srcva dst dstva perm : ℕ) → Cmd (Result ℕ)
unfolding set_ipc_perm
transfer me srcva dst dstva perm =
    env_page_alloc dst dstva perm >>? (λ _. env_page_map me srcva dst dstva perm) >>? λ _.
    set_ipc_perm dst perm >> pure (ok 0)

-- The permission checks on the sender's entry, whose address page_lookup leaves unset when
-- nothing is mapped: `stale` is what the uninitialised variable then points to.
unfoldable pub entry_refuses : Kernel → ℕ → PtePtr → Bool
entry_refuses k perm pte =
    (not (read k.memory pte == 0) && not (has_p (read k.memory pte)))
    || (has_w perm && not (has_w (read k.memory pte)))

abbrev pub entry_or : PtePtr → Option (ℕ × PtePtr) → PtePtr
entry_or stale none = stale
entry_or stale (some (page, pte)) = pte

unfoldable pub send_page : PtePtr → (me value srcva perm dst : ℕ) → Cmd (Result ℕ)
unfolding entry_refuses transfer deliver
send_page stale me value srcva perm dst = do
  found ← λ k. in_pgdir (k.envs me).env_pgdir (λ pgdir. lift (page_lookup pgdir srcva)) k
  λ k.
      if entry_refuses k perm (entry_or stale found)
      then done (err inval) k
      else if (k.envs dst).env_ipc_dstva == 0
      then deliver me value dst k
      else (transfer me srcva dst (k.envs dst).env_ipc_dstva (bit_or (bit_or perm pte_u) pte_p)
            >>? λ _. deliver me value dst)
          k

unfoldable pub sys_ipc_try_send : PtePtr → (me envid value srcva perm : ℕ) → Cmd (Result ℕ)
unfolding send_page set_ipc_perm deliver with_env
sys_ipc_try_send stale me envid value srcva perm = with_env me envid false λ dst k.
    if not (k.envs dst).env_ipc_recving
    then done (err ipc_not_recv) k
    else if leb utop srcva
    then (set_ipc_perm dst 0 >> deliver me value dst) k
    else if not (srcva % pgsize == 0)
    then done (err inval) k
    else send_page stale me value srcva perm dst k

-- env_ipc_recving is set before the address is checked.
unfoldable pub start_recv : ℕ → Kernel → Kernel
unfolding set_env
start_recv me k = set_env k me (record (k.envs me) { env_ipc_recving = true })

unfoldable pub block_recv : (me dstva : ℕ) → Kernel → Kernel
unfolding set_env
block_recv me dstva k =
    set_env k me (record (k.envs me) { env_ipc_dstva = dstva; env_status = not_runnable })

unfoldable pub sys_ipc_recv : Policy → (me dstva : ℕ) → Cmd (Result ℕ)
unfolding start_recv block_recv sys_yield
sys_ipc_recv p me dstva k =
    if bad_va dstva
    then done (err inval) (start_recv me k)
    else sys_yield p (block_recv me dstva (start_recv me k))

unfoldable pub fall_asleep : (me n : ℕ) → Kernel → Kernel
unfolding set_env
fall_asleep me n k =
    let e = k.envs me in
    set_env k me (record e {
      env_sleep_until = word (k.ticks + n);
      env_status = not_runnable;
      env_tf = set_eax e.env_tf 0;
    })

unfoldable pub sys_sleep : Policy → (me n : ℕ) → Cmd (Result ℕ)
unfolding fall_asleep sys_yield
sys_sleep p me n k = if n == 0 then done (err inval) k else sys_yield p (fall_asleep me n k)
