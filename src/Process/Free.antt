-- ===== src/Process/Free.antt =====
-- env_free and env_destroy of sched/kern/env.c.
use sched_v2_solution.Base.{
  ℕ, zero, suc, ◌+◌, ◌*◌, ◌%◌, ◌&&◌, Bool, not, Option, none, some, same_ptr, ltb, ◌==◌,
  if◌then◌else◌,
}
use sched_v2_solution.Kernel.{Kernel, Policy, curenv, set_curenv, set_env}
use sched_v2_solution.Kernel.Pcb.{nenv, free, dying, is_free, is_running, is_thread}
use sched_v2_solution.Sched.Yield.{sched_yield}
use sched_v2_solution.Pmap.Alloc
use sched_v2_solution.Pmap.Alloc.{MemCmd, page_decref}
use sched_v2_solution.Pmap.Table.{pgnum, write, page_remove}
use sched_v2_solution.Process.Cmd.{Cmd, done, stopped, ◌>>◌, modify, panic, lift}

-- PGADDR(pdeno, pteno, 0)
abbrev pub pgaddr : ℕ → ℕ → ℕ
pgaddr pdeno pteno = pdeno * 0x40_0000 + pteno * 0x1000

-- Bit 0 of an entry is PTE_P.
abbrev pub present : ℕ → Bool
present pte = pte % 2 == 1

-- The entries pteno, ..., pteno + n - 1 of the page table pt.
unfoldable pub unmap_table : (n pteno pgdir pdeno pt : ℕ) → MemCmd (Unit {0})
unmap_table zero pteno pgdir pdeno pt m = some (tt, m)
unmap_table (suc n) pteno pgdir pdeno pt m =
    Alloc.◌>>◌
      (λ m'.
        if present (m'.frame pt pteno)
        then page_remove pgdir (pgaddr pdeno pteno) m'
        else some (tt, m'))
      (unmap_table n (suc pteno) pgdir pdeno pt) m

-- One page table: its pages, its directory entry and the table itself. KADDR checks its address.
unfoldable pub drop_table : ℕ → ℕ → MemCmd (Unit {0})
drop_table pgdir pdeno m =
    let pt = pgnum (m.frame pgdir pdeno) in
    if ltb pt m.npages
    then Alloc.◌>>◌
        (Alloc.◌>>◌ (unmap_table 1024 0 pgdir pdeno pt)
          (λ m'. some (tt, write (pgdir, pdeno) 0 m')))
        (page_decref pt) m
    else none

-- The directory entries pdeno, ..., pdeno + n - 1.
unfoldable pub sweep : (n pdeno pgdir : ℕ) → MemCmd (Unit {0})
sweep zero pdeno pgdir m = some (tt, m)
sweep (suc n) pdeno pgdir m =
    Alloc.◌>>◌
      (λ m'. if present (m'.frame pgdir pdeno) then drop_table pgdir pdeno m' else some (tt, m'))
      (sweep n (suc pdeno) pgdir) m

-- PDX(UTOP)
abbrev pub pdx_utop : ℕ
pdx_utop = 955

-- Releases the reference to the page directory.
unfoldable pub drop_pgdir : ℕ → Option ℕ → Cmd (Unit {0})
unfolding set_env
drop_pgdir e none k = panic k
drop_pgdir e (some pgdir) k =
    lift (page_decref pgdir) (set_env k e (record (k.envs e) { env_pgdir = none }))

-- Returns the environment to the free list.
unfoldable pub free_slot : ℕ → Kernel → Kernel
unfolding set_env
free_slot e k =
    set_env (record k { env_free_list = some e }) e
      (record (k.envs e) { env_status = free; env_link = k.env_free_list })

unfoldable pub sweep_of : Option ℕ → Cmd (Unit {0})
sweep_of none = panic
sweep_of (some pgdir) = lift (sweep pdx_utop 0 pgdir)

-- env_free after the loop over the threads.
unfoldable pub free_self : ℕ → Cmd (Unit {0})
unfolding drop_pgdir free_slot
free_self e = do
  modify λ k. if same_ptr (curenv k) (some e) then record k { cr3 = k.memory.kern_pgdir } else k
  λ k. if is_thread (k.envs e).env_type then done tt k else sweep_of (k.envs e).env_pgdir k
  λ k. drop_pgdir e (k.envs e).env_pgdir k
  modify (free_slot e)

-- env_destroy, with the function that frees.
unfoldable pub destroy_by : (ℕ → Cmd (Unit {0})) → Policy → ℕ → Cmd (Unit {0})
unfolding set_env set_curenv
destroy_by release p e k =
    if is_running (k.envs e).env_status && not (same_ptr (curenv k) (some e))
    then done tt (set_env k e (record (k.envs e) { env_status = dying }))
    else (do
      release e
      λ k'.
          if same_ptr (curenv k') (some e)
          then stopped (sched_yield p (set_curenv k' none))
          else done tt k')
        k

abbrev pub is_thread_of : Kernel → ℕ → ℕ → Bool
is_thread_of k e t =
    not (t == e)
    && is_thread (k.envs t).env_type
    && not (is_free (k.envs t).env_status)
    && (k.envs t).env_parent_id == (k.envs e).env_id

-- A process takes its threads with it: the slots t, ..., t + n - 1. A thread has none, so that the
-- inner env_free is `free_self`.
unfoldable pub destroy_threads : Policy → (n t e : ℕ) → Cmd (Unit {0})
destroy_threads p zero t e k = done tt k
destroy_threads p (suc n) t e k =
    ◌>>◌ (λ k'. if is_thread_of k' e t then destroy_by free_self p t k' else done tt k')
      (destroy_threads p n (suc t) e) k

unfoldable pub env_free : Policy → ℕ → Cmd (Unit {0})
env_free p e = do
  λ k. if is_thread (k.envs e).env_type then done tt k else destroy_threads p nenv 0 e k
  free_self e

unfoldable pub env_destroy : Policy → ℕ → Cmd (Unit {0})
unfolding destroy_by
env_destroy p = destroy_by (env_free p) p
