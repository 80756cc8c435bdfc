-- ===== src/Syscall/Env.antt =====
-- The system calls on environments. `me` is curenv, and p the scheduling policy.
pub mod Twice
use sched_v2_solution.Base.{ℕ, ◌||◌, Bool, true, Option, none, some, ◌==◌, leb, ltb, if◌then◌else◌}
use sched_v2_solution.Kernel.{Policy, set_env}
use sched_v2_solution.Kernel.Pcb.{Env, Status, runnable, not_runnable, thread, is_thread, set_eax}
use sched_v2_solution.Sched.Yield.{sched_yield}
use sched_v2_solution.Pmap.Alloc.{page_decref, page_incref}
use sched_v2_solution.Pmap.Table.{pte_p, pte_w, pte_u}
use sched_v2_solution.Pmap.UserMem.{Checked, allowed, fault, user_mem_check, utop, pgsize}
use sched_v2_solution.Base.{bit_or}
use sched_v2_solution.Process.Cmd.{
  Cmd, done, stopped, Result, ok, err, bad_env, inval, pure, ◌>>=◌, ◌>>◌, ◌>>?◌, panic, lift,
}
use sched_v2_solution.Process.Lookup.{envid2env}
use sched_v2_solution.Process.Create.{env_alloc}
use sched_v2_solution.Process.Free.{env_destroy}

-- user_mem_assert of pmap.c.
unfoldable pub assert_checked : Policy → ℕ → Checked → Cmd (Unit {0})
assert_checked p e allowed = pure tt
assert_checked p e (fault addr) = env_destroy p e

unfoldable pub check_in : Option ℕ → (va len perm : ℕ) → Cmd Checked
check_in none va len perm = panic
check_in (some pgdir) va len perm = lift (user_mem_check pgdir va len perm)

unfoldable pub user_mem_assert : Policy → (e va len perm : ℕ) → Cmd (Unit {0})
unfolding check_in assert_checked
user_mem_assert p e va len perm = do
  r ← λ k. check_in (k.envs e).env_pgdir va len (bit_or perm pte_u) k
  assert_checked p e r

-- The printed text is not modelled.
unfoldable pub sys_cputs : Policy → (me s len : ℕ) → Cmd (Result ℕ)
unfolding user_mem_assert
sys_cputs p me s len = do
  user_mem_assert p me s len (bit_or (bit_or pte_p pte_w) pte_u)
  pure (ok 0)

unfoldable pub sys_getenvid : ℕ → Cmd (Result ℕ)
sys_getenvid me k = done (ok (k.envs me).env_id) k

-- The continuation of `if ((r = envid2env(envid, &e, 1)) < 0) return r;`.
unfoldable pub with_env :
    {A : Type 0} → (me envid : ℕ) → Bool → (ℕ → Cmd (Result A)) → Cmd (Result A)
with_env me envid checkperm f k = elim (envid2env me k envid checkperm) [
  | none ↦ done (err bad_env) k
  | some e ↦ f e k
]

unfoldable pub sys_env_destroy : Policy → (me envid : ℕ) → Cmd (Result ℕ)
unfolding with_env
sys_env_destroy p me envid = with_env me envid true λ e. do env_destroy p e; pure (ok 0)

unfoldable pub sys_yield : Policy → {A : Type 0} → Cmd A
sys_yield p k = stopped (sched_yield p k)

-- The child of sys_exofork: a copy of the registers in which the call returns 0.
unfoldable pub fork_child : Env → Env → Env
fork_child parent child = record child {
  env_status = not_runnable;
  env_tf = set_eax parent.env_tf 0;
  env_priority = parent.env_priority;
}

unfoldable pub sys_exofork : ℕ → Cmd (Result ℕ)
unfolding fork_child set_env
sys_exofork me k =
    ◌>>?◌ (env_alloc (k.envs me).env_id)
      (λ e k'.
        let child = fork_child (k'.envs me) (k'.envs e) in
        done (ok child.env_id) (set_env k' e child))
      k

-- ENV_RUNNABLE and ENV_NOT_RUNNABLE as integers.
abbrev pub settable : ℕ → Option Status
settable s = if s == 2 then some runnable else if s == 4 then some not_runnable else none

unfoldable pub set_status : ℕ → ℕ → Option Status → Cmd (Result ℕ)
unfolding with_env set_env
set_status me envid none = pure (err inval)
set_status me envid (some s) =
    with_env me envid true λ e k. done (ok 0) (set_env k e (record (k.envs e) { env_status = s }))

unfoldable pub sys_env_set_status : (me envid status : ℕ) → Cmd (Result ℕ)
unfolding set_status
sys_env_set_status me envid status = set_status me envid (settable status)

unfoldable pub sys_env_set_pgfault_upcall : Policy → (me envid func : ℕ) → Cmd (Result ℕ)
unfolding with_env user_mem_assert set_env
sys_env_set_pgfault_upcall p me envid func = with_env me envid true λ e. do
  user_mem_assert p e func pgsize (bit_or pte_p pte_u)
  λ k. done (ok 0) (set_env k e (record (k.envs e) { env_pgfault_upcall = func }))

-- The owner of the address space: threads of threads are its threads too.
unfoldable pub owner : Env → ℕ
owner e = if is_thread e.env_type then e.env_parent_id else e.env_id

-- The new thread gives its own page directory back and shares the creator's.
unfoldable pub release_pgdir : Option ℕ → Cmd (Unit {0})
release_pgdir none = panic
release_pgdir (some pgdir) = lift (page_decref pgdir)

unfoldable pub share_pgdir : Option ℕ → Cmd (Unit {0})
share_pgdir none = panic
share_pgdir (some pgdir) = lift (λ m. some (tt, page_incref pgdir m))

unfoldable pub thread_env : Env → (entry ustack_top : ℕ) → Env → Env
thread_env creator entry ustack_top t =
    let tf = t.env_tf in
    record t {
      env_pgdir = creator.env_pgdir;
      env_type = thread;
      env_priority = creator.env_priority;
      env_tf = record tf { tf_eip = entry; tf_esp = ustack_top };
    }

unfoldable pub start_thread : (me entry ustack_top t : ℕ) → Cmd (Result ℕ)
unfolding release_pgdir share_pgdir thread_env set_env
start_thread me entry ustack_top t = do
  λ k. release_pgdir (k.envs t).env_pgdir k
  λ k. share_pgdir (k.envs me).env_pgdir k
  λ k.
      let e = thread_env (k.envs me) entry ustack_top (k.envs t) in
      done (ok e.env_id) (set_env k t e)

unfoldable pub sys_thread_create : (me entry ustack_top : ℕ) → Cmd (Result ℕ)
unfolding start_thread owner
sys_thread_create me entry ustack_top k =
    if leb utop entry || ltb utop ustack_top || ustack_top == 0
    then done (err inval) k
    else (env_alloc (owner (k.envs me)) >>? start_thread me entry ustack_top) k
