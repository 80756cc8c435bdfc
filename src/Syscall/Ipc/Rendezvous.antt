-- ===== src/Syscall/Ipc/Rendezvous.antt =====
-- The meeting of a sender and a receiver, for messages without a page.
use sched_v2_solution.Base.{
  ℕ, ◌≤◌, ◌≡◌, ◌≢◌, refl, ap, ◌==◌, if◌then◌else◌, true, false, some, arith, leb, ==_self,
}
use sched_v2_solution.Kernel.{Kernel, set_env}
use sched_v2_solution.Kernel.Pcb.{Env, runnable, set_eax}
use sched_v2_solution.Pmap.Table.{PtePtr}
use sched_v2_solution.Pmap.UserMem.{utop}
use sched_v2_solution.Process.Cmd.{done, ok, err, ipc_not_recv}
use sched_v2_solution.Process.Lookup.{envid2env}
use sched_v2_solution.Syscall.Env.{with_env}
use sched_v2_solution.Syscall.Ipc.{deliver, set_ipc_perm, sys_ipc_try_send}

-- The receiver dst has got the value from `me`, no page, and 0 as the result of its own call; the
-- rest of the receiver, the other environments and the rest of the kernel are as they were.
pub record Received (me dst value : ℕ) (k k' : Kernel) : Type 0 where
  pub only : k' ≡ record k { envs = k'.envs }
  pub receiver : k'.envs dst ≡ record (k.envs dst) {
    env_ipc_from = (k.envs me).env_id;
    env_ipc_value = value;
    env_ipc_perm = 0;
    env_ipc_recving = false;
    env_status = runnable;
    env_tf = set_eax (k.envs dst).env_tf 0;
  }
  pub from : (k'.envs dst).env_ipc_from ≡ (k.envs me).env_id
  pub value_is : (k'.envs dst).env_ipc_value ≡ value
  pub no_page : (k'.envs dst).env_ipc_perm ≡ 0
  pub result : (k'.envs dst).env_tf.tf_regs.reg_eax ≡ 0
  pub ready : (k'.envs dst).env_status ≡ runnable
  pub closed : (k'.envs dst).env_ipc_recving ≡ false
  pub others : (i : ℕ) → dst ≢ i → k'.envs i ≡ k.envs i
  pub cpus : k'.cpus ≡ k.cpus
  pub memory : k'.memory ≡ k.memory

abbrev pub delivered : (me value dst : ℕ) → Kernel → Kernel
delivered me value dst k =
    let k0 = set_env k dst (record (k.envs dst) { env_ipc_perm = 0 }) in
    let e = k0.envs dst in
    set_env k0 dst (record e {
      env_ipc_from = (k0.envs me).env_id;
      env_ipc_recving = false;
      env_ipc_value = value;
      env_tf = set_eax e.env_tf 0;
      env_status = runnable;
    })

pub delivered-Received :
    (me value dst : ℕ) (k : Kernel) → Received me dst value k (delivered me value dst k)
unfolding set_env
delivered-Received me value dst k = rw (==_self dst) (record {
  only = refl;
  receiver = rw (==_self dst) (ap (got value) sender);
  from = ground arith;
  value_is = ground arith;
  no_page = ground arith;
  result = ground arith;
  ready = ground arith;
  closed = ground arith;
  others = λ i ne. ground arith;
  cpus = refl;
  memory = refl;
})
  where
    got : ℕ → ℕ → Env
    got v id = record (k.envs dst) {
      env_ipc_from = id;
      env_ipc_value = v;
      env_ipc_perm = 0;
      env_ipc_recving = false;
      env_status = runnable;
      env_tf = set_eax (k.envs dst).env_tf 0;
    }

    sender :
        (if dst == me then record (k.envs dst) { env_ipc_perm = 0 } else k.envs me).env_id
        ≡ (k.envs me).env_id
    sender = ground arith

pub send-delivered :
    (stale : PtePtr) (me envid value srcva perm dst : ℕ) (k : Kernel)
    → envid2env me k envid false ≡ some dst
    → (k.envs dst).env_ipc_recving ≡ true
    → utop ≤ srcva
    → sys_ipc_try_send stale me envid value srcva perm k ≡ done (ok 0) (delivered me value dst k)
unfolding sys_ipc_try_send with_env set_ipc_perm deliver
send-delivered stale me envid value srcva perm dst k found open_r high =
    let no_page_sent : leb utop srcva ≡ true = ground arith in
    rw (with_env, found, open_r, no_page_sent)

-- A send to an environment that is not receiving fails and changes nothing.
pub send-refused :
    (stale : PtePtr) (me envid value srcva perm dst : ℕ) (k : Kernel)
    → envid2env me k envid false ≡ some dst
    → (k.envs dst).env_ipc_recving ≡ false
    → sys_ipc_try_send stale me envid value srcva perm k ≡ done (err ipc_not_recv) k
unfolding sys_ipc_try_send with_env
send-refused stale me envid value srcva perm dst k found closed = rw (with_env, found, closed)

-- A send of a value alone (srcva at or above UTOP) to a receiving environment succeeds: the
-- receiver has the value, the sender's id, permission 0 and the result 0, is RUNNABLE and
-- receives no longer, and nothing else changes; any send to it after that, whatever it sends,
-- fails with -E_IPC_NOT_RECV and changes nothing.
pub sys_ipc_try_send-Received :
    (stale : PtePtr) (me envid value srcva perm dst : ℕ) (k : Kernel)
    → envid2env me k envid false ≡ some dst
    → (k.envs dst).env_ipc_recving ≡ true
    → utop ≤ srcva
    → (k' : Kernel) × (sys_ipc_try_send stale me envid value srcva perm k ≡ done (ok 0) k')
      × Received me dst value k k'
      × ((you envid' value' srcva' perm' : ℕ)
          → envid2env you k' envid' false ≡ some dst
          → sys_ipc_try_send stale you envid' value' srcva' perm' k' ≡ done (err ipc_not_recv) k')
sys_ipc_try_send-Received stale me envid value srcva perm dst k found open_r high =
    let got = delivered-Received me value dst k in
    (
      delivered me value dst k,
      send-delivered stale me envid value srcva perm dst k found open_r high,
      got,
      λ you envid' value' srcva' perm' found'.
          send-refused stale you envid' value' srcva' perm' dst _ found' got.closed,
    )
