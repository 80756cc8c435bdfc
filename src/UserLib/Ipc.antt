-- ===== src/UserLib/Ipc.antt =====
-- sched/lib/ipc.c, for the environment in slot `me`. A receiver that waits and a sender that finds
-- no receiver leave the CPU; what they do when they run again starts from the kernel of that time.
pub mod Message
use sched_v2_solution.Base.{
  ℕ, zero, suc, Bool, true, false, Option, none, some, ◌==◌, if◌then◌else◌,
}
use sched_v2_solution.Kernel.{Kernel, Policy}
use sched_v2_solution.Kernel.Pcb.{Env, EnvType, user, thread, nenv}
use sched_v2_solution.Pmap.Table.{PtePtr}
use sched_v2_solution.Pmap.UserMem.{utop}
use sched_v2_solution.Process.Cmd.{Result, ok, err, Error, ipc_not_recv}
use sched_v2_solution.Syscall.Env.{sys_yield}
use sched_v2_solution.Syscall.Ipc.{sys_ipc_try_send, sys_ipc_recv}
use sched_v2_solution.UserLib.Call.{User, gave_up, pure, ◌>>=◌, ◌>>◌, call}

-- What ipc_recv returns: the value or the error, and what it stores behind the two pointers, where
-- they are not null.
pub record Received : Type 0 where
  pub value : Result ℕ
  pub from_env_store : Option ℕ
  pub perm_store : Option ℕ

abbrev store_if : Bool → ℕ → Option ℕ
store_if b n = if b then some n else none

-- ipc_recv behind the system call.
unfoldable pub received : (me : ℕ) (store_from store_perm : Bool) → Result ℕ → Kernel → Received
received me store_from store_perm (err e) k = record {
  value = err e;
  from_env_store = store_if store_from 0;
  perm_store = store_if store_perm 0;
}
received me store_from store_perm (ok n) k =
    let e = k.envs me in
    if n == 0
    then record {
      value = ok e.env_ipc_value;
      from_env_store = store_if store_from e.env_ipc_from;
      perm_store = store_if store_perm e.env_ipc_perm;
    }
    else record {
      value = ok n;
      from_env_store = store_if store_from 0;
      perm_store = store_if store_perm 0;
    }

unfoldable pub ipc_recv : Policy → (me pg : ℕ) (store_from store_perm : Bool) → User Received
unfolding received
ipc_recv p me pg store_from store_perm =
    call (sys_ipc_recv p me pg) >>= λ r k. pure (received me store_from store_perm r k) k

abbrev is_not_recv : Error → Bool
is_not_recv ipc_not_recv = true
is_not_recv _ = false

-- One round of ipc_send: its loop calls it again when the environment is back from sys_yield.
unfoldable pub ipc_send : Policy → PtePtr → (me to_env val pg perm : ℕ) → User (Unit {0})
ipc_send p stale me to_env val pg perm =
    let srcva : ℕ = if pg == 0 then utop else pg in
    call (sys_ipc_try_send stale me to_env val srcva perm) >>= λ r k. elim r [
      | ok n ↦ pure tt k
      | err e ↦ if is_not_recv e then call (sys_yield p) k else gave_up k
    ]

abbrev same_type : EnvType → EnvType → Bool
same_type user user = true
same_type thread thread = true
same_type _ _ = false

-- The loop of ipc_find_env over the n slots from i on.
unfoldable pub find_type : (n i : ℕ) → (ℕ → Env) → EnvType → ℕ
find_type zero i envs type = 0
find_type (suc n) i envs type =
    let rest = find_type n (suc i) envs type in
    if same_type (envs i).env_type type then (envs i).env_id else rest

unfoldable pub ipc_find_env : (ℕ → Env) → EnvType → ℕ
unfolding find_type
ipc_find_env envs type = find_type nenv 0 envs type
