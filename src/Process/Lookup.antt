-- ===== src/Process/Lookup.antt =====
-- envid2env and env_init of sched/kern/env.c. `me` is curenv, which trap asserts not to be NULL.
pub mod Permission
use sched_v2_solution.Base.{
  ℕ, ◌+◌, ◌||◌, ◌&&◌, Bool, not, Option, none, some, ◌==◌, if◌then◌else◌, for_each, update,
}
use sched_v2_solution.Kernel.{Kernel}
use sched_v2_solution.Kernel.Pcb.{Env, nenv, envx, free, is_free}

-- `none` is -E_BAD_ENV.
unfoldable pub envid2env : (me : ℕ) → Kernel → (envid : ℕ) → (checkperm : Bool) → Option ℕ
envid2env me k envid checkperm =
    if envid == 0
    then some me
    else if is_free (k.envs i).env_status || not ((k.envs i).env_id == envid)
    then none
    else if checkperm && not (i == me) && not ((k.envs i).env_parent_id == (k.envs me).env_id)
    then none
    else some i
  where
    i : ℕ
    i = envx envid

abbrev pub init_env : ℕ → Env → Env
init_env i e = record e { env_id = 0; env_status = free; env_link = some (i + 1) }

-- env_init; the loading of the segment registers is not modelled.
unfoldable pub env_init : Kernel → Kernel
env_init k =
    let envs = for_each nenv 0 init_env k.envs in
    record k {
      envs = update envs 1023 (record (envs 1023) { env_link = none });
      env_free_list = some 0;
    }
