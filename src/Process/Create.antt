-- ===== src/Process/Create.antt =====
-- env_setup_vm and env_alloc of sched/kern/env.c.
pub mod Fresh
use sched_v2_solution.Base.{
  ℕ, ◌+◌, ◌*◌, ◌/◌, ◌||◌, true, false, Option, none, some, ◌==◌, leb, if◌then◌else◌, update, bit_or,
}
use sched_v2_solution.Kernel.{set_env}
use sched_v2_solution.Kernel.Ram.{Memory}
use sched_v2_solution.Kernel.Pcb.{Env, word, runnable, user, zero_trapframe, env_priority_default}
use sched_v2_solution.Pmap.Alloc.{page_alloc, page_incref}
use sched_v2_solution.Pmap.Table.{pdx, page2pa, pte_p, pte_u, write}
use sched_v2_solution.Process.Cmd.{
  Cmd, done, Result, ok, err, no_mem, no_free_env, pure, ◌>>=◌, ◌>>?◌, lift,
}

abbrev pub uvpt : ℕ
uvpt = 0xef40_0000

-- GD_UD | 3, GD_UT | 3, USTACKTOP and FL_IF.
abbrev pub ud_sel : ℕ
ud_sel = 0x23

abbrev pub ut_sel : ℕ
ut_sel = 0x1b

abbrev pub ustacktop : ℕ
ustacktop = 0xeebf_e000

abbrev pub fl_if : ℕ
fl_if = 0x200

-- The new page directory: a copy of the kernel's, with itself at UVPT.
unfoldable pub fill_pgdir : ℕ → Memory → Memory
unfolding page_incref write
fill_pgdir p m =
    write (p, pdx uvpt) (bit_or (bit_or (page2pa p) pte_p) pte_u)
      (page_incref p (record m { frame = update m.frame p (m.frame m.kern_pgdir) }))

unfoldable pub setup_with : ℕ → Option ℕ → Cmd (Result (Unit {0}))
unfolding fill_pgdir set_env
setup_with e none k = done (err no_mem) k
setup_with e (some p) k = done (ok tt) (
    set_env (record k { memory = fill_pgdir p k.memory }) e
      (record (k.envs e) { env_pgdir = some p }))

unfoldable pub env_setup_vm : ℕ → Cmd (Result (Unit {0}))
unfolding setup_with
env_setup_vm e = do p ← lift (page_alloc true); setup_with e p

-- The next generation of a slot's id, never negative or 0 as an int32_t.
unfoldable pub next_generation : ℕ → ℕ
next_generation id =
    let generation = word (id + 0x1000) / 1024 * 1024 in
    if generation == 0 || leb 0x8000_0000 generation then 0x1000 else generation

unfoldable pub fresh_env : ℕ → ℕ → Env → Env
unfolding next_generation
fresh_env i parent_id e = record e {
  env_id = bit_or (next_generation e.env_id) i;
  env_parent_id = parent_id;
  env_type = user;
  env_status = runnable;
  env_runs = 0;
  env_tf = record zero_trapframe {
    tf_ds = ud_sel;
    tf_es = ud_sel;
    tf_ss = ud_sel;
    tf_esp = ustacktop;
    tf_cs = ut_sel;
    tf_eflags = fl_if;
  };
  env_pgfault_upcall = 0;
  env_ipc_recving = false;
  env_sleep_until = 0;
  env_priority = env_priority_default;
  env_wait_ticks = 0;
}

unfoldable pub commit : ℕ → ℕ → Cmd (Result ℕ)
unfolding fresh_env set_env
commit e parent_id k = done (ok e) (
    set_env (record k { env_free_list = (k.envs e).env_link }) e (fresh_env e parent_id (k.envs e)))

unfoldable pub alloc_slot : ℕ → Option ℕ → Cmd (Result ℕ)
unfolding env_setup_vm commit
alloc_slot parent_id none = pure (err no_free_env)
alloc_slot parent_id (some e) = env_setup_vm e >>? λ _. commit e parent_id

unfoldable pub env_alloc : ℕ → Cmd (Result ℕ)
unfolding alloc_slot
env_alloc parent_id k = alloc_slot parent_id k.env_free_list k
