-- ===== src/Syscall/Dispatch.antt =====
-- The dispatcher syscall of sched/kern/syscall.c.
use sched_v2_solution.Base.{ℕ, ◌==◌, if◌then◌else◌}
use sched_v2_solution.Kernel.{Policy}
use sched_v2_solution.Pmap.Table.{PtePtr}
use sched_v2_solution.Process.Cmd.{Cmd, Result, ok, err, inval, pure}
use sched_v2_solution.Syscall.Env.{
  sys_cputs, sys_getenvid, sys_env_destroy, sys_exofork, sys_env_set_status,
  sys_env_set_pgfault_upcall, sys_yield, sys_thread_create,
}
use sched_v2_solution.Syscall.Page.{sys_page_alloc, sys_page_map, sys_page_unmap}
use sched_v2_solution.Syscall.Ipc.{sys_ipc_recv, sys_ipc_try_send, sys_sleep}
use sched_v2_solution.Syscall.Prio.{sys_getpriority, sys_setpriority}

-- What the kernel cannot see of the machine at a system call: the next character of the console
-- (0 if there is none), and the leftover pointer that sys_ipc_try_send may read.
pub record Machine : Type 0 where
  pub cons_getc : ℕ
  pub stale : PtePtr

unfoldable pub syscall : Policy → Machine → (me syscallno a1 a2 a3 a4 a5 : ℕ) → Cmd (Result ℕ)
syscall p c me syscallno a1 a2 a3 a4 a5 =
    if syscallno == 0
    then sys_cputs p me a1 a2
    else if syscallno == 1
    then pure (ok c.cons_getc)
    else if syscallno == 2
    then sys_getenvid me
    else if syscallno == 3
    then sys_env_destroy p me a1
    else if syscallno == 4
    then sys_page_alloc me a1 a2 a3
    else if syscallno == 5
    then sys_page_map me a1 a2 a3 a4 a5
    else if syscallno == 6
    then sys_page_unmap me a1 a2
    else if syscallno == 7
    then sys_exofork me
    else if syscallno == 8
    then sys_env_set_status me a1 a2
    else if syscallno == 9
    then sys_env_set_pgfault_upcall p me a1 a2
    else if syscallno == 10
    then sys_yield p
    else if syscallno == 11
    then sys_ipc_try_send c.stale me a1 a2 a3 a4
    else if syscallno == 12
    then sys_ipc_recv p me a1
    else if syscallno == 13
    then sys_sleep p me a1
    else if syscallno == 14
    then sys_getpriority me a1
    else if syscallno == 15
    then sys_setpriority me a1 a2
    else if syscallno == 16
    then sys_thread_create me a1 a2
    else pure (err inval)
