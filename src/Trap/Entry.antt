-- ===== src/Trap/Entry.antt =====
-- trap_dispatch and trap of sched/kern/trap.c.
pub mod Reschedule
pub mod Resume
pub mod Interleaving
use sched_v2_solution.Base.{ℕ, ◌+◌, ◌-◌, ◌%◌, Option, none, some, ◌==◌, if◌then◌else◌}
use sched_v2_solution.Kernel.{
  Kernel, Stop, Policy, cpu_started, curenv, set_curenv, set_cpu_status, set_env,
}
use sched_v2_solution.Kernel.Pcb.{Trapframe, word, is_dying, is_running, set_eax}
use sched_v2_solution.Sched.Run.{env_run}
use sched_v2_solution.Sched.Sleep.{sched_wakeup_sleeping}
use sched_v2_solution.Sched.Yield.{sched_yield}
use sched_v2_solution.Process.Cmd.{
  Run, Cmd, done, stopped, Result, ok, err, code, ◌>>=◌, ◌>>◌, panic,
}
use sched_v2_solution.Process.Free.{env_free, env_destroy}
use sched_v2_solution.Syscall.Dispatch.{Machine, syscall}
use sched_v2_solution.Trap.PageFault.{page_fault_handler}

-- The int32_t that the caller finds in eax.
abbrev pub eax_of : Result ℕ → ℕ
eax_of (ok n) = n
eax_of (err e) = 0x1_0000_0000 - code e

-- tf->tf_regs.reg_eax = syscall(...), on the frame saved in curenv.
unfoldable pub return_value : ℕ → Result ℕ → Cmd (Unit {0})
unfolding set_env
return_value me r k =
    done tt (set_env k me (record (k.envs me) { env_tf = set_eax (k.envs me).env_tf (eax_of r) }))

unfoldable pub dispatch_syscall : Policy → Machine → (me : ℕ) → Cmd (Unit {0})
unfolding return_value
dispatch_syscall p c me k =
    let r = (k.envs me).env_tf.tf_regs in
    ◌>>=◌ (syscall p c me r.reg_eax r.reg_edx r.reg_ecx r.reg_ebx r.reg_edi r.reg_esi)
      (return_value me) k

-- The clock: one more tick, the sleepers, and the scheduler.
unfoldable pub timer : Policy → Kernel → Stop
timer p k = sched_yield p (sched_wakeup_sleeping (record k { ticks = word (k.ticks + 1) }))

unfoldable pub unexpected : Policy → (cs : ℕ) → Option ℕ → Cmd (Unit {0})
unexpected p cs none k = panic k
unexpected p cs (some me) k = if cs == 0x8 then panic k else env_destroy p me k

-- The dispatch for a trap from user mode, with the environment that it came from, or from the
-- kernel itself, which makes no system call. The kernel monitor changes nothing that is modelled.
unfoldable pub trap_dispatch :
    Policy → Machine → (fault_va : ℕ) → (trapno cs : ℕ) → Option ℕ → Cmd (Unit {0})
unfolding dispatch_syscall timer unexpected
trap_dispatch p c fault_va trapno cs none k =
    if trapno == 3
    then done tt k
    else if trapno == 14
    then panic k
    else if trapno == 39
    then done tt k
    else if trapno == 32
    then stopped (timer p k)
    else panic k
trap_dispatch p c fault_va trapno cs (some me) k =
    if trapno == 3
    then done tt k
    else if trapno == 14
    then page_fault_handler p cs me fault_va k
    else if trapno == 48
    then dispatch_syscall p c me k
    else if trapno == 39
    then done tt k
    else if trapno == 32
    then stopped (timer p k)
    else unexpected p cs (some me) k

-- The end of trap: back to the current environment if it still runs.
unfoldable pub leave : Policy → Kernel → Option ℕ → Stop
leave p k none = sched_yield p k
leave p k (some c) = if is_running (k.envs c).env_status then env_run k c else sched_yield p k

abbrev pub stop_of : Policy → Run (Unit {0}) → Stop
stop_of p (done _ k) = leave p k (curenv k)
stop_of p (stopped s) = s

-- A zombie is freed when it traps, and another environment is run.
unfoldable pub collect : Policy → (me : ℕ) → Cmd (Unit {0})
collect p me = do env_free p me; λ k. stopped (sched_yield p (set_curenv k none))

-- A trap from user mode, under the big kernel lock.
unfoldable pub user_trap : Policy → Machine → (fault_va : ℕ) → Trapframe → Option ℕ → Cmd (Unit {0})
unfolding trap_dispatch collect set_env
user_trap p c fault_va tf none k = panic k
user_trap p c fault_va tf (some me) k =
    if is_dying (k.envs me).env_status
    then collect p me k
    else trap_dispatch p c fault_va tf.tf_trapno tf.tf_cs (some me)
        (set_env k me (record (k.envs me) { env_tf = tf }))

abbrev pub take_lock : Kernel → Kernel
take_lock k = record k { locked = 1 }

-- The lock is taken at once: another CPU that holds it leaves the kernel first. The test of
-- panicstr and the assertion on the interrupt flag are not modelled.
unfoldable pub trap : Policy → Machine → (fault_va : ℕ) → Trapframe → Kernel → Stop
unfolding user_trap set_cpu_status
trap p c fault_va tf k =
    let k' = take_lock (set_cpu_status k cpu_started) in
    stop_of p (
      if tf.tf_cs % 4 == 3
      then user_trap p c fault_va tf (curenv k') k'
      else trap_dispatch p c fault_va tf.tf_trapno tf.tf_cs none k')
