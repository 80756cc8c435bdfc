-- ===== src/Trap/Entry/Interleaving.antt =====
-- The machine as a sequence of kernel entries on any of its CPUs, one at a time under the big
-- kernel lock: clock interrupts, the system calls that give the CPU away or only ask, breakpoints.
use sched_v2_solution.Base.{ℕ, ◌≡◌, ◌≢◌, ◌%◌, ◌==◌, ◌∙◌, refl, true, false, none, some, arith}
use sched_v2_solution.Kernel.{Kernel, Stop, Policy, in_monitor, cpu_started, curenv, set_cpu_status}
use sched_v2_solution.Kernel.Pcb.{Env, Trapframe, is_running, is_dying}
use sched_v2_solution.Sched.Yield.Decide.{HasPgdir, running-not-free}
use sched_v2_solution.Sched.Exclusive.{InKernel, Exclusive}
use sched_v2_solution.Sched.Exclusive.Update.{on_cpu, Exclusive-InKernel, set_cpu_status-InKernel}
use sched_v2_solution.Process.Cmd.{stopped}
use sched_v2_solution.Boot.{mp_main}
use sched_v2_solution.Boot.Exclusive.{mp_main-Exclusive}
use sched_v2_solution.Syscall.Dispatch.{Machine}
use sched_v2_solution.Trap.Entry.{trap, take_lock, user_trap, trap_dispatch, timer, stop_of}
use sched_v2_solution.Trap.Entry.Resume.{Resumes, Resumes-Exclusive}
use sched_v2_solution.Trap.Entry.Reschedule.{
  Reschedules, Schedules, Schedules-Exclusive, timer-Schedules, Serves, user_trap-Schedules,
}

-- One kernel entry, on CPU c, that leaves the kernel again: a trap of the RUNNING environment on the
-- CPU that ends in the scheduler or one that goes back to it, the clock in a CPU that halted, or
-- the start of a CPU in mp_main.
pub data Step (p : Policy) (m : Machine) : Kernel → Kernel → Type 0 where
  user_entry :
      {k : Kernel}
      → (c me fault_va : ℕ) (tf : Trapframe) → tf.tf_cs % 4 ≡ 3
      → (k.cpus c).cpu_env ≡ some me
      → is_running (k.envs me).env_status ≡ true
      → Reschedules tf
      → (trap p m fault_va tf (on_cpu c k)).exit ≢ in_monitor
      → Step p m k (trap p m fault_va tf (on_cpu c k)).kernel
  comes_back :
      {k : Kernel}
      → (c me fault_va : ℕ) (tf : Trapframe) → tf.tf_cs % 4 ≡ 3
      → (k.cpus c).cpu_env ≡ some me
      → is_running (k.envs me).env_status ≡ true
      → Resumes tf
      → Step p m k (trap p m fault_va tf (on_cpu c k)).kernel
  idle_tick :
      {k : Kernel}
      → (c fault_va : ℕ) (tf : Trapframe) → (tf.tf_cs % 4 == 3) ≡ false
      → tf.tf_trapno ≡ 32
      → (trap p m fault_va tf (on_cpu c k)).exit ≢ in_monitor
      → Step p m k (trap p m fault_va tf (on_cpu c k)).kernel
  starts_up :
      {k : Kernel}
      → (c : ℕ) → (k.cpus c).cpu_env ≡ none
      → (mp_main p c k).exit ≢ in_monitor
      → Step p m k (mp_main p c k).kernel

pub data Steps (p : Policy) (m : Machine) (k : Kernel) : Kernel → Type 0 where
  start : Steps p m k k
  then_step : {k' k'' : Kernel} → Steps p m k k' → Step p m k' k'' → Steps p m k k''

abbrev entered : Kernel → Kernel
entered k = take_lock (set_cpu_status k cpu_started)

entered-InKernel : (k : Kernel) → InKernel k → InKernel (entered k)
unfolding set_cpu_status
entered-InKernel k inv =
    let i = set_cpu_status-InKernel k cpu_started inv in
    record { apart = i.apart; live = i.live; owned = i.owned }

entered-cpu : (k : Kernel) → curenv (entered k) ≡ curenv k
unfolding set_cpu_status
entered-cpu k = ground arith

entered-HasPgdir : (k : Kernel) → HasPgdir k → HasPgdir (entered k)
unfolding set_cpu_status
entered-HasPgdir k d = d

entered-envs : (k : Kernel) → (entered k).envs ≡ k.envs
unfolding set_cpu_status
entered-envs k = refl

entered-Serves :
    (k : Kernel) (me : ℕ)
    → InKernel k
    → HasPgdir k
    → curenv k ≡ some me
    → is_running (k.envs me).env_status ≡ true
    → Serves me (entered k)
entered-Serves k me inv d mine up = record {
  mine = entered-cpu k ∙ mine;
  in_use = rw (entered-envs k) (running-not-free (k.envs me) up);
  inv = entered-InKernel k inv;
  pgdirs = entered-HasPgdir k d;
}

trap-user :
    (p : Policy) (m : Machine) (me fault_va : ℕ) (tf : Trapframe) (k : Kernel) (s : Stop)
    → tf.tf_cs % 4 ≡ 3
    → curenv (entered k) ≡ some me
    → user_trap p m fault_va tf (some me) (entered k) ≡ stopped s
    → trap p m fault_va tf k ≡ s
unfolding trap
trap-user p m me fault_va tf k s cs mine call = rw (cs, mine, call)

trap-idle :
    (p : Policy) (m : Machine) (fault_va : ℕ) (tf : Trapframe) (k : Kernel)
    → (tf.tf_cs % 4 == 3) ≡ false
    → tf.tf_trapno ≡ 32
    → trap p m fault_va tf k ≡ timer p (entered k)
unfolding trap trap_dispatch
trap-idle p m fault_va tf k cs e = rw (cs, e)

user_entry-Schedules :
    (p : Policy) (m : Machine) (me fault_va : ℕ) (tf : Trapframe) (k : Kernel)
    → InKernel k
    → HasPgdir k
    → tf.tf_cs % 4 ≡ 3
    → curenv k ≡ some me
    → is_running (k.envs me).env_status ≡ true
    → Reschedules tf
    → Schedules p (trap p m fault_va tf k)
user_entry-Schedules p m me fault_va tf k inv d cs mine up r =
    let v = entered-Serves k me inv d mine up in
    let alive : is_dying ((entered k).envs me).env_status ≡ false =
      rw (entered-envs k) (running-alive (k.envs me) up) in
    let (s, e, good) = user_trap-Schedules p m me fault_va tf (entered k) v alive r in
    rw (trap-user p m me fault_va tf k s cs v.mine e) good
  where
    running-alive : (e : Env) → is_running e.env_status ≡ true → is_dying e.env_status ≡ false
    running-alive e on = ground arith

trap-stops :
    (p : Policy) (m : Machine) (me fault_va : ℕ) (tf : Trapframe) (k : Kernel)
    → tf.tf_cs % 4 ≡ 3
    → curenv (entered k) ≡ some me
    → trap p m fault_va tf k ≡ stop_of p (user_trap p m fault_va tf (some me) (entered k))
unfolding trap
trap-stops p m me fault_va tf k cs mine = rw (cs, mine)

comes_back-Exclusive :
    (p : Policy) (m : Machine) (me fault_va : ℕ) (tf : Trapframe) (k : Kernel)
    → InKernel k
    → HasPgdir k
    → tf.tf_cs % 4 ≡ 3
    → curenv k ≡ some me
    → is_running (k.envs me).env_status ≡ true
    → Resumes tf
    → Exclusive (trap p m fault_va tf k).kernel × HasPgdir (trap p m fault_va tf k).kernel
comes_back-Exclusive p m me fault_va tf k inv d cs mine up r =
    let v = entered-Serves k me inv d mine up in
    rw (trap-stops p m me fault_va tf k cs v.mine)
      (Resumes-Exclusive p m me fault_va tf (entered k) v (rw (entered-envs k) up) r)

idle_tick-Schedules :
    (p : Policy) (m : Machine) (fault_va : ℕ) (tf : Trapframe) (k : Kernel)
    → InKernel k
    → HasPgdir k
    → (tf.tf_cs % 4 == 3) ≡ false
    → tf.tf_trapno ≡ 32
    → Schedules p (trap p m fault_va tf k)
idle_tick-Schedules p m fault_va tf k inv d cs e =
    rw (trap-idle p m fault_va tf k cs e)
      (timer-Schedules p (entered k) (entered-InKernel k inv) (entered-HasPgdir k d))

Step-Exclusive :
    (p : Policy) (m : Machine) (k k' : Kernel)
    → Step p m k k'
    → Exclusive k
    → HasPgdir k
    → Exclusive k' × HasPgdir k'
Step-Exclusive p m k _ (user_entry c me fault_va tf cs mine up r on) ex d =
    Schedules-Exclusive p _
      (user_entry-Schedules p m me fault_va tf (on_cpu c k) (Exclusive-InKernel c k ex) d cs mine up
        r)
      on
Step-Exclusive p m k _ (comes_back c me fault_va tf cs mine up r) ex d =
    comes_back-Exclusive p m me fault_va tf (on_cpu c k) (Exclusive-InKernel c k ex) d cs mine up r
Step-Exclusive p m k _ (idle_tick c fault_va tf cs e on) ex d =
    Schedules-Exclusive p _
      (idle_tick-Schedules p m fault_va tf (on_cpu c k) (Exclusive-InKernel c k ex) d cs e) on
Step-Exclusive p m k _ (starts_up c off on) ex d = mp_main-Exclusive p c k ex d on

-- From a machine in which no environment is on two CPUs, those on the CPUs are RUNNING or DYING,
-- every RUNNING one is on a CPU, and every environment in use has a page directory, any sequence
-- of kernel entries of these kinds, in any order on any CPUs, none of which ends in the monitor,
-- leads to a machine of which all this holds again: clock interrupts of RUNNING environments and of
-- halted CPUs; calls of sys_yield, sys_sleep, sys_ipc_recv, sys_getenvid and sys_cgetc by RUNNING
-- environments, with any arguments, refused ones included; their breakpoints, and spurious
-- interrupts; and the starts in mp_main of CPUs that have no environment. Other system calls and
-- faults, and the traps of DYING environments, are no such steps.
pub Steps-Exclusive :
    (p : Policy) (m : Machine) (k k' : Kernel)
    → Steps p m k k'
    → Exclusive k
    → HasPgdir k
    → Exclusive k' × HasPgdir k'
Steps-Exclusive p m k _ start ex d = (ex, d)
Steps-Exclusive p m k _ (then_step {k'} {k''} before last) ex d =
    let (ex', d') = Steps-Exclusive p m k k' before ex d in Step-Exclusive p m k' k'' last ex' d'
