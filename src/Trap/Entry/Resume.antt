-- ===== src/Trap/Entry/Resume.antt =====
-- The kernel entries of user code that go back to the environment they came from.
use sched_v2_solution.Base.{ℕ, ◌≡◌, ==_self, subst, sym, refl, true, false, some, arith, inr}
use sched_v2_solution.Kernel.{Kernel, Policy, curenv, set_env}
use sched_v2_solution.Kernel.Pcb.{Env, Trapframe, PushRegs, is_running, is_dying}
use sched_v2_solution.Sched.Run.{env_run}
use sched_v2_solution.Sched.Run.Switch.{Ran, env_run-Ran}
use sched_v2_solution.Sched.Yield.Decide.{HasPgdir}
use sched_v2_solution.Sched.Exclusive.{Exclusive, Ran-Exclusive}
use sched_v2_solution.Sched.Exclusive.InUse.{SameUse-HasPgdir, Ran-SameUse}
use sched_v2_solution.Process.Cmd.{Run, Result, ok, err, inval, done, ◌>>=◌}
use sched_v2_solution.Syscall.Env.{sys_getenvid}
use sched_v2_solution.Syscall.Page.{bad_va}
use sched_v2_solution.Syscall.Ipc.{sys_sleep, sys_ipc_recv, start_recv}
use sched_v2_solution.Syscall.Dispatch.{Machine, syscall}
use sched_v2_solution.Trap.Entry.{
  user_trap, trap_dispatch, dispatch_syscall, return_value, leave, stop_of,
}
use sched_v2_solution.Trap.Entry.Reschedule.{Serves, set_env-Serves, requested}

-- A trap of user code that the kernel returns from at once: a breakpoint, a spurious interrupt,
-- sys_cgetc, sys_getenvid, and sys_sleep and sys_ipc_recv with arguments that they refuse.
pub data Resumes (tf : Trapframe) : Type 0 where
  breakpoint : tf.tf_trapno ≡ 3 → Resumes tf
  spurious : tf.tf_trapno ≡ 39 → Resumes tf
  asks_char : tf.tf_trapno ≡ 48 → tf.tf_regs.reg_eax ≡ 1 → Resumes tf
  asks_id : tf.tf_trapno ≡ 48 → tf.tf_regs.reg_eax ≡ 2 → Resumes tf
  no_sleep : tf.tf_trapno ≡ 48 → tf.tf_regs.reg_eax ≡ 13 → tf.tf_regs.reg_edx ≡ 0 → Resumes tf
  refused :
      tf.tf_trapno ≡ 48 → tf.tf_regs.reg_eax ≡ 12 → bad_va tf.tf_regs.reg_edx ≡ true → Resumes tf

-- The kernel serves environment me, which is RUNNING.
record ServesRunning (me : ℕ) (k : Kernel) : Type 0 where
  serves : Serves me k
  up : is_running (k.envs me).env_status ≡ true

-- What the environment itself writes in its slot.
set_env-ServesRunning :
    (me : ℕ) (k : Kernel) (e : Env)
    → ServesRunning me k
    → e.env_status ≡ (k.envs me).env_status
    → e.env_pgdir ≡ (k.envs me).env_pgdir
    → ServesRunning me (set_env k me e)
unfolding set_env
set_env-ServesRunning me k e v same pg = record {
  serves = set_env-Serves me k e v.serves (rw same v.serves.in_use) pg;
  up = rw (==_self me, same) v.up;
}

char-done :
    (p : Policy) (m : Machine) (me : ℕ) (r : PushRegs) (k : Kernel)
    → r.reg_eax ≡ 1
    → requested p m me r k ≡ done (ok m.cons_getc) k
unfolding syscall
char-done p m me r k e = rw e

id-done :
    (p : Policy) (m : Machine) (me : ℕ) (r : PushRegs) (k : Kernel)
    → r.reg_eax ≡ 2
    → requested p m me r k ≡ done (ok (k.envs me).env_id) k
unfolding syscall sys_getenvid
id-done p m me r k e = rw e

sleep-done :
    (p : Policy) (m : Machine) (me : ℕ) (r : PushRegs) (k : Kernel)
    → r.reg_eax ≡ 13
    → r.reg_edx ≡ 0
    → requested p m me r k ≡ done (err inval) k
unfolding syscall sys_sleep
sleep-done p m me r k e n = rw (e, n)

recv-done :
    (p : Policy) (m : Machine) (me : ℕ) (r : PushRegs) (k : Kernel)
    → r.reg_eax ≡ 12
    → bad_va r.reg_edx ≡ true
    → requested p m me r k ≡ done (err inval) (start_recv me k)
unfolding syscall sys_ipc_recv
recv-done p m me r k e bad = rw (e, bad)

trap-returns :
    (p : Policy) (m : Machine) (me fault_va trapno cs : ℕ) (k k' : Kernel) (r : Result ℕ)
    → trapno ≡ 48
    → requested p m me (k.envs me).env_tf.tf_regs k ≡ done r k'
    → trap_dispatch p m fault_va trapno cs (some me) k ≡ return_value me r k'
unfolding trap_dispatch dispatch_syscall
trap-returns p m me fault_va trapno cs k k' r e call = rw e (rw (call, ◌>>=◌))

module _ (p : Policy) (m : Machine) (me fault_va : ℕ) (tf : Trapframe) (k : Kernel)
    (v : ServesRunning me k) where
  abbrev saved : Kernel
  saved = set_env k me (record (k.envs me) { env_tf = tf })

  saved-ServesRunning : ServesRunning me saved
  saved-ServesRunning = set_env-ServesRunning me k _ v refl refl

  frame : (saved.envs me).env_tf ≡ tf
  unfolding set_env
  frame = rw (==_self me)

  abbrev dispatched : Run (Unit {0})
  dispatched = trap_dispatch p m fault_va tf.tf_trapno tf.tf_cs (some me) saved

  answers :
      (r : Result ℕ) (k' : Kernel)
      → tf.tf_trapno ≡ 48
      → requested p m me tf.tf_regs saved ≡ done r k'
      → ServesRunning me k'
      → (k'' : Kernel) × (dispatched ≡ done tt k'') × ServesRunning me k''
  unfolding return_value
  answers r k' e call v' = (
    _,
    trap-returns p m me fault_va tf.tf_trapno tf.tf_cs saved k' r e
        (subst (λ (t : Trapframe). requested p m me t.tf_regs saved ≡ done r k') (sym frame) call),
    set_env-ServesRunning me k' _ v' refl refl,
  )

  start_recv-ServesRunning : ServesRunning me (start_recv me saved)
  unfolding start_recv
  start_recv-ServesRunning = set_env-ServesRunning me saved _ saved-ServesRunning refl refl

  Resumes-done : Resumes tf → (k' : Kernel) × (dispatched ≡ done tt k') × ServesRunning me k'
  unfolding trap_dispatch
  Resumes-done (breakpoint e) = (saved, rw e, saved-ServesRunning)
  Resumes-done (spurious e) = (saved, rw e, saved-ServesRunning)
  Resumes-done (asks_char e call) =
      answers _ saved e (char-done p m me tf.tf_regs saved call) saved-ServesRunning
  Resumes-done (asks_id e call) =
      answers _ saved e (id-done p m me tf.tf_regs saved call) saved-ServesRunning
  Resumes-done (no_sleep e call n) =
      answers _ saved e (sleep-done p m me tf.tf_regs saved call n) saved-ServesRunning
  Resumes-done (refused e call bad) =
      answers _ _ e (recv-done p m me tf.tf_regs saved call bad) start_recv-ServesRunning

-- The end of trap runs the environment again.
leave-Exclusive :
    (p : Policy) (me : ℕ) (k : Kernel)
    → ServesRunning me k
    → Exclusive (leave p k (curenv k)).kernel × HasPgdir (leave p k (curenv k)).kernel
unfolding leave
leave-Exclusive p me k v =
    let mine = v.serves.mine in
    let (pgdir, d) = v.serves.pgdirs me v.serves.in_use in
    let ran : Ran k me pgdir (env_run k me) = env_run-Ran k me pgdir d in
    rw (mine, v.up)
      (
        Ran-Exclusive k me pgdir (env_run k me) v.serves.inv (inr mine) ran,
        SameUse-HasPgdir k (env_run k me).kernel
            (Ran-SameUse k me pgdir (env_run k me) v.serves.in_use ran) v.serves.pgdirs,
      )

-- A trap that goes back leaves no environment on two CPUs.
pub Resumes-Exclusive :
    (p : Policy) (m : Machine) (me fault_va : ℕ) (tf : Trapframe) (k : Kernel)
    → Serves me k
    → is_running (k.envs me).env_status ≡ true
    → Resumes tf
    → Exclusive (stop_of p (user_trap p m fault_va tf (some me) k)).kernel
      × HasPgdir (stop_of p (user_trap p m fault_va tf (some me) k)).kernel
unfolding user_trap
Resumes-Exclusive p m me fault_va tf k v up r =
    let alive : is_dying (k.envs me).env_status ≡ false = ground (arith, up) in
    let (k', e, v') = Resumes-done p m me fault_va tf k (record { serves = v; up = up }) r in
    rw (alive, e) (leave-Exclusive p me k' v')
