-- ===== src/Trap/Entry/Reschedule.antt =====
-- The kernel entries of user code that give the CPU away reach the scheduler in a good state.
use sched_v2_solution.Base.{
  ℕ, ◌≡◌, ◌≢◌, ◌+◌, ◌==◌, ==_self, subst, sym, ◌∙◌, refl, false, some, arith,
}
use sched_v2_solution.Kernel.{Kernel, Stop, Policy, in_monitor, curenv, set_env}
use sched_v2_solution.Kernel.Pcb.{word, Env, Trapframe, PushRegs, is_free, is_dying}
use sched_v2_solution.Sched.Sleep.{sched_wakeup_sleeping}
use sched_v2_solution.Sched.Yield.{sched_yield}
use sched_v2_solution.Sched.Yield.Decide.{HasPgdir}
use sched_v2_solution.Sched.Exclusive.{InKernel, Exclusive}
use sched_v2_solution.Sched.Exclusive.Decision.{sched_yield-Exclusive}
use sched_v2_solution.Sched.Exclusive.InUse.{SameUse-HasPgdir, sched_yield-SameUse}
use sched_v2_solution.Sched.Exclusive.Update.{
  woken-InKernel, woken-SameUse, set_env-InKernel, set_env-SameUse,
}
use sched_v2_solution.Process.Cmd.{Run, Cmd, Result, stopped, ◌>>=◌}
use sched_v2_solution.Syscall.Env.{sys_yield}
use sched_v2_solution.Syscall.Page.{bad_va}
use sched_v2_solution.Syscall.Ipc.{sys_sleep, fall_asleep, sys_ipc_recv, start_recv, block_recv}
use sched_v2_solution.Syscall.Dispatch.{Machine, syscall}
use sched_v2_solution.Trap.Entry.{user_trap, trap_dispatch, dispatch_syscall, timer}

-- A trap of user code that ends in the scheduler: the clock, sys_yield, sys_sleep, and sys_ipc_recv,
-- the last two with arguments that they accept.
pub data Reschedules (tf : Trapframe) : Type 0 where
  clock : tf.tf_trapno ≡ 32 → Reschedules tf
  yields : tf.tf_trapno ≡ 48 → tf.tf_regs.reg_eax ≡ 10 → Reschedules tf
  sleeps : tf.tf_trapno ≡ 48 → tf.tf_regs.reg_eax ≡ 13 → tf.tf_regs.reg_edx ≢ 0 → Reschedules tf
  receives :
      tf.tf_trapno ≡ 48
      → tf.tf_regs.reg_eax ≡ 12
      → bad_va tf.tf_regs.reg_edx ≡ false
      → Reschedules tf

-- The kernel entry gets to the scheduler in a state as the scheduler wants it.
unfoldable pub Schedules : Policy → Stop → Type 0
Schedules p s = (k : Kernel) × (s ≡ sched_yield p k) × InKernel k × HasPgdir k

pub Schedules-Exclusive :
    (p : Policy) (s : Stop)
    → Schedules p s
    → s.exit ≢ in_monitor
    → Exclusive s.kernel × HasPgdir s.kernel
unfolding Schedules
Schedules-Exclusive p s (k, e, inv, d) on = rw e (
  sched_yield-Exclusive p k d inv (rw e at on),
  SameUse-HasPgdir k (sched_yield p k).kernel (sched_yield-SameUse p k d) d,
)

pub timer-Schedules : (p : Policy) (k : Kernel) → InKernel k → HasPgdir k → Schedules p (timer p k)
unfolding Schedules timer
timer-Schedules p k inv d =
    let ticked = record k { ticks = word (k.ticks + 1) } in
    (
      sched_wakeup_sleeping ticked,
      refl,
      woken-InKernel ticked (record { apart = inv.apart; live = inv.live; owned = inv.owned }),
      SameUse-HasPgdir ticked (sched_wakeup_sleeping ticked) (woken-SameUse ticked) d,
    )

-- What the registers ask of the kernel.
abbrev pub requested : Policy → Machine → ℕ → PushRegs → Cmd (Result ℕ)
requested p m me r = syscall p m me r.reg_eax r.reg_edx r.reg_ecx r.reg_ebx r.reg_edi r.reg_esi

trap-clock :
    (p : Policy) (m : Machine) (me fault_va trapno cs : ℕ) (k : Kernel)
    → trapno ≡ 32
    → trap_dispatch p m fault_va trapno cs (some me) k ≡ stopped (timer p k)
unfolding trap_dispatch
trap-clock p m me fault_va trapno cs k e = rw e

trap-syscall :
    (p : Policy) (m : Machine) (me fault_va trapno cs : ℕ) (k : Kernel) (s : Stop)
    → trapno ≡ 48
    → requested p m me (k.envs me).env_tf.tf_regs k ≡ stopped s
    → trap_dispatch p m fault_va trapno cs (some me) k ≡ stopped s
unfolding trap_dispatch dispatch_syscall
trap-syscall p m me fault_va trapno cs k s e call = rw e (rw (call, ◌>>=◌))

-- The system calls that give the CPU away.
yield-stopped :
    (p : Policy) (m : Machine) (me : ℕ) (r : PushRegs) (k : Kernel)
    → r.reg_eax ≡ 10
    → requested p m me r k ≡ stopped (sched_yield p k)
unfolding syscall sys_yield
yield-stopped p m me r k e = rw e

sleep-stopped :
    (p : Policy) (m : Machine) (me : ℕ) (r : PushRegs) (k : Kernel)
    → r.reg_eax ≡ 13
    → (r.reg_edx == 0) ≡ false
    → requested p m me r k ≡ stopped (sched_yield p (fall_asleep me r.reg_edx k))
unfolding syscall sys_sleep sys_yield
sleep-stopped p m me r k e n = rw (e, n)

recv-stopped :
    (p : Policy) (m : Machine) (me : ℕ) (r : PushRegs) (k : Kernel)
    → r.reg_eax ≡ 12
    → bad_va r.reg_edx ≡ false
    → requested p m me r k ≡ stopped (sched_yield p (block_recv me r.reg_edx (start_recv me k)))
unfolding syscall sys_ipc_recv sys_yield
recv-stopped p m me r k e good = rw (e, good)

-- In the kernel on the CPU of environment me, which is in use.
pub record Serves (me : ℕ) (k : Kernel) : Type 0 where
  pub mine : curenv k ≡ some me
  pub in_use : is_free (k.envs me).env_status ≡ false
  pub inv : InKernel k
  pub pgdirs : HasPgdir k

pub set_env-Serves :
    (me : ℕ) (k : Kernel) (e : Env)
    → Serves me k
    → is_free e.env_status ≡ false
    → e.env_pgdir ≡ (k.envs me).env_pgdir
    → Serves me (set_env k me e)
unfolding set_env
set_env-Serves me k e v up pg = record {
  mine = mine_after;
  in_use = up_after;
  inv = set_env-InKernel k me e v.mine v.inv;
  pgdirs =
      SameUse-HasPgdir k (set_env k me e) (set_env-SameUse k me e (up ∙ sym v.in_use) pg) v.pgdirs;
}
  where
    mine_after : curenv (set_env k me e) ≡ some me
    mine_after = v.mine

    up_after : is_free ((set_env k me e).envs me).env_status ≡ false
    up_after = rw (==_self me) up

Serves-Schedules : (p : Policy) (me : ℕ) (k : Kernel) → Serves me k → Schedules p (sched_yield p k)
unfolding Schedules
Serves-Schedules p me k v = (k, refl, v.inv, v.pgdirs)

fall_asleep-Serves : (me n : ℕ) (k : Kernel) → Serves me k → Serves me (fall_asleep me n k)
unfolding fall_asleep
fall_asleep-Serves me n k v = set_env-Serves me k _ v refl refl

recv-Serves :
    (me va : ℕ) (k : Kernel) → Serves me k → Serves me (block_recv me va (start_recv me k))
unfolding start_recv block_recv
recv-Serves me va k v =
    set_env-Serves me (start_recv me k) _ (set_env-Serves me k _ v v.in_use refl) refl refl

module _ (p : Policy) (m : Machine) (me fault_va : ℕ) (tf : Trapframe) (k : Kernel)
    (v : Serves me k) where
  -- The process table with the registers of the trap.
  pub saved_env : Env
  saved_env = record (k.envs me) { env_tf = tf }

  pub saved-Serves : Serves me (set_env k me saved_env)
  unfolding saved_env
  saved-Serves = set_env-Serves me k saved_env v v.in_use refl

  pub saved-tf : ((set_env k me saved_env).envs me).env_tf ≡ tf
  unfolding set_env saved_env
  saved-tf = rw (==_self me)

  dispatched : Run (Unit {0})
  dispatched = trap_dispatch p m fault_va tf.tf_trapno tf.tf_cs (some me) (set_env k me saved_env)

  asks :
      (s : Stop)
      → tf.tf_trapno ≡ 48
      → requested p m me tf.tf_regs (set_env k me saved_env) ≡ stopped s
      → dispatched ≡ stopped s
  unfolding dispatched
  asks s e call = trap-syscall p m me fault_va tf.tf_trapno tf.tf_cs (set_env k me saved_env) s e (
      subst (λ (t : Trapframe). requested p m me t.tf_regs (set_env k me saved_env) ≡ stopped s)
        (sym saved-tf) call)

  Reschedules-Schedules : Reschedules tf → (s : Stop) × (dispatched ≡ stopped s) × Schedules p s
  unfolding dispatched
  Reschedules-Schedules (clock e) = (
    timer p (set_env k me saved_env),
    trap-clock p m me fault_va tf.tf_trapno tf.tf_cs (set_env k me saved_env) e,
    timer-Schedules p (set_env k me saved_env) saved-Serves.inv saved-Serves.pgdirs,
  )
  Reschedules-Schedules (yields e call) = (
    sched_yield p (set_env k me saved_env),
    asks _ e (yield-stopped p m me tf.tf_regs (set_env k me saved_env) call),
    Serves-Schedules p me _ saved-Serves,
  )
  Reschedules-Schedules (sleeps e call n) = (
    sched_yield p (fall_asleep me tf.tf_regs.reg_edx (set_env k me saved_env)),
    asks _ e (sleep-stopped p m me tf.tf_regs (set_env k me saved_env) call (ground arith)),
    Serves-Schedules p me _ (fall_asleep-Serves me _ _ saved-Serves),
  )
  Reschedules-Schedules (receives e call good) = (
    sched_yield p (block_recv me tf.tf_regs.reg_edx (start_recv me (set_env k me saved_env))),
    asks _ e (recv-stopped p m me tf.tf_regs (set_env k me saved_env) call good),
    Serves-Schedules p me _ (recv-Serves me _ _ saved-Serves),
  )

  pub user_trap-Schedules :
      is_dying (k.envs me).env_status ≡ false
      → Reschedules tf
      → (s : Stop) × (user_trap p m fault_va tf (some me) k ≡ stopped s) × Schedules p s
  unfolding user_trap dispatched saved_env
  user_trap-Schedules alive r = let (s, e, good) = Reschedules-Schedules r in (s, rw alive e, good)
