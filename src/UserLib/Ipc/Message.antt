-- ===== src/UserLib/Ipc/Message.antt =====
-- What a message sent with ipc_send is to ipc_recv (sched/lib/ipc.c), for messages without a page.
use sched_v2_solution.Base.{ℕ, ◌≡◌, true, false, some, arith, ◌==◌, if◌then◌else◌}
use sched_v2_solution.Kernel.{Kernel, Policy}
use sched_v2_solution.Pmap.Table.{PtePtr}
use sched_v2_solution.Pmap.UserMem.{utop}
use sched_v2_solution.Process.Cmd.{Cmd, done, ok, err, ipc_not_recv}
use sched_v2_solution.Process.Lookup.{envid2env}
use sched_v2_solution.Sched.Yield.{sched_yield}
use sched_v2_solution.Syscall.Env.{sys_yield}
use sched_v2_solution.Syscall.Ipc.{sys_ipc_try_send}
use sched_v2_solution.Syscall.Ipc.Rendezvous.{
  delivered, delivered-Received, send-delivered, send-refused,
}
use sched_v2_solution.UserLib.Call.{User, back, left, call, ◌>>=◌}
use sched_v2_solution.UserLib.Ipc.{received, ipc_send}

call-done :
    {A B : Type 0} (c : Cmd A) (f : A → User B) (k k' : Kernel) (a : A)
    → c k ≡ done a k'
    → (call c >>= f) k ≡ f a k'
call-done c f k k' a e = λ i. (call (λ _. e i) >>= f) k

-- ipc_send with a null page to an environment that is receiving returns, and ipc_recv in the
-- receiver, when it goes on with the result in its registers, returns the value and stores the
-- sender's id and permission 0.
ipc_send-received :
    (p : Policy) (stale : PtePtr) (me to_env val perm dst : ℕ) (k : Kernel)
    → envid2env me k to_env false ≡ some dst
    → (k.envs dst).env_ipc_recving ≡ true
    → (k' : Kernel) × (ipc_send p stale me to_env val 0 perm k ≡ back tt k')
      × (received dst true true (ok (k'.envs dst).env_tf.tf_regs.reg_eax) k' ≡ record {
        value = ok val;
        from_env_store = some (k.envs me).env_id;
        perm_store = some 0;
      })
unfolding ipc_send received
ipc_send-received p stale me to_env val perm dst k found open_r =
    let r = delivered-Received me val dst k in
    (
      delivered me val dst k,
      call-done (sys_ipc_try_send stale me to_env val utop perm) _ k (delivered me val dst k) (ok 0)
          (send-delivered stale me to_env val utop perm dst k found open_r (omega arith)),
      rw (r.result, r.value_is, r.from, r.no_page),
    )

-- While the receiver is not receiving, a round of ipc_send gives up the CPU and sends nothing.
ipc_send-yields :
    (p : Policy) (stale : PtePtr) (me to_env val pg perm dst : ℕ) (k : Kernel)
    → envid2env me k to_env false ≡ some dst
    → (k.envs dst).env_ipc_recving ≡ false
    → ipc_send p stale me to_env val pg perm k ≡ left (sched_yield p k)
unfolding ipc_send sys_yield
ipc_send-yields p stale me to_env val pg perm dst k found closed =
    let srcva : ℕ = if pg == 0 then utop else pg in
    call-done (sys_ipc_try_send stale me to_env val srcva perm) _ k k (err ipc_not_recv)
      (send-refused stale me to_env val srcva perm dst k found closed)
