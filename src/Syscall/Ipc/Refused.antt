-- ===== src/Syscall/Ipc/Refused.antt =====
-- What a call of sys_ipc_recv with an address that is refused may lead to.
use sched_v2_solution.Base.{
  ℕ, ◌≤◌, ◌<◌, ◌≡◌, ◌≢◌, inl, inr, sym, subst, Bool-cases, ==_iff, refl, ap, ◌==◌, ◌∙◌, true, false,
  some, arith, ==_self,
}
use sched_v2_solution.Kernel.{Kernel, CpuInfo, Stop, Policy, round_robin, to_user, set_env}
use sched_v2_solution.Kernel.Pcb.{Env, nenv, runnable, is_runnable, is_running}
use sched_v2_solution.Pmap.Table.{PtePtr}
use sched_v2_solution.Pmap.UserMem.{utop}
use sched_v2_solution.Sched.Run.Switch.{Ran}
use sched_v2_solution.Sched.Yield.{sched_yield}
use sched_v2_solution.Sched.Yield.Decide.{
  HasPgdir, RrDecision, picks, nobody, yield_round_robin-RrDecision, running-not-free,
}
use sched_v2_solution.Sched.Exclusive.{env_on}
use sched_v2_solution.Sched.Exclusive.Update.{on_cpu}
use sched_v2_solution.Process.Cmd.{done, ok, err, inval}
use sched_v2_solution.Process.Lookup.{envid2env}
use sched_v2_solution.Syscall.Page.{bad_va}
use sched_v2_solution.Syscall.Ipc.{start_recv, sys_ipc_try_send, sys_ipc_recv}
use sched_v2_solution.Syscall.Ipc.Rendezvous.{delivered, delivered-Received, send-delivered}

recv-inval :
    (p : Policy) (me va : ℕ) (k : Kernel)
    → bad_va va ≡ true
    → sys_ipc_recv p me va k ≡ done (err inval) (start_recv me k)
unfolding sys_ipc_recv
recv-inval p me va k bad = rw bad

start_recv-open : (me : ℕ) (k : Kernel) → ((start_recv me k).envs me).env_ipc_recving ≡ true
unfolding start_recv set_env
start_recv-open me k = rw (==_self me)

start_recv-cpus : (me : ℕ) (k : Kernel) (c : ℕ) → env_on (start_recv me k) c ≡ env_on k c
unfolding start_recv set_env
start_recv-cpus me k c = refl

-- After s, environment me is on CPU c and on CPU d, which has just left the kernel for it.
pub record OnBothCpus (me c d : ℕ) (s : Stop) : Type 0 where
  pub exit : s.exit ≡ to_user me
  pub there : env_on s.kernel c ≡ some me
  pub here : env_on s.kernel d ≡ some me

Ran-OnBothCpus :
    (k : Kernel) (me c pgdir : ℕ) (s : Stop)
    → c ≢ k.cpunum
    → env_on k c ≡ some me
    → Ran k me pgdir s
    → OnBothCpus me c k.cpunum s
Ran-OnBothCpus k me c pgdir s away on ran = record {
  exit = ran.exit;
  there = ap (λ (x : CpuInfo). x.cpu_env) (ran.other_cpus c away) ∙ on;
  here = rw ran.cpunum at ran.current;
}

-- Round robin runs the only ready environment, also one that is on another CPU already.
only_ready-runs_twice :
    (k : Kernel) (me c : ℕ)
    → me < nenv
    → c ≢ k.cpunum
    → env_on k c ≡ some me
    → (k.envs me).env_status ≡ runnable
    → ((j : ℕ) → j ≢ me → is_runnable (k.envs j).env_status ≡ false)
    → HasPgdir k
    → OnBothCpus me c k.cpunum (sched_yield round_robin k)
only_ready-runs_twice k me c lt away on ready others d = go (yield_round_robin-RrDecision k d)
  where
    is_ready : is_runnable (k.envs me).env_status ≡ true
    is_ready = rw ready

    go :
        RrDecision k (sched_yield round_robin k)
        → OnBothCpus me c k.cpunum (sched_yield round_robin k)
    go (nobody none_ready _) =
        let not_ready : is_runnable (k.envs me).env_status ≡ false = none_ready me lt in absurd (cc)
    go (picks j pgdir first ran) = elim (Bool-cases (j == me)) [
      | inl same ↦
          Ran-OnBothCpus k me c pgdir _ away on
            (subst (λ e. Ran k e pgdir (sched_yield round_robin k)) ((==_iff j me).0 same) ran)
      | inr other ↦
          let not_ready : is_runnable (k.envs j).env_status ≡ false = others j (ground arith) in
          let was_ready = first.ready in absurd (cc)
    ]

start_recv-others : (me : ℕ) (k : Kernel) (j : ℕ) → j ≢ me → (start_recv me k).envs j ≡ k.envs j
unfolding start_recv set_env
start_recv-others me k j ne = ground arith

start_recv-pgdir :
    (me : ℕ) (k : Kernel) → ((start_recv me k).envs me).env_pgdir ≡ (k.envs me).env_pgdir
unfolding start_recv set_env
start_recv-pgdir me k = rw (==_self me)

-- When every environment in use has a page directory, a call of sys_ipc_recv by a RUNNING
-- environment with an address that is refused leaves it receiving, although it goes on running on
-- its CPU c: when an environment on another CPU d then sends it a value (srcva at or above UTOP),
-- it becomes RUNNABLE, and when no other environment is ready, the next sched_yield on d under
-- round robin goes to user mode in it, so that it is on c and on d at once.
pub recv_error-runs_twice :
    (stale : PtePtr) (me va you envid value srcva perm c d : ℕ) (k : Kernel)
    → bad_va va ≡ true
    → c ≢ d
    → env_on k c ≡ some me
    → is_running (k.envs me).env_status ≡ true
    → me < nenv
    → envid2env you (on_cpu d (start_recv me k)) envid false ≡ some me
    → utop ≤ srcva
    → ((j : ℕ) → j ≢ me → is_runnable (k.envs j).env_status ≡ false)
    → HasPgdir k
    → (k1 k2 : Kernel) × (sys_ipc_recv round_robin me va k ≡ done (err inval) k1)
      × (sys_ipc_try_send stale you envid value srcva perm (on_cpu d k1) ≡ done (ok 0) k2)
      × OnBothCpus me c d (sched_yield round_robin k2)
unfolding set_env start_recv
recv_error-runs_twice stale me va you envid value srcva perm c d k bad away on up lt found high idle
      pgdirs =
    let k1 = start_recv me k in
    let k2 = delivered you value me (on_cpu d k1) in
    let got = delivered-Received you value me (on_cpu d k1) in
    let here : env_on k2 c ≡ some me = start_recv-cpus me k c ∙ on in
    (
      k1,
      k2,
      recv-inval round_robin me va k bad,
      send-delivered stale you envid value srcva perm me (on_cpu d k1) found (start_recv-open me k)
          high,
      only_ready-runs_twice k2 me c lt away here got.ready
          (λ j ne. ap (λ e. is_runnable (Env.env_status e)) (same j ne) ∙ idle j ne) pgdirs_after,
    )
  where
    k3 : Kernel
    k3 = delivered you value me (on_cpu d (start_recv me k))

    same : (j : ℕ) → j ≢ me → k3.envs j ≡ k.envs j
    same j ne =
        (delivered-Received you value me (on_cpu d (start_recv me k))).others j (λ e. ne (sym e))
        ∙ start_recv-others me k j ne

    pgdirs_after : HasPgdir k3
    pgdirs_after i used = elim (Bool-cases (i == me)) [
      | inl at_me ↦
          let (q, e) = pgdirs me (running-not-free (k.envs me) up) in
          let r = (delivered-Received you value me (on_cpu d (start_recv me k))).receiver in
          let at : i ≡ me = (==_iff i me).0 at_me in
          (q, rw at (ap Env.env_pgdir r ∙ start_recv-pgdir me k ∙ e))
      | inr other ↦
          let ne : i ≢ me = ground arith in
          let (q, e) = pgdirs i (rw (same i ne) at used) in (q, rw (same i ne) e)
    ]
