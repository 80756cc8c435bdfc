-- ===== src/Tests.antt =====
-- The theorems on processes, memory, system calls and traps at small kernels.
use sched_v2_solution.Base.{
  ℕ, ◌+◌, ◌%◌, ◌<◌, ◌≤◌, ◌≡◌, ◌≢◌, ◌↔◌, ◌⊎◌, refl, sym, ◌∙◌, Bool, true, false, none, some, List,
  [], ◌∷◌, arith, ◌==◌, ◌||◌, if◌then◌else◌, update,
}
use sched_v2_solution.Kernel.{Kernel, Stop, to_user, in_monitor, round_robin, set_env}
use sched_v2_solution.Kernel.Pcb.{
  Env, Trapframe, running, free, is_runnable, runnable, not_runnable, zero_trapframe, set_eax,
}
use sched_v2_solution.Kernel.Ram.{Memory}
use sched_v2_solution.Sched.Run.{env_run}
use sched_v2_solution.Sched.Account.{sched_run}
use sched_v2_solution.Sched.Scan.{rr_scan}
use sched_v2_solution.Sched.Sleep.{sched_wakeup_sleeping}
use sched_v2_solution.Sched.Yield.{sched_yield, count_call, yield_rr}
use sched_v2_solution.Sched.Yield.Decide.{HasPgdir}
use sched_v2_solution.Sched.Exclusive.{Exclusive}
use sched_v2_solution.Sched.Exclusive.Update.{on_cpu}
use sched_v2_solution.Sched.Tests.{env_of, kernel_of, some_memory, mixed, asleep, mixed-HasPgdir}
use sched_v2_solution.Pmap.Alloc.{page_alloc, page_decref}
use sched_v2_solution.Pmap.Alloc.FreeList.{
  FreeList, Linked, Taken, Dropped, page_alloc-Taken, page_decref-Dropped,
}
use sched_v2_solution.Pmap.Table.{pgdir_walk, ensure_table, entry_of}
use sched_v2_solution.Pmap.UserMem.{allowed, grants, check_pages, user_mem_check, rounddown, utop}
use sched_v2_solution.Pmap.UserMem.Soundness.{Granted, user_mem_check-Granted}
use sched_v2_solution.Process.Cmd.{done, ok, err, inval, ipc_not_recv}
use sched_v2_solution.Process.Lookup.{envid2env}
use sched_v2_solution.Process.Lookup.Permission.{Names, envid2env-Names}
use sched_v2_solution.Process.Create.{next_generation, env_alloc}
use sched_v2_solution.Process.Create.Fresh.{
  Created, Alloc, FreshId, env_alloc-Alloc, Created-lookup,
}
use sched_v2_solution.Syscall.Env.{sys_yield}
use sched_v2_solution.Syscall.Ipc.{sys_ipc_try_send, sys_ipc_recv, start_recv}
use sched_v2_solution.Syscall.Ipc.Nap.{nap, sys_sleep-sleeps}
use sched_v2_solution.Syscall.Ipc.Rendezvous.{Received, sys_ipc_try_send-Received}
use sched_v2_solution.Syscall.Ipc.Refused.{recv_error-runs_twice, OnBothCpus}
use sched_v2_solution.Syscall.Prio.{sys_setpriority}
use sched_v2_solution.Syscall.Prio.Bounds.{SetOutcome, sys_setpriority-SetOutcome}
use sched_v2_solution.Syscall.Dispatch.{Machine, syscall}
use sched_v2_solution.Trap.Entry.{trap, user_trap, trap_dispatch, dispatch_syscall}
use sched_v2_solution.Trap.Entry.Reschedule.{yields}
use sched_v2_solution.Trap.Entry.Interleaving.{Steps, start, then_step, user_entry, Steps-Exclusive}

-- A trap by sys_yield.
abbrev yield_tf : Trapframe
yield_tf = record (set_eax zero_trapframe 10) { tf_trapno = 48; tf_cs = 0x1b }

abbrev machine : Machine
machine = record { cons_getc = 0; stale = (0, 0) }

mixed-Exclusive : Exclusive mixed
mixed-Exclusive = record {
  apart = λ c d i on_c on_d. ground arith;
  live = λ c i on. ground arith;
  owned = λ i up. (0, ground arith);
}

abbrev after_yield : Stop
after_yield = trap round_robin machine 0 yield_tf (on_cpu 0 mixed)

after_yield-exit : after_yield.exit ≡ to_user 3
unfolding trap user_trap trap_dispatch dispatch_syscall syscall sys_yield sched_yield count_call
    yield_rr rr_scan sched_run env_run
after_yield-exit = refl

one_step : Steps round_robin machine mixed after_yield.kernel
one_step = then_step start (
    user_entry 0 0 0 yield_tf refl refl refl (yields refl refl)
      (λ e. let same : to_user 3 ≡ in_monitor = sym after_yield-exit ∙ e in cc))

Steps-Exclusive_example : Exclusive after_yield.kernel × HasPgdir after_yield.kernel
Steps-Exclusive_example =
    Steps-Exclusive round_robin machine mixed after_yield.kernel one_step mixed-Exclusive
      mixed-HasPgdir

-- Page 5 is a page directory whose first table, page 6, maps everything to page 7.
abbrev mapped : Memory
mapped = record some_memory {
  frame = λ p i. if p == 5 then (if i == 0 then 0x6007 else 0) else if p == 6 then 0x7007 else 0;
}

mapped-allowed : user_mem_check 5 0x1ffe 4 4 mapped ≡ some (allowed, mapped)
unfolding user_mem_check check_pages pgdir_walk ensure_table entry_of grants
mapped-allowed = refl

user_mem_check-Granted_example :
    (0x1ffe + 4 ≤ utop) × ((a : ℕ) → 0x1ffe ≤ a → a < 0x1ffe + 4 → Granted mapped 5 4 (rounddown a))
user_mem_check-Granted_example =
    user_mem_check-Granted 5 0x1ffe 4 4 mapped mapped (omega arith) mapped-allowed

-- Page 7 is free and page 8 has one reference.
abbrev one_free : Memory
one_free = record some_memory {
  page_free_list = some 7;
  pages = λ i. record { pp_link = none; pp_ref = if i == 7 then 0 else 1 };
}

abbrev free_pages : List ℕ
free_pages = 7 ∷ []

one_free-FreeList : FreeList one_free free_pages
unfolding FreeList Linked
one_free-FreeList = (refl, (refl, refl, omega arith, tt, tt))

page_alloc-Taken_example :
    ((free_pages ≡ []) × (page_alloc true one_free ≡ some (none, one_free)))
    ⊎ ((p : ℕ) × (qs : List ℕ) × (m' : Memory) × (free_pages ≡ p ∷ qs)
        × (page_alloc true one_free ≡ some (some p, m'))
        × Taken one_free true p qs m')
page_alloc-Taken_example = page_alloc-Taken true one_free free_pages one_free-FreeList

page_decref-Dropped_example :
    (m' : Memory) × (page_decref 8 one_free ≡ some (tt, m'))
    × Dropped one_free 8 0 (8 ∷ free_pages) m'
page_decref-Dropped_example =
    page_decref-Dropped one_free 8 0 free_pages one_free-FreeList (ground arith, tt) (omega arith)
      refl refl (omega arith)

-- Ids and priorities.
envid2env-Names_example : (envid2env 0 mixed 4099 false ≡ some 3) ↔ Names 0 mixed 4099 false 3
envid2env-Names_example = envid2env-Names 0 mixed 4099 false 3 (λ e. absurd (omega arith))

sys_setpriority-SetOutcome_example : SetOutcome 0 mixed 4096 5 (sys_setpriority 0 4096 5 mixed)
sys_setpriority-SetOutcome_example = sys_setpriority-SetOutcome 0 4096 5 mixed

-- Sleep.
sys_sleep-sleeps_example :
    (52 < 55 → ((sched_wakeup_sleeping (nap 0 5 mixed 52)).envs 0).env_status ≡ not_runnable)
    × (55 ≤ 52 → ((sched_wakeup_sleeping (nap 0 5 mixed 52)).envs 0).env_status ≡ runnable)
sys_sleep-sleeps_example = sys_sleep-sleeps 0 5 mixed 52 (omega arith) (omega arith) (omega arith)

-- Slot 2 receives, and slot 0, which runs, is a child of slot 1.
abbrev waiting : ℕ → Env
waiting i =
    let e = asleep i in
    record e { env_ipc_recving = i == 2; env_parent_id = if i == 0 then 4097 else 0 }

abbrev receiver : Kernel
receiver = kernel_of waiting (some 0)

named : envid2env 0 receiver 4098 false ≡ some 2
unfolding envid2env
named = refl

sys_ipc_try_send-Received_example :
    (k' : Kernel) × (sys_ipc_try_send (0, 0) 0 4098 77 utop 0 receiver ≡ done (ok 0) k')
    × Received 0 2 77 receiver k'
    × ((you envid' value' srcva' perm' : ℕ)
        → envid2env you k' envid' false ≡ some 2
        → sys_ipc_try_send (0, 0) you envid' value' srcva' perm' k' ≡ done (err ipc_not_recv) k')
sys_ipc_try_send-Received_example =
    sys_ipc_try_send-Received (0, 0) 0 4098 77 utop 0 2 receiver named refl (omega arith)

-- Slot 0 runs on CPU 0, and slot 3, on CPU 1, sends to it; nobody is ready.
abbrev both_busy : ℕ → Env
both_busy i = record (waiting i) { env_status = if i == 0 || i == 3 then running else free }

abbrev busy : Kernel
busy = kernel_of both_busy (some 0)

running_receiver : envid2env 3 (on_cpu 1 (start_recv 0 busy)) 4096 false ≡ some 0
unfolding envid2env start_recv set_env
running_receiver = refl

busy-HasPgdir : HasPgdir busy
busy-HasPgdir i h = (i + 100, refl)

none_ready : (j : ℕ) → j ≢ 0 → is_runnable (busy.envs j).env_status ≡ false
none_ready j ne = ground arith

recv_error-runs_twice_example :
    (k1 k2 : Kernel) × (sys_ipc_recv round_robin 0 1 busy ≡ done (err inval) k1)
    × (sys_ipc_try_send (0, 0) 3 4096 77 utop 0 (on_cpu 1 k1) ≡ done (ok 0) k2)
    × OnBothCpus 0 0 1 (sched_yield round_robin k2)
recv_error-runs_twice_example =
    recv_error-runs_twice (0, 0) 0 1 3 4096 77 utop 0 0 1 busy refl (λ e. absurd (omega arith)) refl
      refl (omega arith) running_receiver (omega arith) none_ready busy-HasPgdir

child_of_one : envid2env 1 (on_cpu 1 receiver) 4096 true ≡ some 0
unfolding envid2env
child_of_one = refl

-- A new environment in slot 7.
abbrev spare : Kernel
spare = record mixed { env_free_list = some 7; memory = one_free }

env_alloc-Alloc_example : Alloc 4096 spare (env_alloc 4096 spare)
env_alloc-Alloc_example = env_alloc-Alloc 4096 spare

abbrev child : Env
child = let e = env_of 7 runnable 8 0 in record e { env_id = 8199; env_parent_id = 4096 }

abbrev spawned : Kernel
spawned = record spare { env_free_list = none; envs = update asleep 7 child }

spawned-Created : Created 4096 7 spare spawned
unfolding next_generation
spawned-Created = record {
  head = refl;
  list = refl;
  id = refl;
  parent = refl;
  status = refl;
  type = refl;
  recving = refl;
  sleep = refl;
  priority = refl;
  wait = refl;
  pgdir = (107, refl);
  others = λ i ne. ground arith;
  cpus = refl;
}

Created-lookup_example :
    FreshId 7 4103 8199
    × ((me : ℕ) → envid2env me spawned 8199 false ≡ some 7)
    × ((me stale : ℕ) (c : Bool)
        → stale ≢ 0
        → stale % 1024 ≡ 7
        → stale ≢ 8199
        → envid2env me spawned stale c ≡ none)
Created-lookup_example =
    Created-lookup 4096 7 spare spawned spawned-Created (omega arith) (omega arith)
