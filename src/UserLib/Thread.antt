-- ===== src/UserLib/Thread.antt =====
-- thread_create of sched/lib/thread.c, for the environment in slot `me`.
use sched_v2_solution.Base.{ℕ, ◌+◌, ◌-◌, ◌*◌}
use sched_v2_solution.Process.Cmd.{Result, ok, err}
use sched_v2_solution.Syscall.Env.{sys_thread_create}
use sched_v2_solution.Syscall.Page.{sys_page_alloc, sys_page_unmap}
use sched_v2_solution.UserLib.Call.{User, pure, ◌>>=◌, ◌>>◌, call, store_word}

abbrev pub ustacktop : ℕ
ustacktop = 0xeebf_e000

-- THREAD_STACK_TOP and THREAD_STACK_BASE: each stack is a page with a page below it left free.
abbrev pub thread_stack_top : ℕ → ℕ
thread_stack_top n = ustacktop - 2 * 0x1000 - n * 0x2000

abbrev pub thread_stack_base : ℕ → ℕ
thread_stack_base n = thread_stack_top n - 0x1000

-- thread_create with the static variable nthreads and the address of exit: a stack is one page.
unfoldable pub thread_create : (me exit_code fun arg nthreads : ℕ) → User (Result ℕ × ℕ)
unfolding store_word
thread_create me exit_code fun arg nthreads =
    let base = thread_stack_base nthreads in
    let top = thread_stack_top nthreads in
    call (sys_page_alloc me 0 base 7) >>= λ r. elim r [
      | err e ↦ pure (err e, nthreads)
      | ok n ↦
          store_word me (top - 4) arg
          >> store_word me (top - 8) exit_code
          >> call (sys_thread_create me fun (top - 8))
          >>= λ t. elim t [
            | ok tid ↦ pure (ok tid, nthreads + 1)
            | err e ↦ call (sys_page_unmap me 0 base) >> pure (err e, nthreads)
          ]
    ]
