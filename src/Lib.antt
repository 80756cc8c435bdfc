-- ===== src/Lib.antt =====
-- Verification of the scheduler and of the process management of a JOS kernel (sched/kern).
--
-- The program is a small multiprocessor kernel. A trap enters it on one CPU, under the big kernel
-- lock; `trap` dispatches to a system call, to the page-fault handler or to the clock; these read
-- and write the table of environments (processes and threads), the page tables and the free list
-- of pages; and the entry ends in env_run, through sched_yield or directly, or in sched_halt.
--
-- The modules follow the code:
--   Base     tests on numbers, arrays as functions, loops over them, bit_or of disjoint numbers
--   Kernel   the globals: struct Env and struct Trapframe (sched/inc/env.h, sched/inc/trap.h),
--            struct CpuInfo (sched/kern/cpu.h), struct PageInfo and memory
--            (sched/inc/memlayout.h), the statistics
--   Sched    sched/kern/sched.c and env_run of sched/kern/env.c: Run (env_run), Account (sched_run
--            and its statistics), Sleep (sched_wakeup_sleeping), Scan (the loops of sched_yield),
--            Yield (sched_yield, sched_halt), Exclusive (the invariant of the CPUs)
--   Pmap     sched/kern/pmap.c: Alloc (page_alloc, page_free, page_decref), Table (pgdir_walk,
--            page_insert, page_lookup, page_remove; Table/Space is the address space that a page
--            directory stands for, as a function from addresses to entries), UserMem
--            (user_mem_check), Boot (the set-up: boot_alloc, page_init, boot_map_region,
--            mmio_map_region; Boot/Kernel: the kernel's mappings in mem_init)
--   Process  sched/kern/env.c: Lookup (envid2env, env_init), Create (env_alloc), Free (env_free,
--            env_destroy), Load (region_alloc, load_icode, env_create); Cmd is the monad of code
--            that may leave the kernel
--   Syscall  sched/kern/syscall.c: Env, Page, Ipc, Prio, and the dispatcher
--   Trap     sched/kern/trap.c: PageFault (page_fault_handler), Entry (trap, trap_dispatch) and
--            Gates (trap_init, trap_init_percpu, with the descriptors of sched/inc/mmu.h);
--            Entry/Reschedule and Entry/Resume are the entries that end in the scheduler and those
--            that go back, and Entry/Interleaving the machine as a sequence of them
--   Boot     sched/kern/init.c: i386_init from env_init on, boot_aps and mp_main
--   Strings  sched/lib/string.c, the functions on strings, over bytes in memory
--   Format   sched/lib/printfmt.c (Digits: printnum; Escape: vprintfmt; Buffer: vsnprintf) and the
--            vcprintf of sched/lib/printf.c
--   Devices  sched/kern/console.c (Queue: the input buffer; Screen, Keymap, Keyboard; Console: the
--            rest), sched/kern/printf.c (Screen), sched/lib/readline.c (Console/Line), and
--            sched/kern/picirq.c, kclock.c and inb and outb (Ports), lapic.c (Lapic) and
--            mpconfig.c (Mp)
--   Debug    sched/kern/kdebug.c: Search (stab_binsearch) and Eip (debuginfo_eip); monitor.c:
--            Monitor (runcmd, which splits a line and chooses a command)
--   Lock     sched/kern/spinlock.c, one memory access of one CPU at a time
--   UserLib  code of an environment over the system calls: sched/lib/fork.c and pgfault.c (Fork),
--            thread.c (Thread), ipc.c (Ipc)
--   Tests    the theorems at small concrete kernels, as the Tests of the other modules
--
-- How the state corresponds: `Kernel` holds the globals as the CPU `cpunum` sees them. A pointer
-- into envs, pages or cpus is an index and NULL is `none`; a page directory or a page table is the
-- number of its physical page, whose 32-bit words are `frame`. Each C function is a function from
-- the state to a result and a state. A function that never returns gives a `Stop`: the state and
-- how the kernel was left, to user mode, to hlt, to the monitor or by a panic. Kernel addresses are
-- checked as KADDR does, and a failure is a panic. uint32_t and int32_t values are numbers below
-- 2^32, with the wrap written as `word`, and pp_ref wraps at 2^16; where an int that counts what is
-- printed would overflow, the theorems say nothing.
--
-- Loops over the table run NENV = 1024 rounds and those over a page table 1024, by recursion on the
-- rounds that are left, so that no fuel is chosen. A string function that runs to a null character
-- takes a bound on its rounds; one above the length is enough for strlen. env_destroy and env_free
-- call each other in C; a process frees its threads and a thread has none, so that one level is
-- written out.
--
-- The devices are `Hardware`: what a read of a port or of a register of the local interrupt
-- controller returns is a function of all accesses before it, and a command on them (`Io`) extends
-- the trace of the accesses. The C code polls the serial and the parallel port 12800 times at most,
-- which the model does too; a loop that waits for a device for ever takes a bound on its rounds,
-- and `none` stands for a device that needs more. printnum recurses on max_digits = 64 digits, the
-- most that a 64-bit number has; vprintfmt takes a bound on its steps, and a width that overflows an
-- int has no result; stab_binsearch takes a bound
-- that its termination theorem gives in terms of the region. The model of kern/printf.c prints what
-- vprintfmt prints, as a list.
--
-- What is not modelled: the text of messages of the modules above Format; the TLB, the loading of
-- the segment registers and of the tables of descriptors; of mem_init, the order of its calls and
-- the run-time tests among them; panicstr; the commands of the kernel monitor, which only print,
-- and its loop; the rest of the user library. The next character of the console
-- and the pointer that sys_ipc_try_send reads uninitialised are parameters (`Machine`). A kernel
-- entry is one step, since the lock keeps other CPUs out of it. A store of page_fault_handler to a
-- user address goes through the page table of the environment.
pub mod Boot
pub mod Base
pub mod Kernel
pub mod Sched
pub mod Pmap
pub mod Process
pub mod Syscall
pub mod Trap
pub mod Strings
pub mod Format
pub mod Devices
pub mod Debug
pub mod Lock
pub mod UserLib
pub mod Tests
