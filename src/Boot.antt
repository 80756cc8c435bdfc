-- ===== src/Boot.antt =====
-- sched/kern/init.c: i386_init, boot_aps and mp_main, as far as they change the kernel's state. The
-- set-up of memory, of the gates and of the devices is in Pmap, Trap and Devices.
pub mod Quiet
pub mod Exclusive
mod Tests
use sched_v2_solution.Base.{ℕ, List, [], ◌∷◌, ◌==◌, if◌then◌else◌, for_each}
use sched_v2_solution.Kernel.{Kernel, CpuInfo, Stop, Policy, cpu_started, set_cpu_status}
use sched_v2_solution.Kernel.Pcb.{EnvType}
use sched_v2_solution.Strings.{Bytes}
use sched_v2_solution.Process.Cmd.{Cmd, done, stopped, pure, modify, ◌>>◌}
use sched_v2_solution.Process.Lookup.{env_init}
use sched_v2_solution.Process.Load.{env_create}
use sched_v2_solution.Sched.Yield.{sched_yield}
use sched_v2_solution.Trap.Entry.{take_lock}

-- What the loop of boot_aps leaves: it waits for each other processor until mp_main has marked it
-- started.
abbrev pub started : (cpunum c : ℕ) → CpuInfo → CpuInfo
started cpunum c i = if c == cpunum then i else record i { cpu_status = cpu_started }

unfoldable pub boot_aps : (ncpu : ℕ) → Kernel → Kernel
boot_aps ncpu k = record k { cpus = for_each ncpu 0 (started k.cpunum) k.cpus }

-- ENV_CREATE of each program.
unfoldable pub create_all : List (Bytes × EnvType) → Cmd (Unit {0})
unfolding env_create
create_all [] = pure tt
create_all ((binary, type) ∷ programs) = do env_create binary type; create_all programs

-- From env_init to the processes: the lock is taken before the other processors start.
unfoldable pub start_envs : (ncpu : ℕ) → List (Bytes × EnvType) → Cmd (Unit {0})
unfolding env_init boot_aps create_all
start_envs ncpu programs = do
  modify env_init
  modify take_lock
  modify (boot_aps ncpu)
  create_all programs

-- i386_init, which ends in the scheduler.
unfoldable pub i386_init : Policy → (ncpu : ℕ) → List (Bytes × EnvType) → Kernel → Stop
unfolding start_envs
i386_init p ncpu programs k = elim (start_envs ncpu programs k) [
  | done u k' ↦ sched_yield p k'
  | stopped s ↦ s
]

-- mp_main on CPU c, as one step: the CPU gets the lock when the CPU that holds it leaves the kernel.
unfoldable pub mp_main : Policy → (c : ℕ) → Kernel → Stop
unfolding set_cpu_status
mp_main p c k =
    sched_yield p
      (take_lock (set_cpu_status (record k { cpunum = c; cr3 = k.memory.kern_pgdir }) cpu_started))
