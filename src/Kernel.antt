-- ===== src/Kernel.antt =====
-- The state of the kernel: the process table, the CPUs, the clock, the scheduler's statistics and
-- the physical memory (sched/kern/env.c, cpu.h, trap.c, sched.c, pmap.c). Pointers into an array
-- are indices, and NULL is `none`; an array is a function of the index.
pub mod Pcb
pub mod Stats
pub mod Ram
use sched_v2_solution.Base.{ℕ, Option, update}
use Pcb.{Env}
use Stats.{SchedStats}
use Ram.{Memory}

-- cpu_status of struct CpuInfo.
pub data CpuStatus : Type 0 where
  cpu_unused cpu_started cpu_halted : CpuStatus

-- struct CpuInfo, without the hardware's task state segment.
pub record CpuInfo : Type 0 where
  pub cpu_id : ℕ
  pub cpu_status : CpuStatus
  pub cpu_env : Option ℕ

-- The kernel's globals, as the code that holds the big kernel lock on CPU `cpunum` sees them.
pub record Kernel : Type 0 where
  pub envs : ℕ → Env
  pub env_free_list : Option ℕ
  pub cpus : ℕ → CpuInfo
  pub cpunum : ℕ
  pub ticks : ℕ
  pub stats : SchedStats
  pub memory : Memory
  -- The page of the directory that is loaded.
  pub cr3 : ℕ
  pub locked : ℕ

-- The compile-time choice between -DSCHED_ROUND_ROBIN and -DSCHED_PRIORITIES.
pub data Policy : Type 0 where
  round_robin priorities : Policy

-- How a kernel entry leaves the kernel: to user mode in an environment, to `hlt`, to the monitor
-- for good, or by `panic`.
pub data Exit : Type 0 where
  to_user : ℕ → Exit
  halted in_monitor panicked : Exit

-- What a function that never returns hands to the hardware.
pub record Stop : Type 0 where
  pub exit : Exit
  pub kernel : Kernel

-- curenv, that is thiscpu->cpu_env.
abbrev pub curenv : Kernel → Option ℕ
curenv k = (k.cpus k.cpunum).cpu_env

unfoldable pub set_curenv : Kernel → Option ℕ → Kernel
set_curenv k e = record k {
  cpus = update k.cpus k.cpunum (record (k.cpus k.cpunum) { cpu_env = e });
}

unfoldable pub set_cpu_status : Kernel → CpuStatus → Kernel
set_cpu_status k s = record k {
  cpus = update k.cpus k.cpunum (record (k.cpus k.cpunum) { cpu_status = s });
}

-- A write through an `struct Env *`.
unfoldable pub set_env : Kernel → ℕ → Env → Kernel
set_env k i e = record k { envs = update k.envs i e }
