-- ===== src/Pmap/Boot/Kernel.antt =====
-- The kernel's part of every address space: the calls of boot_map_region in mem_init of
-- sched/kern/pmap.c, up to mem_init_mp.
pub mod Stacks
pub mod Space
pub mod Access
use sched_v2_solution.Base.{ℕ, ◌+◌, ◌-◌, ◌*◌}
use sched_v2_solution.Kernel.Ram.{Memory}
use sched_v2_solution.Pmap.Alloc.{MemCmd, ◌>>=◌, ◌>>◌}
use sched_v2_solution.Pmap.UserMem.{roundup}
use sched_v2_solution.Pmap.Boot.{boot_map_region, mem_init_mp, kernbase}

abbrev pub upages : ℕ
upages = 0xef00_0000

abbrev pub uenvs : ℕ
uenvs = 0xeec0_0000

-- What the calls depend on: the physical addresses and the sizes of pages and envs, and the
-- addresses of percpu_kstacks.
pub record Image : Type 0 where
  pub pages_pa : ℕ
  pub pages_size : ℕ
  pub envs_pa : ℕ
  pub envs_size : ℕ
  pub kstack : ℕ → ℕ

unfoldable pub map_kernel : Image → MemCmd (Unit {0})
map_kernel g m =
    (do
      boot_map_region m.kern_pgdir upages (roundup g.pages_size) g.pages_pa 5
      boot_map_region m.kern_pgdir uenvs (roundup g.envs_size) g.envs_pa 5
      boot_map_region m.kern_pgdir kernbase 0x1000_0000 0 3
      mem_init_mp g.kstack)
      m
