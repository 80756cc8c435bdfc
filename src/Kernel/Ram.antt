-- ===== src/Kernel/Ram.antt =====
-- Physical memory and its bookkeeping (struct PageInfo of sched/inc/memlayout.h, and the globals
-- of sched/kern/pmap.c). `frame p i` is the 32-bit word i of physical page p.
use sched_v2_solution.Base.{ℕ, Option}

pub record PageInfo : Type 0 where
  pub pp_link : Option ℕ
  pub pp_ref : ℕ

pub record Memory : Type 0 where
  pub npages : ℕ
  pub pages : ℕ → PageInfo
  pub page_free_list : Option ℕ
  pub frame : ℕ → ℕ → ℕ
  pub kern_pgdir : ℕ
