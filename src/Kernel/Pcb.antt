-- ===== src/Kernel/Pcb.antt =====
-- struct Env and struct Trapframe (sched/inc/env.h, sched/inc/trap.h), and their constants.
use sched_v2_solution.Base.{ℕ, ◌+◌, ◌%◌, Bool, true, false, Option}

-- NENV, and ENVX(envid) = envid & (NENV - 1): the slot of an id, its low ten bits.
abbrev pub nenv : ℕ
nenv = 1024

abbrev pub envx : ℕ → ℕ
envx envid = envid % nenv

-- uint32_t and int32_t values are bit patterns below 2 ^ 32.
abbrev pub word : ℕ → ℕ
word n = n % 0x1_0000_0000

abbrev pub env_priority_max : ℕ
env_priority_max = 15

abbrev pub env_priority_default : ℕ
env_priority_default = 8

abbrev pub npriorities : ℕ
npriorities = env_priority_max + 1

pub data Status : Type 0 where
  free dying runnable running not_runnable : Status

pub data EnvType : Type 0 where
  user thread : EnvType

pub record PushRegs : Type 0 where
  pub reg_edi : ℕ
  pub reg_esi : ℕ
  pub reg_ebp : ℕ
  pub reg_oesp : ℕ
  pub reg_ebx : ℕ
  pub reg_edx : ℕ
  pub reg_ecx : ℕ
  pub reg_eax : ℕ

pub record Trapframe : Type 0 where
  pub tf_regs : PushRegs
  pub tf_es : ℕ
  pub tf_ds : ℕ
  pub tf_trapno : ℕ
  pub tf_err : ℕ
  pub tf_eip : ℕ
  pub tf_cs : ℕ
  pub tf_eflags : ℕ
  pub tf_esp : ℕ
  pub tf_ss : ℕ

-- env_pgdir is the number of the physical page that holds the page directory.
pub record Env : Type 0 where
  pub env_tf : Trapframe
  pub env_link : Option ℕ
  pub env_id : ℕ
  pub env_parent_id : ℕ
  pub env_type : EnvType
  pub env_status : Status
  pub env_runs : ℕ
  pub env_cpunum : ℕ
  pub env_pgdir : Option ℕ
  pub env_pgfault_upcall : ℕ
  pub env_ipc_recving : Bool
  pub env_ipc_dstva : ℕ
  pub env_ipc_value : ℕ
  pub env_ipc_from : ℕ
  pub env_ipc_perm : ℕ
  pub env_sleep_until : ℕ
  pub env_priority : ℕ
  pub env_wait_ticks : ℕ

abbrev pub is_free : Status → Bool
is_free free = true
is_free _ = false

abbrev pub is_runnable : Status → Bool
is_runnable runnable = true
is_runnable _ = false

abbrev pub is_running : Status → Bool
is_running running = true
is_running _ = false

abbrev pub is_not_runnable : Status → Bool
is_not_runnable not_runnable = true
is_not_runnable _ = false

abbrev pub is_dying : Status → Bool
is_dying dying = true
is_dying _ = false

abbrev pub is_thread : EnvType → Bool
is_thread thread = true
is_thread user = false

abbrev pub zero_regs : PushRegs
zero_regs = record {
  reg_edi = 0;
  reg_esi = 0;
  reg_ebp = 0;
  reg_oesp = 0;
  reg_ebx = 0;
  reg_edx = 0;
  reg_ecx = 0;
  reg_eax = 0;
}

-- memset(&tf, 0, sizeof(tf)).
abbrev pub zero_trapframe : Trapframe
zero_trapframe = record {
  tf_regs = zero_regs;
  tf_es = 0;
  tf_ds = 0;
  tf_trapno = 0;
  tf_err = 0;
  tf_eip = 0;
  tf_cs = 0;
  tf_eflags = 0;
  tf_esp = 0;
  tf_ss = 0;
}

-- A write of reg_eax in a saved trapframe, the value that a system call is seen to return.
abbrev pub set_eax : Trapframe → ℕ → Trapframe
set_eax tf v = let regs = tf.tf_regs in record tf { tf_regs = record regs { reg_eax = v } }
