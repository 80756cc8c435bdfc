-- ===== src/Trap/Gates.antt =====
-- trap_init and trap_init_percpu of sched/kern/trap.c, and the descriptors of sched/inc/mmu.h that
-- they fill in.
pub mod Privilege
pub mod Stacks
use sched_v2_solution.Base.{
  ℕ, ◌+◌, ◌-◌, ◌*◌, ◌/◌, ◌%◌, Bool, true, false, Option, none, some, if◌then◌else◌, update, ◌==◌,
}
use sched_v2_solution.Kernel.Pcb.{word}

-- struct Gatedesc, a field for each bit field.
pub record Gatedesc : Type 0 where
  pub gd_off_15_0 : ℕ
  pub gd_sel : ℕ
  pub gd_args : ℕ
  pub gd_rsv1 : ℕ
  pub gd_type : ℕ
  pub gd_s : ℕ
  pub gd_dpl : ℕ
  pub gd_p : ℕ
  pub gd_off_31_16 : ℕ

-- The elements of idt before trap_init.
abbrev pub no_gate : Gatedesc
no_gate = record {
  gd_off_15_0 = 0;
  gd_sel = 0;
  gd_args = 0;
  gd_rsv1 = 0;
  gd_type = 0;
  gd_s = 0;
  gd_dpl = 0;
  gd_p = 0;
  gd_off_31_16 = 0;
}

-- STS_TG32 and STS_IG32.
abbrev pub sts_tg32 : ℕ
sts_tg32 = 0xf

abbrev pub sts_ig32 : ℕ
sts_ig32 = 0xe

-- SETGATE: a bit field keeps the low bits of what is assigned to it.
unfoldable pub setgate : (istrap : Bool) (sel off dpl : ℕ) → Gatedesc
setgate istrap sel off dpl = record {
  gd_off_15_0 = word off % 0x1_0000;
  gd_sel = sel % 0x1_0000;
  gd_args = 0;
  gd_rsv1 = 0;
  gd_type = if istrap then sts_tg32 else sts_ig32;
  gd_s = 0;
  gd_dpl = dpl % 4;
  gd_p = 1;
  gd_off_31_16 = word off / 0x1_0000;
}

-- GD_KT, GD_KD and GD_TSS0.
abbrev pub gd_kt : ℕ
gd_kt = 0x08

abbrev pub gd_kd : ℕ
gd_kd = 0x10

abbrev pub gd_tss0 : ℕ
gd_tss0 = 0x28

-- idt with the gate of one vector set; stub n is the address of trap<n>, of trapentry.S.
abbrev pub gate_at : (stub : ℕ → ℕ) (dpl v : ℕ) → (ℕ → Gatedesc) → ℕ → Gatedesc
gate_at stub dpl v idt = update idt v (setgate false gd_kt (stub v) dpl)

-- trap_init, before its per-CPU part: the gates in the order of the code, T_DIVIDE first.
unfoldable pub trap_init : (stub : ℕ → ℕ) → (ℕ → Gatedesc) → ℕ → Gatedesc
unfolding setgate
trap_init stub idt0 =
    let idt1 = gate_at stub 0 2 (gate_at stub 0 1 (gate_at stub 0 0 idt0)) in
    let idt2 = gate_at stub 0 5 (gate_at stub 0 4 (gate_at stub 3 3 idt1)) in
    let idt3 = gate_at stub 0 8 (gate_at stub 0 7 (gate_at stub 0 6 idt2)) in
    let idt4 = gate_at stub 0 12 (gate_at stub 0 11 (gate_at stub 0 10 idt3)) in
    let idt5 = gate_at stub 0 16 (gate_at stub 0 14 (gate_at stub 0 13 idt4)) in
    let idt6 = gate_at stub 0 19 (gate_at stub 0 18 (gate_at stub 0 17 idt5)) in
    gate_at stub 0 32 (gate_at stub 3 48 idt6)

-- struct Segdesc.
pub record Segdesc : Type 0 where
  pub sd_lim_15_0 : ℕ
  pub sd_base_15_0 : ℕ
  pub sd_base_23_16 : ℕ
  pub sd_type : ℕ
  pub sd_s : ℕ
  pub sd_dpl : ℕ
  pub sd_p : ℕ
  pub sd_lim_19_16 : ℕ
  pub sd_avl : ℕ
  pub sd_rsv1 : ℕ
  pub sd_db : ℕ
  pub sd_g : ℕ
  pub sd_base_31_24 : ℕ

-- SEG and SEG16, which differ in the granularity of the limit.
unfoldable pub seg : (type base lim dpl : ℕ) → Segdesc
seg type base lim dpl = record {
  sd_lim_15_0 = lim / 0x1000 % 0x1_0000;
  sd_base_15_0 = base % 0x1_0000;
  sd_base_23_16 = base / 0x1_0000 % 0x100;
  sd_type = type % 0x10;
  sd_s = 1;
  sd_dpl = dpl % 4;
  sd_p = 1;
  sd_lim_19_16 = lim / 0x1000_0000 % 0x10;
  sd_avl = 0;
  sd_rsv1 = 0;
  sd_db = 1;
  sd_g = 1;
  sd_base_31_24 = base / 0x100_0000 % 0x100;
}

unfoldable pub seg16 : (type base lim dpl : ℕ) → Segdesc
seg16 type base lim dpl = record {
  sd_lim_15_0 = lim % 0x1_0000;
  sd_base_15_0 = base % 0x1_0000;
  sd_base_23_16 = base / 0x1_0000 % 0x100;
  sd_type = type % 0x10;
  sd_s = 1;
  sd_dpl = dpl % 4;
  sd_p = 1;
  sd_lim_19_16 = lim / 0x1_0000 % 0x10;
  sd_avl = 0;
  sd_rsv1 = 0;
  sd_db = 1;
  sd_g = 0;
  sd_base_31_24 = base / 0x100_0000 % 0x100;
}

abbrev pub seg_null : Segdesc
seg_null = record {
  sd_lim_15_0 = 0;
  sd_base_15_0 = 0;
  sd_base_23_16 = 0;
  sd_type = 0;
  sd_s = 0;
  sd_dpl = 0;
  sd_p = 0;
  sd_lim_19_16 = 0;
  sd_avl = 0;
  sd_rsv1 = 0;
  sd_db = 0;
  sd_g = 0;
  sd_base_31_24 = 0;
}

-- gdt as it is initialised in sched/kern/env.c; the elements of the CPUs are null.
unfoldable pub gdt : ℕ → Segdesc
unfolding seg
gdt i =
    if i == 1
    then seg 0xa 0 0xffff_ffff 0
    else if i == 2
    then seg 0x2 0 0xffff_ffff 0
    else if i == 3
    then seg 0xa 0 0xffff_ffff 3
    else if i == 4
    then seg 0x2 0 0xffff_ffff 3
    else seg_null

-- The fields of struct Taskstate that the kernel sets.
pub record Taskstate : Type 0 where
  pub ts_esp0 : ℕ
  pub ts_ss0 : ℕ
  pub ts_iomb : ℕ

-- What trap_init_percpu changes, and the task register that it loads.
pub record Percpu : Type 0 where
  pub cpu_ts : ℕ → Taskstate
  pub descriptors : ℕ → Segdesc
  pub tr : ℕ

-- trap_init_percpu on the CPU with this cpu_id, a uint8_t, whose cpu_ts is at address ts_va and has 104 bytes.
unfoldable pub trap_init_percpu : (thisid : ℕ) (ts_va : ℕ → ℕ) → Percpu → Percpu
unfolding seg16
trap_init_percpu thisid ts_va s = record {
  cpu_ts = update s.cpu_ts thisid (record {
    ts_esp0 = word (0xf000_0000 + 0x1_0000_0000 - thisid % 0x100 * 0x1_0000);
    ts_ss0 = gd_kd;
    ts_iomb = 104;
  });
  descriptors =
      update s.descriptors (gd_tss0 / 8 + thisid % 0x100)
        (record (seg16 0x9 (ts_va thisid) 103 0) { sd_s = 0 });
  tr = gd_tss0 + thisid % 0x100 * 8;
}
