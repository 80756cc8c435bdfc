-- ===== src/Boot/Tests.antt =====
-- Boot of a machine with two CPUs and a program of one page.
use sched_v2_solution.Base.{
  ℕ, zero, suc, Option, none, some, List, [], ◌∷◌, refl, ◌≡◌, ◌==◌, if◌then◌else◌,
}
use sched_v2_solution.Kernel.{to_user, round_robin, Kernel, round_robin, to_user}
use sched_v2_solution.Kernel.Ram.{Memory}
use sched_v2_solution.Kernel.Pcb.{user, EnvType, free}
use sched_v2_solution.Strings.{Bytes}
use sched_v2_solution.Base.{for_each}
use sched_v2_solution.Kernel.{set_env}
use sched_v2_solution.Boot.{i386_init, start_envs, boot_aps, create_all}
use sched_v2_solution.Process.Load.{
  env_create, created, load_icode, load_into, load_segments, load_segment, region_alloc,
  alloc_pages, clear_bytes, copy_bytes,
}
use sched_v2_solution.Process.Lookup.{env_init}
use sched_v2_solution.Process.Create.{
  env_alloc, alloc_slot, env_setup_vm, setup_with, fill_pgdir, commit, fresh_env, next_generation,
}
use sched_v2_solution.Trap.PageFault.{store_byte, store_at, set_byte}
use sched_v2_solution.Pmap.Table.{
  write, page_insert, insert_at, pgdir_walk, ensure_table, entry_of, attach, page_remove,
  page_lookup, lookup_at, unmap,
}
use sched_v2_solution.Pmap.Alloc.{page_alloc, alloc_from, zero_page, unlink, set_page, page_incref}
use sched_v2_solution.Sched.Yield.{sched_yield, count_call, yield_rr}
use sched_v2_solution.Sched.Scan.{rr_scan}
use sched_v2_solution.Sched.Account.{sched_run}
use sched_v2_solution.Sched.Run.{env_run}
use sched_v2_solution.Sched.Tests.{env_of, kernel_of, some_memory}

abbrev before : ℕ → Option ℕ
before zero = none
before (suc zero) = none
before (suc (suc n)) = some (suc n)

-- Pages 1 to 100 are free, and page 101 is the kernel's directory.
abbrev ram : Memory
ram = record some_memory {
  npages = 128;
  pages = λ p. record { pp_link = before p; pp_ref = 0 };
  page_free_list = some 100;
  kern_pgdir = 101;
}

abbrev zeroed : Kernel
zeroed = record (kernel_of (λ i. env_of 0 free 0 0) none) { memory = ram }

-- The bytes of ELF_MAGIC, e_entry 0x800020, e_phoff 52 and one program header: four bytes at 84 are
-- loaded at 0x800020, in a segment of eight.
abbrev program : Bytes
program i =
    if i == 0
    then 0x7f
    else if i == 1
    then 0x45
    else if i == 2
    then 0x4c
    else if i == 3
    then 0x46
    else if i == 24
    then 0x20
    else if i == 26
    then 0x80
    else if i == 28
    then 52
    else if i == 44
    then 1
    else if i == 52
    then 1
    else if i == 56
    then 84
    else if i == 60
    then 0x20
    else if i == 62
    then 0x80
    else if i == 68
    then 4
    else if i == 72
    then 8
    else if i == 84
    then 0xeb
    else if i == 85
    then 0xfe
    else 0

abbrev programs : List (Bytes × EnvType)
programs = (program, user) ∷ (program, user) ∷ []

-- The programs are loaded, and the first one runs.
first_runs : (i386_init round_robin 2 programs zeroed).exit ≡ to_user 0
unfolding i386_init start_envs boot_aps create_all env_create created load_icode load_into
    load_segments load_segment region_alloc alloc_pages clear_bytes copy_bytes store_byte store_at
    set_byte write page_insert insert_at pgdir_walk ensure_table entry_of attach page_remove
    page_lookup lookup_at unmap page_alloc alloc_from zero_page unlink set_page page_incref
    env_alloc alloc_slot env_setup_vm setup_with fill_pgdir commit fresh_env next_generation set_env
    env_init for_each sched_yield count_call yield_rr rr_scan sched_run env_run
first_runs = refl
