-- ===== src/Process/Load.antt =====
-- region_alloc, load_icode and env_create of sched/kern/env.c. A program is the array of its bytes.
pub mod Region
use sched_v2_solution.Base.{
  ℕ, zero, suc, ◌+◌, ◌-◌, ◌*◌, ◌/◌, true, false, Option, none, some, ◌==◌, ltb, if◌then◌else◌,
}
use sched_v2_solution.Kernel.{Kernel, set_env}
use sched_v2_solution.Kernel.Pcb.{Env, EnvType, word}
use sched_v2_solution.Strings.{Bytes}
use sched_v2_solution.Pmap.Alloc
use sched_v2_solution.Pmap.Alloc.{MemCmd, page_alloc}
use sched_v2_solution.Pmap.Table.{page_insert}
use sched_v2_solution.Pmap.UserMem.{utop, pgsize, roundup, rounddown}
use sched_v2_solution.Trap.PageFault.{store_byte}
use sched_v2_solution.Process.Cmd.{
  Cmd, done, Result, ok, err, pure, panic, modify, lift, ◌>>=◌, ◌>>◌,
}
use sched_v2_solution.Process.Create.{env_alloc, ustacktop}

-- The rounds of the loop of region_alloc. `none` is a panic, also where page_insert returns an
-- error.
unfoldable pub alloc_pages : (n pgdir va : ℕ) → MemCmd (Unit {0})
unfolding page_alloc page_insert
alloc_pages zero pgdir va m = some (tt, m)
alloc_pages (suc n) pgdir va m = elim (page_alloc false m) [
  | none ↦ none
  | some (none, m') ↦ none
  | some (some p, m') ↦ elim (page_insert pgdir p va 6 m') [
    | none ↦ none
    | some (inserted, m'') ↦ elim inserted [
      | false ↦ none
      | true ↦ alloc_pages n pgdir (va + pgsize) m''
    ]
  ]
]

unfoldable pub region_alloc : (pgdir va len : ℕ) → MemCmd (Unit {0})
unfolding alloc_pages
region_alloc pgdir va len m =
    let va_lo = rounddown va in
    let va_hi = roundup (word (va + len)) in
    if ltb utop va_hi then none else alloc_pages ((va_hi - va_lo) / pgsize) pgdir va_lo m

-- memset(va, 0, n) and memcpy(va, src, n) in the address space in force, from the lowest byte on.
unfoldable pub clear_bytes : (n pgdir va : ℕ) → MemCmd (Unit {0})
unfolding store_byte
clear_bytes zero pgdir va m = some (tt, m)
clear_bytes (suc n) pgdir va m =
    Alloc.◌>>◌ (store_byte pgdir va 0) (clear_bytes n pgdir (word (va + 1))) m

unfoldable pub copy_bytes : (n pgdir va : ℕ) → Bytes → (src : ℕ) → MemCmd (Unit {0})
unfolding store_byte
copy_bytes zero pgdir va b src m = some (tt, m)
copy_bytes (suc n) pgdir va b src m =
    Alloc.◌>>◌ (store_byte pgdir va (b src)) (copy_bytes n pgdir (word (va + 1)) b (src + 1)) m

-- A little-endian field of two or four bytes.
abbrev pub half_at : Bytes → ℕ → ℕ
half_at b i = b i + b (i + 1) * 0x100

abbrev pub word_at : Bytes → ℕ → ℕ
word_at b i = half_at b i + half_at b (i + 2) * 0x1_0000

abbrev pub elf_magic : ℕ
elf_magic = 0x464c_457f

-- e_magic, e_entry, e_phoff and e_phnum of struct Elf.
abbrev pub e_magic : Bytes → ℕ
e_magic b = word_at b 0

abbrev pub e_entry : Bytes → ℕ
e_entry b = word_at b 24

abbrev pub e_phoff : Bytes → ℕ
e_phoff b = word_at b 28

abbrev pub e_phnum : Bytes → ℕ
e_phnum b = half_at b 44

-- The body of the loop of load_icode, for the struct Proghdr at offset ph.
unfoldable pub load_segment : Bytes → (pgdir ph : ℕ) → MemCmd (Unit {0})
unfolding region_alloc clear_bytes copy_bytes
load_segment b pgdir ph m =
    let p_offset = word_at b (ph + 4) in
    let p_va = word_at b (ph + 8) in
    let p_filesz = word_at b (ph + 16) in
    let p_memsz = word_at b (ph + 20) in
    if word_at b ph == 1
    then (Alloc.◌>>◌ (region_alloc pgdir p_va p_memsz)
          (Alloc.◌>>◌ (clear_bytes p_memsz pgdir p_va) (copy_bytes p_filesz pgdir p_va b p_offset)))
        m
    else some (tt, m)

-- n rounds of it; a program header has 32 bytes.
unfoldable pub load_segments : Bytes → (n pgdir ph : ℕ) → MemCmd (Unit {0})
unfolding load_segment
load_segments b zero pgdir ph m = some (tt, m)
load_segments b (suc n) pgdir ph m =
    Alloc.◌>>◌ (load_segment b pgdir ph) (load_segments b n pgdir (ph + 32)) m

-- The environment's directory is loaded while its memory is filled, and then the kernel's.
unfoldable pub load_into : Bytes → (e pgdir : ℕ) → Cmd (Unit {0})
unfolding load_segments region_alloc set_env
load_into b e pgdir = do
  modify λ k. record k { cr3 = pgdir }
  lift (load_segments b (e_phnum b) pgdir (e_phoff b))
  lift (region_alloc pgdir (ustacktop - pgsize) pgsize)
  modify λ k.
      set_env k e (record (k.envs e) { env_tf = record ((k.envs e).env_tf) { tf_eip = e_entry b } })
  modify λ k. record k { cr3 = k.memory.kern_pgdir }

-- A program that does not start with ELF_MAGIC, and PADDR of NULL, are panics.
unfoldable pub load_icode : Bytes → ℕ → Cmd (Unit {0})
unfolding load_into
load_icode b e k =
    if e_magic b == elf_magic
    then elim (k.envs e).env_pgdir [ none ↦ panic k | some pgdir ↦ load_into b e pgdir k ]
    else panic k

unfoldable pub created : Bytes → EnvType → Result ℕ → Cmd (Unit {0})
unfolding load_icode set_env
created b type (err e) = panic
created b type (ok e) = do
  load_icode b e
  modify λ k. set_env k e (record (k.envs e) { env_type = type })

unfoldable pub env_create : Bytes → EnvType → Cmd (Unit {0})
unfolding created env_alloc
env_create b type = do r ← env_alloc 0; created b type r
