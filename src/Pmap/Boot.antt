-- ===== src/Pmap/Boot.antt =====
-- The set-up of memory in sched/kern/pmap.c: i386_detect_memory, boot_alloc, page_init,
-- boot_map_region, mem_init_mp and mmio_map_region. None is a panic or a read through NULL.
pub mod Free
pub mod Init
pub mod Remapped
pub mod Region
pub mod Kernel
use sched_v2_solution.Base.{
  ℕ, zero, suc, ◌+◌, ◌-◌, ◌*◌, ◌/◌, ◌%◌, Bool, true, false, ◌&&◌, ◌||◌, Option, none, some, ltb,
  leb, ◌==◌, if◌then◌else◌, bit_or, not,
}
use sched_v2_solution.Kernel.Ram.{Memory, PageInfo}
use sched_v2_solution.Kernel.Pcb.{word}
use sched_v2_solution.Devices.Ports.{Io, mc146818_read}
use sched_v2_solution.Pmap.Alloc.{MemCmd, set_page}
use sched_v2_solution.Pmap.Table.{PtePtr, write, pgdir_walk, page_remove, pgnum, pte_p, pte_w}
use sched_v2_solution.Pmap.UserMem.{pgsize, roundup, rounddown}

-- nvram_read: the two bytes have no bit in common.
unfoldable pub nvram_read : ℕ → Io ℕ
unfolding mc146818_read
nvram_read r hw t =
    let low = mc146818_read r hw t in
    let high = mc146818_read (r + 1) hw low.1 in (bit_or low.0 (high.0 * 0x100), high.1)

-- npages and npages_basemem.
pub record Detected : Type 0 where
  pub npages : ℕ
  pub npages_basemem : ℕ

unfoldable pub i386_detect_memory : Io Detected
unfolding nvram_read
i386_detect_memory hw t =
    let basemem = nvram_read 0x15 hw t in
    let extmem = nvram_read 0x17 hw basemem.1 in
    let ext16 = nvram_read 0x34 hw extmem.1 in
    let ext16mem = ext16.0 * 64 in
    let totalmem : ℕ =
      if not (ext16mem == 0)
      then 16 * 1024 + ext16mem
      else if not (extmem.0 == 0)
      then 1024 + extmem.0
      else basemem.0 in
    (record { npages = totalmem / 4; npages_basemem = basemem.0 / 4 }, ext16.1)

abbrev pub kernbase : ℕ
kernbase = 0xf000_0000

-- PADDR and KADDR.
unfoldable pub paddr : ℕ → Option ℕ
paddr va = if ltb va kernbase then none else some (va - kernbase)

unfoldable pub kaddr : (npages pa : ℕ) → Option ℕ
kaddr npages pa = if leb npages (pgnum pa) then none else some (word (pa + kernbase))

-- boot_alloc, with the address of `end`; nextfree is the static variable, 0 for NULL. It returns
-- the address and the new nextfree.
unfoldable pub boot_alloc : (end_of_bss npages n nextfree : ℕ) → Option (ℕ × ℕ)
unfolding paddr kaddr
boot_alloc end_of_bss npages n nextfree =
    let result : ℕ = if nextfree == 0 then roundup end_of_bss else nextfree in
    elim (paddr (word (result + n))) [
      | none ↦ none
      | some last ↦
          if leb (word (pgsize * npages)) last
          then none
          else elim (kaddr npages last) [ none ↦ none | some va ↦ some (result, roundup va) ]
    ]

-- Page 0, the page of MPENTRY_PADDR and the hole for the devices.
unfoldable pub set_aside : ℕ → Bool
set_aside i = i == 0 || i == 7 || (leb 160 i && ltb i 256)

abbrev pub unlinked : ℕ → Memory → Memory
unlinked i m = set_page m i (record (m.pages i) { pp_link = none })

-- The end of the body of the loop in page_init.
unfoldable pub give : ℕ → Memory → Memory
unfolding set_page
give i m = record (set_page m i (record { pp_link = m.page_free_list; pp_ref = 0 })) {
  page_free_list = some i;
}

-- The last test, with what boot_alloc(0) returned.
unfoldable pub give_behind : ℕ → Memory → Option (ℕ × ℕ) → Option (Memory × ℕ)
unfolding give paddr
give_behind i m none = none
give_behind i m (some (va, nextfree)) = elim (paddr va) [
  | none ↦ none
  | some first ↦ if ltb i (pgnum first) then some (m, nextfree) else some (give i m, nextfree)
]

-- The body of the loop in page_init.
unfoldable pub init_page : (end_of_bss i nextfree : ℕ) → Memory → Option (Memory × ℕ)
unfolding set_page set_aside give give_behind boot_alloc
init_page end_of_bss i nextfree m =
    if set_aside i
    then some (unlinked i m, nextfree)
    else if leb 256 i
    then give_behind i (unlinked i m) (boot_alloc end_of_bss m.npages 0 nextfree)
    else some (give i (unlinked i m), nextfree)

-- The first n rounds.
unfoldable pub init_pages : (end_of_bss n nextfree : ℕ) → Memory → Option (Memory × ℕ)
unfolding init_page
init_pages end_of_bss zero nextfree m = some (m, nextfree)
init_pages end_of_bss (suc n) nextfree m = elim (init_pages end_of_bss n nextfree m) [
  | none ↦ none
  | some (m', nextfree') ↦ init_page end_of_bss n nextfree' m'
]

unfoldable pub page_init : (end_of_bss nextfree : ℕ) → Memory → Option (Memory × ℕ)
unfolding init_pages
page_init end_of_bss nextfree m = init_pages end_of_bss m.npages nextfree m

-- n rounds of the loop of boot_map_region, from va on; TP1_PSE is not defined.
unfoldable pub map_pages : (n pgdir va pa perm : ℕ) → MemCmd (Unit {0})
unfolding pgdir_walk page_remove write
map_pages zero pgdir va pa perm m = some (tt, m)
map_pages (suc n) pgdir va pa perm m = elim (pgdir_walk pgdir va true m) [
  | none ↦ none
  | some (none, m') ↦ none
  | some (some pte, m') ↦ elim (page_remove pgdir va m') [
    | none ↦ none
    | some (u, m'') ↦
        map_pages n pgdir (word (va + pgsize)) (word (pa + pgsize)) perm
          (write pte (bit_or (bit_or pa perm) pte_p) m'')
  ]
]

unfoldable pub boot_map_region : (pgdir va size pa perm : ℕ) → MemCmd (Unit {0})
unfolding map_pages
boot_map_region pgdir va size pa perm = map_pages ((size + (pgsize - 1)) / pgsize) pgdir va pa perm

-- mem_init_mp, for the first n CPUs: KSTKSIZE and KSTKGAP are eight pages, and kstack is
-- percpu_kstacks.
unfoldable pub map_stacks : (n : ℕ) (kstack : ℕ → ℕ) → MemCmd (Unit {0})
unfolding boot_map_region paddr
map_stacks zero kstack m = some (tt, m)
map_stacks (suc n) kstack m = elim (map_stacks n kstack m) [
  | none ↦ none
  | some (u, m') ↦ elim (paddr (kstack n)) [
    | none ↦ none
    | some pa ↦ boot_map_region m'.kern_pgdir (kernbase - n * 0x1_0000 - 0x8000) 0x8000 pa 3 m'
  ]
]

unfoldable pub mem_init_mp : (kstack : ℕ → ℕ) → MemCmd (Unit {0})
unfolding map_stacks
mem_init_mp kstack = map_stacks 8 kstack

abbrev pub mmiolim : ℕ
mmiolim = 0xefc0_0000

-- mmio_map_region with its static variable base; it returns the address and the new base.
unfoldable pub mmio_map_region : (pa size base : ℕ) → MemCmd (ℕ × ℕ)
unfolding boot_map_region
mmio_map_region pa size base m =
    let size' = roundup size in
    if leb mmiolim (word (base + size'))
    then none
    else elim (boot_map_region m.kern_pgdir base size' (rounddown pa) 0x1b m) [
      | none ↦ none
      | some (u, m') ↦ some ((base, word (base + size')), m')
    ]
