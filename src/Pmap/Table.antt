-- ===== src/Pmap/Table.antt =====
-- pgdir_walk, page_insert, page_lookup and page_remove of sched/kern/pmap.c. A page directory or a
-- page table is the number of its physical page, and a pte_t * is a page and an index.
pub mod Keeps
pub mod Walk
pub mod Size
pub mod RoundTrip
pub mod Space
use sched_v2_solution.Base.{
  ℕ, ◌*◌, ◌/◌, ◌%◌, Bool, true, false, Option, none, some, ◌==◌, ◌&&◌, ltb, if◌then◌else◌, update,
  bit_or,
}
use sched_v2_solution.Kernel.Ram.{Memory}
use sched_v2_solution.Kernel.Pcb.{word}
use sched_v2_solution.Pmap.Alloc.{MemCmd, pure, ◌>>=◌, ◌>>◌, page_alloc, page_incref, page_decref}

-- PDX(va), PTX(va), PGNUM(pa) of a page-table entry, and page2pa.
abbrev pub pdx : ℕ → ℕ
pdx va = va / 0x40_0000

abbrev pub ptx : ℕ → ℕ
ptx va = va / 0x1000 % 1024

abbrev pub pgnum : ℕ → ℕ
pgnum pa = pa / 0x1000

abbrev pub page2pa : ℕ → ℕ
page2pa p = p * 0x1000

abbrev pub pte_p : ℕ
pte_p = 0x1

abbrev pub pte_w : ℕ
pte_w = 0x2

abbrev pub pte_u : ℕ
pte_u = 0x4

abbrev pub PtePtr : Type 0
PtePtr = ℕ × ℕ

abbrev pub read : Memory → PtePtr → ℕ
read m (p, i) = m.frame p i

unfoldable pub write : PtePtr → ℕ → Memory → Memory
write (p, i) v m = record m { frame = update m.frame p (update (m.frame p) i v) }

-- The new page table of a directory entry that was empty.
unfoldable pub attach : ℕ → ℕ → Option ℕ → Memory → Memory
unfolding page_incref write
attach pgdir i none m = m
attach pgdir i (some p) m =
    write (pgdir, i) (bit_or (bit_or (bit_or (page2pa p) pte_p) pte_w) pte_u) (page_incref p m)

unfoldable pub ensure_table : ℕ → ℕ → Bool → MemCmd (Unit {0})
ensure_table pgdir i create m =
    if m.frame pgdir i == 0 && create
    then (do p ← page_alloc true; λ m'. some (tt, attach pgdir i p m')) m
    else some (tt, m)

-- The address of the entry for va in the table of the directory entry, which KADDR checks.
unfoldable pub entry_of : ℕ → ℕ → MemCmd (Option PtePtr)
entry_of pgdir va m =
    let pde = m.frame pgdir (pdx va) in
    if pde == 0
    then some (none, m)
    else if ltb (pgnum pde) m.npages
    then some (some (pgnum pde, ptx va), m)
    else none

unfoldable pub pgdir_walk : ℕ → ℕ → Bool → MemCmd (Option PtePtr)
pgdir_walk pgdir va create = do ensure_table pgdir (pdx va) create; entry_of pgdir va

-- The test `*pte && PTE_P` of the code is that the entry is not 0.
unfoldable pub lookup_at : Option PtePtr → MemCmd (Option (ℕ × PtePtr))
lookup_at none m = some (none, m)
lookup_at (some pte) m =
    if read m pte == 0
    then some (none, m)
    else if ltb (pgnum (read m pte)) m.npages
    then some (some (pgnum (read m pte), pte), m)
    else none

-- The page that is mapped at va, with the address of its entry.
unfoldable pub page_lookup : ℕ → ℕ → MemCmd (Option (ℕ × PtePtr))
page_lookup pgdir va = do pte ← pgdir_walk pgdir va false; lookup_at pte

unfoldable pub unmap : Option (ℕ × PtePtr) → MemCmd (Unit {0})
unfolding page_decref write
unmap none = pure tt
unmap (some (p, pte)) = do page_decref p; λ m. some (tt, write pte 0 m)

-- The walk before the lookup and the flush of the TLB leave memory alone.
unfoldable pub page_remove : ℕ → ℕ → MemCmd (Unit {0})
page_remove pgdir va = do found ← page_lookup pgdir va; unmap found

unfoldable pub insert_at : ℕ → ℕ → ℕ → ℕ → Option PtePtr → MemCmd Bool
insert_at pgdir p va perm none = pure false
insert_at pgdir p va perm (some pte) = do
  λ m. some (tt, page_incref p m)
  page_remove pgdir va
  λ m. some (tt, write pte (word (bit_or (bit_or (page2pa p) perm) pte_p)) m)
  pure true

-- `false` is -E_NO_MEM.
unfoldable pub page_insert : ℕ → ℕ → ℕ → ℕ → MemCmd Bool
page_insert pgdir p va perm = do pte ← pgdir_walk pgdir va true; insert_at pgdir p va perm pte
