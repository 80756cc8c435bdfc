-- ===== src/Pmap/Boot/Region.antt =====
-- boot_map_region as a change of the address space.
use sched_v2_solution.Base.{
  ℕ, zero, suc, ◌+◌, ◌*◌, ◌/◌, ◌<◌, ◌≤◌, ◌≡◌, refl, sym, ap, subst, ◌∙◌, true, false, Option, some,
  List, length, arith, ltb, leb, ◌&&◌, if◌then◌else◌,
}
use sched_v2_solution.Kernel.Ram.{Memory}
use sched_v2_solution.Kernel.Pcb.{word}
use sched_v2_solution.Pmap.Table.{write, pgdir_walk, page_remove, pdx, ptx}
use sched_v2_solution.Pmap.Table.Keeps.{HasTable, entry_at, Keeps, write-Keeps}
use sched_v2_solution.Pmap.Boot.{map_pages, boot_map_region}
use sched_v2_solution.Pmap.UserMem.{pgsize}
use sched_v2_solution.Pmap.Table.Space.{
  mapping, same_page, IsSlot, Tree, Tree-HasTable, write-Tree, write-mapping,
}
use sched_v2_solution.Pmap.Table.Space.Room.{missing}
use sched_v2_solution.Pmap.Table.Space.Walked.{Walked, walk-Walked}
use sched_v2_solution.Pmap.Table.Space.Unmap.{page_remove-nothing}
use sched_v2_solution.Pmap.Boot.Remapped.{region_entry, remapped, remapped-suc}

-- The n pages from va on are unmapped pages of the address space, whose directory entries are among
-- the k from w on; there are free pages for the tables that are missing there, and c others.
pub record Region (m : Memory) (pgdir n va w k c : ℕ) (ps : List ℕ) : Type 0 where
  pub tree : Tree m pgdir ps
  pub slots : (i : ℕ) → i < n → IsSlot (pdx (va + i * 0x1000))
  pub from : (i : ℕ) → i < n → w ≤ pdx (va + i * 0x1000)
  pub upto : (i : ℕ) → i < n → pdx (va + i * 0x1000) < w + k
  pub room : missing (m.frame pgdir) w k + c ≤ length ps
  pub unmapped : (i : ℕ) → i < n → mapping m pgdir (va + i * 0x1000) ≡ 0
  pub fits : va + n * 0x1000 ≤ 0x1_0000_0000

-- What the loop returns.
pub record Done (m : Memory) (pgdir n va pa perm w k c : ℕ) (o : Option (Unit {0} × Memory))
    : Type 0 where
  pub after : Memory
  pub rest : List ℕ
  pub is : o ≡ some (tt, after)
  pub tree : Tree after pgdir rest
  pub maps :
      (va' : ℕ)
      → IsSlot (pdx va')
      → mapping after pgdir va' ≡ remapped n va pa perm (mapping m pgdir) va'
  pub room : missing (after.frame pgdir) w k + c ≤ length rest
  pub kern : after.kern_pgdir ≡ m.kern_pgdir

-- One round, as far as the write of the entry.
record Round (m : Memory) (pgdir n va pa perm w k c : ℕ) : Type 0 where
  after : Memory
  rest : List ℕ
  is :
      map_pages (suc n) pgdir va pa perm m
      ≡ map_pages n pgdir (word (va + pgsize)) (word (pa + pgsize)) perm after
  tree : Tree after pgdir rest
  maps :
      (va' : ℕ)
      → IsSlot (pdx va')
      → mapping after pgdir va'
        ≡ (if same_page va va' then region_entry pa perm else mapping m pgdir va')
  room : missing (after.frame pgdir) w k + c ≤ length rest
  kern : after.kern_pgdir ≡ m.kern_pgdir

round :
    (m : Memory) (pgdir n va pa perm w k c : ℕ) (ps : List ℕ)
    → Tree m pgdir ps
    → IsSlot (pdx va)
    → w ≤ pdx va
    → pdx va < w + k
    → missing (m.frame pgdir) w k + c ≤ length ps
    → mapping m pgdir va ≡ 0
    → Round m pgdir n va pa perm w k c
unfolding map_pages entry_at write
round m pgdir n va pa perm w k c ps tree slot le lt room unmapped =
    let walk : Walked m pgdir va ps (pgdir_walk pgdir va true m) =
      walk-Walked m pgdir va w k ps tree slot le lt (omega (arith, room)) in
    let m1 = walk.after in
    let removed : page_remove pgdir va m1 ≡ some (tt, m1) =
      page_remove-nothing m1 pgdir va walk.rest walk.tree slot (walk.same va slot ∙ unmapped) in
    let table : HasTable m1 pgdir va =
      Tree-HasTable m1 pgdir va walk.rest walk.tree slot walk.used in
    let k1 : Keeps pgdir m1 (write (entry_at m1 pgdir va) (region_entry pa perm) m1) =
      write-Keeps (entry_at m1 pgdir va).0 (ptx va) (region_entry pa perm) pgdir m1 table.apart in
    record {
      after = write (entry_at m1 pgdir va) (region_entry pa perm) m1;
      rest = walk.rest;
      is = rw (map_pages, walk.is, removed) refl;
      tree = write-Tree m1 pgdir va (region_entry pa perm) walk.rest table walk.tree;
      maps = λ va' slot'.
          write-mapping m1 pgdir va (region_entry pa perm) va' walk.rest walk.tree slot slot'
            walk.used
          ∙ ap (λ v. if same_page va va' then region_entry pa perm else v) (walk.same va' slot');
      room =
          subst (λ f. missing f w k + c ≤ length walk.rest) (sym k1.row)
            (walk.room w k c le lt room);
      kern = walk.kern;
    }

-- The region that is left when its first page is mapped.
next-Region :
    (m : Memory) (pgdir n va pa perm w k c : ℕ) (ps : List ℕ)
    → Region m pgdir (suc n) va w k c ps
    → (r : Round m pgdir n va pa perm w k c)
    → Region r.after pgdir n (word (va + pgsize)) w k c r.rest
next-Region m pgdir zero va pa perm w k c ps h r = record {
  tree = r.tree;
  slots = λ i lt. absurd (omega (arith, lt));
  from = λ i lt. absurd (omega (arith, lt));
  upto = λ i lt. absurd (omega (arith, lt));
  room = r.room;
  unmapped = λ i lt. absurd (omega (arith, lt));
  fits = omega arith;
}
next-Region m pgdir (suc n) va pa perm w k c ps h r = record {
  tree = r.tree;
  slots = λ i lt. subst (λ a. IsSlot (pdx a)) (moved i) (h.slots (suc i) (omega (arith, lt)));
  from = λ i lt. subst (λ a. w ≤ pdx a) (moved i) (h.from (suc i) (omega (arith, lt)));
  upto = λ i lt. subst (λ a. pdx a < w + k) (moved i) (h.upto (suc i) (omega (arith, lt)));
  room = r.room;
  unmapped = λ i lt.
      let apart : same_page va (va + suc i * 0x1000) ≡ false = ground arith in
      subst (λ a. mapping r.after pgdir a ≡ 0) (moved i)
        (r.maps (va + suc i * 0x1000) (h.slots (suc i) (omega (arith, lt)))
          ∙ rw apart (h.unmapped (suc i) (omega (arith, lt))));
  fits = omega (arith, h.fits);
}
  where
    moved : (i : ℕ) → va + suc i * 0x1000 ≡ word (va + pgsize) + i * 0x1000
    moved i = omega (arith, h.fits)

-- The loop maps a region that is unmapped, page for page, and returns.
pub map_pages-Done :
    (m : Memory) (pgdir n va pa perm w k c : ℕ) (ps : List ℕ)
    → Region m pgdir n va w k c ps
    → pa + n * 0x1000 ≤ 0x1_0000_0000
    → Done m pgdir n va pa perm w k c (map_pages n pgdir va pa perm m)
unfolding map_pages remapped
map_pages-Done m pgdir zero va pa perm w k c ps h fits = record {
  after = m;
  rest = ps;
  is = refl;
  tree = h.tree;
  maps = λ va' slot'.
      let nothing : (leb (va / 0x1000) (va' / 0x1000) && ltb (va' / 0x1000) (va / 0x1000 + 0))
          ≡ false =
        ground arith in
      rw nothing refl;
  room = h.room;
  kern = refl;
}
map_pages-Done m pgdir (suc n) va pa perm w k c ps h fits =
    let first : va + 0 * 0x1000 ≡ va = omega arith in
    let r : Round m pgdir n va pa perm w k c =
      round m pgdir n va pa perm w k c ps h.tree
        (subst (λ a. IsSlot (pdx a)) first (h.slots 0 (omega arith)))
        (omega (arith, h.from 0 (omega arith), first))
        (omega (arith, h.upto 0 (omega arith), first)) h.room
        (subst (λ a. mapping m pgdir a ≡ 0) first (h.unmapped 0 (omega arith))) in
    let done : Done r.after pgdir n (word (va + pgsize)) (word (pa + pgsize)) perm w k c
        (map_pages n pgdir (word (va + pgsize)) (word (pa + pgsize)) perm r.after) =
      map_pages-Done r.after pgdir n (word (va + pgsize)) (word (pa + pgsize)) perm w k c r.rest
        (next-Region m pgdir n va pa perm w k c ps h r) (omega (arith, fits)) in
    record {
      after = done.after;
      rest = done.rest;
      is = r.is ∙ done.is;
      tree = done.tree;
      maps = λ va' slot'.
          done.maps va' slot'
          ∙ remapped-suc n va pa perm va' (mapping m pgdir) (mapping r.after pgdir) h.fits fits
              (r.maps va' slot');
      room = done.room;
      kern = done.kern ∙ r.kern;
    }

-- When the pages of the region are unmapped and not in the region of UVPT, the region and the
-- physical addresses end at or below 2^32, and there are free pages for the page tables that are
-- missing in a range of the directory that has the region's entries, boot_map_region returns.
-- Afterwards each page of the region is mapped to the page at the same distance from pa, with the
-- permissions and PTE_P, every other page of the address space outside of the region of UVPT is mapped as
-- before, and there is as much room for tables as before.
pub boot_map_region-Done :
    (m : Memory) (pgdir va size pa perm w k c : ℕ) (ps : List ℕ)
    → Region m pgdir ((size + 0xfff) / 0x1000) va w k c ps
    → pa + (size + 0xfff) / 0x1000 * 0x1000 ≤ 0x1_0000_0000
    → Done m pgdir
        ((size + 0xfff) / 0x1000)
        va
        pa
        perm
        w
        k
        c
        (boot_map_region pgdir va size pa perm m)
unfolding boot_map_region
boot_map_region-Done m pgdir va size pa perm w k c ps h fits =
    map_pages-Done m pgdir ((size + 0xfff) / 0x1000) va pa perm w k c ps h fits
