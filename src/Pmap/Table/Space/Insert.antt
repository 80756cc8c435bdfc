-- ===== src/Pmap/Table/Space/Insert.antt =====
-- page_insert in an address space.
use sched_v2_solution.Base.{
  ◌+◌, ◌<◌, arith, ℕ, suc, ◌≤◌, ◌≡◌, ◌≢◌, ◌⊎◌, refl, sym, ap, subst, ◌∙◌, inl, inr, Bool, true,
  false, Option, none, some, List, length, arith, if◌then◌else◌,
}
use sched_v2_solution.Kernel.Ram.{Memory, PageInfo}
use sched_v2_solution.Pmap.Alloc.{page_incref, set_page, ◌>>=◌}
use sched_v2_solution.Pmap.Alloc.FreeList.{NotIn}
use sched_v2_solution.Pmap.Table.{
  PtePtr, write, pgdir_walk, page_remove, insert_at, page_insert, pdx, ptx, pgnum,
}
use sched_v2_solution.Pmap.Table.Keeps.{write-Keeps, HasTable, entry_at}
use sched_v2_solution.Pmap.Table.RoundTrip.{entry_for}
use sched_v2_solution.Pmap.Table.Space.{
  mapping, same_page, IsSlot, Tree, Tree-HasTable, write-Tree, write-mapping,
}
use sched_v2_solution.Pmap.Table.Space.Room.{missing}
use sched_v2_solution.Pmap.Table.Space.Walked.{Walked, walk-Walked}
use sched_v2_solution.Pmap.Table.Space.Unmap.{IsData}
use sched_v2_solution.Pmap.Table.Space.Target.{
  Target, Emptied, remove-Emptied, incref-Tree, incref-IsData,
}

-- What page_insert makes of the address space, when it returns true.
pub record Inserted (m : Memory) (pgdir p va perm : ℕ) (ps : List ℕ) (o : Option (Bool × Memory))
    : Type 0 where
  pub after : Memory
  pub rest : List ℕ
  pub is : o ≡ some (true, after)
  pub tree : Tree after pgdir rest
  pub maps :
      (va' : ℕ)
      → IsSlot (pdx va')
      → mapping after pgdir va'
        ≡ (if same_page va va' then entry_for p perm else mapping m pgdir va')
  pub still : mapping m pgdir va ≡ 0 → (q : ℕ) → NotIn q ps → NotIn q rest
  pub room :
      (w k c : ℕ)
      → w ≤ pdx va
      → pdx va < w + k
      → missing (m.frame pgdir) w k + c ≤ length ps
      → missing (after.frame pgdir) w k + c ≤ length rest

-- The write of the entry after the removal.
written :
    (m : Memory) (pgdir p va perm : ℕ) (ps : List ℕ)
    → (r : Emptied m pgdir va ps (page_remove pgdir va m)) → IsSlot (pdx va)
    → m.frame pgdir (pdx va) ≢ 0
    → Inserted m pgdir p va perm ps
        (some (true, write (entry_at m pgdir va) (entry_for p perm) r.after))
unfolding entry_at
written m pgdir p va perm ps r slot used =
    let e = entry_for p perm in
    let used' : r.after.frame pgdir (pdx va) ≢ 0 = subst (λ f. f (pdx va) ≢ 0) (sym r.row) used in
    let table : HasTable r.after pgdir va =
      Tree-HasTable r.after pgdir va r.rest r.tree slot used' in
    let pte : entry_at r.after pgdir va ≡ entry_at m pgdir va =
      ap (λ f. (pgnum (f (pdx va)), ptx va)) r.row in
    subst (λ w. Inserted m pgdir p va perm ps (some (true, write w e r.after))) pte
      (record {
        after = write (entry_at r.after pgdir va) e r.after;
        rest = r.rest;
        is = refl;
        tree = write-Tree r.after pgdir va e r.rest table r.tree;
        maps = λ va' slot'.
            write-mapping r.after pgdir va e va' r.rest r.tree slot slot' used'
            ∙ once (same_page va va') e (mapping r.after pgdir va') (mapping m pgdir va')
                (r.unmapped va' slot');
        still = r.still;
        room = λ w k c le lt room.
            let same : missing (Memory.frame (write (entry_at r.after pgdir va) e r.after) pgdir) w
                  k
                ≡ missing (m.frame pgdir) w k =
              ap (λ f. missing f w k)
                ((write-Keeps (entry_at r.after pgdir va).0 (ptx va) e pgdir r.after
                    table.apart).row
                  ∙ r.row) in
            omega (arith, room, same, r.more);
      })
  where
    once :
        (b : Bool) (e v v' : ℕ)
        → v ≡ (if b then 0 else v')
        → (if b then e else v) ≡ (if b then e else v')
    once true e v v' h = refl
    once false e v v' h = h

-- The target of the walk is that before it.
Walked-IsData :
    (m : Memory) (pgdir va q n : ℕ) (ps : List ℕ) (o : Option (Option PtePtr × Memory))
    → (w : Walked m pgdir va ps o) → IsData m pgdir q n ps
    → IsData w.after pgdir q n w.rest
Walked-IsData m pgdir va q n ps o w h = record {
  inside = omega (arith, h.inside, w.size);
  not_free = w.still q h.not_free;
  unlinked = subst (λ i. PageInfo.pp_link i ≡ none) (sym (w.pages q h.not_free)) h.unlinked;
  refs = subst (λ i. PageInfo.pp_ref i ≡ suc n) (sym (w.pages q h.not_free)) h.refs;
  fits = h.fits;
  no_dir = h.no_dir;
  no_table = w.no_table q h.not_free h.no_table;
}

Walked-Target :
    (m : Memory) (pgdir p va : ℕ) (ps : List ℕ) (o : Option (Option PtePtr × Memory))
    → (w : Walked m pgdir va ps o) → IsSlot (pdx va)
    → Target m pgdir va ps
    → (mapping (page_incref p w.after) pgdir va ≡ 0)
      ⊎ ((mapping (page_incref p w.after) pgdir va ≢ 0)
          × (n : ℕ) × IsData
              (page_incref p w.after)
              pgdir
              (pgnum (mapping (page_incref p w.after) pgdir va))
              n
              w.rest)
unfolding Target page_incref set_page mapping entry_at
Walked-Target m pgdir p va ps o w slot (inl empty) = inl (w.same va slot ∙ empty)
Walked-Target m pgdir p va ps o w slot (inr (full, n, lt, h)) =
    let same = w.same va slot in
    let h' : IsData w.after pgdir (pgnum (mapping m pgdir va)) n w.rest =
      Walked-IsData m pgdir va (pgnum (mapping m pgdir va)) n ps o w h in
    let (n', data_page) : (n' : ℕ) × IsData (page_incref p w.after) pgdir
          (pgnum (mapping m pgdir va)) n' w.rest =
      incref-IsData w.after pgdir p (pgnum (mapping m pgdir va)) n w.rest lt h' in
    inr (
      λ e. full (sym same ∙ e),
      n',
      subst (λ v. IsData (page_incref p w.after) pgdir (pgnum v) n' w.rest) (sym same) data_page,
    )

-- When va lies outside of the region of UVPT, there are free pages for the page tables that are
-- missing in a range of the directory that has the entry of va, and what is mapped at va is nothing or a page in use, with fewer than
-- 2^16 - 1 references, that is no part of the tree, page_insert of a page that is not free
-- succeeds. Afterwards the page of va has the entry of p with the permissions, every other page of
-- the address space outside of the region of UVPT is mapped as before, and there is as much room for tables as before.
pub page_insert-Inserted :
    (m : Memory) (pgdir p va perm w k : ℕ) (ps : List ℕ)
    → Tree m pgdir ps
    → IsSlot (pdx va)
    → w ≤ pdx va
    → pdx va < w + k
    → missing (m.frame pgdir) w k ≤ length ps
    → NotIn p ps
    → Target m pgdir va ps
    → Inserted m pgdir p va perm ps (page_insert pgdir p va perm m)
unfolding page_insert insert_at page_incref set_page mapping entry_at
page_insert-Inserted m pgdir p va perm w k ps tree slot le lt room out target =
    let walk : Walked m pgdir va ps (pgdir_walk pgdir va true m) =
      walk-Walked m pgdir va w k ps tree slot le lt room in
    let m1 = page_incref p walk.after in
    let r : Emptied m1 pgdir va walk.rest (page_remove pgdir va m1) =
      remove-Emptied m1 pgdir va walk.rest
        (incref-Tree walk.after pgdir p walk.rest (walk.still p out) walk.tree) slot
        (Walked-Target m pgdir p va ps (pgdir_walk pgdir va true m) walk slot target) in
    let i : Inserted m1 pgdir p va perm walk.rest
        (some (true, write (entry_at m1 pgdir va) (entry_for p perm) r.after)) =
      written m1 pgdir p va perm walk.rest r slot walk.used in
    record {
      after = i.after;
      rest = i.rest;
      is = rw (walk.is, ◌>>=◌, r.is) i.is;
      tree = i.tree;
      maps = λ va' slot'.
          i.maps va' slot'
          ∙ ap (λ v. if same_page va va' then entry_for p perm else v) (walk.same va' slot');
      still = λ e q out. i.still (walk.same va slot ∙ e) q (walk.still q out);
      room = λ w k c le lt room. i.room w k c le lt (walk.room w k c le lt room);
    }
