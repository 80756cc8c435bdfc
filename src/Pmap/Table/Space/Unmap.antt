-- ===== src/Pmap/Table/Space/Unmap.antt =====
-- page_remove in an address space.
use sched_v2_solution.Base.{
  ℕ, suc, ◌<◌, ◌≡◌, ◌≢◌, refl, sym, ap, subst, ◌∙◌, inl, inr, true, false, Option, none, some, List,
  ◌∷◌, arith, ◌==◌, Bool-cases, if◌then◌else◌, ==_iff,
}
use sched_v2_solution.Kernel.Ram.{Memory}
use sched_v2_solution.Pmap.Alloc.{page_decref, ◌>>=◌}
use sched_v2_solution.Pmap.Alloc.FreeList.{FreeList, NotIn, Dropped, page_decref-Dropped}
use sched_v2_solution.Pmap.Table.{
  read, write, pgdir_walk, entry_of, lookup_at, page_lookup, unmap, page_remove, pdx, ptx, pgnum,
}
use sched_v2_solution.Pmap.Table.Keeps.{
  write-Keeps, HasTable, entry_at, Keeps, page_decref-Keeps, ensure_none, walk-HasTable,
  page_lookup-at,
}
use sched_v2_solution.Pmap.Table.Space.{
  mapping, same_page, IsSlot, Tree, Tree-HasTable, Tree-row, write-Tree, write-mapping,
  mapping_used, mapping_unused, mapping-same,
}

walk-nothing :
    (m : Memory) (pgdir va : ℕ)
    → m.frame pgdir (pdx va) ≡ 0
    → pgdir_walk pgdir va false m ≡ some (none, m)
unfolding pgdir_walk entry_of
walk-nothing m pgdir va empty =
    let no_pde : (m.frame pgdir (pdx va) == 0) ≡ true = ground arith in
    rw (ensure_none pgdir (pdx va) m, ◌>>=◌, no_pde) refl

lookup-nothing :
    (m : Memory) (pgdir va : ℕ) (ps : List ℕ)
    → Tree m pgdir ps
    → IsSlot (pdx va)
    → mapping m pgdir va ≡ 0
    → page_lookup pgdir va m ≡ some (none, m)
unfolding page_lookup lookup_at entry_at
lookup-nothing m pgdir va ps tree slot unmapped = elim (Bool-cases (m.frame pgdir (pdx va) == 0)) [
  | inl empty ↦
      rw (walk-nothing m pgdir va ((==_iff (m.frame pgdir (pdx va)) 0).0 empty), ◌>>=◌) refl
  | inr full ↦
      let used : m.frame pgdir (pdx va) ≢ 0 = ground (arith, full) in
      let zero_entry : m.frame (pgnum (m.frame pgdir (pdx va))) (ptx va) ≡ 0 =
        sym (mapping_used m pgdir va used) ∙ unmapped in
      let at_zero : (m.frame (pgnum (m.frame pgdir (pdx va))) (ptx va) == 0) ≡ true =
        (==_iff (m.frame (pgnum (m.frame pgdir (pdx va))) (ptx va)) 0).1 zero_entry in
      rw (walk-HasTable m pgdir va (Tree-HasTable m pgdir va ps tree slot used), ◌>>=◌, at_zero)
        refl
]

-- Where nothing is mapped, page_remove does nothing.
pub page_remove-nothing :
    (m : Memory) (pgdir va : ℕ) (ps : List ℕ)
    → Tree m pgdir ps
    → IsSlot (pdx va)
    → mapping m pgdir va ≡ 0
    → page_remove pgdir va m ≡ some (tt, m)
unfolding page_remove unmap
page_remove-nothing m pgdir va ps tree slot unmapped =
    rw (lookup-nothing m pgdir va ps tree slot unmapped, ◌>>=◌) refl

-- Page q is in physical memory and in use, with n + 1 references, and not a part of the tree.
pub record IsData (m : Memory) (pgdir q n : ℕ) (ps : List ℕ) : Type 0 where
  pub inside : q < m.npages
  pub not_free : NotIn q ps
  pub unlinked : (m.pages q).pp_link ≡ none
  pub refs : (m.pages q).pp_ref ≡ suc n
  pub fits : n < 0xffff
  pub no_dir : pgdir ≢ q
  pub no_table : (i : ℕ) → IsSlot i → m.frame pgdir i ≢ 0 → pgnum (m.frame pgdir i) ≢ q

-- The free pages after page q is left with n references.
abbrev pub freed : (q n : ℕ) → List ℕ → List ℕ
freed q n ps = if n == 0 then q ∷ ps else ps

NotIn-freed : (t q n : ℕ) (ps : List ℕ) → t ≢ q → NotIn t ps → NotIn t (freed q n ps)
NotIn-freed t q n ps ne out = elim (Bool-cases (n == 0)) [
  | inl last ↦ rw last (ne, out)
  | inr more ↦ rw more out
]

decref-Tree :
    (m m' : Memory) (pgdir q n : ℕ) (ps : List ℕ)
    → Tree m pgdir ps
    → IsData m pgdir q n ps
    → page_decref q m ≡ some (tt, m')
    → FreeList m' (freed q n ps)
    → Tree m' pgdir (freed q n ps)
decref-Tree m m' pgdir q n ps tree h e free =
    Tree-row m m' pgdir ps (freed q n ps) (page_decref-Keeps q pgdir m (tt, m') e) free
      (NotIn-freed pgdir q n ps h.no_dir tree.dir_used)
      (λ i slot used.
        NotIn-freed (pgnum (m.frame pgdir i)) q n ps (h.no_table i slot used)
          (tree.tables i slot used).not_free)
      tree

-- What page_remove makes of a mapped page.
pub record Removed (m : Memory) (pgdir va q n : ℕ) (ps : List ℕ) (o : Option (Unit {0} × Memory))
    : Type 0 where
  pub after : Memory
  pub is : o ≡ some (tt, after)
  pub tree : Tree after pgdir (freed q n ps)
  pub unmapped :
      (va' : ℕ)
      → IsSlot (pdx va')
      → mapping after pgdir va' ≡ (if same_page va va' then 0 else mapping m pgdir va')
  pub refs : (after.pages q).pp_ref ≡ n
  pub others : (p : ℕ) → q ≢ p → after.pages p ≡ m.pages p
  pub size : after.npages ≡ m.npages
  pub row : after.frame pgdir ≡ m.frame pgdir

-- What the entry of a page being dropped and its own entry being cleared come to.
cleared :
    (m m1 : Memory) (pgdir va q n : ℕ) (ps : List ℕ)
    → Tree m pgdir ps
    → IsSlot (pdx va)
    → m.frame pgdir (pdx va) ≢ 0
    → IsData m pgdir q n ps
    → page_decref q m ≡ some (tt, m1)
    → Dropped m q n (freed q n ps) m1
    → Removed m pgdir va q n ps (some (tt, write (entry_at m1 pgdir va) 0 m1))
unfolding write entry_at
cleared m m1 pgdir va q n ps tree slot used h e d =
    let k : Keeps pgdir m m1 = page_decref-Keeps q pgdir m (tt, m1) e in
    let tree1 : Tree m1 pgdir (freed q n ps) = decref-Tree m m1 pgdir q n ps tree h e d.list in
    let used1 : m1.frame pgdir (pdx va) ≢ 0 = subst (λ f. f (pdx va) ≢ 0) (sym k.row) used in
    let table1 : HasTable m1 pgdir va = Tree-HasTable m1 pgdir va (freed q n ps) tree1 slot used1 in
    record {
      after = write (entry_at m1 pgdir va) 0 m1;
      is = refl;
      tree = write-Tree m1 pgdir va 0 (freed q n ps) table1 tree1;
      unmapped = λ va' slot'.
          write-mapping m1 pgdir va 0 va' (freed q n ps) tree1 slot slot' used1
          ∙ ap (λ v. if same_page va va' then 0 else v)
              (mapping-same m m1 pgdir va' k.row
                (λ used'. ap (λ f. f (pgnum (m.frame pgdir (pdx va'))) (ptx va')) d.frames));
      refs = d.ref;
      others = d.others;
      size = k.size;
      row = (write-Keeps (entry_at m1 pgdir va).0 (ptx va) 0 pgdir m1 table1.apart).row ∙ k.row;
    }

mapping_entry :
    (m : Memory) (pgdir va : ℕ)
    → m.frame pgdir (pdx va) ≢ 0
    → mapping m pgdir va ≡ read m (entry_at m pgdir va)
unfolding entry_at
mapping_entry m pgdir va used = mapping_used m pgdir va used

-- page_remove of a mapped page that is in use and no part of the tree returns. Afterwards va is
-- unmapped, every other page of the address space is mapped as before, the page has one reference
-- less, and it is free exactly when that was the last one.
pub page_remove-Removed :
    (m : Memory) (pgdir va n : ℕ) (ps : List ℕ)
    → Tree m pgdir ps
    → IsSlot (pdx va)
    → mapping m pgdir va ≢ 0
    → IsData m pgdir (pgnum (mapping m pgdir va)) n ps
    → Removed m pgdir va (pgnum (mapping m pgdir va)) n ps (page_remove pgdir va m)
unfolding page_remove unmap entry_at
page_remove-Removed m pgdir va n ps tree slot mapped h =
    let used : m.frame pgdir (pdx va) ≢ 0 = λ e. mapped (mapping_unused m pgdir va e) in
    let table : HasTable m pgdir va = Tree-HasTable m pgdir va ps tree slot used in
    let q = pgnum (mapping m pgdir va) in
    let same : mapping m pgdir va ≡ read m (entry_at m pgdir va) = mapping_entry m pgdir va used in
    let (m1, is, dropped) =
      page_decref-Dropped m q n ps tree.free h.not_free h.inside h.unlinked h.refs h.fits in
    let found : page_lookup pgdir va m ≡ some (some (q, entry_at m pgdir va), m) =
      page_lookup-at pgdir va q m table (λ e. mapped (same ∙ e)) (sym (ap pgnum same)) h.inside in
    let k : Keeps pgdir m m1 = page_decref-Keeps q pgdir m (tt, m1) is in
    let pte : entry_at m1 pgdir va ≡ entry_at m pgdir va =
      ap (λ f. (pgnum (f (pdx va)), ptx va)) k.row in
    rw (found, ◌>>=◌, is)
      (subst (λ w. Removed m pgdir va q n ps (some (tt, write w 0 m1))) pte
        (cleared m m1 pgdir va q n ps tree slot used h is dropped))
