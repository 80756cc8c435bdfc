-- ===== src/Process/Load/Region.antt =====
-- The address space that region_alloc makes.
use sched_v2_solution.Base.{
  ℕ, zero, suc, ◌+◌, ◌-◌, ◌*◌, ◌/◌, ◌<◌, ◌≤◌, ◌≡◌, ◌≢◌, refl, sym, subst, ◌∙◌, inl, true, false,
  Option, some, List, [], ◌∷◌, length, arith, ltb,
}
use sched_v2_solution.Kernel.Ram.{Memory}
use sched_v2_solution.Kernel.Pcb.{word}
use sched_v2_solution.Pmap.Alloc.{page_alloc, alloc_from, unlink, set_page}
use sched_v2_solution.Pmap.Alloc.FreeList.{FreeList, Linked, NotIn, unlink-Taken}
use sched_v2_solution.Pmap.Table.{page_insert, pdx}
use sched_v2_solution.Pmap.Table.RoundTrip.{entry_for}
use sched_v2_solution.Pmap.Table.Space.{mapping, same_page, IsSlot, Tree, Tree-row}
use sched_v2_solution.Pmap.Table.Space.Room.{missing}
use sched_v2_solution.Pmap.Table.Space.Target.{Target}
use sched_v2_solution.Pmap.Table.Space.Insert.{Inserted, page_insert-Inserted}
use sched_v2_solution.Pmap.UserMem.{pgsize, utop, roundup, rounddown}
use sched_v2_solution.Process.Load.{alloc_pages, region_alloc}

-- The n pages from va on are unmapped pages of the address space, whose directory entries are among
-- the k from w on, and there are free pages for them and for the tables that are missing there.
pub record Vacant (m : Memory) (pgdir n va w k : ℕ) (ps : List ℕ) : Type 0 where
  pub tree : Tree m pgdir ps
  pub slots : (i : ℕ) → i < n → IsSlot (pdx (va + i * 0x1000))
  pub from : (i : ℕ) → i < n → w ≤ pdx (va + i * 0x1000)
  pub upto : (i : ℕ) → i < n → pdx (va + i * 0x1000) < w + k
  pub room : missing (m.frame pgdir) w k + n ≤ length ps
  pub unmapped : (i : ℕ) → i < n → mapping m pgdir (va + i * 0x1000) ≡ 0

-- The region has got pages of its own, which were free and are so no more, and the rest of the
-- address space is as it was.
pub record Filled (m : Memory) (pgdir n va : ℕ) (ps : List ℕ) (o : Option (Unit {0} × Memory))
    : Type 0 where
  pub after : Memory
  pub rest : List ℕ
  pub is : o ≡ some (tt, after)
  pub tree : Tree after pgdir rest
  pub page : ℕ → ℕ
  pub maps :
      (i va' : ℕ)
      → i < n
      → IsSlot (pdx va')
      → same_page (va + i * 0x1000) va' ≡ true
      → mapping after pgdir va' ≡ entry_for (page i) 6
  pub others :
      (va' : ℕ)
      → IsSlot (pdx va')
      → ((i : ℕ) → i < n → same_page (va + i * 0x1000) va' ≡ false)
      → mapping after pgdir va' ≡ mapping m pgdir va'
  pub were_free : (i q : ℕ) → i < n → NotIn q ps → page i ≢ q
  pub are_taken : (i : ℕ) → i < n → NotIn (page i) rest
  pub distinct : (i j : ℕ) → i < j → j < n → page i ≢ page j
  pub still : (q : ℕ) → NotIn q ps → NotIn q rest

unlink-Tree :
    (m : Memory) (pgdir p : ℕ) (ps : List ℕ) → Tree m pgdir (p ∷ ps) → Tree (unlink p m) pgdir ps
unfolding FreeList unlink set_page
unlink-Tree m pgdir p ps tree =
    let taken = unlink-Taken m p ps tree.free.1 in
    Tree-row m (unlink p m) pgdir (p ∷ ps) ps (record { row = refl; size = refl }) taken.rest
      tree.dir_used.1 (λ i slot used. (tree.tables i slot used).not_free.1) tree

-- The pages of the round that has just been made and of those that follow.
abbrev first_then : ℕ → (ℕ → ℕ) → ℕ → ℕ
first_then p f zero = p
first_then p f (suc i) = f i

unlink-mapping : (m : Memory) (pgdir p va : ℕ) → mapping (unlink p m) pgdir va ≡ mapping m pgdir va
unfolding mapping unlink set_page
unlink-mapping m pgdir p va = refl

-- The first round maps a page and leaves the others vacant.
first-Inserted :
    (m : Memory) (pgdir n va w k p : ℕ) (qs : List ℕ)
    → Vacant m pgdir (suc n) va w k (p ∷ qs)
    → Inserted (unlink p m) pgdir p va 6 qs (page_insert pgdir p va 6 (unlink p m))
unfolding Target FreeList Linked unlink set_page
first-Inserted m pgdir n va w k p qs h =
    let first : va + 0 * 0x1000 ≡ va = omega arith in
    let (link, ref, lt, out, rest) = h.tree.free.1 in
    page_insert-Inserted (unlink p m) pgdir p va 6 w k qs (unlink-Tree m pgdir p qs h.tree)
      (subst (λ a. IsSlot (pdx a)) first (h.slots 0 (omega arith)))
      (omega (arith, h.from 0 (omega arith), first)) (omega (arith, h.upto 0 (omega arith), first))
      (omega (arith, h.room)) out
      (inl (
        unlink-mapping m pgdir p va
        ∙ subst (λ a. mapping m pgdir a ≡ 0) first (h.unmapped 0 (omega arith))))

next-Vacant :
    (m : Memory) (pgdir n va w k p : ℕ) (qs : List ℕ)
    → Vacant m pgdir (suc n) va w k (p ∷ qs)
    → (i : Inserted (unlink p m) pgdir p va 6 qs (page_insert pgdir p va 6 (unlink p m)))
    → Vacant i.after pgdir n (va + pgsize) w k i.rest
unfolding unlink set_page
next-Vacant m pgdir n va w k p qs h r =
    let first : va + 0 * 0x1000 ≡ va = omega arith in
    record {
      tree = r.tree;
      slots = λ i lt. subst (λ a. IsSlot (pdx a)) (moved i) (h.slots (suc i) (omega (arith, lt)));
      from = λ i lt. subst (λ a. w ≤ pdx a) (moved i) (h.from (suc i) (omega (arith, lt)));
      upto = λ i lt. subst (λ a. pdx a < w + k) (moved i) (h.upto (suc i) (omega (arith, lt)));
      room =
          r.room w k n (omega (arith, h.from 0 (omega arith), first))
            (omega (arith, h.upto 0 (omega arith), first)) (omega (arith, h.room));
      unmapped = λ i lt.
          let apart : same_page va (va + suc i * 0x1000) ≡ false = ground arith in
          subst (λ a. mapping r.after pgdir a ≡ 0) (moved i)
            (r.maps (va + suc i * 0x1000) (h.slots (suc i) (omega (arith, lt)))
              ∙ rw apart (
                  unlink-mapping m pgdir p (va + suc i * 0x1000)
                  ∙ h.unmapped (suc i) (omega (arith, lt))));
    }
  where
    moved : (i : ℕ) → va + suc i * 0x1000 ≡ va + pgsize + i * 0x1000
    moved i = omega arith

alloc_first :
    (m : Memory) (p : ℕ)
    → m.page_free_list ≡ some p
    → page_alloc false m ≡ some (some p, unlink p m)
unfolding page_alloc alloc_from
alloc_first m p first = rw first refl

joined :
    (m : Memory) (pgdir n va w k p : ℕ) (qs : List ℕ)
    → Vacant m pgdir (suc n) va w k (p ∷ qs)
    → (i : Inserted (unlink p m) pgdir p va 6 qs (page_insert pgdir p va 6 (unlink p m)))
    → Filled i.after pgdir n (va + pgsize) i.rest (alloc_pages n pgdir (va + pgsize) i.after)
    → Filled m pgdir (suc n) va (p ∷ qs) (alloc_pages (suc n) pgdir va m)
unfolding alloc_pages FreeList Linked
joined m pgdir n va w k p qs h ins r =
    let (head_is, (link, ref, lt, out, rest)) = h.tree.free in
    record {
      after = r.after;
      rest = r.rest;
      is = rw (alloc_pages, alloc_first m p head_is, ins.is) r.is;
      tree = r.tree;
      page = first_then p r.page;
      maps = maps;
      others = λ va' slot away.
          r.others va' slot (λ i lt.
            subst (λ a. same_page a va' ≡ false) (moved i) (away (suc i) (omega (arith, lt))))
          ∙ ins.maps va' slot
          ∙ rw (subst (λ a. same_page a va' ≡ false) first (away 0 (omega arith)))
              (unlink-mapping m pgdir p va');
      were_free = were_free;
      are_taken = are_taken out;
      distinct = distinct out;
      still = λ q out. r.still q (ins.still empty q out.1);
    }
  where
    first : va + 0 * 0x1000 ≡ va
    first = omega arith

    moved : (i : ℕ) → va + suc i * 0x1000 ≡ va + pgsize + i * 0x1000
    moved i = omega arith

    empty : mapping (unlink p m) pgdir va ≡ 0
    empty =
        unlink-mapping m pgdir p va
        ∙ subst (λ a. mapping m pgdir a ≡ 0) first (h.unmapped 0 (omega arith))

    maps :
        (i va' : ℕ)
        → i < suc n
        → IsSlot (pdx va')
        → same_page (va + i * 0x1000) va' ≡ true
        → mapping r.after pgdir va' ≡ entry_for (first_then p r.page i) 6
    maps zero va' lt slot same =
        let same' : same_page va va' ≡ true = subst (λ a. same_page a va' ≡ true) first same in
        r.others va' slot (λ i lt. ground (arith, same')) ∙ ins.maps va' slot ∙ rw same' refl
    maps (suc i) va' lt slot same =
        r.maps i va' (omega (arith, lt)) slot (subst (λ a. same_page a va' ≡ true) (moved i) same)

    were_free : (i q : ℕ) → i < suc n → NotIn q (p ∷ qs) → first_then p r.page i ≢ q
    were_free zero q lt out = λ e. out.0 (sym e)
    were_free (suc i) q lt out = r.were_free i q (omega (arith, lt)) (ins.still empty q out.1)

    are_taken : NotIn p qs → (i : ℕ) → i < suc n → NotIn (first_then p r.page i) r.rest
    are_taken out zero lt = r.still p (ins.still empty p out)
    are_taken out (suc i) lt = r.are_taken i (omega (arith, lt))

    distinct :
        NotIn p qs → (i j : ℕ) → i < j → j < suc n → first_then p r.page i ≢ first_then p r.page j
    distinct out i zero lt lt' = absurd (omega (arith, lt))
    distinct out zero (suc j) lt lt' =
        λ e. r.were_free j p (omega (arith, lt')) (ins.still empty p out) (sym e)
    distinct out (suc i) (suc j) lt lt' = r.distinct i j (omega (arith, lt)) (omega (arith, lt'))

alloc_pages-Filled :
    (m : Memory) (pgdir n va w k : ℕ) (ps : List ℕ)
    → Vacant m pgdir n va w k ps
    → Filled m pgdir n va ps (alloc_pages n pgdir va m)
unfolding alloc_pages
alloc_pages-Filled m pgdir zero va w k ps h = record {
  after = m;
  rest = ps;
  is = refl;
  tree = h.tree;
  page = λ i. 0;
  maps = λ i va' lt. absurd (omega (arith, lt));
  others = λ va' slot away. refl;
  were_free = λ i q lt. absurd (omega (arith, lt));
  are_taken = λ i lt. absurd (omega (arith, lt));
  distinct = λ i j lt lt'. absurd (omega (arith, lt'));
  still = λ q out. out;
}
alloc_pages-Filled m pgdir (suc n) va w k [] h = absurd (omega (arith, h.room))
alloc_pages-Filled m pgdir (suc n) va w k (p ∷ qs) h =
    let ins : Inserted (unlink p m) pgdir p va 6 qs (page_insert pgdir p va 6 (unlink p m)) =
      first-Inserted m pgdir n va w k p qs h in
    joined m pgdir n va w k p qs h ins (
      alloc_pages-Filled ins.after pgdir n (va + pgsize) w k ins.rest
        (next-Vacant m pgdir n va w k p qs h ins))

-- When the range ends at or below UTOP, its pages are outside of the region of UVPT and unmapped, and there are free pages for them
-- and for the page tables that are missing, region_alloc returns. Afterwards the pages from the one
-- of va to the one of va + len - 1 are mapped, readable and writable for the user, each to a page
-- of its own that was free and is so no more, and every other page of the address space outside
-- of the region of UVPT is mapped as before.
pub region_alloc-Filled :
    (m : Memory) (pgdir va len w k : ℕ) (ps : List ℕ)
    → va + len ≤ utop
    → Vacant m pgdir ((va + len + 0xfff) / 0x1000 - va / 0x1000) (va / 0x1000 * 0x1000) w k ps
    → Filled m pgdir
        ((va + len + 0xfff) / 0x1000 - va / 0x1000)
        (va / 0x1000 * 0x1000)
        ps
        (region_alloc pgdir va len m)
unfolding region_alloc
region_alloc-Filled m pgdir va len w k ps low h =
    let n = (va + len + 0xfff) / 0x1000 - va / 0x1000 in
    let start : rounddown va ≡ va / 0x1000 * 0x1000 = omega arith in
    let upto : roundup (word (va + len)) ≡ (va + len + 0xfff) / 0x1000 * 0x1000 =
      omega (arith, low) in
    let below : ltb utop (roundup (word (va + len))) ≡ false = ground (arith, low, upto) in
    let count : (roundup (word (va + len)) - rounddown va) / pgsize ≡ n =
      omega (arith, start, upto) in
    rw (below, count, start) (alloc_pages-Filled m pgdir n (va / 0x1000 * 0x1000) w k ps h)
