-- ===== src/Pmap/Boot/Init.antt =====
-- The free list that page_init builds.
use sched_v2_solution.Base.{
  ℕ, zero, suc, ◌-◌, ◌<◌, ◌≤◌, ◌≡◌, refl, sym, subst, inl, inr, true, false, Option, none, some,
  arith, ltb, leb, if◌then◌else◌, Bool-cases,
}
use sched_v2_solution.Kernel.Ram.{Memory}
use sched_v2_solution.Pmap.Alloc.{set_page}
use sched_v2_solution.Pmap.Alloc.FreeList.{FreeList, Linked, NotIn}
use sched_v2_solution.Pmap.Table.{pgnum}
use sched_v2_solution.Pmap.Boot.{
  kernbase, paddr, set_aside, unlinked, give, give_behind, init_page, init_pages, page_init,
}
use sched_v2_solution.Pmap.Boot.Free.{
  is_free_page, free_pages, Bounded, aside-used, kernel-used, high-free, low-free, boot_alloc-zero,
  NotIn-free_pages, FreeList-unlinked, FreeList-give,
}

-- The memory after the first n rounds.
record Built (n nextfree first : ℕ) (m : Memory) (o : Option (Memory × ℕ)) : Type 0 where
  built : Memory
  is : o ≡ some (built, nextfree)
  npages_same : built.npages ≡ m.npages
  list : FreeList built (free_pages first n)

-- What boot_alloc(0) leaves of the last test.
give_behind-first :
    (npages i first nextfree : ℕ) (m : Memory)
    → Bounded npages first nextfree
    → give_behind i m (some (nextfree, nextfree))
      ≡ (if ltb i first then some (m, nextfree) else some (give i m, nextfree))
unfolding give_behind paddr
give_behind-first npages i first nextfree m b =
    let high : ltb nextfree kernbase ≡ false = ground (arith, b.at_page) in
    let page : pgnum (nextfree - kernbase) ≡ first = omega (arith, b.at_page) in
    rw (give_behind, paddr, high, page) refl

taken :
    {n first nextfree : ℕ} {m : Memory} (m' : Memory)
    → is_free_page first n ≡ false
    → m'.npages ≡ m.npages
    → FreeList m' (free_pages first n)
    → Built (suc n) nextfree first m (some (unlinked n m', nextfree))
unfolding free_pages set_page
taken {n = n} {first = first} m' used same list = record {
  built = unlinked n m';
  is = refl;
  npages_same = same;
  list =
      rw used (
        FreeList-unlinked n m' (free_pages first n) (NotIn-free_pages first n n (omega arith))
          list);
}

given :
    {n first nextfree : ℕ} {m : Memory} (m' : Memory)
    → is_free_page first n ≡ true
    → n < m.npages
    → m'.npages ≡ m.npages
    → FreeList m' (free_pages first n)
    → Built (suc n) nextfree first m (some (give n (unlinked n m'), nextfree))
unfolding free_pages set_page give
given {n = n} {first = first} m' free lt same list =
    let out : NotIn n (free_pages first n) = NotIn-free_pages first n n (omega arith) in
    record {
      built = give n (unlinked n m');
      is = refl;
      npages_same = same;
      list = rw free (
          FreeList-give n (unlinked n m') (free_pages first n) (omega (arith, lt, same)) out
            (FreeList-unlinked n m' (free_pages first n) out list));
    }

init_page-Built :
    (end_of_bss n first nextfree : ℕ) (m m' : Memory)
    → Bounded m.npages first nextfree
    → n < m.npages
    → m'.npages ≡ m.npages
    → FreeList m' (free_pages first n)
    → Built (suc n) nextfree first m (init_page end_of_bss n nextfree m')
unfolding init_page
init_page-Built end_of_bss n first nextfree m m' b lt same list = elim (Bool-cases (set_aside n)) [
  | inl aside ↦ rw (init_page, aside) (taken m' (aside-used first n aside) same list)
  | inr usual ↦
      rw (init_page, usual)
        (elim (Bool-cases (leb 256 n)) [
          | inl high ↦
              let b' : Bounded m'.npages first nextfree =
                subst (λ k. Bounded k first nextfree) (sym same) b in
              rw
                (
                  high,
                  boot_alloc-zero end_of_bss m'.npages first nextfree b',
                  give_behind-first m'.npages n first nextfree (unlinked n m') b',
                )
                (elim (Bool-cases (ltb n first)) [
                  | inl kernel ↦
                      let before : leb first n ≡ false = ground arith in
                      rw kernel (taken m' (kernel-used first n high before) same list)
                  | inr behind ↦
                      let after : leb first n ≡ true = ground arith in
                      rw behind (given m' (high-free first n usual high after) lt same list)
                ])
          | inr low ↦ rw low (given m' (low-free first n usual low) lt same list)
        ])
]

init_pages-Built :
    (end_of_bss n first nextfree : ℕ) (m : Memory)
    → Bounded m.npages first nextfree
    → n ≤ m.npages
    → m.page_free_list ≡ none
    → Built n nextfree first m (init_pages end_of_bss n nextfree m)
unfolding init_pages free_pages FreeList Linked
init_pages-Built end_of_bss zero first nextfree m b le empty = record {
  built = m;
  is = refl;
  npages_same = refl;
  list = (empty, tt);
}
init_pages-Built end_of_bss (suc n) first nextfree m b le empty =
    let before : Built n nextfree first m (init_pages end_of_bss n nextfree m) =
      init_pages-Built end_of_bss n first nextfree m b (omega (arith, le)) empty in
    let step : Built (suc n) nextfree first m (init_page end_of_bss n nextfree before.built) =
      init_page-Built end_of_bss n first nextfree m before.built b (omega (arith, le))
        before.npages_same before.list in
    go before.built before.is step
  where
    go :
        (m' : Memory)
        → init_pages end_of_bss n nextfree m ≡ some (m', nextfree)
        → Built (suc n) nextfree first m (init_page end_of_bss n nextfree m')
        → Built (suc n) nextfree first m (init_pages end_of_bss (suc n) nextfree m)
    go m' e step = rw (init_pages, e) step

-- What page_init returns: memory with these pages as its free list, and nextfree.
pub record Initialised (first nextfree : ℕ) (m : Memory) (o : Option (Memory × ℕ)) : Type 0 where
  pub built : Memory
  pub is : o ≡ some (built, nextfree)
  pub list : FreeList built (free_pages first m.npages)

-- When boot_alloc has handed out the memory up to the start of page `first`, which exists, the
-- machine has at most 2^16 pages and the free list is empty, page_init does not panic and leaves
-- as the free list, correctly linked and unreferenced, exactly the pages other than page 0, the
-- page of MPENTRY_PADDR, the hole from IOPHYSMEM to EXTPHYSMEM and those from there to `first`.
pub page_init-Initialised :
    (end_of_bss first nextfree : ℕ) (m : Memory)
    → Bounded m.npages first nextfree
    → m.page_free_list ≡ none
    → Initialised first nextfree m (page_init end_of_bss nextfree m)
unfolding page_init
page_init-Initialised end_of_bss first nextfree m b empty =
    let all : Built m.npages nextfree first m (init_pages end_of_bss m.npages nextfree m) =
      init_pages-Built end_of_bss m.npages first nextfree m b (omega arith) empty in
    record { built = all.built; is = all.is; list = all.list }
