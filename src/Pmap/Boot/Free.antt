-- ===== src/Pmap/Boot/Free.antt =====
-- Which pages are free when the machine starts, and a page that is put on the free list.
use sched_v2_solution.Base.{
  ℕ, zero, suc, ◌+◌, ◌-◌, ◌*◌, ◌/◌, ◌<◌, ◌≤◌, ◌≡◌, refl, ap, ◌∙◌, inl, inr, Bool, true, false, ◌&&◌,
  ◌||◌, none, some, List, [], ◌∷◌, arith, ltb, leb, ◌==◌, if◌then◌else◌, Bool-cases, update_self,
  not,
}
use sched_v2_solution.Kernel.Ram.{Memory, PageInfo}
use sched_v2_solution.Kernel.Pcb.{word}
use sched_v2_solution.Pmap.Alloc.{set_page}
use sched_v2_solution.Pmap.Alloc.FreeList.{FreeList, Linked, NotIn, Linked-set_page}
use sched_v2_solution.Pmap.Table.{pgnum}
use sched_v2_solution.Pmap.UserMem.{pgsize, roundup}
use sched_v2_solution.Pmap.Boot.{kernbase, paddr, kaddr, boot_alloc, set_aside, unlinked, give}

-- Whether a page is free when the kernel and what it has allocated end right before page `first`:
-- it is not the first page or that of MPENTRY_PADDR, and it lies below the 640K of IOPHYSMEM, or at
-- or above the 1M of EXTPHYSMEM and behind the kernel.
unfoldable pub is_free_page : (first i : ℕ) → Bool
is_free_page first i =
    not (i == 0x0 / 0x1000)
    && not (i == 0x7000 / 0x1000)
    && (ltb i (640 / 4) || leb (1024 / 4) i && leb first i)

pub aside-used : (first i : ℕ) → set_aside i ≡ true → is_free_page first i ≡ false
unfolding set_aside is_free_page
aside-used first i e = ground arith

pub kernel-used :
    (first i : ℕ) → leb 256 i ≡ true → leb first i ≡ false → is_free_page first i ≡ false
unfolding is_free_page
kernel-used first i e e' = ground arith

pub high-free :
    (first i : ℕ)
    → set_aside i ≡ false
    → leb 256 i ≡ true
    → leb first i ≡ true
    → is_free_page first i ≡ true
unfolding set_aside is_free_page
high-free first i e e' e'' = ground arith

pub low-free : (first i : ℕ) → set_aside i ≡ false → leb 256 i ≡ false → is_free_page first i ≡ true
unfolding set_aside is_free_page
low-free first i e e' = ground arith

-- The free ones of the first n pages, the last one first.
unfoldable pub free_pages : (first n : ℕ) → List ℕ
unfolding is_free_page
free_pages first zero = []
free_pages first (suc n) =
    if is_free_page first n then n ∷ free_pages first n else free_pages first n

-- The next free address of boot_alloc, the start of page `first`, which is in physical memory.
pub record Bounded (npages first nextfree : ℕ) : Type 0 where
  pub at_page : nextfree ≡ kernbase + first * 0x1000
  pub in_memory : first < npages
  pub small : npages ≤ 0x1_0000

pub boot_alloc-zero :
    (end_of_bss npages first nextfree : ℕ)
    → Bounded npages first nextfree
    → boot_alloc end_of_bss npages 0 nextfree ≡ some (nextfree, nextfree)
unfolding boot_alloc paddr kaddr
boot_alloc-zero end_of_bss npages first nextfree b =
    let used : (nextfree == 0) ≡ false = ground (arith, b.at_page) in
    let same : word (nextfree + 0) ≡ nextfree = omega (arith, b.at_page, b.in_memory, b.small) in
    let high : ltb nextfree kernbase ≡ false = ground (arith, b.at_page) in
    let fits : leb (word (pgsize * npages)) (nextfree - kernbase) ≡ false =
      fits_of b.at_page b.in_memory b.small in
    let there : leb npages (pgnum (nextfree - kernbase)) ≡ false = there_of b.at_page b.in_memory in
    let back : word (nextfree - kernbase + kernbase) ≡ nextfree =
      omega (arith, b.at_page, b.in_memory, b.small) in
    let round : roundup nextfree ≡ nextfree = omega (arith, b.at_page, b.in_memory, b.small) in
    rw (boot_alloc, used, same, paddr, high, fits, kaddr, there, back, round, used) refl
  where
    fits_of :
        nextfree ≡ kernbase + first * 0x1000
        → first < npages
        → npages ≤ 0x1_0000
        → leb (word (pgsize * npages)) (nextfree - kernbase) ≡ false
    fits_of e lt le = ground arith

    there_of :
        nextfree ≡ kernbase + first * 0x1000
        → first < npages
        → leb npages (pgnum (nextfree - kernbase)) ≡ false
    there_of e lt = ground arith

-- Free pages are below the number of rounds.
pub NotIn-free_pages : (first n i : ℕ) → n ≤ i → NotIn i (free_pages first n)
unfolding free_pages
NotIn-free_pages first zero i le = tt
NotIn-free_pages first (suc n) i le = elim (Bool-cases (is_free_page first n)) [
  | inl free ↦ rw free (λ e. absurd (omega arith), NotIn-free_pages first n i (omega arith))
  | inr used ↦ rw used (NotIn-free_pages first n i (omega arith))
]

pub FreeList-unlinked :
    (i : ℕ) (m : Memory) (ps : List ℕ) → NotIn i ps → FreeList m ps → FreeList (unlinked i m) ps
unfolding FreeList set_page
FreeList-unlinked i m ps out (at_head, links) = (
  at_head,
  Linked-set_page m i (record (m.pages i) { pp_link = none }) m.page_free_list ps out links,
)

pub FreeList-give :
    (i : ℕ) (m : Memory) (ps : List ℕ)
    → i < m.npages
    → NotIn i ps
    → FreeList m ps
    → FreeList (give i m) (i ∷ ps)
unfolding FreeList Linked set_page give
FreeList-give i m ps lt out (at_head, links) =
    let entry : PageInfo = record { pp_link = m.page_free_list; pp_ref = 0 } in
    let here : (give i m).pages i ≡ entry = update_self m.pages i entry in
    (
      refl,
      (
        ap PageInfo.pp_link here ∙ at_head,
        ap PageInfo.pp_ref here,
        lt,
        out,
        Linked-set_page m i entry (some i) ps out links,
      ),
    )
