-- ===== src/Pmap/Alloc.antt =====
-- page_alloc, page_free and page_decref of sched/kern/pmap.c.
pub mod FreeList
use sched_v2_solution.Base.{
  ℕ, ◌+◌, ◌%◌, Bool, true, false, not, Option, none, some, is_some, ltb, ◌==◌, if◌then◌else◌,
  update,
}
use sched_v2_solution.Kernel.Ram.{Memory, PageInfo}

abbrev pub MemCmd : Type 0 → Type 0
MemCmd A = Memory → Option (A × Memory)

abbrev pub pure : {A : Type 0} → A → MemCmd A
pure a m = some (a, m)

infixl 5 ◌>>=◌ ◌>>◌
abbrev pub ◌>>=◌ : {A B : Type 0} → MemCmd A → (A → MemCmd B) → MemCmd B
◌>>=◌ c f m = elim (c m) [ none ↦ none | some (a, m') ↦ f a m' ]

abbrev pub ◌>>◌ : {B : Type 0} → MemCmd (Unit {0}) → MemCmd B → MemCmd B
c >> d = c >>= λ _. d

unfoldable pub set_page : Memory → ℕ → PageInfo → Memory
set_page m p i = record m { pages = update m.pages p i }

-- memset(page2kva(pp), 0, PGSIZE); page2kva panics beyond physical memory.
unfoldable pub zero_page : ℕ → MemCmd (Unit {0})
zero_page p m =
    if ltb p m.npages then some (tt, record m { frame = update m.frame p (λ i. 0) }) else none

-- The free list without its head.
unfoldable pub unlink : ℕ → Memory → Memory
unfolding set_page
unlink p m =
    set_page (record m { page_free_list = (m.pages p).pp_link }) p
      (record (m.pages p) { pp_link = none })

unfoldable pub alloc_from : Bool → Option ℕ → MemCmd (Option ℕ)
unfolding zero_page unlink
alloc_from zero none m = some (none, m)
alloc_from true (some p) m = (do zero_page p; pure (some p)) (unlink p m)
alloc_from false (some p) m = some (some p, unlink p m)

unfoldable pub page_alloc : Bool → MemCmd (Option ℕ)
unfolding alloc_from
page_alloc zero m = alloc_from zero m.page_free_list m

unfoldable pub page_free : ℕ → MemCmd (Unit {0})
unfolding set_page
page_free p m =
    if not ((m.pages p).pp_ref == 0)
    then none
    else if is_some (m.pages p).pp_link
    then none
    else some (
      tt,
      set_page (record m { page_free_list = some p }) p
          (record (m.pages p) { pp_link = m.page_free_list }),
    )

-- pp_ref is a uint16_t.
abbrev pub ref16 : ℕ → ℕ
ref16 n = n % 0x1_0000

unfoldable pub page_incref : ℕ → Memory → Memory
unfolding set_page
page_incref p m = set_page m p (record (m.pages p) { pp_ref = ref16 ((m.pages p).pp_ref + 1) })

unfoldable pub page_decref : ℕ → MemCmd (Unit {0})
unfolding set_page page_free
page_decref p m =
    let ref = ref16 ((m.pages p).pp_ref + 0xffff) in
    let m' = set_page m p (record (m.pages p) { pp_ref = ref }) in
    if ref == 0 then page_free p m' else some (tt, m')
