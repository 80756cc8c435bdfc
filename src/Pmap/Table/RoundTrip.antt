-- ===== src/Pmap/Table/RoundTrip.antt =====
-- What page_insert maps, page_lookup finds.
use sched_v2_solution.Base.{
  ℕ, ◌/◌, ◌<◌, ◌≡◌, ◌≢◌, refl, sym, ap, subst, ◌∙◌, Bool, true, Option, none, some, arith, update,
  update_self, bit_or, bit_or-page, bit_or_one, some-injective,
}
use sched_v2_solution.Kernel.Ram.{Memory}
use sched_v2_solution.Kernel.Pcb.{word}
use sched_v2_solution.Pmap.Alloc.{MemCmd, set_page, page_incref}
use sched_v2_solution.Pmap.Table.{
  PtePtr, read, write, pgdir_walk, page_lookup, page_remove, insert_at, page_insert, pdx, ptx,
  pgnum, page2pa, pte_p,
}
use sched_v2_solution.Pmap.Table.Keeps.{
  Runs, >>=-Runs, HasTable, entry_at, Keeps, write-Keeps, Keeps-HasTable, page_remove-Keeps,
  page_lookup-at,
}
use sched_v2_solution.Pmap.Table.Walk.{TableOf, walk-creates}
use sched_v2_solution.Pmap.Table.Size.{walk-size}

-- The entry that page_insert writes.
abbrev pub entry_for : (p perm : ℕ) → ℕ
entry_for p perm = word (bit_or (bit_or (page2pa p) perm) pte_p)

entry_for-page : (p perm : ℕ) → p < 0x10_0000 → perm < 0x1000 → pgnum (entry_for p perm) ≡ p
entry_for-page p perm lt lt' =
    let inner : bit_or (page2pa p) perm / 0x1000 ≡ page2pa p / 0x1000 =
      bit_or-page (page2pa p) perm lt' in
    let outer : bit_or (bit_or (page2pa p) perm) 1 / 0x1000 ≡ bit_or (page2pa p) perm / 0x1000 =
      bit_or-page (bit_or (page2pa p) perm) 1 (omega arith) in
    omega (arith, inner, outer, lt)

-- The result of a lookup that finds page p through an entry with the permissions.
pub record Maps (m : Memory) (pgdir va p perm : ℕ) : Type 0 where
  pub pte : PtePtr
  pub found : page_lookup pgdir va m ≡ some (some (p, pte), m)
  pub entry : read m pte ≡ entry_for p perm

entry_for-nonzero : (p perm : ℕ) → p < 0x10_0000 → perm < 0x1000 → entry_for p perm ≢ 0
entry_for-nonzero p perm lt lt' e = absurd (
    omega (
      arith,
      bit_or-page (page2pa p) perm lt',
      bit_or-page (bit_or (page2pa p) perm) 1 (omega arith),
      bit_or_one (bit_or (page2pa p) perm),
      lt,
      e,
    ))

written-Maps :
    (pgdir va p perm : ℕ) (m : Memory)
    → HasTable m pgdir va
    → p < m.npages
    → p < 0x10_0000
    → perm < 0x1000
    → Maps (write (entry_at m pgdir va) (entry_for p perm) m) pgdir va p perm
unfolding write entry_at
written-Maps pgdir va p perm m h lt lt' small =
    let t = pgnum (m.frame pgdir (pdx va)) in
    let v = entry_for p perm in
    let m' = write (entry_at m pgdir va) v m in
    let k : Keeps pgdir m m' = write-Keeps t (ptx va) v pgdir m h.apart in
    let h' : HasTable m' pgdir va = Keeps-HasTable va k h in
    let same_pte : entry_at m' pgdir va ≡ entry_at m pgdir va =
      ap (λ f. (pgnum (f (pdx va)), ptx va)) k.row in
    let value : read m' (entry_at m' pgdir va) ≡ v =
      ap (read m') same_pte
      ∙ ap (λ f. f (ptx va)) (update_self m.frame t (update (m.frame t) (ptx va) v))
      ∙ update_self (m.frame t) (ptx va) v in
    record {
      pte = entry_at m' pgdir va;
      found =
          page_lookup-at pgdir va p m' h' (λ e. entry_for-nonzero p perm lt' small (sym value ∙ e))
            (ap pgnum value ∙ entry_for-page p perm lt' small) lt;
      entry = value;
    }

insert_at-Maps :
    (pgdir p va perm : ℕ) (o : Option PtePtr) (m m' : Memory)
    → p < m.npages
    → p < 0x10_0000
    → perm < 0x1000
    → ((pte : PtePtr)
        → o ≡ some pte
        → HasTable m pgdir va × (some pte ≡ some (entry_at m pgdir va)))
    → insert_at pgdir p va perm o m ≡ some (true, m')
    → Maps m' pgdir va p perm
unfolding insert_at page_incref set_page entry_at
insert_at-Maps pgdir p va perm none m m' lt lt' small at e =
    absurd (ground (arith, ap (λ r. r.0) (some-injective e)))
insert_at-Maps pgdir p va perm (some pte) m m' lt lt' small at e =
    let m1 = page_incref p m in
    let next : Unit {0} → MemCmd Bool = λ u m. some (true, write pte (entry_for p perm) m) in
    let runs : Runs (page_remove pgdir va m1) next (true, m') =
      >>=-Runs (page_remove pgdir va m1) next (true, m') e in
    let table = at pte refl in
    let h : HasTable m1 pgdir va = record {
      used = table.0.used;
      inside = table.0.inside;
      apart = table.0.apart;
    } in
    let k : Keeps pgdir m1 runs.between =
      page_remove-Keeps pgdir va m1 (runs.first, runs.between) h runs.ran in
    let same : entry_at runs.between pgdir va ≡ pte =
      ap (λ f. (pgnum (f (pdx va)), ptx va)) k.row ∙ sym (some-injective table.1) in
    let done : Maps (write (entry_at runs.between pgdir va) (entry_for p perm) runs.between) pgdir
        va p perm =
      written-Maps pgdir va p perm runs.between (Keeps-HasTable va k h) (omega (arith, lt, k.size))
        lt' small in
    subst (λ n. Maps n pgdir va p perm) (ap (λ r. r.1) (some-injective runs.then_ran))
      (subst (λ w. Maps (write w (entry_for p perm) runs.between) pgdir va p perm) same done)

-- When page p exists, the permissions are flags, page_insert reports success and the page table
-- for va is not the page directory itself, page_lookup finds p at va afterwards, through an entry
-- that holds the address of p, the permissions and PTE_P, and changes nothing.
pub page_insert-page_lookup :
    (pgdir p va perm : ℕ) (m m' : Memory)
    → p < m.npages
    → p < 0x10_0000
    → perm < 0x1000
    → TableOf m pgdir va
    → page_insert pgdir p va perm m ≡ some (true, m')
    → Maps m' pgdir va p perm
unfolding page_insert
page_insert-page_lookup pgdir p va perm m m' lt lt' small of e =
    let runs : Runs (pgdir_walk pgdir va true m) (insert_at pgdir p va perm) (true, m') =
      >>=-Runs (pgdir_walk pgdir va true m) (insert_at pgdir p va perm) (true, m') e in
    insert_at-Maps pgdir p va perm runs.first runs.between m'
      (omega (arith, lt, walk-size pgdir va m (runs.first, runs.between) runs.ran)) lt' small
      (λ pte is.
        walk-creates pgdir va m pte runs.between of
          (runs.ran ∙ ap (λ o. some (o, runs.between)) is))
      runs.then_ran
