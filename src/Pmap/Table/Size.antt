-- ===== src/Pmap/Table/Size.antt =====
-- The walk that creates a page table leaves the size of memory alone.
use sched_v2_solution.Base.{
  ℕ, ◌≡◌, refl, sym, ap, ◌∙◌, inl, inr, true, Option, none, some, ltb, ◌==◌, Bool-cases,
  some-injective, none≢some,
}
use sched_v2_solution.Kernel.Ram.{Memory}
use sched_v2_solution.Pmap.Alloc.{
  MemCmd, pure, set_page, page_alloc, alloc_from, zero_page, unlink, page_incref,
}
use sched_v2_solution.Pmap.Table.{
  PtePtr, write, attach, ensure_table, entry_of, pgdir_walk, pdx, pgnum,
}
use sched_v2_solution.Pmap.Table.Keeps.{Runs, >>=-Runs}

zero_page-size :
    (q : ℕ) (m : Memory) (r : Unit {0} × Memory)
    → zero_page q m ≡ some r
    → Memory.npages r.1 ≡ m.npages
unfolding zero_page
zero_page-size q m r e = elim (Bool-cases (ltb q m.npages)) [
  | inl inside ↦ sym (ap (λ r. Memory.npages r.1) (some-injective (rw (zero_page, inside) at e)))
  | inr outside ↦ absurd (none≢some (rw (zero_page, outside) at e))
]

alloc_from-size :
    (o : Option ℕ) (m : Memory) (r : Option ℕ × Memory)
    → alloc_from true o m ≡ some r
    → Memory.npages r.1 ≡ m.npages
unfolding alloc_from unlink set_page
alloc_from-size none m r e = sym (ap (λ r. Memory.npages r.1) (some-injective e))
alloc_from-size (some q) m r e =
    let runs : Runs (zero_page q (unlink q m)) (λ u. pure (some q)) r =
      >>=-Runs (zero_page q (unlink q m)) (λ u. pure (some q)) r e in
    sym (ap (λ r. Memory.npages r.1) (some-injective runs.then_ran))
    ∙ zero_page-size q (unlink q m) (runs.first, runs.between) runs.ran

attach-size :
    (pgdir i : ℕ) (o : Option ℕ) (m : Memory) → Memory.npages (attach pgdir i o m) ≡ m.npages
unfolding attach write page_incref set_page
attach-size pgdir i none m = refl
attach-size pgdir i (some q) m = refl

ensure_table-size :
    (pgdir i : ℕ) (m : Memory) (r : Unit {0} × Memory)
    → ensure_table pgdir i true m ≡ some r
    → Memory.npages r.1 ≡ m.npages
unfolding ensure_table page_alloc
ensure_table-size pgdir i m r e = elim (Bool-cases (m.frame pgdir i == 0)) [
  | inl empty ↦
      let next : Option ℕ → MemCmd (Unit {0}) = λ p m'. some (tt, attach pgdir i p m') in
      let runs : Runs (page_alloc true m) next r =
        >>=-Runs (page_alloc true m) next r (rw (ensure_table, empty) at e) in
      sym (ap (λ r. Memory.npages r.1) (some-injective runs.then_ran))
      ∙ attach-size pgdir i runs.first runs.between
      ∙ alloc_from-size m.page_free_list m (runs.first, runs.between) runs.ran
  | inr present ↦
      sym (ap (λ r. Memory.npages r.1) (some-injective (rw (ensure_table, present) at e)))
]

entry_of-size :
    (pgdir va : ℕ) (m : Memory) (r : Option PtePtr × Memory)
    → entry_of pgdir va m ≡ some r
    → Memory.npages r.1 ≡ m.npages
unfolding entry_of
entry_of-size pgdir va m r e = elim (Bool-cases (m.frame pgdir (pdx va) == 0)) [
  | inl empty ↦ sym (ap (λ r. Memory.npages r.1) (some-injective (rw (entry_of, empty) at e)))
  | inr used ↦ elim (Bool-cases (ltb (pgnum (m.frame pgdir (pdx va))) m.npages)) [
    | inl inside ↦
        sym (ap (λ r. Memory.npages r.1) (some-injective (rw (entry_of, used, inside) at e)))
    | inr outside ↦ absurd (none≢some (rw (entry_of, used, outside) at e))
  ]
]

pub walk-size :
    (pgdir va : ℕ) (m : Memory) (r : Option PtePtr × Memory)
    → pgdir_walk pgdir va true m ≡ some r
    → Memory.npages r.1 ≡ m.npages
unfolding pgdir_walk
walk-size pgdir va m r e =
    let runs : Runs (ensure_table pgdir (pdx va) true m) (λ u. entry_of pgdir va) r =
      >>=-Runs (ensure_table pgdir (pdx va) true m) (λ u. entry_of pgdir va) r e in
    entry_of-size pgdir va runs.between r runs.then_ran
    ∙ ensure_table-size pgdir (pdx va) m (runs.first, runs.between) runs.ran
