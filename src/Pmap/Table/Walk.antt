-- ===== src/Pmap/Table/Walk.antt =====
-- The walk that creates a page table.
use sched_v2_solution.Base.{
  ℕ, ◌≡◌, ◌≢◌, ◌⊎◌, refl, sym, ap, subst, ◌∙◌, inl, inr, true, false, Option, none, some, arith,
  ltb, ◌==◌, Bool-cases, update, update_self, bit_or, bit_or-page, some-injective, none≢some,
}
use sched_v2_solution.Kernel.Ram.{Memory}
use sched_v2_solution.Pmap.Alloc.{
  MemCmd, pure, page_alloc, alloc_from, zero_page, unlink, page_incref,
}
use sched_v2_solution.Pmap.Table.{
  PtePtr, write, attach, ensure_table, entry_of, pgdir_walk, pdx, pgnum, page2pa, pte_p, pte_w,
  pte_u,
}
use sched_v2_solution.Pmap.Table.Keeps.{Runs, >>=-Runs, HasTable, entry_at}

-- The table for va is in memory and not the directory, or it is made of the first free page, which
-- is in memory and not the directory.
unfoldable pub TableOf : Memory → (pgdir va : ℕ) → Type 0
TableOf m pgdir va =
    HasTable m pgdir va
    ⊎ ((m.frame pgdir (pdx va) ≡ 0) × ((q : ℕ) → m.page_free_list ≡ some q → q ≢ pgdir))

entry_of-inverse :
    (pgdir va : ℕ) (m : Memory) (pte : PtePtr) (m' : Memory)
    → (m.frame pgdir (pdx va) ≢ 0 → pgnum (m.frame pgdir (pdx va)) ≢ pgdir)
    → entry_of pgdir va m ≡ some (some pte, m')
    → HasTable m' pgdir va × (some pte ≡ some (entry_at m' pgdir va))
unfolding entry_of entry_at
entry_of-inverse pgdir va m pte m' apart e = elim (Bool-cases (m.frame pgdir (pdx va) == 0)) [
  | inl empty ↦ absurd (none≢some (ap (λ p. p.0) (some-injective (rw (entry_of, empty) at e))))
  | inr used ↦ elim (Bool-cases (ltb (pgnum (m.frame pgdir (pdx va))) m.npages)) [
    | inl inside ↦
        let nonzero : m.frame pgdir (pdx va) ≢ 0 = ground arith in
        let h : HasTable m pgdir va = record {
          used = nonzero;
          inside = ground arith;
          apart = apart nonzero;
        } in
        subst (λ r. HasTable r.1 pgdir va × (r.0 ≡ some (entry_at r.1 pgdir va)))
          (some-injective (rw (entry_of, used, inside) at e)) (h, refl)
    | inr outside ↦ absurd (none≢some (rw (entry_of, used, outside) at e))
  ]
]

-- The entry of the directory for a table that has been made of page q.
pde_for-page : (q : ℕ) → pgnum (bit_or (bit_or (bit_or (page2pa q) pte_p) pte_w) pte_u) ≡ q
pde_for-page q = omega (
  arith,
  bit_or-page (page2pa q) 1 (omega arith),
  bit_or-page (bit_or (page2pa q) 1) 2 (omega arith),
  bit_or-page (bit_or (bit_or (page2pa q) 1) 2) 4 (omega arith),
)

-- What page_alloc returns: nothing, and then memory is as it was, or the first free page.
data Allocated (m : Memory) (r : Option ℕ × Memory) : Type 0 where
  exhausted : r.0 ≡ none → r.1 ≡ m → Allocated m r
  first_free : (q : ℕ) → r.0 ≡ some q → m.page_free_list ≡ some q → Allocated m r

alloc_from-Allocated :
    (o : Option ℕ) (m : Memory) (r : Option ℕ × Memory)
    → m.page_free_list ≡ o
    → alloc_from true o m ≡ some r
    → Allocated m r
unfolding alloc_from
alloc_from-Allocated none m r is e =
    let same : (none, m) ≡ r = some-injective e in
    exhausted (sym (ap (λ p. p.0) same)) (sym (ap (λ p. p.1) same))
alloc_from-Allocated (some q) m r is e =
    let runs : Runs (zero_page q (unlink q m)) (λ u. pure (some q)) r =
      >>=-Runs (zero_page q (unlink q m)) (λ u. pure (some q)) r e in
    first_free q (sym (ap (λ p. p.0) (some-injective runs.then_ran))) is

attach-apart :
    (pgdir i : ℕ) (o : Option ℕ) (m : Memory)
    → (o ≡ none → m.frame pgdir i ≡ 0)
    → ((q : ℕ) → o ≡ some q → q ≢ pgdir)
    → Memory.frame (attach pgdir i o m) pgdir i ≢ 0
    → pgnum (Memory.frame (attach pgdir i o m) pgdir i) ≢ pgdir
unfolding attach write
attach-apart pgdir i none m zero_if apart nonzero = absurd (nonzero (zero_if refl))
attach-apart pgdir i (some q) m zero_if apart nonzero =
    let v = bit_or (bit_or (bit_or (page2pa q) pte_p) pte_w) pte_u in
    let m' = page_incref q m in
    let at_v : update m'.frame pgdir (update (m'.frame pgdir) i v) pgdir i ≡ v =
      ap (λ f. f i) (update_self m'.frame pgdir (update (m'.frame pgdir) i v))
      ∙ update_self (m'.frame pgdir) i v in
    λ e. apart q refl (sym (pde_for-page q) ∙ sym (ap pgnum at_v) ∙ e)

ensure_table-apart :
    (pgdir i : ℕ) (m : Memory) (r : Unit {0} × Memory)
    → m.frame pgdir i ≡ 0
    → ((q : ℕ) → m.page_free_list ≡ some q → q ≢ pgdir)
    → ensure_table pgdir i true m ≡ some r
    → Memory.frame r.1 pgdir i ≢ 0
    → pgnum (Memory.frame r.1 pgdir i) ≢ pgdir
unfolding ensure_table page_alloc
ensure_table-apart pgdir i m r none_yet apart e nonzero =
    let empty : (m.frame pgdir i == 0) ≡ true = ground arith in
    let next : Option ℕ → MemCmd (Unit {0}) = λ p m'. some (tt, attach pgdir i p m') in
    let runs : Runs (page_alloc true m) next r =
      >>=-Runs (page_alloc true m) next r (rw (ensure_table, empty) at e) in
    let shape : Allocated m (runs.first, runs.between) =
      alloc_from-Allocated m.page_free_list m (runs.first, runs.between) refl runs.ran in
    let result : attach pgdir i runs.first runs.between ≡ r.1 =
      ap (λ p. p.1) (some-injective runs.then_ran) in
    subst (λ m'. Memory.frame m' pgdir i ≢ 0 → pgnum (Memory.frame m' pgdir i) ≢ pgdir) result
      (attach-apart pgdir i runs.first runs.between (zero_if runs.first runs.between shape)
        (other runs.first runs.between shape))
      nonzero
  where
    zero_if :
        (o : Option ℕ) (m' : Memory) → Allocated m (o, m') → o ≡ none → Memory.frame m' pgdir i ≡ 0
    zero_if o m' (exhausted is same) e = ap (λ n. Memory.frame n pgdir i) same ∙ none_yet
    zero_if o m' (first_free q is free) e = absurd (none≢some (sym e ∙ is))

    other : (o : Option ℕ) (m' : Memory) → Allocated m (o, m') → (q : ℕ) → o ≡ some q → q ≢ pgdir
    other o m' (exhausted is same) q e = absurd (none≢some (sym is ∙ e))
    other o m' (first_free q' is free) q e = apart q (free ∙ sym is ∙ e)

ensure_table-present :
    (pgdir i : ℕ) (m : Memory) (r : Unit {0} × Memory)
    → m.frame pgdir i ≢ 0
    → pgnum (m.frame pgdir i) ≢ pgdir
    → ensure_table pgdir i true m ≡ some r
    → Memory.frame r.1 pgdir i ≢ 0
    → pgnum (Memory.frame r.1 pgdir i) ≢ pgdir
unfolding ensure_table
ensure_table-present pgdir i m r used apart e nonzero =
    let present : (m.frame pgdir i == 0) ≡ false = ground arith in
    subst (λ r. pgnum (Memory.frame r.1 pgdir i) ≢ pgdir)
      (some-injective (rw (ensure_table, present) at e)) apart

pub walk-creates :
    (pgdir va : ℕ) (m : Memory) (pte : PtePtr) (m' : Memory)
    → TableOf m pgdir va
    → pgdir_walk pgdir va true m ≡ some (some pte, m')
    → HasTable m' pgdir va × (some pte ≡ some (entry_at m' pgdir va))
unfolding pgdir_walk TableOf
walk-creates pgdir va m pte m' of e =
    let runs : Runs (ensure_table pgdir (pdx va) true m) (λ u. entry_of pgdir va) (some pte, m') =
      >>=-Runs (ensure_table pgdir (pdx va) true m) (λ u. entry_of pgdir va) (some pte, m') e in
    entry_of-inverse pgdir va runs.between pte m' (apart (runs.first, runs.between) of runs.ran)
      runs.then_ran
  where
    apart :
        (r : Unit {0} × Memory)
        → TableOf m pgdir va
        → ensure_table pgdir (pdx va) true m ≡ some r
        → Memory.frame r.1 pgdir (pdx va) ≢ 0
        → pgnum (Memory.frame r.1 pgdir (pdx va)) ≢ pgdir
    apart r (inl h) e = ensure_table-present pgdir (pdx va) m r h.used h.apart e
    apart r (inr (none_yet, other)) e = ensure_table-apart pgdir (pdx va) m r none_yet other e
