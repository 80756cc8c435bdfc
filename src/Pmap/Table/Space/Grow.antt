-- ===== src/Pmap/Table/Space/Grow.antt =====
-- The memory after pgdir_walk has made a page table, which maps nothing.
use sched_v2_solution.Base.{
  ℕ, ◌+◌, ◌≡◌, ◌≢◌, refl, sym, ap, subst, ◌∙◌, inl, inr, true, some, List, ◌∷◌, arith, ◌==◌,
  Bool-cases, if◌then◌else◌, update, update_self, update_ne, bit_or, bit_or-page, bit_or_one,
  bit_or_odd, ◌%◌, ==_iff,
}
use sched_v2_solution.Kernel.Ram.{Memory}
use sched_v2_solution.Pmap.Alloc.{page_alloc, unlink, page_incref, set_page, ref16, ◌>>=◌}
use sched_v2_solution.Pmap.Alloc.FreeList.{
  FreeList, Linked, NotIn, Linked-set_page, zeroes, zeroed_page, zeroed-Taken,
}
use sched_v2_solution.Pmap.Table.{
  write, attach, ensure_table, pdx, ptx, pgnum, page2pa, pte_p, pte_w, pte_u,
}
use sched_v2_solution.Pmap.Table.Keeps.{entry_at}
use sched_v2_solution.Pmap.Table.Space.{
  mapping, IsSlot, IsTable, Tree, FreeList-frame, mapping_used, mapping_unused,
}

-- The directory's entry for a table in page q.
abbrev pub pde_for : ℕ → ℕ
pde_for q = bit_or (bit_or (bit_or (page2pa q) pte_p) pte_w) pte_u

-- Memory in which page q has become the table of entry i.
unfoldable pub grown : (m : Memory) (pgdir i q : ℕ) → Memory
grown m pgdir i q = write (pgdir, i) (pde_for q) (page_incref q (zeroed_page q (unlink q m)))

pub pde_for-page : (q : ℕ) → pgnum (pde_for q) ≡ q
pde_for-page q = omega (
  arith,
  bit_or-page (page2pa q) 1 (omega arith),
  bit_or-page (bit_or (page2pa q) 1) 2 (omega arith),
  bit_or-page (bit_or (bit_or (page2pa q) 1) 2) 4 (omega arith),
)

pub pde_for-nonzero : (q : ℕ) → pde_for q ≢ 0
pde_for-nonzero q e =
    let one = bit_or (page2pa q) 1 in
    let odd : pde_for q % 2 ≡ 1 =
      bit_or_odd (bit_or one 2) 4 (bit_or_odd one 2 (bit_or_one (page2pa q))) in
    absurd (omega (arith, odd, e))

-- The directory's row after the table is made.
pub grown-row :
    (m : Memory) (pgdir i q : ℕ)
    → q ≢ pgdir
    → Memory.frame (grown m pgdir i q) pgdir ≡ update (m.frame pgdir) i (pde_for q)
unfolding grown write page_incref unlink set_page
grown-row m pgdir i q ne =
    update_self (update m.frame q (λ j. 0)) pgdir
      (update (update m.frame q (λ j. 0) pgdir) i (pde_for q))
    ∙ ap (λ f. update f i (pde_for q)) (update_ne m.frame q pgdir (λ j. 0) ne)

-- The pages other than the directory.
pub grown-frame :
    (m : Memory) (pgdir i q t : ℕ)
    → pgdir ≢ t
    → Memory.frame (grown m pgdir i q) t ≡ update m.frame q (λ j. 0) t
unfolding grown write page_incref unlink set_page
grown-frame m pgdir i q t ne =
    update_ne (update m.frame q (λ j. 0)) pgdir t
      (update (update m.frame q (λ j. 0) pgdir) i (pde_for q)) ne

pub grown-free :
    (m : Memory) (pgdir i q : ℕ) (qs : List ℕ)
    → NotIn q qs
    → Linked m (q ∷ qs)
    → FreeList (grown m pgdir i q) qs
unfolding grown write page_incref FreeList set_page
grown-free m pgdir i q qs out h =
    let m1 = zeroed_page q (unlink q m) in
    let taken = zeroed-Taken m q qs h in
    FreeList-frame (page_incref q m1)
      (update m1.frame pgdir (update (m1.frame pgdir) i (pde_for q))) qs
      (
        taken.rest.0,
        Linked-set_page m1 q (record (m1.pages q) { pp_ref = ref16 ((m1.pages q).pp_ref + 1) })
            m1.page_free_list qs out taken.rest.1,
      )

pub grown-tables :
    (m m' : Memory) (pgdir d q i : ℕ) (qs : List ℕ)
    → Tree m pgdir (q ∷ qs)
    → IsTable m pgdir q qs
    → m'.npages ≡ m.npages
    → m'.frame pgdir ≡ update (m.frame pgdir) d (pde_for q)
    → IsSlot i
    → m'.frame pgdir i ≢ 0
    → IsTable m' pgdir (pgnum (m'.frame pgdir i)) qs
grown-tables m m' pgdir d q i qs tree new size row slot used = elim (Bool-cases (d == i)) [
  | inl here ↦
      let at_q : pgnum (m'.frame pgdir i) ≡ q =
        ap (λ f. pgnum (f i)) row
        ∙ ap (λ b. pgnum (if b then pde_for q else m.frame pgdir i)) here
        ∙ pde_for-page q in
      subst (λ t. IsTable m' pgdir t qs) (sym at_q)
        (record {
          inside = omega (arith, new.inside, size);
          apart = new.apart;
          not_free = new.not_free;
        })
  | inr there ↦
      let as_before : m'.frame pgdir i ≡ m.frame pgdir i =
        ap (λ f. f i) row ∙ ap (λ b. if b then pde_for q else m.frame pgdir i) there in
      let old : IsTable m pgdir (pgnum (m.frame pgdir i)) (q ∷ qs) =
        tree.tables i slot (subst (λ n. n ≢ 0) as_before used) in
      subst (λ n. IsTable m' pgdir (pgnum n) qs) (sym as_before)
        (record {
          inside = omega (arith, old.inside, size);
          apart = old.apart;
          not_free = old.not_free.1;
        })
]

-- A slot's table is the new page or one of the old tables, which is not the new page.
pub grown-distinct :
    (m : Memory) (pgdir d q i j : ℕ) (qs : List ℕ)
    → Tree m pgdir (q ∷ qs)
    → IsSlot i
    → IsSlot j
    → i ≢ j
    → update (m.frame pgdir) d (pde_for q) i ≢ 0
    → update (m.frame pgdir) d (pde_for q) j ≢ 0
    → pgnum (update (m.frame pgdir) d (pde_for q) i)
      ≢ pgnum (update (m.frame pgdir) d (pde_for q) j)
grown-distinct m pgdir d q i j qs tree si sj ne ui uj = elim (Bool-cases (d == i)) [
  | inl at_i ↦ elim (Bool-cases (d == j)) [
    | inl at_j ↦ absurd (ne (sym ((==_iff d i).0 at_i) ∙ (==_iff d j).0 at_j))
    | inr not_j ↦ λ e.
        (tree.tables j sj (rw not_j at uj)).not_free.0
          (sym (rw (at_i, not_j) at e) ∙ pde_for-page q)
  ]
  | inr not_i ↦ elim (Bool-cases (d == j)) [
    | inl at_j ↦ λ e.
        (tree.tables i si (rw not_i at ui)).not_free.0 ((rw (not_i, at_j) at e) ∙ pde_for-page q)
    | inr not_j ↦
        λ e. tree.distinct i j si sj ne (rw not_i at ui) (rw not_j at uj) (rw (not_i, not_j) at e)
  ]
]

pub ensure_table-grown :
    (m : Memory) (pgdir i q : ℕ) (qs : List ℕ)
    → m.frame pgdir i ≡ 0
    → m.page_free_list ≡ some q
    → Linked m (q ∷ qs)
    → ensure_table pgdir i true m ≡ some (tt, grown m pgdir i q)
unfolding ensure_table page_alloc attach grown
ensure_table-grown m pgdir i q qs empty first h =
    let no_pde : (m.frame pgdir i == 0) ≡ true = ground arith in
    rw (no_pde, ◌>>=◌, first, zeroes m q qs h) refl

-- A table of zeros maps nothing, and the others are as they were.
pub grown-mapping :
    (m m' : Memory) (pgdir d q va : ℕ) (qs : List ℕ)
    → Tree m pgdir (q ∷ qs)
    → m.frame pgdir d ≡ 0
    → m'.frame pgdir ≡ update (m.frame pgdir) d (pde_for q)
    → ((t : ℕ) → pgdir ≢ t → m'.frame t ≡ update m.frame q (λ j. 0) t)
    → IsSlot (pdx va)
    → mapping m' pgdir va ≡ mapping m pgdir va
unfolding mapping entry_at
grown-mapping m m' pgdir d q va qs tree empty row frame slot = elim (Bool-cases (d == pdx va)) [
  | inl here ↦
      let d_is : d ≡ pdx va = (==_iff d (pdx va)).0 here in
      let pde : m'.frame pgdir (pdx va) ≡ pde_for q =
        ap (λ f. f (pdx va)) row ∙ ap (λ b. if b then pde_for q else m.frame pgdir (pdx va)) here in
      let some_pde : m'.frame pgdir (pdx va) ≢ 0 =
        subst (λ n. n ≢ 0) (sym pde) (pde_for-nonzero q) in
      mapping_used m' pgdir va some_pde
      ∙ ap (λ n. m'.frame n (ptx va)) (ap pgnum pde ∙ pde_for-page q)
      ∙ ap (λ f. f (ptx va)) (frame q tree.dir_used.0 ∙ update_self m.frame q (λ j. 0))
      ∙ sym (mapping_unused m pgdir va (ap (m.frame pgdir) (sym d_is) ∙ empty))
  | inr there ↦
      let pde : m'.frame pgdir (pdx va) ≡ m.frame pgdir (pdx va) =
        ap (λ f. f (pdx va)) row
        ∙ ap (λ b. if b then pde_for q else m.frame pgdir (pdx va)) there in
      elim (Bool-cases (m.frame pgdir (pdx va) == 0)) [
        | inl none_yet ↦ rw (pde, none_yet) refl
        | inr present ↦
            let used : m.frame pgdir (pdx va) ≢ 0 = ground arith in
            let t = tree.tables (pdx va) slot used in
            let word : m'.frame (pgnum (m.frame pgdir (pdx va))) (ptx va)
                ≡ m.frame (pgnum (m.frame pgdir (pdx va))) (ptx va) =
              ap (λ f. f (ptx va))
                (frame (pgnum (m.frame pgdir (pdx va))) (λ e. t.apart (sym e))
                  ∙ update_ne m.frame q (pgnum (m.frame pgdir (pdx va))) (λ j. 0)
                      (λ e. t.not_free.0 (sym e))) in
            rw (pde, present) word
      ]
]

pub grown-size : (m : Memory) (pgdir i q : ℕ) → Memory.npages (grown m pgdir i q) ≡ m.npages
unfolding grown write page_incref unlink set_page
grown-size m pgdir i q = refl

pub grown-kern : (m : Memory) (pgdir i q : ℕ) → Memory.kern_pgdir (grown m pgdir i q) ≡ m.kern_pgdir
unfolding grown write page_incref unlink set_page
grown-kern m pgdir i q = refl

pub grown-pages :
    (m : Memory) (pgdir i q p : ℕ) → q ≢ p → Memory.pages (grown m pgdir i q) p ≡ m.pages p
unfolding grown write page_incref unlink set_page
grown-pages m pgdir i q p ne = ground (arith)
