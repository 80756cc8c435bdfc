-- ===== src/Pmap/Table/Space/Walked.antt =====
-- pgdir_walk in an address space.
use sched_v2_solution.Base.{
  ◌+◌, ◌<◌, ℕ, ◌+◌, ◌≤◌, ◌<◌, ◌≡◌, ◌≢◌, refl, sym, ap, subst, ◌∙◌, inl, inr, true, false, Option,
  some, List, [], ◌∷◌, length, arith, ◌==◌, Bool-cases, update, update_self, ==_iff,
}
use sched_v2_solution.Kernel.Ram.{Memory}
use sched_v2_solution.Pmap.Alloc.{◌>>=◌}
use sched_v2_solution.Pmap.Alloc.FreeList.{FreeList, Linked, NotIn}
use sched_v2_solution.Pmap.Table.{PtePtr, ensure_table, pgdir_walk, pdx, pgnum}
use sched_v2_solution.Pmap.Table.Keeps.{entry_at, entry_of-HasTable}
use sched_v2_solution.Pmap.Table.Space.{mapping, IsSlot, IsTable, Tree, Tree-HasTable}
use sched_v2_solution.Pmap.Table.Space.Room.{missing, missing-some, room-grown}
use sched_v2_solution.Pmap.Table.Space.Grow.{
  pde_for-page, grown, pde_for, pde_for-nonzero, grown-row, grown-free, grown-frame, grown-tables,
  grown-distinct, ensure_table-grown, grown-mapping, grown-size, grown-kern, grown-pages,
}

-- What the walk with a table to be made where none is returns.
pub record Walked (m : Memory) (pgdir va : ℕ) (ps : List ℕ) (o : Option (Option PtePtr × Memory))
    : Type 0 where
  pub after : Memory
  pub rest : List ℕ
  pub is : o ≡ some (some (entry_at after pgdir va), after)
  pub tree : Tree after pgdir rest
  pub used : after.frame pgdir (pdx va) ≢ 0
  pub same : (va' : ℕ) → IsSlot (pdx va') → mapping after pgdir va' ≡ mapping m pgdir va'
  pub size : after.npages ≡ m.npages
  pub kern : after.kern_pgdir ≡ m.kern_pgdir
  pub still : (q : ℕ) → NotIn q ps → NotIn q rest
  pub pages : (q : ℕ) → NotIn q ps → after.pages q ≡ m.pages q
  pub no_table :
      (q : ℕ)
      → NotIn q ps
      → ((i : ℕ) → IsSlot i → m.frame pgdir i ≢ 0 → pgnum (m.frame pgdir i) ≢ q)
      → (i : ℕ) → IsSlot i
      → after.frame pgdir i ≢ 0
      → pgnum (after.frame pgdir i) ≢ q
  pub room :
      (w k c : ℕ)
      → w ≤ pdx va
      → pdx va < w + k
      → missing (m.frame pgdir) w k + c ≤ length ps
      → missing (after.frame pgdir) w k + c ≤ length rest

-- With a table the walk only reads.
walk-present :
    (m : Memory) (pgdir va : ℕ) (ps : List ℕ)
    → Tree m pgdir ps
    → IsSlot (pdx va)
    → m.frame pgdir (pdx va) ≢ 0
    → Walked m pgdir va ps (pgdir_walk pgdir va true m)
unfolding pgdir_walk ensure_table
walk-present m pgdir va ps tree slot used =
    let present : (m.frame pgdir (pdx va) == 0) ≡ false = ground arith in
    record {
      after = m;
      rest = ps;
      is =
          rw (present, ◌>>=◌)
            (entry_of-HasTable m pgdir va (Tree-HasTable m pgdir va ps tree slot used));
      tree = tree;
      used = used;
      same = λ va' s. refl;
      size = refl;
      kern = refl;
      still = λ q out. out;
      pages = λ q out. refl;
      no_table = λ q out h. h;
      room = λ w k c le lt room. room;
    }

other_page :
    (row : ℕ → ℕ) (d q p i : ℕ)
    → q ≢ p
    → (row i ≢ 0 → pgnum (row i) ≢ p)
    → update row d (pde_for q) i ≢ 0
    → pgnum (update row d (pde_for q) i) ≢ p
other_page row d q p i ne old used = elim (Bool-cases (d == i)) [
  | inl here ↦ λ e. ne (sym (pde_for-page q) ∙ rw here at e)
  | inr there ↦ λ e. old (rw there at used) (rw there at e)
]

-- With no table for va, the walk makes one of the first free page.
walk-absent :
    (m : Memory) (pgdir va q : ℕ) (qs : List ℕ)
    → Tree m pgdir (q ∷ qs)
    → IsSlot (pdx va)
    → m.frame pgdir (pdx va) ≡ 0
    → Walked m pgdir va (q ∷ qs) (pgdir_walk pgdir va true m)
unfolding pgdir_walk FreeList Linked
walk-absent m pgdir va q qs tree slot empty =
    let d = pdx va in
    let m' = grown m pgdir d q in
    let (first, (link, ref, lt, out, h)) = tree.free in
    let linked : Linked m (q ∷ qs) = (link, ref, lt, out, h) in
    let apart : q ≢ pgdir = λ e. tree.dir_used.0 (sym e) in
    let row : m'.frame pgdir ≡ update (m.frame pgdir) d (pde_for q) = grown-row m pgdir d q apart in
    let size : m'.npages ≡ m.npages = grown-size m pgdir d q in
    let new : IsTable m pgdir q qs = record { inside = lt; apart = apart; not_free = out } in
    let pde : m'.frame pgdir d ≡ pde_for q =
      ap (λ f. f d) row ∙ update_self (m.frame pgdir) d (pde_for q) in
    let used : m'.frame pgdir d ≢ 0 = subst (λ n. n ≢ 0) (sym pde) (pde_for-nonzero q) in
    let tree' : Tree m' pgdir qs = record {
      free = grown-free m pgdir d q qs out linked;
      dir_used = tree.dir_used.1;
      tables = λ i s u. grown-tables m m' pgdir d q i qs tree new size row s u;
      distinct = λ i j si sj ne.
          subst (λ f. f i ≢ 0 → f j ≢ 0 → pgnum (f i) ≢ pgnum (f j)) (sym row)
            (grown-distinct m pgdir d q i j qs tree si sj ne);
    } in
    record {
      after = m';
      rest = qs;
      is =
          rw (ensure_table-grown m pgdir d q qs empty first linked, ◌>>=◌)
            (entry_of-HasTable m' pgdir va (Tree-HasTable m' pgdir va qs tree' slot used));
      tree = tree';
      used = used;
      same = λ va' s.
          grown-mapping m m' pgdir d q va' qs tree empty row (λ t ne. grown-frame m pgdir d q t ne)
            s;
      size = size;
      kern = grown-kern m pgdir d q;
      still = λ p out. out.1;
      pages = λ p out. grown-pages m pgdir d q p (λ e. out.0 (sym e));
      no_table = λ p out h i s u.
          subst (λ f. f i ≢ 0 → pgnum (f i) ≢ p) (sym row)
            (other_page (m.frame pgdir) d q p i (λ e. out.0 (sym e)) (h i s)) u;
      room = λ w k c le lt.
          room-grown (m.frame pgdir) (m'.frame pgdir) d (pde_for q) w k c (length qs) row empty
            (pde_for-nonzero q) le lt;
    }

-- The walk returns the entry when there are free pages for the tables that are missing among the k
-- directory entries from w on.
pub walk-Walked :
    (m : Memory) (pgdir va w k : ℕ) (ps : List ℕ)
    → Tree m pgdir ps
    → IsSlot (pdx va)
    → w ≤ pdx va
    → pdx va < w + k
    → missing (m.frame pgdir) w k ≤ length ps
    → Walked m pgdir va ps (pgdir_walk pgdir va true m)
walk-Walked m pgdir va w k [] tree slot le lt room =
    walk-present m pgdir va [] tree slot
      (λ e. absurd (omega (arith, room, missing-some (m.frame pgdir) (pdx va) w k e le lt)))
walk-Walked m pgdir va w k (q ∷ qs) tree slot le lt room =
    elim (Bool-cases (m.frame pgdir (pdx va) == 0)) [
      | inl empty ↦
          walk-absent m pgdir va q qs tree slot ((==_iff (m.frame pgdir (pdx va)) 0).0 empty)
      | inr full ↦
          walk-present m pgdir va (q ∷ qs) tree slot (λ e. absurd (ground (arith, full, e)))
    ]
