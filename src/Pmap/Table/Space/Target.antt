-- ===== src/Pmap/Table/Space/Target.antt =====
-- What page_remove leaves at an address, and a page that gets one reference more.
use sched_v2_solution.Base.{
  length, ◌≤◌, ℕ, suc, ◌+◌, ◌<◌, ◌/◌, ◌≡◌, ◌≢◌, ◌⊎◌, refl, sym, ap, subst, ◌∙◌, inl, inr, true,
  Option, none, some, List, arith, ◌==◌, Bool-cases, if◌then◌else◌, ==_iff,
}
use sched_v2_solution.Kernel.Ram.{Memory}
use sched_v2_solution.Pmap.Alloc.{page_incref, set_page, ref16}
use sched_v2_solution.Pmap.Alloc.FreeList.{FreeList, NotIn, Linked-set_page}
use sched_v2_solution.Pmap.Table.{read, page_remove, pdx, ptx, pgnum}
use sched_v2_solution.Pmap.Table.Keeps.{entry_at}
use sched_v2_solution.Pmap.Table.Space.{mapping, same_page, IsSlot, Tree, Tree-row}
use sched_v2_solution.Pmap.Table.Space.Unmap.{
  page_remove-nothing, IsData, Removed, freed, page_remove-Removed,
}

-- What is mapped at va: nothing, or a page in use with fewer than 2^16 - 2 references.
unfoldable pub Target : Memory → (pgdir va : ℕ) → List ℕ → Type 0
Target m pgdir va ps =
    (mapping m pgdir va ≡ 0)
    ⊎ ((mapping m pgdir va ≢ 0)
        × (n : ℕ) × (n < 0xfffe)
        × IsData m pgdir (pgnum (mapping m pgdir va)) n ps)

-- What page_remove leaves, whether there was a page or not.
pub record Emptied (m : Memory) (pgdir va : ℕ) (ps : List ℕ) (o : Option (Unit {0} × Memory))
    : Type 0 where
  pub after : Memory
  pub rest : List ℕ
  pub is : o ≡ some (tt, after)
  pub tree : Tree after pgdir rest
  pub more : length ps ≤ length rest
  pub still : mapping m pgdir va ≡ 0 → (q : ℕ) → NotIn q ps → NotIn q rest
  pub row : after.frame pgdir ≡ m.frame pgdir
  pub unmapped :
      (va' : ℕ)
      → IsSlot (pdx va')
      → mapping after pgdir va' ≡ (if same_page va va' then 0 else mapping m pgdir va')

-- The addresses of one page have one entry.
mapping-same_page :
    (m : Memory) (pgdir va va' : ℕ)
    → same_page va va' ≡ true
    → mapping m pgdir va' ≡ mapping m pgdir va
unfolding mapping entry_at
mapping-same_page m pgdir va va' same =
    let page : va / 0x1000 ≡ va' / 0x1000 = (==_iff (va / 0x1000) (va' / 0x1000)).0 same in
    let i : pdx va' ≡ pdx va = omega (arith, page) in
    let j : ptx va' ≡ ptx va = omega (arith, page) in
    ap (λ i. if m.frame pgdir i == 0 then 0 else read m (pgnum (m.frame pgdir i), ptx va')) i
    ∙ ap
        (λ j. if m.frame pgdir (pdx va) == 0 then 0 else read m (pgnum (m.frame pgdir (pdx va)), j))
        j

pub remove-Emptied :
    (m : Memory) (pgdir va : ℕ) (ps : List ℕ)
    → Tree m pgdir ps
    → IsSlot (pdx va)
    → (mapping m pgdir va ≡ 0)
      ⊎ ((mapping m pgdir va ≢ 0) × (n : ℕ) × IsData m pgdir (pgnum (mapping m pgdir va)) n ps)
    → Emptied m pgdir va ps (page_remove pgdir va m)
remove-Emptied m pgdir va ps tree slot (inl empty) = record {
  after = m;
  rest = ps;
  is = page_remove-nothing m pgdir va ps tree slot empty;
  tree = tree;
  more = omega arith;
  still = λ _ q out. out;
  row = refl;
  unmapped = λ va' slot'. elim (Bool-cases (same_page va va')) [
    | inl same ↦ rw same (mapping-same_page m pgdir va va' same ∙ empty)
    | inr other ↦ rw other refl
  ];
}
remove-Emptied m pgdir va ps tree slot (inr (full, n, h)) =
    let q = pgnum (mapping m pgdir va) in
    let r : Removed m pgdir va q n ps (page_remove pgdir va m) =
      page_remove-Removed m pgdir va n ps tree slot full h in
    record {
      after = r.after;
      rest = freed q n ps;
      is = r.is;
      tree = r.tree;
      more = ground arith;
      still = λ e. absurd (full e);
      row = r.row;
      unmapped = r.unmapped;
    }

pub incref-Tree :
    (m : Memory) (pgdir p : ℕ) (ps : List ℕ)
    → NotIn p ps
    → Tree m pgdir ps
    → Tree (page_incref p m) pgdir ps
unfolding page_incref FreeList set_page
incref-Tree m pgdir p ps out tree =
    let info = record (m.pages p) { pp_ref = ref16 ((m.pages p).pp_ref + 1) } in
    let (first, linked) = tree.free in
    let free : FreeList (page_incref p m) ps =
      (first, Linked-set_page m p info m.page_free_list ps out linked) in
    Tree-row m (page_incref p m) pgdir ps ps (record { row = refl; size = refl }) free tree.dir_used
      (λ i slot used. (tree.tables i slot used).not_free) tree

-- The page at va is still in use after p has got one reference more.
pub incref-IsData :
    (m : Memory) (pgdir p q n : ℕ) (ps : List ℕ)
    → n < 0xfffe
    → IsData m pgdir q n ps
    → (n' : ℕ) × IsData (page_incref p m) pgdir q n' ps
unfolding page_incref set_page
incref-IsData m pgdir p q n ps lt h = elim (Bool-cases (p == q)) [
  | inl same ↦
      let p_is : q ≡ p = sym ((==_iff p q).0 same) in
      let link : (m.pages p).pp_link ≡ none =
        subst (λ r. (m.pages r).pp_link ≡ none) p_is h.unlinked in
      let refs : (m.pages p).pp_ref ≡ suc n = subst (λ r. (m.pages r).pp_ref ≡ suc n) p_is h.refs in
      let more : ref16 ((m.pages p).pp_ref + 1) ≡ suc (suc n) = omega (arith, refs, lt) in
      (
        suc n,
        record {
          inside = h.inside;
          not_free = h.not_free;
          unlinked = rw same link;
          refs = rw same more;
          fits = omega (arith, lt);
          no_dir = h.no_dir;
          no_table = h.no_table;
        },
      )
  | inr other ↦ (
    n,
    record {
      inside = h.inside;
      not_free = h.not_free;
      unlinked = rw other h.unlinked;
      refs = rw other h.refs;
      fits = h.fits;
      no_dir = h.no_dir;
      no_table = h.no_table;
    },
  )
]
