-- ===== src/Pmap/Table/Space.antt =====
-- The address space that a page directory stands for: the entry for each virtual address, without
-- the tables it is kept in.
mod Grow
pub mod Room
pub mod Walked
pub mod Unmap
pub mod Target
pub mod Insert
use sched_v2_solution.Base.{
  ℕ, ◌/◌, ◌<◌, ◌≡◌, ◌≢◌, refl, sym, ap, subst, ◌∙◌, inl, inr, Bool, true, false, Option, some, List,
  [], ◌∷◌, arith, ltb, ◌==◌, Bool-cases, if◌then◌else◌, update, update_self, update_ne, ==_iff,
}
use sched_v2_solution.Kernel.Ram.{Memory}
use sched_v2_solution.Pmap.Alloc.FreeList.{FreeList, Linked, NotIn}
use sched_v2_solution.Pmap.Table.{PtePtr, read, write, pdx, ptx, pgnum}
use sched_v2_solution.Pmap.Table.Keeps.{HasTable, entry_at, Keeps, write-Keeps}

-- The page-table entry for va, 0 where there is no page table.
unfoldable pub mapping : Memory → (pgdir va : ℕ) → ℕ
unfolding entry_at
mapping m pgdir va = if m.frame pgdir (pdx va) == 0 then 0 else read m (entry_at m pgdir va)

abbrev pub same_page : (va va' : ℕ) → Bool
same_page va va' = va / 0x1000 == va' / 0x1000

-- An index into the directory, but that of UVPT, where a directory is its own page table.
abbrev pub IsSlot : ℕ → Type 0
IsSlot i = (i < 1024) × (i ≢ 0x3bd)

pub record IsTable (m : Memory) (pgdir t : ℕ) (ps : List ℕ) : Type 0 where
  pub inside : t < m.npages
  pub apart : t ≢ pgdir
  pub not_free : NotIn t ps

-- The free pages are ps; the directory and its page tables are distinct pages, none of them free.
pub record Tree (m : Memory) (pgdir : ℕ) (ps : List ℕ) : Type 0 where
  pub free : FreeList m ps
  pub dir_used : NotIn pgdir ps
  pub tables :
      (i : ℕ) → IsSlot i → m.frame pgdir i ≢ 0 → IsTable m pgdir (pgnum (m.frame pgdir i)) ps
  pub distinct :
      (i j : ℕ)
      → IsSlot i
      → IsSlot j
      → i ≢ j
      → m.frame pgdir i ≢ 0
      → m.frame pgdir j ≢ 0
      → pgnum (m.frame pgdir i) ≢ pgnum (m.frame pgdir j)

pub Tree-HasTable :
    (m : Memory) (pgdir va : ℕ) (ps : List ℕ)
    → Tree m pgdir ps
    → IsSlot (pdx va)
    → m.frame pgdir (pdx va) ≢ 0
    → HasTable m pgdir va
Tree-HasTable m pgdir va ps tree slot used = record {
  used = used;
  inside = (tree.tables (pdx va) slot used).inside;
  apart = (tree.tables (pdx va) slot used).apart;
}

-- Memory with the same directory row and size, whose free pages are no part of the tree, has the
-- same tree.
pub Tree-row :
    (m m' : Memory) (pgdir : ℕ) (ps ps' : List ℕ)
    → Keeps pgdir m m'
    → FreeList m' ps'
    → NotIn pgdir ps'
    → ((i : ℕ) → IsSlot i → m.frame pgdir i ≢ 0 → NotIn (pgnum (m.frame pgdir i)) ps')
    → Tree m pgdir ps
    → Tree m' pgdir ps'
Tree-row m m' pgdir ps ps' k free dir_out out tree = record {
  free = free;
  dir_used = dir_out;
  tables = λ i slot used.
      let used' : m.frame pgdir i ≢ 0 = subst (λ f. f i ≢ 0) k.row used in
      let old : IsTable m pgdir (pgnum (m.frame pgdir i)) ps = tree.tables i slot used' in
      subst (λ f. IsTable m' pgdir (pgnum (f i)) ps') (sym k.row)
        (record {
          inside = subst (λ n. pgnum (m.frame pgdir i) < n) (sym k.size) old.inside;
          apart = old.apart;
          not_free = out i slot used';
        });
  distinct = λ i j s s' ne u u'.
      subst (λ f. pgnum (f i) ≢ pgnum (f j)) (sym k.row)
        (tree.distinct i j s s' ne (subst (λ f. f i ≢ 0) k.row u) (subst (λ f. f j ≢ 0) k.row u'));
}

Linked-frame :
    (m : Memory) (f : ℕ → ℕ → ℕ) (ps : List ℕ) → Linked m ps → Linked (record m { frame = f }) ps
unfolding Linked
Linked-frame m f [] h = tt
Linked-frame m f (q ∷ ps) (link, ref, lt, out, h) = (link, ref, lt, out, Linked-frame m f ps h)

-- The contents of pages are none of the free list's business.
pub FreeList-frame :
    (m : Memory) (f : ℕ → ℕ → ℕ) (ps : List ℕ)
    → FreeList m ps
    → FreeList (record m { frame = f }) ps
unfolding FreeList
FreeList-frame m f ps (first, h) = (first, Linked-frame m f ps h)

pub write-Tree :
    (m : Memory) (pgdir va v : ℕ) (ps : List ℕ)
    → HasTable m pgdir va
    → Tree m pgdir ps
    → Tree (write (entry_at m pgdir va) v m) pgdir ps
unfolding write entry_at
write-Tree m pgdir va v ps h tree =
    let t = pgnum (m.frame pgdir (pdx va)) in
    Tree-row m (write (t, ptx va) v m) pgdir ps ps (write-Keeps t (ptx va) v pgdir m h.apart)
      (FreeList-frame m (update m.frame t (update (m.frame t) (ptx va) v)) ps tree.free)
      tree.dir_used (λ i slot used. (tree.tables i slot used).not_free) tree

pub mapping_used :
    (m : Memory) (pgdir va : ℕ)
    → m.frame pgdir (pdx va) ≢ 0
    → mapping m pgdir va ≡ m.frame (pgnum (m.frame pgdir (pdx va))) (ptx va)
unfolding mapping entry_at
mapping_used m pgdir va used =
    let some_pde : (m.frame pgdir (pdx va) == 0) ≡ false = ground arith in rw some_pde refl

pub mapping_unused :
    (m : Memory) (pgdir va : ℕ) → m.frame pgdir (pdx va) ≡ 0 → mapping m pgdir va ≡ 0
unfolding mapping
mapping_unused m pgdir va unused =
    let no_pde : (m.frame pgdir (pdx va) == 0) ≡ true = ground arith in rw no_pde refl

-- Memory with the directory's row and the tables' words as before maps the same.
pub mapping-same :
    (m m' : Memory) (pgdir va : ℕ)
    → m'.frame pgdir ≡ m.frame pgdir
    → (m.frame pgdir (pdx va) ≢ 0
        → m'.frame (pgnum (m.frame pgdir (pdx va))) (ptx va)
          ≡ m.frame (pgnum (m.frame pgdir (pdx va))) (ptx va))
    → mapping m' pgdir va ≡ mapping m pgdir va
unfolding mapping entry_at
mapping-same m m' pgdir va row words = elim (Bool-cases (m.frame pgdir (pdx va) == 0)) [
  | inl empty ↦ rw (row, empty) refl
  | inr full ↦ let used : m.frame pgdir (pdx va) ≢ 0 = ground arith in rw (row, full) (words used)
]

-- The write of one entry changes the mapping of this page alone.
pub write-mapping :
    (m : Memory) (pgdir va v va' : ℕ) (ps : List ℕ)
    → Tree m pgdir ps
    → IsSlot (pdx va)
    → IsSlot (pdx va')
    → m.frame pgdir (pdx va) ≢ 0
    → mapping (write (entry_at m pgdir va) v m) pgdir va'
      ≡ (if same_page va va' then v else mapping m pgdir va')
unfolding write entry_at
write-mapping m pgdir va v va' ps tree slot slot' used =
    let t = pgnum (m.frame pgdir (pdx va)) in
    let t' = pgnum (m.frame pgdir (pdx va')) in
    let m' = write (t, ptx va) v m in
    let row : m'.frame pgdir ≡ m.frame pgdir =
      update_ne m.frame t pgdir (update (m.frame t) (ptx va) v)
        (tree.tables (pdx va) slot used).apart in
    let at_table : m'.frame t ≡ update (m.frame t) (ptx va) v =
      update_self m.frame t (update (m.frame t) (ptx va) v) in
    elim (Bool-cases (same_page va va')) [
      | inl same ↦
          let i : pdx va ≡ pdx va' = omega (arith, (==_iff (va / 0x1000) (va' / 0x1000)).0 same) in
          let j : ptx va ≡ ptx va' = omega (arith, (==_iff (va / 0x1000) (va' / 0x1000)).0 same) in
          let used' : m'.frame pgdir (pdx va') ≢ 0 =
            subst (λ n. n ≢ 0) (ap (m.frame pgdir) i ∙ sym (ap (λ f. f (pdx va')) row)) used in
          rw same (
            mapping_used m' pgdir va' used'
            ∙ ap (λ f. m'.frame (pgnum (f (pdx va'))) (ptx va')) row
            ∙ ap (λ i. m'.frame (pgnum (m.frame pgdir i)) (ptx va')) (sym i)
            ∙ ap (λ f. f (ptx va')) at_table
            ∙ ap (update (m.frame t) (ptx va) v) (sym j)
            ∙ update_self (m.frame t) (ptx va) v)
      | inr other ↦ rw other (
          mapping-same m m' pgdir va' row (λ used'. elim (Bool-cases (pdx va == pdx va')) [
            | inl i ↦
                let i' : pdx va ≡ pdx va' = (==_iff (pdx va) (pdx va')).0 i in
                let j : ptx va ≢ ptx va' = ground (arith, i', other) in
                subst (λ u. m'.frame u (ptx va') ≡ m.frame u (ptx va'))
                  (ap (λ i. pgnum (m.frame pgdir i)) i')
                  (ap (λ f. f (ptx va')) at_table ∙ update_ne (m.frame t) (ptx va) (ptx va') v j)
            | inr i ↦
                let i' : pdx va ≢ pdx va' = ground arith in
                ap (λ f. f (ptx va'))
                  (update_ne m.frame t t' (update (m.frame t) (ptx va) v)
                    (tree.distinct (pdx va) (pdx va') slot slot' i' used used'))
          ]))
    ]
