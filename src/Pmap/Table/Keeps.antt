-- ===== src/Pmap/Table/Keeps.antt =====
-- What a lookup in a page table finds, and what page_remove leaves alone.
use sched_v2_solution.Base.{
  ℕ, ◌+◌, ◌<◌, ◌≡◌, ◌≢◌, refl, sym, ap, subst, ◌∙◌, inl, inr, true, false, Option, none, some,
  is_some, arith, ltb, ◌==◌, Bool-cases, update, update_ne, some-injective, none≢some, not,
}
use sched_v2_solution.Kernel.Ram.{Memory}
use sched_v2_solution.Pmap.Alloc.{MemCmd, ◌>>=◌, set_page, ref16, page_free, page_decref}
use sched_v2_solution.Pmap.Table.{
  PtePtr, read, write, ensure_table, entry_of, pgdir_walk, lookup_at, page_lookup, unmap,
  page_remove, pdx, ptx, pgnum,
}

module _ {A B : Type 0} where
  -- A command that is followed by another and returns.
  pub record Runs (c : Option (A × Memory)) (f : A → MemCmd B) (r : B × Memory) : Type 0 where
    pub first : A
    pub between : Memory
    pub ran : c ≡ some (first, between)
    pub then_ran : f first between ≡ some r

  pub >>=-Runs :
      (c : Option (A × Memory)) (f : A → MemCmd B) (r : B × Memory)
      → elim c [ none ↦ none | some (a, m) ↦ f a m ] ≡ some r
      → Runs c f r
  >>=-Runs none f r e = absurd (none≢some e)
  >>=-Runs (some (a, m)) f r e = record { first = a; between = m; ran = refl; then_ran = e }

-- The directory has a table for va, which is in memory and not the directory itself.
pub record HasTable (m : Memory) (pgdir va : ℕ) : Type 0 where
  pub used : m.frame pgdir (pdx va) ≢ 0
  pub inside : pgnum (m.frame pgdir (pdx va)) < m.npages
  pub apart : pgnum (m.frame pgdir (pdx va)) ≢ pgdir

-- The entry for va in this table.
unfoldable pub entry_at : Memory → (pgdir va : ℕ) → PtePtr
entry_at m pgdir va = (pgnum (m.frame pgdir (pdx va)), ptx va)

pub entry_of-HasTable :
    (m : Memory) (pgdir va : ℕ)
    → HasTable m pgdir va
    → entry_of pgdir va m ≡ some (some (entry_at m pgdir va), m)
unfolding entry_of entry_at
entry_of-HasTable m pgdir va h =
    let some_pde : (m.frame pgdir (pdx va) == 0) ≡ false = nonzero h.used in
    let in_memory : ltb (pgnum (m.frame pgdir (pdx va))) m.npages ≡ true = below h.inside in
    rw (some_pde, in_memory) refl
  where
    nonzero : {n : ℕ} → n ≢ 0 → (n == 0) ≡ false
    nonzero h = ground arith

    below : {a b : ℕ} → a < b → ltb a b ≡ true
    below h = ground arith

pub ensure_none : (pgdir i : ℕ) (m : Memory) → ensure_table pgdir i false m ≡ some (tt, m)
unfolding ensure_table
ensure_none pgdir i m = elim (Bool-cases (m.frame pgdir i == 0)) [ inl e ↦ rw e | inr e ↦ rw e ]

-- Without a step that creates a table, the walk reads only.
pub walk-HasTable :
    (m : Memory) (pgdir va : ℕ)
    → HasTable m pgdir va
    → pgdir_walk pgdir va false m ≡ some (some (entry_at m pgdir va), m)
unfolding pgdir_walk
walk-HasTable m pgdir va h =
    rw (ensure_none pgdir (pdx va) m, ◌>>=◌) (entry_of-HasTable m pgdir va h)

-- Memory whose tables and size are as before, but for the pages of the table at t.
pub record Keeps (pgdir : ℕ) (m m' : Memory) : Type 0 where
  pub row : m'.frame pgdir ≡ m.frame pgdir
  pub size : m'.npages ≡ m.npages

pub page_free-Keeps :
    (p pgdir : ℕ) (m : Memory) (r : Unit {0} × Memory) → page_free p m ≡ some r → Keeps pgdir m r.1
unfolding page_free set_page
page_free-Keeps p pgdir m r e = elim (Bool-cases (not ((m.pages p).pp_ref == 0))) [
  | inl referenced ↦ absurd (none≢some (rw (page_free, referenced) at e))
  | inr unused ↦ elim (Bool-cases (is_some (m.pages p).pp_link)) [
    | inl linked ↦ absurd (none≢some (rw (page_free, unused, linked) at e))
    | inr free ↦
        subst (λ r. Keeps pgdir m r.1) (some-injective (rw (page_free, unused, free) at e))
          (record { row = refl; size = refl })
  ]
]

pub page_decref-Keeps :
    (p pgdir : ℕ) (m : Memory) (r : Unit {0} × Memory)
    → page_decref p m ≡ some r
    → Keeps pgdir m r.1
unfolding page_decref set_page
page_decref-Keeps p pgdir m r e =
    let ref = ref16 ((m.pages p).pp_ref + 0xffff) in
    let m' = set_page m p (record (m.pages p) { pp_ref = ref }) in
    elim (Bool-cases (ref == 0)) [
      | inl last ↦
          let k : Keeps pgdir m' r.1 = page_free-Keeps p pgdir m' r (rw (page_decref, last) at e) in
          record { row = k.row; size = k.size }
      | inr more ↦
          subst (λ r. Keeps pgdir m r.1) (some-injective (rw (page_decref, more) at e))
            (record { row = refl; size = refl })
    ]

pub write-Keeps : (t i v pgdir : ℕ) (m : Memory) → t ≢ pgdir → Keeps pgdir m (write (t, i) v m)
unfolding write
write-Keeps t i v pgdir m apart = record {
  row = update_ne m.frame t pgdir (update (m.frame t) i v) apart;
  size = refl;
}

pub Keeps-HasTable :
    {pgdir : ℕ} {m m' : Memory} (va : ℕ)
    → Keeps pgdir m m'
    → HasTable m pgdir va
    → HasTable m' pgdir va
Keeps-HasTable {pgdir = pgdir} {m = m} {m' = m'} va k h =
    let same : m.frame pgdir (pdx va) ≡ m'.frame pgdir (pdx va) =
      ap (λ f. f (pdx va)) (sym k.row) in
    record {
      used = subst (λ n. n ≢ 0) same h.used;
      inside = omega (arith, subst (λ n. pgnum n < m.npages) same h.inside, k.size);
      apart = subst (λ n. pgnum n ≢ pgdir) same h.apart;
    }

-- What a lookup in the table finds.
pub data Found (m : Memory) (pte : PtePtr) (o : Option (Option (ℕ × PtePtr) × Memory))
    : Type 0 where
  nothing : o ≡ some (none, m) → Found m pte o
  page : (q : ℕ) → o ≡ some (some (q, pte), m) → Found m pte o
  panics : o ≡ none → Found m pte o

pub page_lookup-Found :
    (pgdir va : ℕ) (m : Memory)
    → HasTable m pgdir va
    → Found m (entry_at m pgdir va) (page_lookup pgdir va m)
unfolding page_lookup lookup_at
page_lookup-Found pgdir va m h =
    let pte = entry_at m pgdir va in
    rw (walk-HasTable m pgdir va h, ◌>>=◌)
      (elim (Bool-cases (read m pte == 0)) [
        | inl empty ↦ nothing (rw empty refl)
        | inr mapped ↦ elim (Bool-cases (ltb (pgnum (read m pte)) m.npages)) [
          | inl inside ↦ page (pgnum (read m pte)) (rw (mapped, inside) refl)
          | inr outside ↦ panics (rw (mapped, outside) refl)
        ]
      ])

pub unmap-Keeps :
    (q pgdir : ℕ) (pte : PtePtr) (m : Memory) (r : Unit {0} × Memory)
    → pte.0 ≢ pgdir
    → unmap (some (q, pte)) m ≡ some r
    → Keeps pgdir m r.1
unfolding unmap
unmap-Keeps q pgdir (t, i) m r apart e =
    let runs : Runs (page_decref q m) (λ u m. some (tt, write (t, i) 0 m)) r =
      >>=-Runs (page_decref q m) (λ u m. some (tt, write (t, i) 0 m)) r e in
    let k : Keeps pgdir m runs.between =
      page_decref-Keeps q pgdir m (runs.first, runs.between) runs.ran in
    let k' : Keeps pgdir runs.between (write (t, i) 0 runs.between) =
      write-Keeps t i 0 pgdir runs.between apart in
    subst (λ r. Keeps pgdir m r.1) (some-injective runs.then_ran)
      (record { row = k'.row ∙ k.row; size = k'.size ∙ k.size })

pub page_remove-Keeps :
    (pgdir va : ℕ) (m : Memory) (r : Unit {0} × Memory)
    → HasTable m pgdir va
    → page_remove pgdir va m ≡ some r
    → Keeps pgdir m r.1
unfolding page_remove unmap entry_at
page_remove-Keeps pgdir va m r h e = elim (page_lookup-Found pgdir va m h) [
  | nothing is ↦
      subst (λ r. Keeps pgdir m r.1) (some-injective (rw (is, ◌>>=◌) at e))
        (record { row = refl; size = refl })
  | page q is ↦ unmap-Keeps q pgdir (entry_at m pgdir va) m r h.apart (rw (is, ◌>>=◌) at e)
  | panics is ↦ absurd (none≢some (rw (is, ◌>>=◌) at e))
]

pub page_lookup-at :
    (pgdir va p : ℕ) (m : Memory)
    → HasTable m pgdir va
    → read m (entry_at m pgdir va) ≢ 0
    → pgnum (read m (entry_at m pgdir va)) ≡ p
    → p < m.npages
    → page_lookup pgdir va m ≡ some (some (p, entry_at m pgdir va), m)
unfolding page_lookup lookup_at
page_lookup-at pgdir va p m h nonzero at_p lt =
    let mapped : (read m (entry_at m pgdir va) == 0) ≡ false = ground arith in
    let inside : ltb p m.npages ≡ true = ground arith in
    rw (walk-HasTable m pgdir va h, ◌>>=◌, mapped, at_p, inside) refl
