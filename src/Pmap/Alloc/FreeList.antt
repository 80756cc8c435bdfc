-- ===== src/Pmap/Alloc/FreeList.antt =====
-- The free list of physical pages as the list of its pages.
use sched_v2_solution.Base.{
  ℕ, suc, ◌+◌, ◌<◌, ◌≡◌, ◌≢◌, refl, ◌∙◌, Bool, true, false, Option, none, some, List, [], ◌∷◌,
  arith, ◌==◌, ltb, ◌⊎◌, inl, inr, update_ne, update-update, Bool-cases, if◌then◌else◌, update,
  ==_self,
}
use sched_v2_solution.Kernel.Ram.{Memory, PageInfo}
use sched_v2_solution.Pmap.Alloc.{
  page_alloc, page_free, page_decref, alloc_from, zero_page, unlink, set_page, ref16, ◌>>=◌,
}

-- The pages that follow a link.
abbrev pub head : List ℕ → Option ℕ
head [] = none
head (p ∷ ps) = some p

-- Page p is none of the list.
abbrev pub NotIn : ℕ → List ℕ → Type 0
NotIn p [] = Unit {0}
NotIn p (q ∷ ps) = (p ≢ q) × NotIn p ps

-- The pages of the list are linked in this order, unreferenced, distinct and in physical memory.
unfoldable pub Linked : Memory → List ℕ → Type 0
Linked m [] = Unit {0}
Linked m (p ∷ ps) =
    ((m.pages p).pp_link ≡ head ps)
    × ((m.pages p).pp_ref ≡ 0)
    × (p < m.npages)
    × NotIn p ps
    × Linked m ps

unfoldable pub FreeList : Memory → List ℕ → Type 0
FreeList m ps = (m.page_free_list ≡ head ps) × Linked m ps

-- The links do not change with the entry of a page that is not on the list.
pub Linked-set_page :
    (m : Memory) (p : ℕ) (i : PageInfo) (l : Option ℕ) (ps : List ℕ)
    → NotIn p ps
    → Linked m ps
    → Linked (set_page (record m { page_free_list = l }) p i) ps
unfolding Linked set_page
Linked-set_page m p i l [] ne h = tt
Linked-set_page m p i l (q ∷ ps) ne (link, ref, lt, out, h) =
    (ground arith, ground arith, lt, out, Linked-set_page m p i l ps ne.1 h)

-- Page p has been taken off the list: its entry is clean, and those of the other pages are as they
-- were.
pub record Taken (m : Memory) (zeroed : Bool) (p : ℕ) (ps : List ℕ) (m' : Memory) : Type 0 where
  pub rest : FreeList m' ps
  pub link : (m'.pages p).pp_link ≡ none
  pub ref : (m'.pages p).pp_ref ≡ 0
  pub others : (q : ℕ) → p ≢ q → m'.pages q ≡ m.pages q
  pub contents : zeroed ≡ true → (i : ℕ) → m'.frame p i ≡ 0
  pub other_frames : (q : ℕ) → p ≢ q → m'.frame q ≡ m.frame q

Linked-unlink : (m : Memory) (p : ℕ) (ps : List ℕ) → Linked m (p ∷ ps) → Linked (unlink p m) ps
unfolding Linked unlink
Linked-unlink m p ps (link, ref, lt, out, h) =
    Linked-set_page m p (record (m.pages p) { pp_link = none }) (m.pages p).pp_link ps out h

pub unlink-Taken :
    (m : Memory) (p : ℕ) (ps : List ℕ) → Linked m (p ∷ ps) → Taken m false p ps (unlink p m)
unfolding FreeList Linked unlink set_page
unlink-Taken m p ps (link, ref, lt, out, h) = record {
  rest = (link, Linked-unlink m p ps (link, ref, lt, out, h));
  link = ground arith;
  ref = ground arith;
  others = λ q ne. ground arith;
  contents = λ e. absurd (cc);
  other_frames = λ q ne. refl;
}

-- The page with its contents cleared.
abbrev pub zeroed_page : ℕ → Memory → Memory
zeroed_page p m = record m { frame = update m.frame p (λ i. 0) }

Linked-zeroed : (m : Memory) (p : ℕ) (ps : List ℕ) → Linked m ps → Linked (zeroed_page p m) ps
unfolding Linked
Linked-zeroed m p [] h = tt
Linked-zeroed m p (q ∷ ps) (link, ref, lt, out, h) = (link, ref, lt, out, Linked-zeroed m p ps h)

pub zeroed-Taken :
    (m : Memory) (p : ℕ) (ps : List ℕ)
    → Linked m (p ∷ ps)
    → Taken m true p ps (zeroed_page p (unlink p m))
unfolding FreeList
zeroed-Taken m p ps h =
    let t = unlink-Taken m p ps h in
    record {
      rest = (t.rest.0, Linked-zeroed (unlink p m) p ps t.rest.1);
      link = t.link;
      ref = t.ref;
      others = t.others;
      contents = λ _ i. rw (==_self p);
      other_frames = λ q ne. update_ne (unlink p m).frame p q (λ i. 0) ne ∙ t.other_frames q ne;
    }

zero_page-zeroed : (m : Memory) (p : ℕ) → p < m.npages → zero_page p m ≡ some (tt, zeroed_page p m)
unfolding zero_page
zero_page-zeroed m p lt = let inside : ltb p m.npages ≡ true = ground arith in rw inside

pub zeroes :
    (m : Memory) (p : ℕ) (ps : List ℕ)
    → Linked m (p ∷ ps)
    → alloc_from true (some p) m ≡ some (some p, zeroed_page p (unlink p m))
unfolding Linked alloc_from unlink set_page
zeroes m p ps (_, _, lt, _, _) = rw (zero_page-zeroed (unlink p m) p lt, ◌>>=◌)

-- With the free list [], page_alloc returns NULL and changes nothing; with p first on it, it
-- returns p, whose entry is then unlinked and unreferenced and whose contents are 0 if that was
-- asked for, leaves the rest of the list as the free list, and changes no other page.
pub page_alloc-Taken :
    (zeroed : Bool) (m : Memory) (ps : List ℕ)
    → FreeList m ps
    → ((ps ≡ []) × (page_alloc zeroed m ≡ some (none, m)))
      ⊎ ((p : ℕ) × (qs : List ℕ) × (m' : Memory) × (ps ≡ p ∷ qs)
          × (page_alloc zeroed m ≡ some (some p, m'))
          × Taken m zeroed p qs m')
unfolding FreeList page_alloc alloc_from
page_alloc-Taken zeroed m [] (first, h) = inl (refl, rw first)
page_alloc-Taken false m (p ∷ ps) (first, h) =
    inr (p, ps, unlink p m, refl, rw first, unlink-Taken m p ps h)
page_alloc-Taken true m (p ∷ ps) (first, h) =
    inr (p, ps, zeroed_page p (unlink p m), refl, rw first (zeroes m p ps h), zeroed-Taken m p ps h)

-- Memory after the reference is dropped.
with_ref : Memory → ℕ → ℕ → Memory
with_ref m p n = set_page m p (record (m.pages p) { pp_ref = n })

dropped : Memory → ℕ → ℕ → Memory
dropped m p n =
    if n == 0
    then set_page (record m { page_free_list = some p }) p
        (record (m.pages p) { pp_ref = 0; pp_link = m.page_free_list })
    else set_page m p (record (m.pages p) { pp_ref = n })

decref-dropped :
    (m : Memory) (p n : ℕ)
    → (m.pages p).pp_link ≡ none
    → (m.pages p).pp_ref ≡ suc n
    → n < 0xffff
    → page_decref p m ≡ some (tt, dropped m p n)
unfolding page_decref page_free set_page dropped
decref-dropped m p n link ref fits =
    let less : ref16 (suc n + 0xffff) ≡ n = omega arith in
    elim (Bool-cases (n == 0)) [
      | inl last ↦
          let none_left : n ≡ 0 = ground arith in
          rw (ref, less, none_left, ==_self p, link, update-update)
      | inr more ↦ rw (ref, less, more)
    ]

dropped-ref : (m : Memory) (p n : ℕ) → ((dropped m p n).pages p).pp_ref ≡ n
unfolding dropped set_page
dropped-ref m p n = ground arith

dropped-frame : (m : Memory) (p n : ℕ) → (dropped m p n).frame ≡ m.frame
unfolding dropped set_page
dropped-frame m p n = ground arith

dropped-others : (m : Memory) (p n : ℕ) (q : ℕ) → p ≢ q → (dropped m p n).pages q ≡ m.pages q
unfolding dropped set_page
dropped-others m p n q ne = ground arith

dropped-FreeList :
    (m : Memory) (p n : ℕ) (ps : List ℕ)
    → m.page_free_list ≡ head ps
    → Linked m ps
    → NotIn p ps
    → p < m.npages
    → FreeList (dropped m p n) (if n == 0 then p ∷ ps else ps)
unfolding FreeList dropped Linked set_page
dropped-FreeList m p n ps first h out lt = elim (Bool-cases (n == 0)) [
  | inl last ↦
      rw (last, ==_self p)
        (
          refl,
          (
            first,
            refl,
            lt,
            out,
            Linked-set_page m p (record (m.pages p) { pp_ref = 0; pp_link = m.page_free_list })
                (some p) ps out h,
          ),
        )
  | inr more ↦
      rw more
        (first, Linked-set_page m p (record (m.pages p) { pp_ref = n }) m.page_free_list ps out h)
]

-- Page p has lost one of its references.
pub record Dropped (m : Memory) (p n : ℕ) (ps : List ℕ) (m' : Memory) : Type 0 where
  pub ref : (m'.pages p).pp_ref ≡ n
  pub list : FreeList m' ps
  pub others : (q : ℕ) → p ≢ q → m'.pages q ≡ m.pages q
  pub frames : m'.frame ≡ m.frame

-- page_decref of a page that is in use (unlinked, not on the free list, with n + 1 references,
-- fewer than 2^16) leaves it n references; it goes to the front of the free list exactly when
-- n is 0, and no other page changes.
pub page_decref-Dropped :
    (m : Memory) (p n : ℕ) (ps : List ℕ)
    → FreeList m ps
    → NotIn p ps
    → p < m.npages
    → (m.pages p).pp_link ≡ none
    → (m.pages p).pp_ref ≡ suc n
    → n < 0xffff
    → (m' : Memory) × (page_decref p m ≡ some (tt, m'))
      × Dropped m p n (if n == 0 then p ∷ ps else ps) m'
unfolding FreeList
page_decref-Dropped m p n ps (first, h) out lt link ref fits = (
  dropped m p n,
  decref-dropped m p n link ref fits,
  record {
    ref = dropped-ref m p n;
    list = dropped-FreeList m p n ps first h out lt;
    others = dropped-others m p n;
    frames = dropped-frame m p n;
  },
)
