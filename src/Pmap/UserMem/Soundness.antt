-- ===== src/Pmap/UserMem/Soundness.antt =====
-- What user_mem_check guarantees, and the ranges on which it guarantees nothing.
use sched_v2_solution.Base.{
  ℕ, zero, suc, ◌+◌, ◌-◌, ◌*◌, ◌/◌, ◌≤◌, ◌<◌, ◌≡◌, sym, ◌⊎◌, inl, inr, true, false, Option, none,
  some, arith, ◌==◌, ltb, if◌then◌else◌, Bool-cases, ◌∙◌,
}
use sched_v2_solution.Kernel.Pcb.{word}
use sched_v2_solution.Kernel.Ram.{Memory}
use sched_v2_solution.Pmap.Alloc.{◌>>=◌}
use sched_v2_solution.Pmap.Table.{PtePtr, pgdir_walk, entry_of, ensure_table, pdx, ptx, pgnum}
use sched_v2_solution.Pmap.UserMem.{
  Checked, allowed, fault, grants, check_pages, user_mem_check, pgsize, utop, rounddown, roundup,
}

-- A walk that does not create reads the directory and the table only.
ensure_table-false : (pgdir i : ℕ) (m : Memory) → ensure_table pgdir i false m ≡ some (tt, m)
unfolding ensure_table
ensure_table-false pgdir i m = elim (Bool-cases (m.frame pgdir i == 0)) [
  | inl e ↦ rw e
  | inr e ↦ rw e
]

walk-entry_of : (pgdir va : ℕ) (m : Memory) → pgdir_walk pgdir va false m ≡ entry_of pgdir va m
unfolding pgdir_walk
walk-entry_of pgdir va m = rw (ensure_table-false pgdir (pdx va) m, ◌>>=◌)

-- The user can access the page of va with the permissions.
pub Granted : Memory → (pgdir perm va : ℕ) → Type 0
Granted m pgdir perm va =
    (pte : PtePtr) × (entry_of pgdir va m ≡ some (some pte, m)) × (grants m perm (some pte) ≡ true)

-- The entry for va, or none, and memory as it was; or a panic.
entry_of-cases :
    (pgdir va : ℕ) (m : Memory)
    → (entry_of pgdir va m ≡ none) ⊎ ((o : Option PtePtr) × (entry_of pgdir va m ≡ some (o, m)))
unfolding entry_of
entry_of-cases pgdir va m = elim (Bool-cases (m.frame pgdir (pdx va) == 0)) [
  | inl empty ↦ inr (none, rw empty)
  | inr used ↦ elim (Bool-cases (ltb (pgnum (m.frame pgdir (pdx va))) m.npages)) [
    | inl inside ↦ inr (some (pgnum (m.frame pgdir (pdx va)), ptx va), rw (used, inside))
    | inr outside ↦ inl (rw (used, outside))
  ]
]

module _ (n pgdir va_lo va_act perm : ℕ) (m : Memory) where
  abbrev first_bad : Checked
  first_bad = fault (if ltb va_lo va_act then va_act else va_lo)

  check_pages-panics :
      entry_of pgdir va_act m ≡ none → check_pages (suc n) pgdir va_lo va_act perm m ≡ none
  unfolding check_pages
  check_pages-panics e = rw (walk-entry_of pgdir va_act m ∙ e, ◌>>=◌)

  check_pages-suc :
      (o : Option PtePtr)
      → entry_of pgdir va_act m ≡ some (o, m)
      → check_pages (suc n) pgdir va_lo va_act perm m ≡ (
          if grants m perm o
          then check_pages n pgdir va_lo (va_act + pgsize) perm m
          else some (first_bad, m))
  unfolding check_pages
  check_pages-suc o e = rw (walk-entry_of pgdir va_act m ∙ e, ◌>>=◌)

Granted-here :
    (pgdir va perm : ℕ) (m : Memory) (o : Option PtePtr)
    → entry_of pgdir va m ≡ some (o, m)
    → grants m perm o ≡ true
    → Granted m pgdir perm va
unfolding Granted grants
Granted-here pgdir va perm m none e g = cc
Granted-here pgdir va perm m (some pte) e g = (pte, e, g)

-- The pages of a range are that of its first address and those of the rest.
Granted-suc :
    (n pgdir va_act perm : ℕ) (m : Memory) (o : Option PtePtr)
    → entry_of pgdir va_act m ≡ some (o, m)
    → grants m perm o ≡ true
    → ((j : ℕ) → j < n → Granted m pgdir perm ((va_act + pgsize) + j * pgsize))
    → (i : ℕ) → i < suc n
    → Granted m pgdir perm (va_act + i * pgsize)
Granted-suc n pgdir va_act perm m o found g rest zero h =
    let here : va_act + 0 * pgsize ≡ va_act = omega arith in
    rw here (Granted-here pgdir va_act perm m o found g)
Granted-suc n pgdir va_act perm m o found g rest (suc j) h =
    let shift : va_act + suc j * pgsize ≡ (va_act + pgsize) + j * pgsize = omega arith in
    rw shift (rest j (omega arith))

check_pages-Granted :
    (n pgdir va_lo va_act perm : ℕ) (m m' : Memory)
    → check_pages n pgdir va_lo va_act perm m ≡ some (allowed, m')
    → (i : ℕ) → i < n
    → Granted m pgdir perm (va_act + i * pgsize)
check_pages-Granted zero pgdir va_lo va_act perm m m' e i h = absurd (omega arith)
check_pages-Granted (suc n) pgdir va_lo va_act perm m m' e i h =
    let rec = check_pages-Granted n pgdir va_lo (va_act + pgsize) perm m m' in
    elim (entry_of-cases pgdir va_act m) [
      | inl panics ↦
          let none_left : check_pages (suc n) pgdir va_lo va_act perm m ≡ none =
            check_pages-panics n pgdir va_lo va_act perm m panics in
          absurd (cc)
      | inr (o, found) ↦
          let step = check_pages-suc n pgdir va_lo va_act perm m o found in
          elim (Bool-cases (grants m perm o)) [
            | inl yes_o ↦
                Granted-suc n pgdir va_act perm m o found yes_o (rec (rw yes_o at (sym step ∙ e))) i
                  h
            | inr no_o ↦
                let refused : Path (Option (Checked × Memory))
                    (some (first_bad n pgdir va_lo va_act perm m, m)) (some (allowed, m')) =
                  rw no_o at (sym step ∙ e) in
                absurd (cc)
          ]
    ]

-- When user_mem_check permits an access and the end of the range is at least a page below the end
-- of the address space, the range is below UTOP, and each of its bytes is on a page whose entry has PTE_P and
-- the permissions asked for.
pub user_mem_check-Granted :
    (pgdir va len perm : ℕ) (m m' : Memory)
    → va + len + pgsize ≤ 0x1_0000_0000
    → user_mem_check pgdir va len perm m ≡ some (allowed, m')
    → (va + len ≤ utop) × ((a : ℕ) → va ≤ a → a < va + len → Granted m pgdir perm (rounddown a))
unfolding user_mem_check
user_mem_check-Granted pgdir va len perm m m' fits e =
    elim (Bool-cases (ltb utop (roundup (word (va + len))))) [
      | inl high ↦
          let refused : Path (Option (Checked × Memory)) (some (fault va, m)) (some (allowed, m')) =
            rw high at e in
          absurd (cc)
      | inr low ↦
          let pages = rw low at e in
          let below : roundup (word (va + len)) ≤ utop = ground arith in
          let up : va + len ≤ roundup (word (va + len)) = omega arith in
          (
            omega arith,
            λ a from to.
                let i = a / pgsize - va / pgsize in
                let at_i : rounddown va + i * pgsize ≡ rounddown a = omega arith in
                rw (sym at_i) (
                  check_pages-Granted ((roundup (word (va + len)) - rounddown va) / pgsize) pgdir va
                    (rounddown va) perm m m' pages i (omega arith)),
          )
    ]

-- A range whose end wraps round the address space is let through, although it lies in the
-- kernel's part of it: user_mem_check permits any access from a kernel address on whose length
-- reaches past the end of the address space by at most UTOP.
pub user_mem_check_wraps :
    (pgdir va len perm : ℕ) (m : Memory)
    → utop ≤ va
    → va < 0x1_0000_0000
    → 0x1_0000_0000 ≤ va + len
    → va + len ≤ 0x1_0000_0000 + utop
    → user_mem_check pgdir va len perm m ≡ some (allowed, m)
unfolding user_mem_check check_pages
user_mem_check_wraps pgdir va len perm m kernel lt wraps short =
    let low : ltb utop (roundup (word (va + len))) ≡ false = ground arith in
    let no_pages : (roundup (word (va + len)) - rounddown va) / pgsize ≡ 0 = omega arith in
    rw (low, no_pages)
