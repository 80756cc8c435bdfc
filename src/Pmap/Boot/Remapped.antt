-- ===== src/Pmap/Boot/Remapped.antt =====
-- The address space that boot_map_region makes, page by page.
use sched_v2_solution.Base.{
  ℕ, zero, suc, ◌+◌, ◌-◌, ◌*◌, ◌/◌, ◌≤◌, ◌≡◌, ◌≢◌, refl, inl, inr, true, false, arith, ltb, leb,
  ◌==◌, ◌&&◌, Bool-cases, if◌then◌else◌, ==_iff, bit_or,
}
use sched_v2_solution.Kernel.Pcb.{word}
use sched_v2_solution.Pmap.Table.{pte_p}
use sched_v2_solution.Pmap.UserMem.{pgsize}
use sched_v2_solution.Pmap.Table.Space.{same_page}

-- The entry of a page of the region.
abbrev pub region_entry : (pa perm : ℕ) → ℕ
region_entry pa perm = bit_or (bit_or pa perm) pte_p

-- The address space after n pages from va on have been mapped to those from pa on.
unfoldable pub remapped : (n va pa perm : ℕ) → (old : ℕ → ℕ) → ℕ → ℕ
remapped n va pa perm old va' =
    if leb (va / 0x1000) (va' / 0x1000) && ltb (va' / 0x1000) (va / 0x1000 + n)
    then region_entry (pa + (va' / 0x1000 - va / 0x1000) * 0x1000) perm
    else old va'

-- The pages that remain, and page a before them.
remaining :
    (n a b pa o : ℕ) (e : ℕ → ℕ)
    → (if leb (a + 1) b && ltb b (a + 1 + n)
        then e (pa + 0x1000 + (b - (a + 1)) * 0x1000)
        else if a == b
        then e pa
        else o)
      ≡ (if leb a b && ltb b (a + suc n) then e (pa + (b - a) * 0x1000) else o)
remaining n a b pa o e = elim (Bool-cases (a == b)) [
  | inl same ↦
      let here : a ≡ b = (==_iff a b).0 same in
      let not_after : leb (a + 1) b ≡ false = ground arith in
      let at : leb a b ≡ true = ground arith in
      let below : ltb b (a + suc n) ≡ true = ground arith in
      let first : pa + (b - a) * 0x1000 ≡ pa = omega (arith, here) in
      rw (not_after, same, at, below, first) refl
  | inr other ↦
      let apart : a ≢ b = ground arith in
      elim (Bool-cases (leb a b && ltb b (a + suc n))) [
        | inl inside ↦
            let after : (leb (a + 1) b && ltb b (a + 1 + n)) ≡ true =
              ground (arith, apart, inside) in
            let next : pa + 0x1000 + (b - (a + 1)) * 0x1000 ≡ pa + (b - a) * 0x1000 =
              ground (arith, apart, inside) in
            rw (inside, after, next) refl
        | inr outside ↦
            let after : (leb (a + 1) b && ltb b (a + 1 + n)) ≡ false =
              ground (arith, apart, outside) in
            rw (outside, after, other) refl
      ]
]

-- The next round's page is the next page.
pub remapped-suc :
    (n va pa perm va' : ℕ) (old new : ℕ → ℕ)
    → va + suc n * 0x1000 ≤ 0x1_0000_0000
    → pa + suc n * 0x1000 ≤ 0x1_0000_0000
    → new va' ≡ (if same_page va va' then region_entry pa perm else old va')
    → remapped n (word (va + pgsize)) (word (pa + pgsize)) perm new va'
      ≡ remapped (suc n) va pa perm old va'
unfolding remapped
remapped-suc zero va pa perm va' old new fits fits' e =
    let a = word (va + pgsize) / 0x1000 in
    let b = va' / 0x1000 in
    let done : (leb a b && ltb b (a + 0)) ≡ false = nothing a b in
    rw (done, e)
      (rw (nothing (va / 0x1000 + 1) b) at
        (remaining 0 (va / 0x1000) b pa (old va') (λ pa. region_entry pa perm)))
  where
    nothing : (a b : ℕ) → (leb a b && ltb b (a + 0)) ≡ false
    nothing a b = ground arith
remapped-suc (suc n) va pa perm va' old new fits fits' e =
    let va_next : word (va + pgsize) / 0x1000 ≡ va / 0x1000 + 1 = omega (arith, fits) in
    let pa_next : word (pa + pgsize) ≡ pa + 0x1000 = omega (arith, fits') in
    rw (va_next, pa_next, e)
      (remaining (suc n) (va / 0x1000) (va' / 0x1000) pa (old va') (λ pa. region_entry pa perm))
