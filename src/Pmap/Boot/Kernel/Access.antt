-- ===== src/Pmap/Boot/Kernel/Access.antt =====
-- What a user may do in the kernel's part of the address space.
use sched_v2_solution.Base.{
  ℕ, zero, suc, ◌+◌, ◌-◌, ◌*◌, ◌/◌, ◌%◌, ◌<◌, ◌≤◌, ◌≡◌, sym, ap, subst, ◌∙◌, inl, inr, false,
  Option, some, List, arith, ltb, leb, ◌&&◌, Bool-cases, bit_or, bit_or-below, bit_or_one_odd,
}
use sched_v2_solution.Kernel.Ram.{Memory}
use sched_v2_solution.Pmap.Table.{pdx}
use sched_v2_solution.Pmap.Table.Space.{mapping, IsSlot}
use sched_v2_solution.Pmap.Boot.{kernbase}
use sched_v2_solution.Pmap.Boot.Remapped.{remapped, region_entry}
use sched_v2_solution.Pmap.Boot.Kernel.{Image, map_kernel, upages, uenvs}
use sched_v2_solution.Pmap.Boot.Kernel.Stacks.{Spans, Ends, stacks}
use sched_v2_solution.Pmap.Boot.Kernel.Space.{
  Fits, pages_of, pages_of-small, kernel_space, map_kernel-Ends,
}

-- The entry for va: above KERNBASE it is that of physical memory, writable and for the kernel alone,
-- and where users may read, which is in UPAGES and UENVS, nobody may write.
pub record Access (va entry : ℕ) : Type 0 where
  pub physical : kernbase ≤ va → entry ≡ va / 0x1000 * 0x1000 - kernbase + 3
  pub user_reads : entry / 4 % 2 ≡ 1 → (uenvs ≤ va) × (va < upages + 0x40_0000)
  pub read_only : entry / 4 % 2 ≡ 1 → entry / 2 % 2 ≡ 0

-- pages, envs and the stacks start at page boundaries.
pub record Aligned (g : Image) : Type 0 where
  pub pages_page : g.pages_pa % 0x1000 ≡ 0
  pub envs_page : g.envs_pa % 0x1000 ≡ 0
  pub stacks_page : (i : ℕ) → i < 8 → g.kstack i % 0x1000 ≡ 0

region_entry-sum :
    (pa perm : ℕ)
    → pa % 0x1000 ≡ 0
    → perm < 0x1000
    → perm % 2 ≡ 1
    → region_entry pa perm ≡ pa + perm
region_entry-sum pa perm page small odd =
    let whole : pa ≡ pa / 0x1000 * 0x1000 = omega (arith, page) in
    let inner : bit_or pa perm ≡ pa + perm =
      subst (λ a. bit_or a perm ≡ a + perm) (sym whole)
        (bit_or-below 12 (pa / 0x1000) perm small) in
    ap (λ a. bit_or a 1) inner ∙ bit_or_one_odd (pa + perm) (omega (arith, page, odd))

-- A fact on the entry of va holds after a region is mapped when it holds of the old entry and, if
-- va is in the region, of the new one.
remapped-holds :
    (P : ℕ → Type 0) (n va0 pa perm va : ℕ) (f : ℕ → ℕ)
    → pa % 0x1000 ≡ 0
    → perm < 0x1000
    → perm % 2 ≡ 1
    → (va0 / 0x1000 ≤ va / 0x1000
        → va / 0x1000 < va0 / 0x1000 + n
        → P (pa + (va / 0x1000 - va0 / 0x1000) * 0x1000 + perm))
    → ((leb (va0 / 0x1000) (va / 0x1000) && ltb (va / 0x1000) (va0 / 0x1000 + n)) ≡ false
        → P (f va))
    → P (remapped n va0 pa perm f va)
unfolding remapped
remapped-holds P n va0 pa perm va f page small odd new old =
    elim (Bool-cases (leb (va0 / 0x1000) (va / 0x1000) && ltb (va / 0x1000) (va0 / 0x1000 + n))) [
      | inl inside ↦
          let pa' = pa + (va / 0x1000 - va0 / 0x1000) * 0x1000 in
          rw inside (
            subst P (sym (region_entry-sum pa' perm (omega (arith, page)) small odd))
              (new (ground (arith, inside)) (ground (arith, inside))))
      | inr outside ↦ rw outside (old outside)
    ]

-- An entry that only the kernel may use.
kernel_only : (va pa : ℕ) → pa % 0x1000 ≡ 0 → va < kernbase → Access va (pa + 3)
kernel_only va pa page lt = record {
  physical = λ le. absurd (omega (arith, lt, le));
  user_reads = λ u. absurd (omega (arith, page, u));
  read_only = λ u. absurd (omega (arith, page, u));
}

stacks-Access :
    (n : ℕ) (kstack f : ℕ → ℕ) (va : ℕ)
    → n ≤ 8
    → ((i : ℕ) → i < 8 → (kernbase ≤ kstack i) × (kstack i + 0x8000 ≤ 0x1_0000_0000))
    → ((i : ℕ) → i < 8 → kstack i % 0x1000 ≡ 0)
    → Access va (f va)
    → Access va (stacks n kstack f va)
unfolding stacks
stacks-Access zero kstack f va le high page h = h
stacks-Access (suc n) kstack f va le high page h =
    let lt : n < 8 = omega (arith, le) in
    let (above, ends) = high n lt in
    let whole : (kstack n - kernbase) % 0x1000 ≡ 0 = omega (arith, page n lt, above) in
    let va0 = kernbase - n * 0x1_0000 - 0x8000 in
    remapped-holds (Access va) 8 va0 (kstack n - kernbase) 3 va (stacks n kstack f) whole
      (omega arith) (omega arith)
      (λ from below.
        kernel_only va (kstack n - kernbase + (va / 0x1000 - va0 / 0x1000) * 0x1000)
          (omega (arith, whole)) (omega (arith, below, lt)))
      (λ _. stacks-Access n kstack f va (omega (arith, le)) high page h)

-- A region that users may read.
user_region :
    (n va0 pa va : ℕ) (f : ℕ → ℕ)
    → pa % 0x1000 ≡ 0
    → va0 % 0x1000 ≡ 0
    → n ≤ 1024
    → uenvs ≤ va0
    → va0 ≤ upages
    → Access va (f va)
    → Access va (remapped n va0 pa 5 f va)
user_region n va0 pa va f page page0 few low high old =
    remapped-holds (Access va) n va0 pa 5 va f page (omega arith) (omega arith)
      (λ from below. record {
        physical = λ le. absurd (omega (arith, below, few, high, le));
        user_reads = λ u. (omega (arith, from, low, page0), omega (arith, below, few, high));
        read_only = λ u. omega (arith, page);
      })
      (λ _. old)

kernel_space-Access :
    (g : Image) (va : ℕ)
    → Fits g
    → Aligned g
    → va < 0x1_0000_0000
    → Access va (kernel_space g (λ va. 0) va)
unfolding kernel_space
kernel_space-Access g va fits page lt =
    let pages = remapped (pages_of g.pages_size) upages g.pages_pa 5 (λ va. 0) in
    let envs = remapped (pages_of g.envs_size) uenvs g.envs_pa 5 pages in
    stacks-Access 8 g.kstack (remapped 0x1_0000 kernbase 0 3 envs) va (omega arith) fits.stacks_high
      page.stacks_page
      (remapped-holds (Access va) 0x1_0000 kernbase 0 3 va envs (omega arith) (omega arith)
        (omega arith)
        (λ from below. record {
          physical = λ le. omega (arith, from);
          user_reads = λ u. absurd (omega (arith, u));
          read_only = λ u. absurd (omega (arith, u));
        })
        (λ outside.
          let low : va < kernbase = ground (arith, outside, lt) in
          user_region (pages_of g.envs_size) uenvs g.envs_pa va pages page.envs_page (omega arith)
            (pages_of-small g.envs_size fits.envs_small) (omega arith) (omega arith)
            (user_region (pages_of g.pages_size) upages g.pages_pa va (λ va. 0) page.pages_page
              (omega arith) (pages_of-small g.pages_size fits.pages_small) (omega arith)
              (omega arith)
              (record {
                physical = λ le. absurd (omega (arith, le, low));
                user_reads = λ u. absurd (omega (arith, u));
                read_only = λ u. absurd (omega (arith, u));
              }))))

-- Memory that map_kernel returns, with the access that each entry gives.
pub record Protected (g : Image) (m : Memory) (o : Option (Unit {0} × Memory)) : Type 0 where
  pub after : Memory
  pub is : o ≡ some (tt, after)
  pub access :
      (va : ℕ) → va < 0x1_0000_0000 → IsSlot (pdx va) → Access va (mapping after m.kern_pgdir va)

-- When nothing is mapped by the kernel's directory, pages, envs and the stacks start at page
-- boundaries and fit in their regions, and there are free pages for the page tables, the calls
-- return. Afterwards, but for the region of UVPT, every page from KERNBASE on is mapped to the page
-- of physical memory at this distance, writable and for the kernel alone; a user can read nothing
-- but pages of UPAGES and UENVS, and these are not writable.
pub map_kernel-Protected :
    (g : Image) (m : Memory) (ps : List ℕ)
    → Fits g
    → Aligned g
    → Spans m m.kern_pgdir (λ va. 0) 955 69 ps
    → Protected g m (map_kernel g m)
map_kernel-Protected g m ps fits page h =
    let e : Ends m.kern_pgdir m.kern_pgdir (kernel_space g (λ va. 0)) 955 69 (map_kernel g m) =
      map_kernel-Ends g m ps fits h in
    record {
      after = e.after;
      is = e.is;
      access = λ va lt slot.
          subst (Access va) (sym (e.spans.maps va slot)) (kernel_space-Access g va fits page lt);
    }
