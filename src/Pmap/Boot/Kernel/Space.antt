-- ===== src/Pmap/Boot/Kernel/Space.antt =====
-- The address space that map_kernel makes of an empty one.
use sched_v2_solution.Base.{
  ℕ, ◌+◌, ◌*◌, ◌/◌, ◌<◌, ◌≤◌, ◌≡◌, refl, sym, subst, ◌∙◌, false, List, arith, ltb, leb, ◌&&◌,
}
use sched_v2_solution.Kernel.Ram.{Memory}
use sched_v2_solution.Pmap.Alloc.{◌>>=◌}
use sched_v2_solution.Pmap.UserMem.{roundup}
use sched_v2_solution.Pmap.Table.{pdx}
use sched_v2_solution.Pmap.Boot.{boot_map_region, map_stacks, mem_init_mp, kernbase}
use sched_v2_solution.Pmap.Boot.Remapped.{remapped}
use sched_v2_solution.Pmap.Boot.Kernel.{Image, map_kernel, upages, uenvs}
use sched_v2_solution.Pmap.Boot.Kernel.Stacks.{
  Spans, Ends, Inside, region-Ends, stacks, map_stacks-Ends,
}

-- The number of pages of a size that has been rounded up.
abbrev pub pages_of : ℕ → ℕ
pages_of size = (roundup size + 0xfff) / 0x1000

-- UPAGES, UENVS, KERNBASE and the stacks, over the address space f.
unfoldable pub kernel_space : Image → (ℕ → ℕ) → ℕ → ℕ
kernel_space g f = stacks 8 g.kstack (
    remapped 0x1_0000 kernbase 0 3 (
      remapped (pages_of g.envs_size) uenvs g.envs_pa 5
        (remapped (pages_of g.pages_size) upages g.pages_pa 5 f)))

-- pages and envs have at most 4 MB each, at physical addresses below 256 MB, and the stacks lie
-- above KERNBASE.
pub record Fits (g : Image) : Type 0 where
  pub pages_small : g.pages_size ≤ 0x40_0000
  pub pages_low : g.pages_pa ≤ 0x1000_0000
  pub envs_small : g.envs_size ≤ 0x40_0000
  pub envs_low : g.envs_pa ≤ 0x1000_0000
  pub stacks_high :
      (i : ℕ) → i < 8 → (kernbase ≤ g.kstack i) × (g.kstack i + 0x8000 ≤ 0x1_0000_0000)

-- Outside of a region the address space is as it was.
pub remapped-outside :
    (n va pa perm va' : ℕ) (f : ℕ → ℕ)
    → (leb (va / 0x1000) (va' / 0x1000) && ltb (va' / 0x1000) (va / 0x1000 + n)) ≡ false
    → remapped n va pa perm f va' ≡ f va'
unfolding remapped
remapped-outside n va pa perm va' f out = rw out refl

pub pages_of-small : (size : ℕ) → size ≤ 0x40_0000 → pages_of size ≤ 1024
pages_of-small size le = omega (arith, le)

-- The address spaces after the first calls, and what they leave unmapped.
abbrev with_pages : Image → ℕ → ℕ
with_pages g = remapped (pages_of g.pages_size) upages g.pages_pa 5 (λ va. 0)

abbrev with_envs : Image → ℕ → ℕ
with_envs g = remapped (pages_of g.envs_size) uenvs g.envs_pa 5 (with_pages g)

abbrev with_memory : Image → ℕ → ℕ
with_memory g = remapped 0x1_0000 kernbase 0 3 (with_envs g)

with_pages-below : (g : Image) (va : ℕ) → va < upages → with_pages g va ≡ 0
with_pages-below g va lt =
    remapped-outside (pages_of g.pages_size) upages g.pages_pa 5 va (λ va. 0) (ground (arith, lt))

-- Above UPAGES only one page table is in use, that for pages.
with_envs-above : (g : Image) (va : ℕ) → Fits g → upages + 0x40_0000 ≤ va → with_envs g va ≡ 0
with_envs-above g va fits le =
    let few : pages_of g.pages_size ≤ 1024 = pages_of-small g.pages_size fits.pages_small in
    let few' : pages_of g.envs_size ≤ 1024 = pages_of-small g.envs_size fits.envs_small in
    remapped-outside (pages_of g.envs_size) uenvs g.envs_pa 5 va (with_pages g)
      (above (pages_of g.envs_size) uenvs va (omega (arith, few', le)))
    ∙ remapped-outside (pages_of g.pages_size) upages g.pages_pa 5 va (λ va. 0)
        (above (pages_of g.pages_size) upages va (omega (arith, few, le)))
  where
    above :
        (n a va : ℕ)
        → a / 0x1000 + n ≤ va / 0x1000
        → (leb (a / 0x1000) (va / 0x1000) && ltb (va / 0x1000) (a / 0x1000 + n)) ≡ false
    above n a va le = ground arith

with_memory-stacks : (g : Image) (va : ℕ) → Fits g → pdx va ≡ 0x3bf → with_memory g va ≡ 0
with_memory-stacks g va fits at =
    remapped-outside 0x1_0000 kernbase 0 3 va (with_envs g) (ground (arith, at))
    ∙ with_envs-above g va fits (omega (arith, at))

-- One page table holds a region of at most 1024 pages that starts where its range starts.
table-Inside : (n va w : ℕ) → n ≤ 1024 → va ≡ w * 0x40_0000 → 955 ≤ w → w < 957 → Inside n va 955 69
table-Inside n va w le at low high = record {
  first = omega (arith, at, low);
  last = omega (arith, at, high, le);
  top = omega arith;
  not_uvpt = λ i lt e. absurd (omega (arith, at, high, le, lt, e));
}

-- When nothing is mapped by the kernel's directory, pages and envs fit in the 4 MB of their regions,
-- and there are free pages for the page tables from UENVS to the end of the address space, the
-- calls return, and afterwards the directory maps pages at UPAGES and envs at UENVS, with PTE_U,
-- physical memory at KERNBASE and the stacks of the CPUs below KSTACKTOP, with PTE_W, and nothing
-- else.
pub map_kernel-Ends :
    (g : Image) (m : Memory) (ps : List ℕ)
    → Fits g
    → Spans m m.kern_pgdir (λ va. 0) 955 69 ps
    → Ends m.kern_pgdir m.kern_pgdir (kernel_space g (λ va. 0)) 955 69 (map_kernel g m)
unfolding map_kernel kernel_space mem_init_mp
map_kernel-Ends g m ps fits h =
    let d = m.kern_pgdir in
    let few : pages_of g.pages_size ≤ 1024 = pages_of-small g.pages_size fits.pages_small in
    let few' : pages_of g.envs_size ≤ 1024 = pages_of-small g.envs_size fits.envs_small in
    let e1 : Ends d d (with_pages g) 955 69
        (boot_map_region d upages (roundup g.pages_size) g.pages_pa 5 m) =
      region-Ends m d upages (roundup g.pages_size) g.pages_pa 5 955 69 ps (λ va. 0) h
        (table-Inside (pages_of g.pages_size) upages 956 few refl (omega arith) (omega arith))
        (omega (arith, few, fits.pages_low)) (λ i lt. refl) in
    let e2 : Ends d e1.after.kern_pgdir (with_envs g) 955 69
        (boot_map_region d uenvs (roundup g.envs_size) g.envs_pa 5 e1.after) =
      region-Ends e1.after d uenvs (roundup g.envs_size) g.envs_pa 5 955 69 e1.rest (with_pages g)
        e1.spans
        (table-Inside (pages_of g.envs_size) uenvs 955 few' refl (omega arith) (omega arith))
        (omega (arith, few', fits.envs_low))
        (λ i lt. with_pages-below g (uenvs + i * 0x1000) (omega (arith, lt, few'))) in
    let all : Inside 0x1_0000 kernbase 955 69 = record {
      first = omega arith;
      last = omega arith;
      top = omega arith;
      not_uvpt = λ i lt e. absurd (omega (arith, e));
    } in
    let e3 : Ends d e2.after.kern_pgdir (with_memory g) 955 69
        (boot_map_region d kernbase 0x1000_0000 0 3 e2.after) =
      region-Ends e2.after d kernbase 0x1000_0000 0 3 955 69 e2.rest (with_envs g) e2.spans all
        (omega arith) (λ i lt. with_envs-above g (kernbase + i * 0x1000) fits (omega arith)) in
    let same : e3.after.kern_pgdir ≡ d = e3.kern_is ∙ e2.kern_is ∙ e1.kern_is in
    let e4 : Ends e3.after.kern_pgdir e3.after.kern_pgdir (stacks 8 g.kstack (with_memory g)) 955 69
        (map_stacks 8 g.kstack e3.after) =
      map_stacks-Ends 8 e3.after g.kstack (with_memory g) 955 69 e3.rest (omega arith) (omega arith)
        (omega arith) (omega arith) fits.stacks_high (λ va at. with_memory-stacks g va fits at)
        (subst (λ d. Spans e3.after d (with_memory g) 955 69 e3.rest) (sym same) e3.spans) in
    rw (e1.is, ◌>>=◌, e2.is, e3.is)
      (subst
        (λ d. Ends d d (stacks 8 g.kstack (with_memory g)) 955 69 (map_stacks 8 g.kstack e3.after))
        same e4)
