-- ===== src/Pmap/Tests/Spaces.antt =====
-- Address spaces on a machine with 128 pages, of which 1 to 100 are free.
use sched_v2_solution.Base.{
  ◌%◌, false, subst, sym, ap, ◌∙◌, ℕ, zero, suc, ◌+◌, ◌*◌, ◌<◌, ◌≤◌, ◌≡◌, ◌≢◌, refl, none, some,
  List, [], ◌∷◌, arith, ◌==◌, if◌then◌else◌, inr, Option,
}
use sched_v2_solution.Kernel.Ram.{Memory}
use sched_v2_solution.Pmap.Alloc.FreeList.{FreeList, Linked, NotIn, head}
use sched_v2_solution.Pmap.Table.{page_insert, page_remove, pdx, pgnum}
use sched_v2_solution.Pmap.Table.Keeps.{entry_at}
use sched_v2_solution.Pmap.Table.Space.{mapping, IsSlot, IsTable, Tree}
use sched_v2_solution.Pmap.Table.Space.Room.{missing}
use sched_v2_solution.Pmap.Table.Space.Unmap.{IsData, Removed, page_remove-Removed}
use sched_v2_solution.Pmap.Table.Space.Target.{Target}
use sched_v2_solution.Pmap.Table.Space.Insert.{Inserted, page_insert-Inserted}
use sched_v2_solution.Pmap.Boot.{boot_map_region, mem_init_mp, kernbase}
use sched_v2_solution.Pmap.Boot.Region.{Region, Done, boot_map_region-Done}
use sched_v2_solution.Pmap.Boot.Kernel.{Image, map_kernel}
use sched_v2_solution.Pmap.Boot.Kernel.Stacks.{Spans}
use sched_v2_solution.Pmap.Boot.Kernel.Space.{Fits}
use sched_v2_solution.Pmap.Boot.Kernel.Access.{Aligned, Protected, map_kernel-Protected}
use sched_v2_solution.Trap.Gates.{no_gate, trap_init}
use sched_v2_solution.Trap.Gates.Privilege.{Guards, trap_init-Guards}
use sched_v2_solution.Trap.Gates.Stacks.{Separate, mem_init_mp-Separate}
use sched_v2_solution.Process.Load.{region_alloc}
use sched_v2_solution.Process.Load.Region.{Vacant, Filled, region_alloc-Filled}

-- n, ..., 1, and the page behind each.
abbrev countdown : ℕ → List ℕ
countdown zero = []
countdown (suc n) = suc n ∷ countdown n

abbrev before : ℕ → Option ℕ
before zero = none
before (suc zero) = none
before (suc (suc n)) = some (suc n)

-- Page 101 is the directory, with itself at UVPT.
abbrev ram : Memory
ram = record {
  npages = 128;
  pages = λ p. record { pp_link = before p; pp_ref = 0 };
  page_free_list = some 100;
  frame = λ p i. if p == 101 then if i == 957 then 0x6_5005 else 0 else 0;
  kern_pgdir = 101;
}

head-countdown : (n : ℕ) → before (suc n) ≡ head (countdown n)
head-countdown zero = refl
head-countdown (suc n) = refl

NotIn-countdown : (p n : ℕ) → n < p → NotIn p (countdown n)
NotIn-countdown p zero lt = tt
NotIn-countdown p (suc n) lt =
    ((λ e. absurd (omega (arith, lt, e))), NotIn-countdown p n (omega (arith, lt)))

countdown-Linked :
    (m : Memory) (n : ℕ)
    → n ≤ 100
    → m.npages ≡ 128
    → ((p : ℕ) → p ≤ 100 → m.pages p ≡ record { pp_link = before p; pp_ref = 0 })
    → Linked m (countdown n)
unfolding Linked
countdown-Linked m zero le size all = tt
countdown-Linked m (suc n) le size all = (
  ap (λ i. i.pp_link) (all (suc n) le) ∙ head-countdown n,
  ap (λ i. i.pp_ref) (all (suc n) le),
  omega (arith, le, size),
  NotIn-countdown (suc n) n (omega arith),
  countdown-Linked m n (omega (arith, le)) size all,
)

ram-FreeList : FreeList ram (countdown 100)
unfolding FreeList
ram-FreeList = (refl, countdown-Linked ram 100 (omega arith) refl (λ p le. refl))

empty_row : (i : ℕ) → i ≢ 957 → ram.frame 101 i ≡ 0
empty_row i ne = ground arith

ram-Tree : Tree ram 101 (countdown 100)
ram-Tree = record {
  free = ram-FreeList;
  dir_used = NotIn-countdown 101 100 (omega arith);
  tables = λ i slot used. absurd (used (empty_row i slot.1));
  distinct = λ i j si sj ne used used'. absurd (used (empty_row i si.1));
}

ram-unmapped : (va : ℕ) → IsSlot (pdx va) → mapping ram 101 va ≡ 0
unfolding mapping
ram-unmapped va slot = rw (empty_row (pdx va) slot.1) refl

ram-Spans : Spans ram 101 (λ va. 0) 955 69 (countdown 100)
unfolding missing
ram-Spans = record { tree = ram-Tree; maps = ram-unmapped; room = omega arith }

-- Eight stacks behind one another.
abbrev kstack : ℕ → ℕ
kstack i = kernbase + 0x10_0000 + i * 0x8000

abbrev image : Image
image = record {
  pages_pa = 0x5_0000;
  pages_size = 0x1000;
  envs_pa = 0x5_1000;
  envs_size = 0x2000;
  kstack = kstack;
}

image-Fits : Fits image
image-Fits = record {
  pages_small = omega arith;
  pages_low = omega arith;
  envs_small = omega arith;
  envs_low = omega arith;
  stacks_high = λ i lt. (omega arith, omega (arith, lt));
}

image-Aligned : Aligned image
image-Aligned = record { pages_page = refl; envs_page = refl; stacks_page = λ i lt. omega arith }

map_kernel-Protected_example : Protected image ram (map_kernel image ram)
map_kernel-Protected_example =
    map_kernel-Protected image ram (countdown 100) image-Fits image-Aligned ram-Spans

ram-Region : Region ram 101 2 kernbase 955 69 0 (countdown 100)
unfolding missing
ram-Region = record {
  tree = ram-Tree;
  slots = λ i lt. (omega (arith, lt), λ e. absurd (omega (arith, lt, e)));
  from = λ i lt. omega arith;
  upto = λ i lt. omega (arith, lt);
  room = omega arith;
  unmapped = λ i lt.
      ram-unmapped (kernbase + i * 0x1000) (omega (arith, lt), λ e. absurd (omega (arith, lt, e)));
  fits = omega arith;
}

boot_map_region-Done_example :
    Done ram 101 2 kernbase 0x3000 3 955 69 0 (boot_map_region 101 kernbase 0x1234 0x3000 3 ram)
boot_map_region-Done_example =
    boot_map_region-Done ram 101 kernbase 0x1234 0x3000 3 955 69 0 (countdown 100) ram-Region
      (omega arith)

ram-Vacant : Vacant ram 101 3 0x80_0000 2 1 (countdown 100)
unfolding missing
ram-Vacant = record {
  tree = ram-Tree;
  slots = λ i lt. (omega (arith, lt), λ e. absurd (omega (arith, lt, e)));
  from = λ i lt. omega arith;
  upto = λ i lt. omega (arith, lt);
  room = omega arith;
  unmapped = λ i lt.
      ram-unmapped (0x80_0000 + i * 0x1000) (omega (arith, lt), λ e. absurd (omega (arith, lt, e)));
}

-- A segment of 0x2100 bytes at 0x800020 needs three pages.
region_alloc-Filled_example :
    Filled ram 101 3 0x80_0000 (countdown 100) (region_alloc 101 0x80_0020 0x2100 ram)
region_alloc-Filled_example =
    region_alloc-Filled ram 101 0x80_0020 0x2100 2 1 (countdown 100) (omega arith) ram-Vacant

ram-stacks : Spans ram 101 (λ va. 0) 0x3bf 1 (countdown 100)
unfolding missing
ram-stacks = record { tree = ram-Tree; maps = ram-unmapped; room = omega arith }

mem_init_mp-Separate_example : Separate kstack ram (mem_init_mp kstack ram)
mem_init_mp-Separate_example =
    mem_init_mp-Separate ram kstack (λ va. 0) (countdown 100)
      (λ i lt. (omega arith, omega (arith, lt))) (λ va e. refl) ram-stacks

-- Stub n is at address 0xf0100000 + 10 n.
trap_init-Guards_example :
    Guards
      (0xf010_0000 + 480)
      48
      (trap_init (λ n. (0xf010_0000 + n * 10) % 0x1_0000_0000) (λ n. no_gate) 48)
trap_init-Guards_example =
    trap_init-Guards (λ n. (0xf010_0000 + n * 10) % 0x1_0000_0000) 48 (λ n. omega arith)

-- The directory has page 102 as its first table, whose second entry maps page 103.
abbrev mapped : Memory
mapped = record ram {
  pages = λ p.
      if p == 103
      then record { pp_link = none; pp_ref = 1 }
      else record { pp_link = before p; pp_ref = 0 };
  frame = λ p i.
      if p == 101
      then if i == 0 then 0x6_6007 else if i == 957 then 0x6_5005 else 0
      else if p == 102
      then if i == 1 then 0x6_7007 else 0
      else 0;
}

mapped-FreeList : FreeList mapped (countdown 100)
unfolding FreeList
mapped-FreeList = (refl, countdown-Linked mapped 100 (omega arith) refl (λ p le. unused p le))
  where
    unused : (p : ℕ) → p ≤ 100 → mapped.pages p ≡ record { pp_link = before p; pp_ref = 0 }
    unused p le = let other : (p == 103) ≡ false = ground arith in rw other refl

first_only : (i : ℕ) → i ≢ 957 → mapped.frame 101 i ≢ 0 → i ≡ 0
first_only i ne used = ground arith

mapped-Tree : Tree mapped 101 (countdown 100)
mapped-Tree = record {
  free = mapped-FreeList;
  dir_used = NotIn-countdown 101 100 (omega arith);
  tables = λ i slot used.
      subst (λ i. IsTable mapped 101 (pgnum (mapped.frame 101 i)) (countdown 100))
        (sym (first_only i slot.1 used))
        (record {
          inside = omega arith;
          apart = λ e. absurd (omega (arith, e));
          not_free = NotIn-countdown 102 100 (omega arith);
        });
  distinct = λ i j si sj ne used used'.
      absurd (ne (first_only i si.1 used ∙ sym (first_only j sj.1 used')));
}

mapped-IsData : IsData mapped 101 103 0 (countdown 100)
mapped-IsData = record {
  inside = omega arith;
  not_free = NotIn-countdown 103 100 (omega arith);
  unlinked = refl;
  refs = refl;
  fits = omega arith;
  no_dir = λ e. absurd (omega (arith, e));
  no_table = λ i slot used.
      subst (λ i. pgnum (mapped.frame 101 i) ≢ 103) (sym (first_only i slot.1 used))
        (λ e. absurd (omega (arith, e)));
}

mapped-entry : mapping mapped 101 0x1000 ≡ 0x6_7007
unfolding mapping entry_at
mapped-entry = refl

page_remove-Removed_example :
    Removed mapped 101 0x1000
      (pgnum (mapping mapped 101 0x1000))
      0
      (countdown 100)
      (page_remove 101 0x1000 mapped)
unfolding mapping entry_at
page_remove-Removed_example =
    page_remove-Removed mapped 101 0x1000 0 (countdown 100) mapped-Tree
      (omega arith, λ e. absurd (omega (arith, e))) (λ e. absurd (omega (arith, e))) mapped-IsData

mapped-Target : Target mapped 101 0x1000 (countdown 100)
unfolding Target mapping entry_at
mapped-Target = inr ((λ e. absurd (omega (arith, e))), 0, omega arith, mapped-IsData)

-- Page 103 makes way for page 104.
page_insert-Inserted_example :
    Inserted mapped 101 104 0x1000 7 (countdown 100) (page_insert 101 104 0x1000 7 mapped)
unfolding missing
page_insert-Inserted_example =
    page_insert-Inserted mapped 101 104 0x1000 7 0 1 (countdown 100) mapped-Tree
      (omega arith, λ e. absurd (omega (arith, e))) (omega arith) (omega arith) (omega arith)
      (NotIn-countdown 104 100 (omega arith)) mapped-Target
