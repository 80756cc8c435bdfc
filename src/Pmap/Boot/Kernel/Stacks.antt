-- ===== src/Pmap/Boot/Kernel/Stacks.antt =====
-- The address space after mem_init_mp.
use sched_v2_solution.Base.{
  ℕ, zero, suc, ◌+◌, ◌-◌, ◌*◌, ◌/◌, ◌<◌, ◌≤◌, ◌≡◌, ◌≢◌, refl, sym, subst, ◌∙◌, inl, inr, false,
  Option, some, List, length, arith, ltb, leb, ◌&&◌, Bool-cases,
}
use sched_v2_solution.Kernel.Ram.{Memory}
use sched_v2_solution.Pmap.Table.{pdx}
use sched_v2_solution.Pmap.Table.Space.{mapping, IsSlot, Tree}
use sched_v2_solution.Pmap.Table.Space.Room.{missing}
use sched_v2_solution.Pmap.Boot.{boot_map_region, map_stacks, kernbase, paddr}
use sched_v2_solution.Pmap.Boot.Remapped.{remapped}
use sched_v2_solution.Pmap.Boot.Region.{Region, Done, boot_map_region-Done}

-- Memory in which the directory maps the address space f, with free pages for the tables that are
-- missing among the k entries from w on.
pub record Spans (m : Memory) (pgdir : ℕ) (f : ℕ → ℕ) (w k : ℕ) (ps : List ℕ) : Type 0 where
  pub tree : Tree m pgdir ps
  pub maps : (va : ℕ) → IsSlot (pdx va) → mapping m pgdir va ≡ f va
  pub room : missing (m.frame pgdir) w k ≤ length ps

-- A command that returns memory in which the directory maps the address space f.
pub record Ends (pgdir kern : ℕ) (f : ℕ → ℕ) (w k : ℕ) (o : Option (Unit {0} × Memory))
    : Type 0 where
  pub after : Memory
  pub rest : List ℕ
  pub is : o ≡ some (tt, after)
  pub spans : Spans after pgdir f w k rest
  pub kern_is : after.kern_pgdir ≡ kern

-- The addresses of a region: n pages from va on, all in directory entries from w on below w + k,
-- none of them that of UVPT.
pub record Inside (n va w k : ℕ) : Type 0 where
  pub first : w * 0x40_0000 ≤ va
  pub last : va + n * 0x1000 ≤ (w + k) * 0x40_0000
  pub top : w + k ≤ 1024
  pub not_uvpt : (i : ℕ) → i < n → pdx (va + i * 0x1000) ≢ 0x3bd

remapped-ext :
    (n va pa perm va' : ℕ) (f g : ℕ → ℕ)
    → f va' ≡ g va'
    → remapped n va pa perm f va' ≡ remapped n va pa perm g va'
unfolding remapped
remapped-ext n va pa perm va' f g e =
    elim (Bool-cases (leb (va / 0x1000) (va' / 0x1000) && ltb (va' / 0x1000) (va / 0x1000 + n))) [
      | inl inside ↦ rw inside refl
      | inr outside ↦ rw outside e
    ]

-- boot_map_region of a region that the address space does not map.
pub region-Ends :
    (m : Memory) (pgdir va size pa perm w k : ℕ) (ps : List ℕ) (f : ℕ → ℕ)
    → Spans m pgdir f w k ps
    → Inside ((size + 0xfff) / 0x1000) va w k
    → pa + (size + 0xfff) / 0x1000 * 0x1000 ≤ 0x1_0000_0000
    → ((i : ℕ) → i < (size + 0xfff) / 0x1000 → f (va + i * 0x1000) ≡ 0)
    → Ends pgdir m.kern_pgdir
        (remapped ((size + 0xfff) / 0x1000) va pa perm f)
        w
        k
        (boot_map_region pgdir va size pa perm m)
region-Ends m pgdir va size pa perm w k ps f h at fits unmapped =
    let n = (size + 0xfff) / 0x1000 in
    let slots : (i : ℕ) → i < n → IsSlot (pdx (va + i * 0x1000)) =
      λ i lt. (omega (arith, at.last, at.top, lt), at.not_uvpt i lt) in
    let region : Region m pgdir n va w k 0 ps = record {
      tree = h.tree;
      slots = slots;
      from = λ i lt. omega (arith, at.first);
      upto = λ i lt. omega (arith, at.last, lt);
      room = omega (arith, h.room);
      unmapped = λ i lt. h.maps (va + i * 0x1000) (slots i lt) ∙ unmapped i lt;
      fits = omega (arith, at.last, at.top);
    } in
    let done : Done m pgdir n va pa perm w k 0 (boot_map_region pgdir va size pa perm m) =
      boot_map_region-Done m pgdir va size pa perm w k 0 ps region fits in
    record {
      after = done.after;
      rest = done.rest;
      is = done.is;
      spans = record {
        tree = done.tree;
        maps = λ va' slot.
            done.maps va' slot
            ∙ remapped-ext n va pa perm va' (mapping m pgdir) f (h.maps va' slot);
        room = omega (arith, done.room);
      };
      kern_is = done.kern;
    }

-- The address space with the first n kernel stacks: that of CPU i ends i * 64K below KSTACKTOP.
unfoldable pub stacks : (n : ℕ) (kstack : ℕ → ℕ) → (ℕ → ℕ) → ℕ → ℕ
stacks zero kstack f = f
stacks (suc n) kstack f =
    remapped 8 (kernbase - n * 0x1_0000 - 0x8000) (kstack n - kernbase) 3 (stacks n kstack f)

-- Below the stacks nothing changes.
pub stacks-below :
    (n : ℕ) (kstack f : ℕ → ℕ) (va : ℕ)
    → n ≤ 8
    → va / 0x1000 + 16 * n < 0xf0008
    → stacks n kstack f va ≡ f va
unfolding stacks remapped
stacks-below zero kstack f va le lt = refl
stacks-below (suc n) kstack f va le lt =
    let outside : leb ((kernbase - n * 0x1_0000 - 0x8000) / 0x1000) (va / 0x1000) ≡ false =
      ground (arith, lt, le) in
    rw outside (stacks-below n kstack f va (omega (arith, le)) (omega (arith, lt)))

pub map_stacks-Ends :
    (n : ℕ) (m : Memory) (kstack f : ℕ → ℕ) (w k : ℕ) (ps : List ℕ)
    → n ≤ 8
    → w ≤ 0x3bf
    → 0x3bf < w + k
    → w + k ≤ 1024
    → ((i : ℕ) → i < 8 → (kernbase ≤ kstack i) × (kstack i + 0x8000 ≤ 0x1_0000_0000))
    → ((va : ℕ) → pdx va ≡ 0x3bf → f va ≡ 0)
    → Spans m m.kern_pgdir f w k ps
    → Ends m.kern_pgdir m.kern_pgdir (stacks n kstack f) w k (map_stacks n kstack m)
unfolding map_stacks stacks paddr
map_stacks-Ends zero m kstack f w k ps le in_w in_k top at unmapped h = record {
  after = m;
  rest = ps;
  is = refl;
  spans = h;
  kern_is = refl;
}
map_stacks-Ends (suc n) m kstack f w k ps le in_w in_k top at unmapped h =
    let before : Ends m.kern_pgdir m.kern_pgdir (stacks n kstack f) w k (map_stacks n kstack m) =
      map_stacks-Ends n m kstack f w k ps (omega (arith, le)) in_w in_k top at unmapped h in
    let va = kernbase - n * 0x1_0000 - 0x8000 in
    let (high, ends) = at n (omega (arith, le)) in
    let low : ltb (kstack n) kernbase ≡ false = ground (arith, high) in
    let inside : Inside 8 va w k = record {
      first = omega (arith, le, in_w);
      last = omega (arith, le, in_k);
      top = top;
      not_uvpt = λ i lt e. absurd (omega (arith, le, lt, e));
    } in
    let next : Ends m.kern_pgdir before.after.kern_pgdir (stacks (suc n) kstack f) w k
        (boot_map_region m.kern_pgdir va 0x8000 (kstack n - kernbase) 3 before.after) =
      region-Ends before.after m.kern_pgdir va 0x8000 (kstack n - kernbase) 3 w k before.rest
        (stacks n kstack f) before.spans inside (omega (arith, high, ends))
        (λ i lt.
          stacks-below n kstack f (va + i * 0x1000) (omega (arith, le)) (omega (arith, le, lt))
          ∙ unmapped (va + i * 0x1000) (omega (arith, le, lt))) in
    let next' : Ends m.kern_pgdir m.kern_pgdir (stacks (suc n) kstack f) w k
        (boot_map_region m.kern_pgdir va 0x8000 (kstack n - kernbase) 3 before.after) =
      subst
        (λ d.
          Ends m.kern_pgdir d (stacks (suc n) kstack f) w k
            (boot_map_region m.kern_pgdir va 0x8000 (kstack n - kernbase) 3 before.after))
        before.kern_is next in
    rw (map_stacks, before.is, low)
      (subst
        (λ d.
          Ends m.kern_pgdir m.kern_pgdir (stacks (suc n) kstack f) w k
            (boot_map_region d va 0x8000 (kstack n - kernbase) 3 before.after))
        (sym before.kern_is) next')
