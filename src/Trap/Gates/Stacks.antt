-- ===== src/Trap/Gates/Stacks.antt =====
-- The stack that a CPU gets on a trap from user mode is the one that mem_init_mp maps for it.
use sched_v2_solution.Base.{
  ℕ, zero, suc, ◌+◌, ◌-◌, ◌*◌, ◌/◌, ◌<◌, ◌≤◌, ◌≡◌, refl, List, Option, some, sym, ap, subst, ◌∙◌,
  inl, inr, true, false, arith, ltb, leb, ◌==◌, ◌&&◌, Bool-cases, ==_iff, update_self,
}
use sched_v2_solution.Kernel.Ram.{Memory}
use sched_v2_solution.Pmap.Table.{pdx}
use sched_v2_solution.Pmap.Table.Space.{mapping, IsSlot}
use sched_v2_solution.Pmap.Boot.{kernbase, map_stacks, mem_init_mp}
use sched_v2_solution.Pmap.Boot.Remapped.{remapped, region_entry}
use sched_v2_solution.Pmap.Boot.Kernel.Stacks.{stacks, Spans, Ends, map_stacks-Ends}
use sched_v2_solution.Trap.Gates.{Taskstate, Percpu, trap_init_percpu}

-- The first address behind the stack of CPU i.
abbrev pub stack_top : ℕ → ℕ
stack_top i = kernbase - i * 0x1_0000

percpu-top :
    (i : ℕ) (ts_va : ℕ → ℕ) (s : Percpu)
    → i < 8
    → ((trap_init_percpu i ts_va s).cpu_ts i).ts_esp0 ≡ stack_top i
unfolding trap_init_percpu
percpu-top i ts_va s lt =
    ap (λ t. Taskstate.ts_esp0 t) (update_self s.cpu_ts i _) ∙ omega (arith, lt)

-- The address space at the stack of CPU i, and at the gap below it.
stacks-inside :
    (n i : ℕ) (kstack f : ℕ → ℕ) (va : ℕ)
    → i < n
    → n ≤ 8
    → stack_top i - 0x8000 ≤ va
    → va < stack_top i
    → stacks n kstack f va
      ≡ region_entry
          (kstack i - kernbase + (va / 0x1000 - (stack_top i - 0x8000) / 0x1000) * 0x1000)
          3
unfolding stacks remapped
stacks-inside zero i kstack f va lt le from below = absurd (omega (arith, lt))
stacks-inside (suc n) i kstack f va lt le from below = elim (Bool-cases (i == n)) [
  | inl this ↦
      let here : (leb ((kernbase - i * 0x1_0000 - 0x8000) / 0x1000) (va / 0x1000)
            && ltb (va / 0x1000) ((kernbase - i * 0x1_0000 - 0x8000) / 0x1000 + 8))
          ≡ true =
        ground (arith, lt, le, from, below) in
      subst
        (λ n.
          remapped 8 (kernbase - n * 0x1_0000 - 0x8000) (kstack n - kernbase) 3 (stacks n kstack f)
            va
          ≡ region_entry
              (kstack i - kernbase + (va / 0x1000 - (stack_top i - 0x8000) / 0x1000) * 0x1000) 3)
        ((==_iff i n).0 this) (rw here refl)
  | inr other ↦
      let earlier : i < n = ground (arith, lt, other) in
      let away : (leb ((kernbase - n * 0x1_0000 - 0x8000) / 0x1000) (va / 0x1000)
            && ltb (va / 0x1000) ((kernbase - n * 0x1_0000 - 0x8000) / 0x1000 + 8))
          ≡ false =
        ground (arith, earlier, le, from) in
      rw away (stacks-inside n i kstack f va earlier (omega (arith, le)) from below)
]

stacks-gap :
    (n i : ℕ) (kstack f : ℕ → ℕ) (va : ℕ)
    → i < 8
    → n ≤ 8
    → stack_top i - 0x1_0000 ≤ va
    → va < stack_top i - 0x8000
    → stacks n kstack f va ≡ f va
unfolding stacks remapped
stacks-gap zero i kstack f va lt le from below = refl
stacks-gap (suc n) i kstack f va lt le from below =
    let away : (leb ((kernbase - n * 0x1_0000 - 0x8000) / 0x1000) (va / 0x1000)
          && ltb (va / 0x1000) ((kernbase - n * 0x1_0000 - 0x8000) / 0x1000 + 8))
        ≡ false =
      elim (Bool-cases (leb n i)) [
        | inl before ↦ ground (arith, before, lt, le, from, below)
        | inr after ↦ ground (arith, after, lt, le, from, below)
      ] in
    rw away (stacks-gap n i kstack f va lt (omega (arith, le)) from below)

-- In the address space, the 32 KB below the stack pointer of CPU i are its own stack, and nothing is
-- mapped in the 32 KB below that.
pub record OwnStack (i : ℕ) (kstack : ℕ → ℕ) (space : ℕ → ℕ) (ts : Taskstate) : Type 0 where
  pub stack :
      (va : ℕ)
      → ts.ts_esp0 - 0x8000 ≤ va
      → va < ts.ts_esp0
      → space va
        ≡ region_entry
            (kstack i - kernbase + (va / 0x1000 - (ts.ts_esp0 - 0x8000) / 0x1000) * 0x1000)
            3
  pub gap : (va : ℕ) → ts.ts_esp0 - 0x1_0000 ≤ va → va < ts.ts_esp0 - 0x8000 → space va ≡ 0

stacks-OwnStack :
    (i : ℕ) (ts_va kstack f space : ℕ → ℕ) (s : Percpu)
    → i < 8
    → ((va : ℕ) → pdx va ≡ 0x3bf → f va ≡ 0)
    → ((va : ℕ) → IsSlot (pdx va) → space va ≡ stacks 8 kstack f va)
    → OwnStack i kstack space ((trap_init_percpu i ts_va s).cpu_ts i)
stacks-OwnStack i ts_va kstack f space s lt unmapped is =
    let ts = (trap_init_percpu i ts_va s).cpu_ts i in
    let top : ts.ts_esp0 ≡ stack_top i = percpu-top i ts_va s lt in
    record {
      stack = λ va from below.
          is va (omega (arith, below, top), λ e. absurd (omega (arith, from, top, lt, e)))
          ∙ stacks-inside 8 i kstack f va lt (omega arith) (omega (arith, from, top))
              (omega (arith, below, top))
          ∙ ap
              (λ t.
                region_entry (kstack i - kernbase + (va / 0x1000 - (t - 0x8000) / 0x1000) * 0x1000)
                  3)
              (sym top);
      gap = λ va from below.
          is va (omega (arith, below, top), λ e. absurd (omega (arith, from, top, lt, e)))
          ∙ stacks-gap 8 i kstack f va lt (omega arith) (omega (arith, from, top))
              (omega (arith, below, top))
          ∙ unmapped va (omega (arith, from, below, top, lt));
    }

-- Memory that mem_init_mp returns, in which each CPU traps to a stack of its own.
pub record Separate (kstack : ℕ → ℕ) (m : Memory) (o : Option (Unit {0} × Memory)) : Type 0 where
  pub after : Memory
  pub is : o ≡ some (tt, after)
  pub own :
      (i : ℕ) (ts_va : ℕ → ℕ) (s : Percpu)
      → i < 8
      → OwnStack i kstack (mapping after m.kern_pgdir) ((trap_init_percpu i ts_va s).cpu_ts i)

-- When the kernel's directory maps nothing in the 4 MB below KSTACKTOP, the stacks are kernel
-- memory, and there is a free page if their page table is missing, mem_init_mp returns. Afterwards,
-- for each of the eight CPUs, the KSTKSIZE bytes below the stack pointer that trap_init_percpu puts
-- in the CPU's task state are mapped, page for page, to the CPU's own element of percpu_kstacks, for
-- the kernel alone, and nothing is mapped in the KSTKGAP bytes below that.
pub mem_init_mp-Separate :
    (m : Memory) (kstack f : ℕ → ℕ) (ps : List ℕ)
    → ((i : ℕ) → i < 8 → (kernbase ≤ kstack i) × (kstack i + 0x8000 ≤ 0x1_0000_0000))
    → ((va : ℕ) → pdx va ≡ 0x3bf → f va ≡ 0)
    → Spans m m.kern_pgdir f 0x3bf 1 ps
    → Separate kstack m (mem_init_mp kstack m)
unfolding mem_init_mp
mem_init_mp-Separate m kstack f ps high unmapped h =
    let e : Ends m.kern_pgdir m.kern_pgdir (stacks 8 kstack f) 0x3bf 1 (map_stacks 8 kstack m) =
      map_stacks-Ends 8 m kstack f 0x3bf 1 ps (omega arith) (omega arith) (omega arith)
        (omega arith) high unmapped h in
    record {
      after = e.after;
      is = e.is;
      own = λ i ts_va s lt.
          stacks-OwnStack i ts_va kstack f (mapping e.after m.kern_pgdir) s lt unmapped
            e.spans.maps;
    }
