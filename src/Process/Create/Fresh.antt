-- ===== src/Process/Create/Fresh.antt =====
-- What env_alloc returns: the identity and the state of the new environment.
use sched_v2_solution.Base.{
  ℕ, ◌+◌, ◌*◌, ◌/◌, ◌%◌, ◌≤◌, ◌<◌, ◌≡◌, ◌≢◌, inl, inr, refl, sym, ◌∙◌, Bool, true, false, Option,
  none, some, arith, ==_self, Option-cases, bit_or, bit_or-below,
}
use sched_v2_solution.Kernel.{panicked, Kernel, Stop, set_env}
use sched_v2_solution.Kernel.Ram.{Memory}
use sched_v2_solution.Kernel.Pcb.{nenv, envx, runnable, user, env_priority_default}
use sched_v2_solution.Pmap.Alloc.{page_alloc}
use sched_v2_solution.Process.Cmd.{
  Run, done, stopped, Result, ok, err, no_mem, no_free_env, lift, ◌>>=◌, ◌>>?◌,
}
use sched_v2_solution.Process.Lookup.{envid2env}
use sched_v2_solution.Process.Lookup.Permission.{envid2env-Names}
use sched_v2_solution.Process.Create.{
  next_generation, fresh_env, fill_pgdir, setup_with, env_setup_vm, commit, alloc_slot, env_alloc,
}

-- The new generation: at least 4, a multiple of 1024 as an id, and not the old one.
record NextGeneration (id g : ℕ) : Type 0 where
  whole : g % 1024 ≡ 0
  positive : 0x1000 ≤ g
  fits : g < 0x8000_0000
  new : g ≢ id / 1024 * 1024

next_generation-NextGeneration :
    (id : ℕ) → id < 0x8000_0000 → NextGeneration id (next_generation id)
unfolding next_generation
next_generation-NextGeneration id h = record {
  whole = ground arith;
  positive = ground arith;
  fits = ground arith;
  new = ground arith;
}

-- A fresh id of slot i.
pub record FreshId (i old id : ℕ) : Type 0 where
  pub slot : envx id ≡ i
  pub positive : 0 < id
  pub fits : id < 0x8000_0000
  pub new : id ≢ old

fresh-FreshId :
    (i old : ℕ) → i < nenv → old < 0x8000_0000 → FreshId i old (bit_or (next_generation old) i)
fresh-FreshId i old lt fits =
    let n = next_generation-NextGeneration old fits in
    let q = next_generation old / 1024 in
    let split : next_generation old ≡ q * 1024 = omega (arith, n.whole) in
    let sum : bit_or (next_generation old) i ≡ next_generation old + i =
      rw split (bit_or-below 10 q i lt) in
    record {
      slot = omega (arith, sum, n.whole);
      positive = omega (arith, sum, n.positive);
      fits = omega (arith, sum, n.fits, n.whole);
      new = λ same. n.new (omega (arith, sum, same, n.whole));
    }

-- The environment in slot e has been created: it was the head of the free list, it has a new id
-- and the caller's id as its parent's, it is RUNNABLE with nothing left of its predecessor, and
-- the rest of the process table is as it was.
pub record Created (parent_id e : ℕ) (k k' : Kernel) : Type 0 where
  pub head : k.env_free_list ≡ some e
  pub list : k'.env_free_list ≡ (k.envs e).env_link
  pub id : (k'.envs e).env_id ≡ bit_or (next_generation (k.envs e).env_id) e
  pub parent : (k'.envs e).env_parent_id ≡ parent_id
  pub status : (k'.envs e).env_status ≡ runnable
  pub type : (k'.envs e).env_type ≡ user
  pub recving : (k'.envs e).env_ipc_recving ≡ false
  pub sleep : (k'.envs e).env_sleep_until ≡ 0
  pub priority : (k'.envs e).env_priority ≡ env_priority_default
  pub wait : (k'.envs e).env_wait_ticks ≡ 0
  pub pgdir : (p : ℕ) × ((k'.envs e).env_pgdir ≡ some p)
  pub others : (i : ℕ) → e ≢ i → k'.envs i ≡ k.envs i
  pub cpus : k'.cpus ≡ k.cpus

-- The kernel with its page directory p set up, and then with the environment in place.
abbrev with_pgdir : ℕ → ℕ → Memory → Kernel → Kernel
with_pgdir e p m k =
    let k0 = record k { memory = m } in
    set_env (record k0 { memory = fill_pgdir p k0.memory }) e
      (record (k0.envs e) { env_pgdir = some p })

abbrev committed : ℕ → ℕ → Kernel → Kernel
committed parent_id e k =
    set_env (record k { env_free_list = (k.envs e).env_link }) e (fresh_env e parent_id (k.envs e))

committed-Created :
    (parent_id e p : ℕ) (m : Memory) (k : Kernel)
    → k.env_free_list ≡ some e
    → Created parent_id e k (committed parent_id e (with_pgdir e p m k))
unfolding set_env fresh_env
committed-Created parent_id e p m k first = rw (==_self e) (record {
  head = first;
  list = ground arith;
  id = ground arith;
  parent = ground arith;
  status = ground arith;
  type = ground arith;
  recving = ground arith;
  sleep = ground arith;
  priority = ground arith;
  wait = ground arith;
  pgdir = (p, ground arith);
  others = λ i ne. ground arith;
  cpus = refl;
})

-- The outcomes of env_alloc: no slot, no page, a panic of page2kva, or the environment.
pub data Alloc (parent_id : ℕ) (k : Kernel) : Run (Result ℕ) → Type 0 where
  no_slot : k.env_free_list ≡ none → Alloc parent_id k (done (err no_free_env) k)
  no_page :
      (m : Memory)
      → page_alloc true k.memory ≡ some (none, m)
      → Alloc parent_id k (done (err no_mem) (record k { memory = m }))
  broken :
      (s : Stop)
      → s.exit ≡ panicked
      → page_alloc true k.memory ≡ none
      → Alloc parent_id k (stopped s)
  created : (e : ℕ) (k' : Kernel) → Created parent_id e k k' → Alloc parent_id k (done (ok e) k')

slot-Alloc :
    (parent_id e : ℕ) (k : Kernel) (o : Option (Option ℕ × Memory))
    → k.env_free_list ≡ some e
    → page_alloc true k.memory ≡ o
    → Alloc parent_id k (alloc_slot parent_id (some e) k)
unfolding alloc_slot env_setup_vm commit setup_with
slot-Alloc parent_id e k none first page = rw (page, lift, ◌>>=◌, ◌>>?◌) (broken _ refl page)
slot-Alloc parent_id e k (some (none, m)) first page =
    rw (page, lift, ◌>>=◌, ◌>>?◌) (no_page m page)
slot-Alloc parent_id e k (some (some p, m)) first page =
    rw (page, lift, ◌>>=◌, ◌>>?◌) (created e _ (committed-Created parent_id e p m k first))

free_list-Alloc :
    (parent_id : ℕ) (k : Kernel) (o : Option ℕ)
    → k.env_free_list ≡ o
    → Alloc parent_id k (alloc_slot parent_id o k)
unfolding alloc_slot
free_list-Alloc parent_id k (some e) first = slot-Alloc parent_id e k _ first refl
free_list-Alloc parent_id k none first = no_slot first

-- env_alloc fails without a free slot, changing nothing, or without a free page, changing memory
-- alone, or panics where page2kva does; otherwise it takes the head of the free list and returns
-- it as a created environment: with a page directory and a new id, RUNNABLE, its parent and
-- everything that the scheduler reads set, and no other slot changed.
pub env_alloc-Alloc : (parent_id : ℕ) (k : Kernel) → Alloc parent_id k (env_alloc parent_id k)
unfolding env_alloc
env_alloc-Alloc parent_id k = free_list-Alloc parent_id k k.env_free_list refl

-- When environment e has been created in a slot whose old id was not negative, its id is positive,
-- fits in an int32_t and is not the old one, it is found under its new id, and any id that lies in
-- the same slot but is neither the new one nor 0, which names the caller, is refused: so is the
-- old one, unless it was 0.
pub Created-lookup :
    (parent_id e : ℕ) (k k' : Kernel)
    → Created parent_id e k k'
    → e < nenv
    → (k.envs e).env_id < 0x8000_0000
    → FreshId e (k.envs e).env_id (k'.envs e).env_id
      × ((me : ℕ) → envid2env me k' (k'.envs e).env_id false ≡ some e)
      × ((me stale : ℕ) (c : Bool)
          → stale ≢ 0
          → envx stale ≡ e
          → stale ≢ (k'.envs e).env_id
          → envid2env me k' stale c ≡ none)
Created-lookup parent_id e k k' new lt fits =
    let fresh : FreshId e (k.envs e).env_id (k'.envs e).env_id =
      rw new.id (fresh-FreshId e (k.envs e).env_id lt fits) in
    (
      fresh,
      (λ me.
          (envid2env-Names me k' (k'.envs e).env_id false e
              (λ z. absurd (nonzero fresh.positive z))).1
            (record {
              slot = sym fresh.slot;
              in_use = rw new.status;
              same_id = refl;
              allowed = λ no. absurd (cc);
            })),
      λ me stale c nz here other. elim (Option-cases (envid2env me k' stale c)) [
        | inl lost ↦ lost
        | inr (i, found) ↦
            let n = (envid2env-Names me k' stale c i nz).0 found in
            let at_e : i ≡ e = n.slot ∙ here in absurd (other (sym (rw at_e at n.same_id)))
      ],
    )
  where
    nonzero : 0 < (k'.envs e).env_id → (k'.envs e).env_id ≡ 0 → ⊥
    nonzero a b = omega arith
