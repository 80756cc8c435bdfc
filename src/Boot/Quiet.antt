-- ===== src/Boot/Quiet.antt =====
-- Before the first scheduling no environment is on a CPU, and none is RUNNING.
use sched_v2_solution.Base.{
  ◌-◌, ℕ, ◌≡◌, ◌≢◌, refl, sym, ap, subst, ◌∙◌, inl, inr, false, Option, none, some, arith, ◌==◌,
  Bool-cases, ==_iff,
}
use sched_v2_solution.Kernel.{Kernel, CpuInfo, panicked, set_env}
use sched_v2_solution.Kernel.Ram.{Memory}
use sched_v2_solution.Pmap.UserMem.{pgsize}
use sched_v2_solution.Kernel.Pcb.{Env, EnvType, is_free, is_running}
use sched_v2_solution.Strings.{Bytes}
use sched_v2_solution.Pmap.Alloc.{MemCmd}
use sched_v2_solution.Process.Cmd.{
  Cmd, Run, done, stopped, Result, ok, err, modify, panic, lift, ◌>>=◌, ◌>>◌,
}
use sched_v2_solution.Process.Create.{env_alloc, ustacktop}
use sched_v2_solution.Process.Create.Fresh.{
  Created, Alloc, no_slot, no_page, broken, created, env_alloc-Alloc,
}
use sched_v2_solution.Process.Load
use sched_v2_solution.Process.Load.{
  e_entry, e_phnum, e_phoff, load_into, load_icode, env_create, load_segments, region_alloc,
  e_magic, elf_magic,
}
use sched_v2_solution.Sched.Exclusive.{env_on}
use sched_v2_solution.Sched.Yield.Decide.{HasPgdir}

pub record Quiet (k : Kernel) : Type 0 where
  pub off : (c : ℕ) → env_on k c ≡ none
  pub idle : (i : ℕ) → is_running (k.envs i).env_status ≡ false
  pub pgdirs : HasPgdir k

-- What holds of a kernel that a function returns in; otherwise it panics.
abbrev pub Returns : {A : Type 0} → (Kernel → Type 0) → Run A → Type 0
Returns P (done a k) = P k
Returns P (stopped s) = s.exit ≡ panicked

-- The function leaves a quiet kernel quiet.
pub record Keeps {A : Type 0} (c : Cmd A) : Type 0 where
  pub at : (k : Kernel) → Quiet k → Returns Quiet (c k)

module _ {A B : Type 0} where
  after :
      (r : Run A) (f : A → Cmd B)
      → Returns Quiet r
      → ((a : A) → Keeps (f a))
      → Returns Quiet (elim r [ done a k ↦ f a k | stopped s ↦ stopped s ])
  after (done a k) f h g = (g a).at k h
  after (stopped s) f h g = h

  pub Keeps-bind : (c : Cmd A) (f : A → Cmd B) → Keeps c → ((a : A) → Keeps (f a)) → Keeps (c >>= f)
  Keeps-bind c f kc kf = record { at = λ k h. after (c k) f (kc.at k h) kf }

-- Memory and cr3 are none of its concern.
pub with_memory-Quiet : (m : Memory) (k : Kernel) → Quiet k → Quiet (record k { memory = m })
with_memory-Quiet m k h = record { off = h.off; idle = h.idle; pgdirs = h.pgdirs }

pub Keeps-lift : {A : Type 0} → (c : MemCmd A) → Keeps (lift c)
Keeps-lift {A = A} c = record { at = λ k h. go (c k.memory) k h }
  where
    go :
        (o : Option (A × Memory)) (k : Kernel)
        → Quiet k
        → Returns {A = A} Quiet (elim o [
          | none ↦ stopped (record { exit = panicked; kernel = k })
          | some (a, m) ↦ done a (record k { memory = m })
        ])
    go none k h = refl
    go (some (a, m)) k h = with_memory-Quiet m k h

pub Keeps-modify : (f : Kernel → Kernel) → ((k : Kernel) → Quiet k → Quiet (f k)) → Keeps (modify f)
Keeps-modify f kf = record { at = kf }

pub Keeps-panic : {A : Type 0} → Keeps {A = A} panic
Keeps-panic = record { at = λ k h. refl }

-- A write of an environment that leaves it not RUNNING and with a page directory.
pub set_env-Quiet :
    (k : Kernel) (e : ℕ) (env : Env)
    → Quiet k
    → is_running env.env_status ≡ false
    → (is_free env.env_status ≡ false → (p : ℕ) × (env.env_pgdir ≡ some p))
    → Quiet (set_env k e env)
unfolding set_env
set_env-Quiet k e env h idle pgdir = record {
  off = h.off;
  idle =
      λ i. elim (Bool-cases (e == i)) [ inl here ↦ rw here idle | inr other ↦ rw other (h.idle i) ];
  pgdirs = λ i. elim (Bool-cases (e == i)) [
    | inl here ↦ rw here pgdir
    | inr other ↦ rw other (h.pgdirs i)
  ];
}

-- What the other globals are makes no difference.
pub same_envs : (k k' : Kernel) → k'.envs ≡ k.envs → k'.cpus ≡ k.cpus → Quiet k → Quiet k'
same_envs k k' e c h = record {
  off = λ i. ap (λ f. CpuInfo.cpu_env (f i)) c ∙ h.off i;
  idle = λ i. ap (λ f. is_running (Env.env_status (f i))) e ∙ h.idle i;
  pgdirs = λ i used.
      let (p, at) = h.pgdirs i (ap (λ f. is_free (Env.env_status (f i))) (sym e) ∙ used) in
      (p, ap (λ f. Env.env_pgdir (f i)) e ∙ at);
}

-- load_icode changes the environment's trapframe and its memory.
load_into-Keeps : (b : Bytes) (e pgdir : ℕ) → Keeps (load_into b e pgdir)
unfolding load_into
load_into-Keeps b e pgdir =
    let enter : Kernel → Kernel = λ k. record k { cr3 = pgdir } in
    let start : Kernel → Kernel = λ k.
      set_env k e
        (record (k.envs e) { env_tf = record ((k.envs e).env_tf) { tf_eip = e_entry b } }) in
    let leave : Kernel → Kernel = λ k. record k { cr3 = k.memory.kern_pgdir } in
    let stack = region_alloc pgdir (ustacktop - pgsize) pgsize in
    let starts : Keeps (modify start) = Keeps-modify start (λ k h.
      set_env-Quiet k e
        (record (k.envs e) { env_tf = record ((k.envs e).env_tf) { tf_eip = e_entry b } }) h
        (h.idle e) (h.pgdirs e)) in
    let leaves : Keeps (modify leave) =
      Keeps-modify leave (λ k h. same_envs k (leave k) refl refl h) in
    let ends : Keeps (modify start >> modify leave) =
      Keeps-bind (modify start) (λ _. modify leave) starts (λ _. leaves) in
    Keeps-bind (modify enter)
      (λ _.
        lift (load_segments b (e_phnum b) pgdir (e_phoff b))
        >> (lift stack >> (modify start >> modify leave)))
      (Keeps-modify enter (λ k h. same_envs k (enter k) refl refl h))
      (λ _.
        Keeps-bind (lift (load_segments b (e_phnum b) pgdir (e_phoff b)))
          (λ _. lift stack >> (modify start >> modify leave))
          (Keeps-lift (load_segments b (e_phnum b) pgdir (e_phoff b)))
          (λ _.
            Keeps-bind (lift stack) (λ _. modify start >> modify leave) (Keeps-lift stack)
              (λ _. ends)))

load_icode-Keeps : (b : Bytes) (e : ℕ) → Keeps (load_icode b e)
unfolding load_icode
load_icode-Keeps b e = record {
  at = λ k h. elim (Bool-cases (e_magic b == elf_magic)) [
    | inl elf ↦ rw elf (go k h (k.envs e).env_pgdir)
    | inr other ↦ rw other refl
  ];
}
  where
    go :
        (k : Kernel)
        → Quiet k
        → (o : Option ℕ)
        → Returns {A = Unit {0}} Quiet
            (elim o [ none ↦ panic k | some pgdir ↦ load_into b e pgdir k ])
    go k h none = refl
    go k h (some pgdir) = (load_into-Keeps b e pgdir).at k h

Created-Quiet : (e : ℕ) (k k' : Kernel) → Quiet k → Created 0 e k k' → Quiet k'
Created-Quiet e k k' h new = record {
  off = λ c. ap (λ f. CpuInfo.cpu_env (f c)) new.cpus ∙ h.off c;
  idle = λ i. elim (Bool-cases (e == i)) [
    | inl here ↦
        subst (λ i. is_running (k'.envs i).env_status ≡ false) ((==_iff e i).0 here)
          (ap (λ s. is_running s) new.status)
    | inr other ↦
        let ne : e ≢ i = ground arith in
        ap (λ v. is_running (Env.env_status v)) (new.others i ne) ∙ h.idle i
  ];
  pgdirs = λ i used. elim (Bool-cases (e == i)) [
    | inl here ↦
        subst (λ i. (p : ℕ) × ((k'.envs i).env_pgdir ≡ some p)) ((==_iff e i).0 here) new.pgdir
    | inr other ↦
        let ne : e ≢ i = ground arith in
        let same : k'.envs i ≡ k.envs i = new.others i ne in
        let (p, at) = h.pgdirs i (ap (λ v. is_free (Env.env_status v)) (sym same) ∙ used) in
        (p, ap (λ v. Env.env_pgdir v) same ∙ at)
  ];
}

env_alloc-Keeps : Keeps (env_alloc 0)
env_alloc-Keeps = record { at = λ k h. go k h (env_alloc 0 k) (env_alloc-Alloc 0 k) }
  where
    go : (k : Kernel) → Quiet k → (r : Run (Result ℕ)) → Alloc 0 k r → Returns Quiet r
    go k h _ (no_slot none_left) = h
    go k h _ (no_page m none_left) = with_memory-Quiet m k h
    go k h _ (broken s is page) = is
    go k h _ (created e k' new) = Created-Quiet e k k' h new

created-Keeps : (b : Bytes) (type : EnvType) (r : Result ℕ) → Keeps (Load.created b type r)
unfolding Load.created
created-Keeps b type (err e) = Keeps-panic
created-Keeps b type (ok e) =
    let retype : Kernel → Kernel = λ k. set_env k e (record (k.envs e) { env_type = type }) in
    Keeps-bind (load_icode b e) (λ _. modify retype) (load_icode-Keeps b e)
      (λ _. Keeps-modify retype (λ k h.
        set_env-Quiet k e (record (k.envs e) { env_type = type }) h (h.idle e) (h.pgdirs e)))

pub env_create-Keeps : (b : Bytes) (type : EnvType) → Keeps (env_create b type)
unfolding env_create
env_create-Keeps b type =
    Keeps-bind (env_alloc 0) (Load.created b type) env_alloc-Keeps (created-Keeps b type)
