-- ===== src/Process/Lookup/Permission.antt =====
-- Which environment an id names, and when the caller may act on it (envid2env).
use sched_v2_solution.Base.{
  ℕ, ◌≡◌, ◌≢◌, ◌↔◌, ◌⊎◌, inl, inr, refl, sym, subst, ◌∙◌, Bool, true, false, ◌||◌, ◌&&◌, not, none,
  some, arith, ◌==◌, if◌then◌else◌, Bool-cases, ==_iff,
}
use sched_v2_solution.Kernel.{Kernel}
use sched_v2_solution.Kernel.Pcb.{envx, is_free}
use sched_v2_solution.Process.Lookup.{envid2env}

-- The environment in slot i has the id, and the caller may act on it: there is no check, or it is
-- the caller itself or one of its children.
pub record Names (me : ℕ) (k : Kernel) (envid : ℕ) (checkperm : Bool) (i : ℕ) : Type 0 where
  pub slot : i ≡ envx envid
  pub in_use : is_free (k.envs i).env_status ≡ false
  pub same_id : (k.envs i).env_id ≡ envid
  pub allowed : checkperm ≡ true → (i ≡ me) ⊎ ((k.envs i).env_parent_id ≡ (k.envs me).env_id)

-- The three tests of envid2env, as one.
unfoldable accepts : (me : ℕ) → Kernel → (envid : ℕ) → Bool → ℕ → Bool
accepts me k envid checkperm i =
    not (is_free (k.envs i).env_status)
    && (k.envs i).env_id == envid
    && (not checkperm || i == me || (k.envs i).env_parent_id == (k.envs me).env_id)

envid2env-accepts :
    (me : ℕ) (k : Kernel) (envid : ℕ) (checkperm : Bool)
    → envid ≢ 0
    → envid2env me k envid checkperm
      ≡ (if accepts me k envid checkperm (envx envid) then some (envx envid) else none)
unfolding envid2env accepts
envid2env-accepts me k envid checkperm ne = ground arith

accepts-Names :
    (me : ℕ) (k : Kernel) (envid : ℕ) (checkperm : Bool)
    → accepts me k envid checkperm (envx envid) ≡ true
    → Names me k envid checkperm (envx envid)
unfolding accepts
accepts-Names me k envid checkperm e = record {
  slot = refl;
  in_use = ground arith;
  same_id = ground arith;
  allowed = λ c. elim (Bool-cases (envx envid == me)) [
    | inl own ↦ inl ((==_iff (envx envid) me).0 own)
    | inr other ↦ inr (ground arith)
  ];
}

Names-accepts :
    (me : ℕ) (k : Kernel) (envid : ℕ) (checkperm : Bool)
    → Names me k envid checkperm (envx envid)
    → accepts me k envid checkperm (envx envid) ≡ true
unfolding accepts
Names-accepts me k envid checkperm n = ground arith

-- For an id other than 0, envid2env returns slot i exactly when i is the slot of the id, the
-- environment there is in use and has this very id, and, if permission is checked, it is the
-- caller itself or one whose parent is the caller.
pub envid2env-Names :
    (me : ℕ) (k : Kernel) (envid : ℕ) (checkperm : Bool) (i : ℕ)
    → envid ≢ 0
    → (envid2env me k envid checkperm ≡ some i) ↔ Names me k envid checkperm i
envid2env-Names me k envid checkperm i ne = (
  (λ e. elim (Bool-cases (accepts me k envid checkperm (envx envid))) [
    | inl yes_a ↦
        let found : some (envx envid) ≡ some i = rw yes_a at (sym tests ∙ e) in
        let at_i : envx envid ≡ i = cc in
        subst (Names me k envid checkperm) at_i (accepts-Names me k envid checkperm yes_a)
    | inr no_a ↦ let lost : none ≡ some i = rw no_a at (sym tests ∙ e) in absurd (cc)
  ]),
  (λ n.
      let named : Names me k envid checkperm (envx envid) =
        subst (Names me k envid checkperm) n.slot n in
      tests ∙ rw (Names-accepts me k envid checkperm named, n.slot)),
)
  where
    tests :
        envid2env me k envid checkperm
        ≡ (if accepts me k envid checkperm (envx envid) then some (envx envid) else none)
    tests = envid2env-accepts me k envid checkperm ne
