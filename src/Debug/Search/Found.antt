-- ===== src/Debug/Search/Found.antt =====
-- The search brackets the address.
use sched_v2_solution.Base.{
  ℕ, zero, suc, ◌+◌, ◌-◌, ◌*◌, ◌<◌, ◌≤◌, ◌≡◌, ◌≢◌, ◌⊎◌, refl, ◌∙◌, inl, inr, true, false, Option,
  some, arith, ltb, ◌==◌,
}
use sched_v2_solution.Debug.Search.{
  Stab, Region, Search, search_loop, rightmost, settle, stab_binsearch,
}
use sched_v2_solution.Debug.Search.Ends.{Over, search_loop-Over, start, start_le}
use sched_v2_solution.Debug.Search.Around.{Contains, Around, search_loop-Around}

-- The region runs from stab k to the end or to right before the next stab of the type.
pub record Brackets (stabs : ℕ → Stab) (type r k : ℕ) (g : Region) : Type 0 where
  pub left_at : g.left ≡ k + 1
  pub right_le : g.right ≤ r
  pub behind : k < g.right
  pub alone : (j : ℕ) → k < j → j < g.right → Stab.n_type (stabs j) ≢ type
  pub next_or_end : (g.right ≡ r) ⊎ (Stab.n_type (stabs g.right) ≡ type)

-- A call that returns such a region.
pub record Found (stabs : ℕ → Stab) (type r k : ℕ) (o : Option Region) : Type 0 where
  pub region : Region
  pub is : o ≡ some region
  pub brackets : Brackets stabs type r k region

module _ (stabs : ℕ → Stab) (type addr l₀ r₀ k : ℕ) (h : Contains stabs type addr l₀ r₀ k) where
  rightmost-alone :
      (left n : ℕ)
      → ((j : ℕ) → left ≤ j → j < left + n → Stab.n_type (stabs j) ≢ type)
      → rightmost stabs type left n ≡ left
  unfolding rightmost
  rightmost-alone left zero alone = refl
  rightmost-alone left (suc n) alone =
      let other : (Stab.n_type (stabs (left + n)) == type) ≡ false =
        unequal (alone (left + n) (omega arith) (omega arith)) in
      rw other (rightmost-alone left n (λ j lo hi. alone j lo (omega (arith, hi))))
    where
      unequal : {a : ℕ} → a ≢ type → (a == type) ≡ false
      unequal differs = ground arith

  settle-Brackets :
      (s : Search)
      → s.r ≤ s.l
      → Around stabs type addr l₀ r₀ k h s
      → Brackets stabs type r₀ k (settle stabs type s)
  unfolding settle
  settle-Brackets s crossed a =
      let at_k : (s.region.left ≡ k + 1) × (s.any_matches ≡ true) = elim a.still [
        | inl before ↦ absurd (omega (arith, before, crossed, a.k_lt))
        | inr at_left ↦ at_left
      ] in
      let in_order : ltb s.region.right s.region.left ≡ false = ordered a.right_is at_k.0 a.k_lt in
      let alone : (j : ℕ) → k < j → j < s.r → Stab.n_type (stabs j) ≢ type = λ j after lt same.
        absurd (
          omega (
            arith,
            after,
            a.passed j (omega (arith, h.first, after)) (omega (arith, lt, crossed)) same,
          )) in
      let stays : rightmost stabs type s.region.left (s.region.right - s.region.left) ≡ k + 1 =
        rightmost-alone s.region.left (s.region.right - s.region.left) (λ j lo hi.
          alone j (omega (arith, lo, at_k.0))
            (omega (arith, hi, in_order_le a.right_is at_k.0 a.k_lt, a.right_is)))
        ∙ at_k.0 in
      rw (at_k.1, in_order)
        (record {
          left_at = stays;
          right_le = omega (arith, a.right_is, a.r_le);
          behind = omega (arith, a.right_is, a.k_lt);
          alone = λ j after lt. alone j after (omega (arith, lt, a.right_is));
          next_or_end = rw a.right_is a.edge;
        })
    where
      ordered : {right left r : ℕ} → right ≡ r → left ≡ k + 1 → k < r → ltb right left ≡ false
      ordered e e' lt = ground arith

      in_order_le : {right left r : ℕ} → right ≡ r → left ≡ k + 1 → k < r → left ≤ right
      in_order_le e e' lt = omega arith

-- When stab k is the one of its type in the region that contains the address, no stab of the type
-- has the address plus one as its value, and the rounds are enough, stab_binsearch returns the
-- region from k to right before the next stab of the type, or to the end of the region searched.
pub stab_binsearch-Brackets :
    (stabs : ℕ → Stab) (type addr k rounds : ℕ) (g : Region)
    → addr + 1 < 0x1_0000_0000
    → Contains stabs type addr (g.left - 1) g.right k
    → 2 * (g.right - (g.left - 1)) + 1 < rounds
    → Found stabs type g.right k (stab_binsearch rounds stabs g type addr)
unfolding stab_binsearch
stab_binsearch-Brackets stabs type addr k rounds g fits h enough =
    let o : Over stabs type rounds (start g addr) =
      search_loop-Over stabs type rounds (start g addr)
        (omega (arith, start_le stabs type g addr, enough)) in
    found o.final o.crossed o.ends
  where
    found :
        (final : Search)
        → final.r ≤ final.l
        → search_loop rounds stabs type (start g addr) ≡ some final
        → Found stabs type g.right k (stab_binsearch rounds stabs g type addr)
    found final crossed e = record {
      region = settle stabs type final;
      is = rw (stab_binsearch, e) refl;
      brackets = settle-Brackets stabs type addr (g.left - 1) g.right k h final crossed (
          search_loop-Around stabs type addr (g.left - 1) g.right k h rounds (start g addr) final
            fits begins e);
    }
      where
        begins : Around stabs type addr (g.left - 1) g.right k h (start g addr)
        begins = record {
          l_ge = omega arith;
          r_le = omega arith;
          k_lt = h.last;
          right_is = refl;
          edge = inl refl;
          passed = λ j lo hi same. absurd (omega (arith, lo, hi));
          addr_ge = omega arith;
          addr_le = omega arith;
          still = inl h.first;
        }
