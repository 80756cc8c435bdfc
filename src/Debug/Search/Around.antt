-- ===== src/Debug/Search/Around.antt =====
-- The invariant of the search for a stab.
use sched_v2_solution.Base.{
  ℕ, zero, suc, ◌+◌, ◌%◌, ◌-◌, ◌/◌, ◌<◌, ◌≤◌, ◌≡◌, ◌⊎◌, refl, subst, inl, inr, true, false, Option,
  none, some, arith, ltb, Bool-cases, some-injective, none≢some,
}
use sched_v2_solution.Debug.Search.{Stab, Search, earlier, narrow, probe, search_loop}
use sched_v2_solution.Debug.Search.Ends.{Earlier, earlier-Earlier}

-- Stab k is the one of its type in the region from l to below r that contains the address: those
-- of the type up to k have values up to the address, and those behind it have values that are
-- larger than the address by more than one.
pub record Contains (stabs : ℕ → Stab) (type addr l r k : ℕ) : Type 0 where
  pub first : l ≤ k
  pub last : k < r
  pub has_type : Stab.n_type (stabs k) ≡ type
  pub upto : (j : ℕ) → l ≤ j → j ≤ k → Stab.n_type (stabs j) ≡ type → Stab.n_value (stabs j) ≤ addr
  pub beyond :
      (j : ℕ) → k < j → j < r → Stab.n_type (stabs j) ≡ type → addr + 1 < Stab.n_value (stabs j)

module _ (stabs : ℕ → Stab) (type addr l₀ r₀ k : ℕ) (h : Contains stabs type addr l₀ r₀ k) where
  -- What holds all through the search.
  pub record Around (s : Search) : Type 0 where
    pub l_ge : l₀ ≤ s.l
    pub r_le : s.r ≤ r₀
    pub k_lt : k < s.r
    pub right_is : s.region.right ≡ s.r
    pub edge : (s.r ≡ r₀) ⊎ (Stab.n_type (stabs s.r) ≡ type)
    pub passed : (j : ℕ) → l₀ ≤ j → j < s.l → Stab.n_type (stabs j) ≡ type → j ≤ k
    pub addr_ge : addr ≤ s.addr
    pub addr_le : s.addr ≤ addr + 1
    pub still : (s.l ≤ k) ⊎ ((s.region.left ≡ k + 1) × (s.any_matches ≡ true))

  le_or_gt : (a b : ℕ) → (a ≤ b) ⊎ (b < a)
  le_or_gt a b = ground arith

  -- A stab of the type whose value is not larger than the address by more than one.
  left_side :
      (m : ℕ) → Stab.n_type (stabs m) ≡ type → m < r₀ → Stab.n_value (stabs m) ≤ addr + 1 → m ≤ k
  left_side m found lt le = elim (le_or_gt m k) [
    | inl before ↦ before
    | inr after ↦ absurd (omega (arith, h.beyond m after lt found, le))
  ]

  -- A stab of the type with a larger value than the address.
  right_side :
      (m : ℕ) → Stab.n_type (stabs m) ≡ type → l₀ ≤ m → addr < Stab.n_value (stabs m) → k < m
  right_side m found ge lt = elim (le_or_gt m k) [
    | inl before ↦ absurd (omega (arith, h.upto m ge before found, lt))
    | inr after ↦ after
  ]

  below-Around :
      (true_m m : ℕ) (s : Search)
      → s.l ≤ true_m
      → true_m < s.r
      → Earlier stabs type s.l (true_m + 1 - s.l) (some m)
      → ltb (Stab.n_value (stabs m)) s.addr ≡ true
      → Around s
      → Around (record s {
        region = record s.region { left = m + 1 };
        l = true_m + 1;
        any_matches = true;
      })
  unfolding Earlier
  below-Around true_m m s lo hi (m_lo, m_hi, found, rest) below a =
      let m_le : m ≤ k =
        left_side m found (omega (arith, lo, hi, m_hi, a.r_le)) (under below a.addr_le) in
      record {
        l_ge = omega (arith, a.l_ge, lo);
        r_le = a.r_le;
        k_lt = a.k_lt;
        right_is = a.right_is;
        edge = a.edge;
        passed = λ j j_lo j_hi same. elim (le_or_gt j m) [
          | inl old ↦ omega (arith, old, m_le)
          | inr new ↦ absurd (rest j new (omega (arith, lo, j_hi)) same)
        ];
        addr_ge = a.addr_ge;
        addr_le = a.addr_le;
        still = elim (le_or_gt k true_m) [
          | inl scanned ↦ elim (le_or_gt k m) [
            | inl here ↦ inr (omega (arith, here, m_le), refl)
            | inr skipped ↦ absurd (rest k skipped (omega (arith, lo, scanned)) h.has_type)
          ]
          | inr ahead ↦ inl (omega (arith, ahead))
        ];
      }
    where
      under : {v a b : ℕ} → ltb v a ≡ true → a ≤ b → v ≤ b
      under e le = ground arith

  above-Around :
      (true_m m : ℕ) (s : Search)
      → s.l ≤ true_m
      → true_m < s.r
      → Earlier stabs type s.l (true_m + 1 - s.l) (some m)
      → ltb s.addr (Stab.n_value (stabs m)) ≡ true
      → Around s
      → Around (record s { region = record s.region { right = m }; r = m; any_matches = true })
  unfolding Earlier
  above-Around true_m m s lo hi (m_lo, m_hi, found, rest) above a = record {
    l_ge = a.l_ge;
    r_le = omega (arith, lo, hi, m_hi, a.r_le);
    k_lt = right_side m found (omega (arith, a.l_ge, m_lo)) (over above a.addr_ge);
    right_is = refl;
    edge = inr found;
    passed = a.passed;
    addr_ge = a.addr_ge;
    addr_le = a.addr_le;
    still = elim a.still [ inl before ↦ inl before | inr at_left ↦ inr (at_left.0, refl) ];
  }
    where
      over : {v a b : ℕ} → ltb a v ≡ true → b ≤ a → b < v
      over e le = ground arith

  exact-Around :
      (true_m m : ℕ) (s : Search)
      → addr + 1 < 0x1_0000_0000
      → s.l ≤ true_m
      → true_m < s.r
      → Earlier stabs type s.l (true_m + 1 - s.l) (some m)
      → ltb (Stab.n_value (stabs m)) s.addr ≡ false
      → ltb s.addr (Stab.n_value (stabs m)) ≡ false
      → Around s
      → Around (record s {
        region = record s.region { left = m + 1 };
        l = m;
        addr = (s.addr + 1) % 0x1_0000_0000;
        any_matches = true;
      })
  unfolding Earlier
  exact-Around true_m m s fits lo hi (m_lo, m_hi, found, rest) not_below exact a =
      let m_ge : l₀ ≤ m = omega (arith, a.l_ge, m_lo) in
      let m_le : m ≤ k =
        left_side m found (omega (arith, lo, hi, m_hi, a.r_le)) (at_addr exact a.addr_le) in
      let same_addr : s.addr ≡ addr = unmoved not_below a.addr_ge (h.upto m m_ge m_le found) in
      record {
        l_ge = m_ge;
        r_le = a.r_le;
        k_lt = a.k_lt;
        right_is = a.right_is;
        edge = a.edge;
        passed = λ j j_lo j_hi same. omega (arith, j_hi, m_le);
        addr_ge = omega (arith, same_addr, fits);
        addr_le = omega (arith, same_addr, fits);
        still = inl m_le;
      }
    where
      at_addr : {v a b : ℕ} → ltb a v ≡ false → a ≤ b → v ≤ b
      at_addr e le = ground arith

      unmoved : {v a b : ℕ} → ltb v a ≡ false → b ≤ a → v ≤ b → a ≡ b
      unmoved e le le' = ground arith

  narrow-Around :
      (true_m : ℕ) (o : Option ℕ) (s : Search)
      → addr + 1 < 0x1_0000_0000
      → s.l ≤ true_m
      → true_m < s.r
      → Earlier stabs type s.l (true_m + 1 - s.l) o
      → Around s
      → Around (narrow stabs true_m o s)
  unfolding narrow Earlier
  narrow-Around true_m none s fits lo hi found a = record {
    l_ge = omega (arith, a.l_ge, lo);
    r_le = a.r_le;
    k_lt = a.k_lt;
    right_is = a.right_is;
    edge = a.edge;
    passed = λ j j_lo j_hi same. elim (le_or_gt s.l j) [
      | inl new ↦ absurd (found j new (omega (arith, lo, j_hi)) same)
      | inr old ↦ a.passed j j_lo old same
    ];
    addr_ge = a.addr_ge;
    addr_le = a.addr_le;
    still = elim a.still [
      | inl before ↦ elim (le_or_gt k true_m) [
        | inl skipped ↦ absurd (found k before (omega (arith, lo, skipped)) h.has_type)
        | inr ahead ↦ inl (omega (arith, ahead))
      ]
      | inr at_left ↦ inr at_left
    ];
  }
  narrow-Around true_m (some m) s fits lo hi found a =
      let value = Stab.n_value (stabs m) in
      elim (Bool-cases (ltb value s.addr)) [
        | inl below ↦ rw below (below-Around true_m m s lo hi found below a)
        | inr not_below ↦ rw not_below (elim (Bool-cases (ltb s.addr value)) [
          | inl above ↦ rw above (above-Around true_m m s lo hi found above a)
          | inr exact ↦ rw exact (exact-Around true_m m s fits lo hi found not_below exact a)
        ])
      ]

  probe-Around :
      (s : Search) → addr + 1 < 0x1_0000_0000 → s.l < s.r → Around s → Around (probe stabs type s)
  unfolding probe
  probe-Around s fits inside a =
      narrow-Around ((s.l + (s.r - 1)) / 2)
        (earlier stabs type s.l ((s.l + (s.r - 1)) / 2 + 1 - s.l)) s fits (omega (arith, inside))
        (omega (arith, inside)) (earlier-Earlier stabs type s.l ((s.l + (s.r - 1)) / 2 + 1 - s.l)) a

  pub search_loop-Around :
      (rounds : ℕ) (s final : Search)
      → addr + 1 < 0x1_0000_0000
      → Around s
      → search_loop rounds stabs type s ≡ some final
      → Around final
  unfolding search_loop
  search_loop-Around zero s final fits a e = absurd (none≢some e)
  search_loop-Around (suc n) s final fits a e = elim (Bool-cases (ltb s.l s.r)) [
    | inl goes_on ↦
        let inside : s.l < s.r = ground arith in
        search_loop-Around n (probe stabs type s) final fits (probe-Around s fits inside a)
          (rw goes_on at e)
    | inr stops ↦ subst Around (some-injective (rw stops at e)) a
  ]
