-- ===== src/Debug/Search/Ends.antt =====
-- The search for a stab ends, on any table.
use sched_v2_solution.Base.{
  ℕ, zero, suc, ◌+◌, ◌-◌, ◌*◌, ◌/◌, ◌%◌, ◌<◌, ◌≤◌, ◌≡◌, ◌≢◌, ◌⊎◌, refl, inl, inr, true, false,
  Option, none, some, arith, ltb, ◌==◌, if◌then◌else◌, Bool-cases,
}
use sched_v2_solution.Debug.Search.{
  Stab, Region, Search, earlier, narrow, probe, search_loop, settle, stab_binsearch,
}

-- What a call that returns a region is.
pub record Returns (o : Option Region) : Type 0 where
  pub region : Region
  pub is : o ≡ some region

-- The variables when the search starts.
abbrev pub start : Region → (addr : ℕ) → Search
start g addr = record { l = g.left - 1; r = g.right; region = g; addr = addr; any_matches = false }

nearer : (j e : ℕ) → j < e + 1 → (j < e) ⊎ (j ≡ e)
nearer j e h = ground arith

module _ (stabs : ℕ → Stab) (type : ℕ) where
  -- What the search back from l + n to l finds.
  unfoldable pub Earlier : (l n : ℕ) → Option ℕ → Type 0
  Earlier l n none = (j : ℕ) → l ≤ j → j < l + n → Stab.n_type (stabs j) ≢ type
  Earlier l n (some m) =
      (l ≤ m)
      × (m < l + n)
      × (Stab.n_type (stabs m) ≡ type)
      × ((j : ℕ) → m < j → j < l + n → Stab.n_type (stabs j) ≢ type)

  Earlier-widen :
      (l n : ℕ) (o : Option ℕ)
      → Stab.n_type (stabs (l + n)) ≢ type
      → Earlier l n o
      → Earlier l (suc n) o
  unfolding Earlier
  Earlier-widen l n none differs h = λ j lo hi. elim (nearer j (l + n) (omega (arith, hi))) [
    | inl below ↦ h j lo below
    | inr here ↦ rw here differs
  ]
  Earlier-widen l n (some m) differs (lo, hi, found, rest) = (
    lo,
    omega (arith, hi),
    found,
    λ j past hi'. elim (nearer j (l + n) (omega (arith, hi'))) [
      | inl below ↦ rest j past below
      | inr here ↦ rw here differs
    ],
  )

  pub earlier-Earlier : (l n : ℕ) → Earlier l n (earlier stabs type l n)
  unfolding earlier Earlier
  earlier-Earlier l zero = λ j lo hi. absurd (omega arith)
  earlier-Earlier l (suc n) = elim (Bool-cases (Stab.n_type (stabs (l + n)) == type)) [
    | inl same ↦ rw same (omega arith, omega arith, equal same, λ j lo hi. absurd (omega arith))
    | inr differs ↦
        rw differs
          (Earlier-widen l n (earlier stabs type l n) (unequal differs) (earlier-Earlier l n))
  ]
    where
      equal : {a : ℕ} → (a == type) ≡ true → a ≡ type
      equal e = ground arith

      unequal : {a : ℕ} → (a == type) ≡ false → a ≢ type
      unequal e = ground arith

  flag : (value addr : ℕ) → ℕ
  flag value addr = if value == addr then 1 else 0

  flag_le : (value addr : ℕ) → flag value addr ≤ 1
  unfolding flag
  flag_le value addr = ground arith

  flag_here : (value addr : ℕ) → value ≡ addr → flag value addr ≡ 1
  unfolding flag
  flag_here value addr e = ground arith

  flag_next : (value addr : ℕ) → value ≡ addr → flag value ((addr + 1) % 0x1_0000_0000) ≡ 0
  unfolding flag
  flag_next value addr e =
      let apart : (value == (addr + 1) % 0x1_0000_0000) ≡ false = ground arith in rw apart refl

  -- What is left to do: every round makes it less.
  pub left_over : Search → ℕ
  left_over s = 2 * (s.r - s.l) + flag (Stab.n_value (stabs s.l)) s.addr

  narrow-left_over :
      (true_m : ℕ) (o : Option ℕ) (s : Search)
      → s.l ≤ true_m
      → true_m < s.r
      → Earlier s.l (true_m + 1 - s.l) o
      → left_over (narrow stabs true_m o s) < left_over s
  unfolding narrow left_over Earlier
  narrow-left_over true_m none s lo hi found =
      weigh _ (flag_le (Stab.n_value (stabs (true_m + 1))) s.addr)
    where
      weigh : {f : ℕ} (g : ℕ) → f ≤ 1 → 2 * (s.r - (true_m + 1)) + f < 2 * (s.r - s.l) + g
      weigh g h = omega (arith, lo, hi)
  narrow-left_over true_m (some m) s lo hi (m_lo, m_hi, found, rest) =
      let value = Stab.n_value (stabs m) in
      elim (Bool-cases (ltb value s.addr)) [
        | inl below ↦ rw below (further _ (flag_le (Stab.n_value (stabs (true_m + 1))) s.addr))
        | inr not_below ↦ rw not_below (elim (Bool-cases (ltb s.addr value)) [
          | inl above ↦ rw above (nearer_end (flag (Stab.n_value (stabs s.l)) s.addr))
          | inr exact ↦ rw exact (at_match (same not_below exact) (cases m_lo))
        ])
      ]
    where
      further : {f : ℕ} (g : ℕ) → f ≤ 1 → 2 * (s.r - (true_m + 1)) + f < 2 * (s.r - s.l) + g
      further g h = omega (arith, lo, hi)

      nearer_end : (f : ℕ) → 2 * (m - s.l) + f < 2 * (s.r - s.l) + f
      nearer_end f = omega (arith, lo, hi, m_lo, m_hi)

      same : {a b : ℕ} → ltb a b ≡ false → ltb b a ≡ false → a ≡ b
      same h h' = ground arith

      cases : {a b : ℕ} → a ≤ b → (a ≡ b) ⊎ (a < b)
      cases h = ground arith

      weigh : {f : ℕ} (g : ℕ) → s.l < m → f ≤ 1 → 2 * (s.r - m) + f < 2 * (s.r - s.l) + g
      weigh g after h = omega (arith, hi, m_hi)

      at_match :
          Stab.n_value (stabs m) ≡ s.addr
          → (s.l ≡ m) ⊎ (s.l < m)
          → 2 * (s.r - m) + flag (Stab.n_value (stabs m)) ((s.addr + 1) % 0x1_0000_0000)
            < 2 * (s.r - s.l) + flag (Stab.n_value (stabs s.l)) s.addr
      at_match e (inr after) =
          weigh _ after (flag_le (Stab.n_value (stabs m)) ((s.addr + 1) % 0x1_0000_0000))
      at_match e (inl here) = rw here (
          omega (
            arith,
            flag_next (Stab.n_value (stabs m)) s.addr e,
            flag_here (Stab.n_value (stabs m)) s.addr e,
          ))

  -- The loop ends with the bounds crossed.
  pub record Over (rounds : ℕ) (s : Search) : Type 0 where
    pub final : Search
    pub ends : search_loop rounds stabs type s ≡ some final
    pub crossed : final.r ≤ final.l

  pub search_loop-Over : (rounds : ℕ) (s : Search) → left_over s < rounds → Over rounds s
  unfolding search_loop probe
  search_loop-Over zero s h = absurd (omega arith)
  search_loop-Over (suc n) s h = elim (Bool-cases (ltb s.l s.r)) [
    | inl goes_on ↦
        let inside : s.l < s.r = ground arith in
        let less =
          narrow-left_over ((s.l + (s.r - 1)) / 2)
            (earlier stabs type s.l ((s.l + (s.r - 1)) / 2 + 1 - s.l)) s (omega arith) (omega arith)
            (earlier-Earlier s.l ((s.l + (s.r - 1)) / 2 + 1 - s.l)) in
        let rest : Over n (probe stabs type s) =
          search_loop-Over n (probe stabs type s) (omega (arith, less, h)) in
        record { final = rest.final; ends = rw goes_on rest.ends; crossed = rest.crossed }
    | inr stops ↦ record { final = s; ends = rw stops refl; crossed = ground arith }
  ]

  pub start_le :
      (g : Region) (addr : ℕ) → left_over (start g addr) ≤ 2 * (g.right - (g.left - 1)) + 1
  unfolding left_over
  start_le g addr = omega (arith, flag_le (Stab.n_value (stabs (g.left - 1))) addr)

  -- stab_binsearch ends on any table of stabs, for any type and address, in at most
  -- 2 * (*region_right + 1 - *region_left) + 2 tests of its condition, when *region_left is not
  -- negative and *region_right is at least -1.
  pub stab_binsearch-ends :
      (g : Region) (addr rounds : ℕ)
      → 2 * (g.right - (g.left - 1)) + 1 < rounds
      → Returns (stab_binsearch rounds stabs g type addr)
  unfolding stab_binsearch
  stab_binsearch-ends g addr rounds enough =
      let s : Search = start g addr in
      let over : Over rounds s =
        search_loop-Over rounds s (omega (arith, start_le g addr, enough)) in
      settled over.final over.ends
    where
      settled :
          (final : Search)
          → search_loop rounds stabs type (start g addr) ≡ some final
          → Returns (stab_binsearch rounds stabs g type addr)
      settled final e = record {
        region = settle stabs type final;
        is = rw (stab_binsearch, e) refl;
      }
