-- ===== src/Pmap/Table/Space/Room.antt =====
-- How many page tables are missing in a range of the directory.
use sched_v2_solution.Base.{
  ℕ, zero, suc, ◌+◌, ◌≤◌, ◌<◌, ◌≡◌, ◌≢◌, refl, sym, subst, ap, ◌∙◌, inl, inr, true, false, arith,
  ◌==◌, if◌then◌else◌, Bool-cases, ==_iff, update, update_ne,
}

-- The empty ones among the k directory entries from d on.
unfoldable pub missing : (row : ℕ → ℕ) (d k : ℕ) → ℕ
missing row d zero = 0
missing row d (suc k) = (if row d == 0 then 1 else 0) + missing row (suc d) k

missing-before :
    (row : ℕ → ℕ) (d i v k : ℕ) → i < d → missing (update row i v) d k ≡ missing row d k
unfolding missing
missing-before row d i v zero lt = refl
missing-before row d i v (suc k) lt =
    let there : update row i v d ≡ row d =
      update_ne row i d v (λ e. absurd (omega (arith, e, lt))) in
    rw (there, missing-before row (suc d) i v k (omega (arith, lt))) refl

-- An entry that is filled in is one that is missing no more.
missing-fill :
    (row : ℕ → ℕ) (i v w k : ℕ)
    → row i ≡ 0
    → v ≢ 0
    → w ≤ i
    → i < w + k
    → missing row w k ≡ suc (missing (update row i v) w k)
unfolding missing
missing-fill row i v w zero empty some_v le lt = absurd (omega (arith, le, lt))
missing-fill row i v w (suc k) empty some_v le lt = elim (Bool-cases (i == w)) [
  | inl here ↦
      let w_is : i ≡ w = (==_iff i w).0 here in
      let was : (row w == 0) ≡ true = (==_iff (row w) 0).1 (ap row (sym w_is) ∙ empty) in
      let filled : (v == 0) ≡ false = ground arith in
      let same : missing (update row i v) (suc w) k ≡ missing row (suc w) k =
        missing-before row (suc w) i v k (omega (arith, w_is)) in
      rw (was, here, filled) (omega (arith, same))
  | inr other ↦
      let apart : i ≢ w = ground arith in
      let later : missing row (suc w) k ≡ suc (missing (update row i v) (suc w) k) =
        missing-fill row i v (suc w) k empty some_v (ground (arith, le, apart))
          (omega (arith, lt)) in
      rw other (omega (arith, later))
]

-- Where an entry of the range is empty, a table is missing.
pub missing-some : (row : ℕ → ℕ) (i w k : ℕ) → row i ≡ 0 → w ≤ i → i < w + k → 0 < missing row w k
missing-some row i w k empty le lt =
    let more : missing row w k ≡ suc (missing (update row i 1) w k) =
      missing-fill row i 1 w k empty (λ e. absurd (omega (arith, e))) le lt in
    omega (arith, more)

-- A free page was there for the table, and c others are left.
pub room-grown :
    (row row' : ℕ → ℕ) (i v w k c n : ℕ)
    → row' ≡ update row i v
    → row i ≡ 0
    → v ≢ 0
    → w ≤ i
    → i < w + k
    → missing row w k + c ≤ suc n
    → missing row' w k + c ≤ n
room-grown row row' i v w k c n is empty some_v le lt room =
    let less : missing row w k ≡ suc (missing (update row i v) w k) =
      missing-fill row i v w k empty some_v le lt in
    subst (λ f. missing f w k + c ≤ n) (sym is) (omega (arith, less, room))
