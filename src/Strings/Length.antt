-- ===== src/Strings/Length.antt =====
-- strlen and strnlen on a string with its null character.
use sched_v2_solution.Base.{ℕ, zero, suc, ◌+◌, ◌<◌, ◌≡◌, ◌≢◌, ◌∙◌, false, some, arith, ◌==◌}
use sched_v2_solution.Strings.{Bytes, strlen, strlen_loop}

-- The string at s has k characters before its null character.
pub record HasLength (m : Bytes) (s k : ℕ) : Type 0 where
  pub before : (i : ℕ) → i < k → m (s + i) ≢ 0
  pub end : m (s + k) ≡ 0

pub HasLength-suc : (m : Bytes) (s k : ℕ) → HasLength m s (suc k) → HasLength m (s + 1) k
HasLength-suc m s k h = record {
  before = λ i lt.
      let shift : s + 1 + i ≡ s + suc i = omega arith in rw shift (h.before (suc i) (omega arith));
  end = let shift : s + 1 + k ≡ s + suc k = omega arith in rw shift h.end;
}

pub first-nonzero : (m : Bytes) (s k : ℕ) → HasLength m s (suc k) → (m s == 0) ≡ false
first-nonzero m s k h =
    let at_s : s + 0 ≡ s = omega arith in
    let ne : m s ≢ 0 = rw at_s at (h.before 0 (omega arith)) in ground arith

strlen_loop-length :
    (k r : ℕ) (m : Bytes) (s n : ℕ) → HasLength m s k → k < r → strlen_loop r m s n ≡ some (n + k)
unfolding strlen_loop
strlen_loop-length k zero m s n h lt = absurd (omega arith)
strlen_loop-length zero (suc r) m s n h lt =
    let at_s : s + 0 ≡ s = omega arith in
    let done_n : n + 0 ≡ n = omega arith in
    let null : m s ≡ 0 = rw at_s at h.end in rw (null, done_n)
strlen_loop-length (suc k) (suc r) m s n h lt =
    let sum : n + 1 + k ≡ n + suc k = omega arith in
    rw (first-nonzero m s k h)
      (strlen_loop-length k r m (s + 1) (n + 1) (HasLength-suc m s k h) (omega arith) ∙ rw sum)

-- strlen ends on a string of k characters before its null character and returns k, in any number
-- of rounds above k.
pub strlen-HasLength :
    (k r : ℕ) (m : Bytes) (s : ℕ) → HasLength m s k → k < r → strlen r m s ≡ some k
strlen-HasLength k r m s h lt = strlen_loop-length k r m s 0 h lt ∙ zero_plus
  where
    zero_plus : some (0 + k) ≡ some k
    zero_plus = let e : 0 + k ≡ k = omega arith in rw e
