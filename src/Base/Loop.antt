-- ===== src/Base/Loop.antt =====
-- `for (i = 0; i < n; i++)` over an array whose body reads and writes element i alone.
use Prim.Native.Nat.{ℕ, zero, suc, ◌+◌}
use mathlib.Core.Path.{◌≡◌}
use mathlib.Core.Bool.{◌&&◌}
use native.Mathlib.Omega.{arith}
use sched_v2_solution.Base.Tests.{ltb, leb, if◌then◌else◌}
use sched_v2_solution.Base.Update.{update}

module _ {ℓ} {A : Type ℓ} where
  -- The rounds i, ..., i + n - 1.
  unfoldable pub for_each : ℕ → ℕ → (ℕ → A → A) → (ℕ → A) → ℕ → A
  for_each zero i body f = f
  for_each (suc n) i body f = for_each n (suc i) body (update f i (body i (f i)))

  pub for_each_at :
      (n i : ℕ) (body : ℕ → A → A) (f : ℕ → A) (j : ℕ)
      → for_each n i body f j ≡ (if leb i j && ltb j (i + n) then body j (f j) else f j)
  unfolding for_each
  for_each_at zero i body f j = ground arith
  for_each_at (suc n) i body f j =
      ground (arith, for_each_at n (suc i) body (update f i (body i (f i))) j)

  -- The loop from 0 is the pointwise map below n.
  pub for_each-pointwise :
      (n : ℕ) (body : ℕ → A → A) (f : ℕ → A) (j : ℕ)
      → for_each n 0 body f j ≡ (if ltb j n then body j (f j) else f j)
  for_each-pointwise n body f j = ground (arith, for_each_at n 0 body f j)
