-- ===== src/Strings/Bounded.antt =====
-- What strlcpy writes.
use sched_v2_solution.Base.{
  ℕ, zero, suc, ◌+◌, ◌-◌, ◌<◌, ◌≤◌, ◌≡◌, ◌≢◌, ◌⊎◌, inl, inr, ◌∙◌, arith, ◌==◌, Bool-cases, update,
  update_ne, update_self,
}
use sched_v2_solution.Strings.{Bytes, strlcpy_loop, strlcpy}

-- The null character stands at the end, which is in the buffer, and nothing outside of the buffer
-- of n + 1 bytes has changed.
record Terminated (n dst : ℕ) (m : Bytes) (end : ℕ) (m' : Bytes) : Type 0 where
  low : dst ≤ end
  high : end ≤ dst + n
  null : m' end ≡ 0
  outside : (a : ℕ) → (a < dst) ⊎ (dst + n < a) → m' a ≡ m a

terminate : (n dst : ℕ) (m : Bytes) → Terminated n dst m dst (update m dst 0)
terminate n dst m = record {
  low = omega arith;
  high = omega arith;
  null = update_self m dst 0;
  outside = λ a h. update_ne m dst a 0 (apart a h);
}
  where
    apart : (a : ℕ) → (a < dst) ⊎ (dst + n < a) → dst ≢ a
    apart a h e = omega arith

strlcpy_loop-Terminated :
    (n dst src : ℕ) (m : Bytes)
    → Terminated n dst m (strlcpy_loop n dst src m).0 (strlcpy_loop n dst src m).1
unfolding strlcpy_loop
strlcpy_loop-Terminated zero dst src m = terminate 0 dst m
strlcpy_loop-Terminated (suc n) dst src m = elim (Bool-cases (m src == 0)) [
  | inl ends ↦ rw ends (terminate (suc n) dst m)
  | inr more ↦
      let t = strlcpy_loop-Terminated n (dst + 1) (src + 1) (update m dst (m src)) in
      rw more (record {
        low = omega (arith, t.low);
        high = omega (arith, t.high);
        null = t.null;
        outside = λ a h. t.outside a (further a h) ∙ update_ne m dst a (m src) (apart a h);
      })
]
  where
    apart : (a : ℕ) → (a < dst) ⊎ (dst + suc n < a) → dst ≢ a
    apart a h e = omega arith

    further : (a : ℕ) → (a < dst) ⊎ (dst + suc n < a) → (a < dst + 1) ⊎ (dst + 1 + n < a)
    further a (inl l) = inl (omega arith)
    further a (inr l) = inr (omega arith)

-- With a buffer of size bytes, size not 0, strlcpy returns a length below size, ends the copy with
-- a null character at that length, and changes no byte outside of the buffer.
pub strlcpy-Terminated :
    (dst src size : ℕ) (m : Bytes)
    → 0 < size
    → ((strlcpy dst src size m).0 < size)
      × ((strlcpy dst src size m).1 (dst + (strlcpy dst src size m).0) ≡ 0)
      × ((a : ℕ) → (a < dst) ⊎ (dst + size ≤ a) → (strlcpy dst src size m).1 a ≡ m a)
unfolding strlcpy
strlcpy-Terminated dst src zero m pos_size = absurd (omega arith)
strlcpy-Terminated dst src (suc n) m pos_size =
    let t = strlcpy_loop-Terminated n dst src m in
    let end = (strlcpy_loop n dst src m).0 in
    let back : dst + (end - dst) ≡ end = omega (arith, t.low) in
    (omega (arith, t.low, t.high), rw back t.null, λ a h. t.outside a (beyond a h))
  where
    beyond : (a : ℕ) → (a < dst) ⊎ (dst + suc n ≤ a) → (a < dst) ⊎ (dst + n < a)
    beyond a (inl l) = inl l
    beyond a (inr l) = inr (omega arith)
