-- ===== src/Format/Buffer/Fits.antt =====
-- vsnprintf stays inside of its buffer.
use sched_v2_solution.Base.{
  ℕ, zero, suc, ◌+◌, ◌-◌, ◌%◌, ◌≤◌, ◌<◌, ◌≡◌, ◌≢◌, ◌⊎◌, refl, sym, ◌∙◌, false, inl, inr, List, [],
  ◌∷◌, arith, ltb, Bool-cases, ltb→lt, update_self, update_ne, update, some, ◌||◌, ◌==◌, leb,
}
use Prim.Native.Nat.{min}
use sched_v2_solution.Process.Cmd.{ok}
use sched_v2_solution.Kernel.Pcb.{word}
use sched_v2_solution.Strings.{Bytes}
use sched_v2_solution.Format.Escape.{count, literal, vprintfmt}
use sched_v2_solution.Format.Buffer.{Sprintbuf, sprintputch, sprint, terminated, finish, vsnprintf}

-- The character i of the output, as a byte.
abbrev pub byte_at : List ℕ → ℕ → ℕ
byte_at [] i = 0
byte_at (c ∷ cs) zero = c % 256
byte_at (c ∷ cs) (suc i) = byte_at cs i

-- What sprint has done from b on: everything is counted, what fits is stored, nothing else changes.
record Stored (cs : List ℕ) (b b' : Sprintbuf) : Type 0 where
  counted : b.cnt + count cs < 0x8000_0000 → b'.cnt ≡ b.cnt + count cs
  limit : b'.ebuf ≡ b.ebuf
  low : b.buf ≤ b'.buf
  high : b'.buf ≤ b.ebuf
  full : (b'.buf < b.ebuf) → b'.buf ≡ b.buf + count cs
  most : b'.buf ≤ b.buf + count cs
  stored : (i : ℕ) → b.buf + i < b'.buf → b'.bytes (b.buf + i) ≡ byte_at cs i
  outside : (a : ℕ) → (a < b.buf) ⊎ (b.ebuf ≤ a) → b'.bytes a ≡ b.bytes a

-- A character that fits, and then the others.
Stored-room :
    (c : ℕ) (cs : List ℕ) (b b' : Sprintbuf)
    → b.buf < b.ebuf
    → Stored cs
        (record b {
          cnt = word (b.cnt + 1);
          bytes = update b.bytes b.buf (c % 256);
          buf = b.buf + 1;
        })
        b'
    → Stored (c ∷ cs) b b'
Stored-room c cs b b' lt s = record {
  counted = λ fits. omega (arith, s.counted (omega (arith, fits)));
  limit = s.limit;
  low = omega (arith, s.low);
  high = s.high;
  full = λ h. omega (arith, s.full h);
  most = omega (arith, s.most);
  stored = stored_at;
  outside = λ a h. s.outside a (further a h) ∙ update_ne b.bytes b.buf a (c % 256) (apart a h);
}
  where
    apart : (a : ℕ) → (a < b.buf) ⊎ (b.ebuf ≤ a) → b.buf ≢ a
    apart a h e = omega arith

    further : (a : ℕ) → (a < b.buf) ⊎ (b.ebuf ≤ a) → (a < b.buf + 1) ⊎ (b.ebuf ≤ a)
    further a (inl l) = inl (omega arith)
    further a (inr r) = inr r

    stored_at : (i : ℕ) → b.buf + i < b'.buf → b'.bytes (b.buf + i) ≡ byte_at (c ∷ cs) i
    stored_at zero h =
        let here : b.buf + 0 ≡ b.buf = omega arith in
        rw here (s.outside b.buf (inl (omega arith)) ∙ update_self b.bytes b.buf (c % 256))
    stored_at (suc i) h =
        let there : b.buf + suc i ≡ b.buf + 1 + i = omega arith in
        rw there (s.stored i (omega arith))

-- A character that does not fit is only counted, and so are the others.
Stored-full :
    (c : ℕ) (cs : List ℕ) (b b' : Sprintbuf)
    → b.buf ≡ b.ebuf
    → Stored cs (record b { cnt = word (b.cnt + 1) }) b'
    → Stored (c ∷ cs) b b'
Stored-full c cs b b' e s = record {
  counted = λ fits. omega (arith, s.counted (omega (arith, fits)));
  limit = s.limit;
  low = s.low;
  high = s.high;
  full = λ h. absurd (past h s.low);
  most = omega (arith, s.most);
  stored = λ i h. absurd (beyond i h s.high);
  outside = s.outside;
}
  where
    past : b'.buf < b.ebuf → b.buf ≤ b'.buf → ⊥
    past h l = omega arith

    beyond : (i : ℕ) → b.buf + i < b'.buf → b'.buf ≤ b.ebuf → ⊥
    beyond i h l = omega arith

sprint-Stored : (cs : List ℕ) (b : Sprintbuf) → b.buf ≤ b.ebuf → Stored cs b (sprint cs b)
unfolding sprint sprintputch
sprint-Stored [] b le = record {
  counted = λ fits. omega arith;
  limit = refl;
  low = omega arith;
  high = le;
  full = λ _. omega arith;
  most = omega arith;
  stored = λ i h. absurd (omega arith);
  outside = λ a h. refl;
}
sprint-Stored (c ∷ cs) b le = elim (Bool-cases (ltb b.buf b.ebuf)) [
  | inl room ↦ rw room (
      Stored-room c cs b _ (ground arith) (
        sprint-Stored cs
          (record b {
            cnt = word (b.cnt + 1);
            bytes = update b.bytes b.buf (c % 256);
            buf = b.buf + 1;
          })
          (ground arith)))
  | inr full ↦ rw full (
      Stored-full c cs b _ (ground arith)
        (sprint-Stored cs (record b { cnt = word (b.cnt + 1) }) le))
]

-- The result and the memory that vsnprintf leaves when cs is printed.
pub record Fitted (cs : List ℕ) (buf n : ℕ) (m : Bytes) (r : ℕ × Bytes) : Type 0 where
  pub result : r.0 ≡ count cs
  pub text : (i : ℕ) → i < min (count cs) (n - 1) → r.1 (buf + i) ≡ byte_at cs i
  pub null : r.1 (buf + min (count cs) (n - 1)) ≡ 0
  pub outside : (a : ℕ) → (a < buf) ⊎ (buf + n ≤ a) → r.1 a ≡ m a

terminated-Fitted :
    (cs : List ℕ) (buf n : ℕ) (m : Bytes) (b : Sprintbuf)
    → 0 < n
    → count cs < 0x8000_0000
    → Stored cs (record { bytes = m; buf = buf; ebuf = buf + n - 1; cnt = 0 }) b
    → Fitted cs buf n m (terminated b)
unfolding terminated
terminated-Fitted cs buf n m b lt few s = record {
  result = s.counted (omega (arith, few)) ∙ omega arith;
  text = λ i h. update_ne b.bytes b.buf (buf + i) 0 (before i h) ∙ s.stored i (below i h);
  null = rw (sym place) (update_self b.bytes b.buf 0);
  outside = λ a h. update_ne b.bytes b.buf a 0 (apart a h) ∙ s.outside a (far a h);
}
  where
    place : b.buf ≡ buf + min (count cs) (n - 1)
    place = elim (Bool-cases (ltb b.buf (buf + n - 1))) [
      | inl room ↦
          let lt_end : b.buf < buf + n - 1 = ltb→lt _ _ room in
          let all : b.buf ≡ buf + count cs = s.full lt_end in omega arith
      | inr full ↦
          let not_below : buf + n - 1 ≤ b.buf = ground arith in
          let top : b.buf ≤ buf + n - 1 = s.high in
          let few : b.buf ≤ buf + count cs = s.most in omega arith
    ]

    before : (i : ℕ) → i < min (count cs) (n - 1) → b.buf ≢ buf + i
    before i h e = omega (arith, place)

    below : (i : ℕ) → i < min (count cs) (n - 1) → buf + i < b.buf
    below i h = omega (arith, place)

    apart : (a : ℕ) → (a < buf) ⊎ (buf + n ≤ a) → b.buf ≢ a
    apart a h e = omega (arith, place)

    far : (a : ℕ) → (a < buf) ⊎ (buf + n ≤ a) → (a < buf) ⊎ (buf + n - 1 ≤ a)
    far a (inl l) = inl l
    far a (inr r) = inr (omega arith)

-- When vprintfmt prints the characters cs, fewer than 2^31, so that the int that counts them does not
-- overflow, vsnprintf with a buffer that is not NULL, of n bytes
-- with n from 1 to 2^31 - 1, returns their number; the buffer then holds as many of them as fit
-- before its last byte, each as a byte, with a null character behind them, and no byte outside of
-- the buffer has changed.
pub vsnprintf-Fitted :
    (rounds buf n fmt : ℕ) (args : List ℕ) (m : Bytes) (cs : List ℕ)
    → buf ≢ 0
    → 0 < n
    → n < 0x8000_0000
    → vprintfmt rounds m literal fmt args ≡ some cs
    → count cs < 0x8000_0000
    → (r : ℕ × Bytes) × (vsnprintf rounds buf n fmt args m ≡ some (ok r)) × Fitted cs buf n m r
unfolding vsnprintf finish
vsnprintf-Fitted rounds buf n fmt args m cs given lt fits e few =
    let b = sprint cs (record { bytes = m; buf = buf; ebuf = buf + n - 1; cnt = 0 }) in
    let accepted : (buf == 0 || n == 0 || leb 0x8000_0000 n) ≡ false = ground arith in
    (
      terminated b,
      rw (accepted, e),
      terminated-Fitted cs buf n m b lt few (sprint-Stored cs _ (omega arith)),
    )
