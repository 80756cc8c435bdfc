-- ===== src/Devices/Queue/Fifo.antt =====
-- The input buffer is a queue of at most 511 characters; one more empties it.
use sched_v2_solution.Base.{
  ℕ, zero, suc, ◌+◌, ◌%◌, ◌<◌, ◌≤◌, ◌≡◌, ◌≢◌, refl, sym, subst, ap, ◌∙◌, inl, inr, true, false,
  List, [], ◌∷◌, ◌++◌, arith, ◌==◌, if◌then◌else◌, Bool-cases, update, update_ne, update_self,
}
use sched_v2_solution.Format.Escape.{count}
use sched_v2_solution.Devices.Queue.{Cons, consbufsize, store, cons_intr, take_char}

-- The slot behind slot i.
abbrev next : ℕ → ℕ
next i = if i + 1 == consbufsize then 0 else i + 1

-- The characters of the list lie in the buffer, in circular order from slot i on.
unfoldable pub Lies : (ℕ → ℕ) → (i : ℕ) → List ℕ → Type 0
Lies buf i [] = Unit {0}
Lies buf i (c ∷ cs) = (buf i ≡ c) × (c ≢ 0) × Lies buf (next i) cs

-- The buffer holds the characters that wait, the oldest first.
pub record Waits (q : Cons) (cs : List ℕ) : Type 0 where
  pub rpos_lt : q.rpos < consbufsize
  pub wpos_at : q.wpos ≡ (q.rpos + count cs) % consbufsize
  pub room : count cs < consbufsize
  pub lies : Lies q.buf q.rpos cs

-- What one more character does to those that wait: the 512th empties the buffer.
unfoldable pub accept : List ℕ → ℕ → List ℕ
accept cs c = if count cs + 1 == consbufsize then [] else cs ++ c ∷ []

unfoldable pub accept_all : List ℕ → List ℕ → List ℕ
unfolding accept
accept_all cs [] = cs
accept_all cs (c ∷ input) = accept_all (if c == 0 then cs else accept cs c) input

count-snoc : (cs : List ℕ) (c : ℕ) → count (cs ++ c ∷ []) ≡ count cs + 1
count-snoc [] c = omega arith
count-snoc (d ∷ cs) c = omega (arith, count-snoc cs c)

next_lt : (i : ℕ) → i < consbufsize → next i < consbufsize
next_lt i h = ground arith

next_shift : (i n : ℕ) → i < consbufsize → (next i + n) % consbufsize ≡ (i + suc n) % consbufsize
next_shift i n h = elim (Bool-cases (i + 1 == consbufsize)) [
  | inl wraps ↦ let at_end : i ≡ 511 = ground arith in rw at_end (omega arith)
  | inr stays ↦ rw stays (omega arith)
]

-- A write of the slot behind n characters leaves them alone.
Lies-update :
    (buf : ℕ → ℕ) (i n v : ℕ) (cs : List ℕ)
    → i < consbufsize
    → n < consbufsize
    → count cs ≤ n
    → Lies buf i cs
    → Lies (update buf ((i + n) % consbufsize) v) i cs
unfolding Lies
Lies-update buf i n v [] lt fits short h = tt
Lies-update buf i zero v (c ∷ cs) lt fits short h = absurd (omega arith)
Lies-update buf i (suc n) v (c ∷ cs) lt fits short (here, some_char, rest) =
    let apart : (i + suc n) % consbufsize ≢ i = λ e. absurd (away i n lt fits e) in
    (
      update_ne buf ((i + suc n) % consbufsize) i v apart ∙ here,
      some_char,
      subst (λ w. Lies (update buf w v) (next i) cs) (next_shift i n lt)
          (Lies-update buf (next i) n v cs (next_lt i lt) (omega arith) (omega arith) rest),
    )
  where
    away : (i n : ℕ) → i < 512 → suc n < 512 → (i + suc n) % 512 ≡ i → ⊥
    away i n lt fits e = omega arith

Lies-snoc :
    (buf : ℕ → ℕ) (i c : ℕ) (cs : List ℕ)
    → i < consbufsize
    → c ≢ 0
    → Lies buf i cs
    → buf ((i + count cs) % consbufsize) ≡ c
    → Lies buf i (cs ++ c ∷ [])
unfolding Lies
Lies-snoc buf i c [] lt nz h e =
    let here : (i + 0) % consbufsize ≡ i = omega arith in (rw here at e, nz, tt)
Lies-snoc buf i c (d ∷ cs) lt nz (here, some_char, rest) e = (
  here,
  some_char,
  Lies-snoc buf (next i) c cs (next_lt i lt) nz rest (rw (next_shift i (count cs) lt) e),
)

-- The position behind p.
next_wpos :
    (r n : ℕ)
    → r < consbufsize
    → n + 1 < consbufsize
    → next ((r + n) % consbufsize) ≡ (r + (n + 1)) % consbufsize
next_wpos r n lt fits = elim (Bool-cases ((r + n) % consbufsize + 1 == consbufsize)) [
  | inl wraps ↦ let at_end : (r + n) % 512 ≡ 511 = ground arith in rw wraps (omega arith)
  | inr stays ↦ let not_end : (r + n) % 512 ≢ 511 = ground arith in rw stays (omega arith)
]

next_full : (r n : ℕ) → r < consbufsize → n + 1 ≡ consbufsize → next ((r + n) % consbufsize) ≡ r
next_full r n lt full = elim (Bool-cases ((r + n) % consbufsize + 1 == consbufsize)) [
  | inl wraps ↦ let at_end : (r + n) % 512 ≡ 511 = ground arith in rw wraps (omega arith)
  | inr stays ↦ let not_end : (r + n) % 512 ≢ 511 = ground arith in rw stays (omega arith)
]

store_full :
    (q : Cons) (cs : List ℕ) (c : ℕ)
    → c < 256
    → count cs + 1 ≡ consbufsize
    → Waits q cs
    → Waits (store c q) []
unfolding store Lies
store_full q cs c byte full w = record {
  rpos_lt = w.rpos_lt;
  wpos_at =
      ap next w.wpos_at
      ∙ next_full q.rpos (count cs) w.rpos_lt full
      ∙ sym (at_rest q.rpos w.rpos_lt);
  room = omega arith;
  lies = tt;
}
  where
    at_rest : (r : ℕ) → r < 512 → (r + 0) % 512 ≡ r
    at_rest r lt = omega arith

store_room :
    (q : Cons) (cs : List ℕ) (c : ℕ)
    → c ≢ 0
    → c < 256
    → count cs + 1 < consbufsize
    → Waits q cs
    → Waits (store c q) (cs ++ c ∷ [])
unfolding store
store_room q cs c nz byte fits w =
    let kept : Lies (update q.buf ((q.rpos + count cs) % consbufsize) c) q.rpos cs =
      Lies-update q.buf q.rpos (count cs) c cs w.rpos_lt (omega (arith, fits)) (omega arith)
        w.lies in
    let there : update q.buf ((q.rpos + count cs) % consbufsize) c
          ((q.rpos + count cs) % consbufsize)
        ≡ c =
      update_self q.buf ((q.rpos + count cs) % consbufsize) c in
    let same : c % 256 ≡ c = omega arith in
    record {
      rpos_lt = w.rpos_lt;
      wpos_at =
          ap next w.wpos_at
          ∙ next_wpos q.rpos (count cs) w.rpos_lt fits
          ∙ ap (λ n. (q.rpos + n) % consbufsize) (sym (count-snoc cs c));
      room = rw (count-snoc cs c) fits;
      lies =
          rw (same, w.wpos_at)
            (Lies-snoc (update q.buf ((q.rpos + count cs) % consbufsize) c) q.rpos c cs w.rpos_lt nz
              kept there);
    }

store-Waits :
    (q : Cons) (cs : List ℕ) (c : ℕ)
    → c ≢ 0
    → c < 256
    → Waits q cs
    → Waits (store c q) (accept cs c)
unfolding accept
store-Waits q cs c nz byte w = elim (Bool-cases (count cs + 1 == consbufsize)) [
  | inl full ↦ rw full (store_full q cs c byte (reached full) w)
  | inr room ↦
      let not_full : count cs + 1 ≢ 512 = ground arith in
      rw room (store_room q cs c nz byte (lt_of w.room not_full) w)
]
  where
    reached : {n : ℕ} → (n == 512) ≡ true → n ≡ 512
    reached h = ground arith

    lt_of : {n : ℕ} → n < 512 → n + 1 ≢ 512 → n + 1 < 512
    lt_of h h' = omega arith

-- Every input is a byte.
unfoldable pub Bytes : List ℕ → Type 0
Bytes [] = Unit {0}
Bytes (c ∷ cs) = (c < 256) × Bytes cs

-- When the characters of the list wait in the buffer and cons_intr gets a sequence of bytes,
-- those wait after it that the sequence leaves when its zeros are dropped and each other byte goes
-- behind the rest, except that one that comes while 511 wait empties the buffer.
pub cons_intr-Waits :
    (q : Cons) (cs input : List ℕ)
    → Bytes input
    → Waits q cs
    → Waits (cons_intr input q) (accept_all cs input)
unfolding cons_intr accept_all Bytes
cons_intr-Waits q cs [] bytes w = w
cons_intr-Waits q cs (c ∷ input) (byte, bytes) w = elim (Bool-cases (c == 0)) [
  | inl nul ↦ rw nul (cons_intr-Waits q cs input bytes w)
  | inr nonzero ↦
      let nz : c ≢ 0 = ground arith in
      rw nonzero
        (cons_intr-Waits (store c q) (accept cs c) input bytes (store-Waits q cs c nz byte w))
]

-- What take_char gives of the characters that wait: the oldest, or 0 when none waits.
pub Oldest : List ℕ → ℕ × Cons → Type 0
Oldest [] (c, q) = (c ≡ 0) × Waits q []
Oldest (d ∷ ds) (c, q) = (c ≡ d) × Waits q ds

-- When the characters of the list wait in the buffer, the end of cons_getc returns the oldest and
-- leaves the others, in their order; when none waits it returns 0 and leaves the buffer empty.
pub take_char-Waits : (q : Cons) (cs : List ℕ) → Waits q cs → Oldest cs (take_char q)
unfolding take_char Oldest Lies
take_char-Waits q [] w =
    let met : (q.rpos == q.wpos) ≡ true = empty_test w.rpos_lt w.wpos_at in rw met (refl, w)
  where
    empty_test : {r p : ℕ} → r < 512 → p ≡ (r + 0) % 512 → (r == p) ≡ true
    empty_test lt e = ground arith
take_char-Waits q (c ∷ cs) w =
    let apart : (q.rpos == q.wpos) ≡ false = char_test (count cs) w.rpos_lt w.room w.wpos_at in
    rw apart (
      w.lies.0,
      record {
        rpos_lt = next_lt q.rpos w.rpos_lt;
        wpos_at = w.wpos_at ∙ sym (next_shift q.rpos (count cs) w.rpos_lt);
        room = omega (arith, w.room);
        lies = w.lies.2;
      },
    )
  where
    char_test : {r p : ℕ} (n : ℕ) → r < 512 → suc n < 512 → p ≡ (r + suc n) % 512 → (r == p) ≡ false
    char_test n lt fits e = ground arith
