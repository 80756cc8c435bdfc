-- ===== src/Format/Buffer/Chunks.antt =====
-- cprintf of the user library loses nothing between its calls of sys_cputs.
use sched_v2_solution.Base.{
  ℕ, ◌+◌, ◌%◌, ◌<◌, ◌≡◌, refl, ◌∙◌, inl, inr, List, [], ◌∷◌, ◌++◌, arith, ◌==◌, Bool-cases,
}
use mathlib.Core.List.{append_assoc, append-nil}
use sched_v2_solution.Kernel.Pcb.{word}
use sched_v2_solution.Format.Escape.{map_chars, count}
use sched_v2_solution.Format.Buffer.{Printbuf, putch, put_all, vcprintf}

abbrev pub concat : List (List ℕ) → List ℕ
concat [] = []
concat (x ∷ xs) = x ++ concat xs

concat-append : (xs ys : List (List ℕ)) → concat (xs ++ ys) ≡ concat xs ++ concat ys
concat-append [] ys = refl
concat-append (x ∷ xs) ys = simp (concat-append xs ys, append_assoc)

-- Every call passes fewer than 256 bytes.
abbrev pub Short : List (List ℕ) → Type 0
Short [] = Unit {0}
Short (x ∷ xs) = (count x < 256) × Short xs

Short-append : (xs ys : List (List ℕ)) → Short xs → Short ys → Short (xs ++ ys)
Short-append [] ys h k = k
Short-append (x ∷ xs) ys h k = (h.0, Short-append xs ys h.1 k)

count-append : (xs ys : List ℕ) → count (xs ++ ys) ≡ count xs + count ys
count-append [] ys = omega arith
count-append (x ∷ xs) ys = omega (arith, count-append xs ys)

abbrev bytes_of : List ℕ → List ℕ
bytes_of = map_chars (λ c. c % 256)

abbrev out : Printbuf → List ℕ
out b = concat b.sent ++ b.held

-- The index is the number of bytes held, and no call has been too long.
record IsSound (b : Printbuf) : Type 0 where
  index : b.idx ≡ count b.held
  small : b.idx < 255
  short : Short b.sent

putch-IsSound : (c : ℕ) (b : Printbuf) → IsSound b → IsSound (putch c b)
unfolding putch
putch-IsSound c b h =
    let longer = count-append b.held (c % 256 ∷ []) in
    elim (Bool-cases (b.idx + 1 == 255)) [
      | inl full ↦ rw full (record {
        index = refl;
        small = omega arith;
        short = Short-append b.sent _ h.short (omega (arith, longer, h.small, h.index), tt);
      })
      | inr room ↦ rw room (record {
        index = omega (arith, longer, h.index);
        small = ground (arith, h.small);
        short = h.short;
      })
    ]

putch-out : (c : ℕ) (b : Printbuf) → out (putch c b) ≡ out b ++ c % 256 ∷ []
unfolding putch
putch-out c b = elim (Bool-cases (b.idx + 1 == 255)) [
  | inl full ↦ rw full (simp (concat-append, append-nil, append_assoc))
  | inr room ↦ rw room (simp append_assoc)
]

putch-cnt : (c : ℕ) (b : Printbuf) → (putch c b).cnt ≡ word (b.cnt + 1)
unfolding putch
putch-cnt c b = ground arith

put_all-out : (cs : List ℕ) (b : Printbuf) → out (put_all cs b) ≡ out b ++ bytes_of cs
unfolding put_all
put_all-out [] b = simp append-nil
put_all-out (c ∷ cs) b = put_all-out cs (putch c b) ∙ rw (putch-out c b) (simp append_assoc)

put_all-IsSound : (cs : List ℕ) (b : Printbuf) → IsSound b → IsSound (put_all cs b)
unfolding put_all
put_all-IsSound [] b h = h
put_all-IsSound (c ∷ cs) b h = put_all-IsSound cs (putch c b) (putch-IsSound c b h)

put_all-cnt :
    (cs : List ℕ) (b : Printbuf)
    → b.cnt + count cs < 0x8000_0000
    → (put_all cs b).cnt ≡ b.cnt + count cs
unfolding put_all
put_all-cnt [] b fits = omega arith
put_all-cnt (c ∷ cs) b fits =
    let one = putch-cnt c b in
    omega (arith, one, put_all-cnt cs (putch c b) (omega (arith, one, fits)))

-- When fewer than 2^31 characters are printed, so that the int that counts them does not overflow,
-- what vcprintf hands to sys_cputs, call after call, is what was printed, a byte for each
-- character; every call has fewer than 256 bytes; and the result is the number of characters.
pub vcprintf-concat :
    (cs : List ℕ)
    → count cs < 0x8000_0000
    → (concat (vcprintf cs).1 ≡ map_chars (λ c. c % 256) cs)
      × Short (vcprintf cs).1
      × ((vcprintf cs).0 ≡ count cs)
unfolding vcprintf
vcprintf-concat cs fits =
    let b0 : Printbuf = record { held = []; idx = 0; cnt = 0; sent = [] } in
    let sound = put_all-IsSound cs b0 (record { index = refl; small = omega arith; short = tt }) in
    (
      concat-append (put_all cs b0).sent ((put_all cs b0).held ∷ [])
          ∙ rw append-nil (put_all-out cs b0),
      Short-append (put_all cs b0).sent ((put_all cs b0).held ∷ []) sound.short
          (omega (arith, sound.index, sound.small), tt),
      put_all-cnt cs b0 (omega (arith, fits)) ∙ omega arith,
    )
