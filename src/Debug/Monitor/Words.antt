-- ===== src/Debug/Monitor/Words.antt =====
-- How the monitor splits its line: runcmd of sched/kern/monitor.c.
use sched_v2_solution.Base.{
  ℕ, zero, suc, ◌+◌, ◌<◌, ◌≤◌, ◌≡◌, ◌≢◌, ◌∙◌, ◌⊎◌, inl, inr, refl, true, false, ◌||◌, Option, some,
  List, [], ◌∷◌, length, arith, ◌==◌, Bool-cases,
}
use sched_v2_solution.Strings.{Bytes}
use sched_v2_solution.Strings.Length.{HasLength, first-nonzero}
use sched_v2_solution.Debug.Monitor.{is_blank, Line, args, too_many, add_arg, split_args}
use sched_v2_solution.Debug.Monitor.Scan.{words, Gobbled, Scanned, gobble-Gobbles, scan-Scans}

-- An argument: characters that are not blank, at least one, and a null character behind them.
pub record IsWord (m : Bytes) (a : ℕ) : Type 0 where
  pub len : ℕ
  pub some_chars : 0 < len
  pub chars : (i : ℕ) → i < len → (m (a + i) ≢ 0) × (is_blank (m (a + i)) ≡ false)
  pub end : m (a + len) ≡ 0

unfoldable pub AreWords : Bytes → List ℕ → Type 0
AreWords m [] = Unit {0}
AreWords m (a ∷ l) = IsWord m a × AreWords m l

-- Memory mf after the line at s was split into the words l.
pub record Parsed (m : Bytes) (s : ℕ) (l : List ℕ) (mf : Bytes) : Type 0 where
  pub below : (a : ℕ) → a < s → mf a ≡ m a
  pub ended : (m s == 0 || is_blank (m s)) ≡ true → mf s ≡ 0
  pub are_words : AreWords mf l

-- What split_args does with n places for the words l: all of them, or a complaint if there are more.
pub data Answer (n : ℕ) (m : Bytes) (s : ℕ) (l : List ℕ) : Option Line → Type 0 where
  all_words : (mf : Bytes) → length l ≤ n → Parsed m s l mf → Answer n m s l (some (args l mf))
  more_words : (mf : Bytes) → n < length l → Answer n m s l (some (too_many mf))

empty_or_not : (n : ℕ) → (n ≡ 0) ⊎ (0 < n)
empty_or_not n = ground arith

Scanned-long :
    (m : Bytes) (s k to : ℕ)
    → (m s == 0 || is_blank (m s)) ≡ false
    → (c : Scanned m s k to) → 0 < c.len
Scanned-long m s k to word c = elim (empty_or_not c.len) [
  | inl none_yet ↦
      let here : to ≡ s = let e = c.here in omega arith in
      absurd (let stop = rw here at c.stop in ground (arith, stop, word))
  | inr more ↦ more
]

first-IsWord :
    (m mf : Bytes) (s k to : ℕ)
    → HasLength m s k
    → (m s == 0 || is_blank (m s)) ≡ false
    → Scanned m s k to
    → ((a : ℕ) → a < to → mf a ≡ m a)
    → mf to ≡ 0
    → IsWord mf s
first-IsWord m mf s k to h word c below ended = record {
  len = c.len;
  some_chars = Scanned-long m s k to word c;
  chars = λ i lt.
      let same : mf (s + i) ≡ m (s + i) = below (s + i) (let e = c.here in omega arith) in
      rw same (h.before i (let e = c.short in omega arith), c.inside i lt);
  end = let e : s + c.len ≡ to = let g = c.here in omega arith in rw e ended;
}

add_arg-Answer :
    (n : ℕ) (m m' : Bytes) (s k a to : ℕ) (l : List ℕ) (o : Option Line) (g : Gobbled m s k a m')
    → (m' a == 0 || is_blank (m' a)) ≡ false
    → Scanned m' a g.left to
    → Answer n m' to l o
    → Answer (suc n) m s (a ∷ l) (add_arg a o)
unfolding AreWords
add_arg-Answer n m m' s k a to l o g word c (more_words mf lt) = more_words mf (omega arith)
add_arg-Answer n m m' s k a to l o g word c (all_words mf le p) =
    let long = Scanned-long m' a g.left to word c in
    let up : s < to = let e = c.here in let f = g.up in omega arith in
    all_words mf (omega arith) (record {
      below = λ b lt. p.below b (omega arith) ∙ g.below b lt;
      ended = λ e. p.below s up ∙ g.ended e;
      are_words =
          (first-IsWord m' mf a g.left to g.rest word c p.below (p.ended c.stop), p.are_words);
    })

words-end :
    (k : ℕ) (m : Bytes) (s : ℕ) → HasLength m s k → (m s == 0) ≡ true → words k false m s ≡ []
unfolding words
words-end zero m s h null = refl
words-end (suc k) m s h null = let ne = first-nonzero m s k h in absurd (ground (arith, null, ne))

words-word :
    (k : ℕ) (m : Bytes) (s : ℕ)
    → HasLength m s k
    → (m s == 0) ≡ false
    → is_blank (m s) ≡ false
    → words k false m s ≡ s ∷ words k true m s
unfolding words
words-word zero m s h ne other =
    let at_s : s + 0 ≡ s = omega arith in
    let null : m s ≡ 0 = rw at_s at h.end in absurd (ground (arith, null, ne))
words-word (suc k) m s h ne other = rw other

no_more :
    (n : ℕ) (m m' : Bytes) (s k a : ℕ)
    → Gobbled m s k a m'
    → (m' a == 0) ≡ true
    → Answer n m s (words k false m s) (some (args [] m'))
unfolding AreWords
no_more n m m' s k a g null =
    rw (g.same ∙ words-end g.left m' a g.rest null)
      (all_words m' (omega arith) (record { below = g.below; ended = g.ended; are_words = tt }))

-- On a line of k characters before its null character, the loop of runcmd ends in any number of
-- rounds above k. With n places in argv, either its arguments are where the words of the line
-- start, in their order, they are at most n, each is a string of at least one character that is
-- not blank and ends with a null character, and memory before the line is as it was; or the line
-- has more than n words and it complains.
pub split_args-words :
    (n r k : ℕ) (m : Bytes) (s : ℕ)
    → HasLength m s k
    → k < r
    → Answer n m s (words k false m s) (split_args n r m s)
unfolding split_args
split_args-words zero r k m s h lt =
    let f = gobble-Gobbles r k m s h lt in
    let g = f.gobbled in
    rw (split_args, f.is)
      elim (Bool-cases (f.after f.to == 0)) [
        | inl null ↦ rw null (no_more 0 m f.after s k f.to g null)
        | inr ne ↦
            rw (ne, g.same ∙ words-word g.left f.after f.to g.rest ne g.stop)
              (more_words f.after (omega arith))
      ]
split_args-words (suc n) r k m s h lt =
    let f = gobble-Gobbles r k m s h lt in
    let g = f.gobbled in
    let within = g.short in
    let c = scan-Scans r g.left f.after f.to g.rest (omega arith) in
    let scanned = c.scanned in
    let within_word = scanned.short in
    let later = split_args-words n r scanned.left f.after c.to scanned.rest (omega arith) in
    rw (split_args, f.is)
      elim (Bool-cases (f.after f.to == 0)) [
        | inl null ↦ rw null (no_more (suc n) m f.after s k f.to g null)
        | inr ne ↦
            rw (ne, c.is, g.same ∙ words-word g.left f.after f.to g.rest ne g.stop, scanned.same)
              (add_arg-Answer n m f.after s k f.to c.to (words scanned.left false f.after c.to)
                (split_args n r f.after c.to) g (rw (ne, g.stop)) scanned later)
      ]
