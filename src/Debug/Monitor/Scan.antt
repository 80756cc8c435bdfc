-- ===== src/Debug/Monitor/Scan.antt =====
-- The two loops of runcmd in sched/kern/monitor.c: over the blanks, and over a word.
use sched_v2_solution.Base.{
  ℕ, zero, suc, ◌+◌, ◌<◌, ◌≤◌, ◌≡◌, ◌∙◌, inl, inr, refl, Bool, true, false, ◌||◌, some, List, [],
  ◌∷◌, arith, ◌==◌, if◌then◌else◌, update, update_self, Bool-cases,
}
use sched_v2_solution.Strings.{Bytes}
use sched_v2_solution.Strings.Length.{HasLength, HasLength-suc, first-nonzero}
use sched_v2_solution.Debug.Monitor.{is_blank, gobble, scan}

-- Where words start in k characters from s, of which the first may be inside a word.
unfoldable pub words : (k : ℕ) (inside : Bool) → Bytes → ℕ → List ℕ
words zero inside m s = []
words (suc k) inside m s =
    let apart = words k false m (s + 1) in
    let joined = words k true m (s + 1) in
    if is_blank (m s) then apart else if inside then joined else s ∷ joined

words-cong :
    (k : ℕ) (inside : Bool) (m m' : Bytes) (s : ℕ)
    → ((a : ℕ) → s ≤ a → m a ≡ m' a)
    → words k inside m s ≡ words k inside m' s
unfolding words
words-cong zero inside m m' s h = refl
words-cong (suc k) inside m m' s h =
    let apart = words-cong k false m m' (s + 1) (λ a le. h a (omega arith)) in
    let joined = words-cong k true m m' (s + 1) (λ a le. h a (omega arith)) in
    rw (h s (omega arith), apart, joined)

-- What the loop over the blanks leaves, from a string of k characters at s.
pub record Gobbled (m : Bytes) (s k s' : ℕ) (m' : Bytes) : Type 0 where
  pub left : ℕ
  pub short : left ≤ k
  pub rest : HasLength m' s' left
  pub up : s ≤ s'
  pub below : (a : ℕ) → a < s → m' a ≡ m a
  pub ended : (m s == 0 || is_blank (m s)) ≡ true → m' s ≡ 0
  pub stop : is_blank (m' s') ≡ false
  pub same : words k false m s ≡ words left false m' s'

pub record Gobbles (m : Bytes) (s k r : ℕ) : Type 0 where
  pub to : ℕ
  pub after : Bytes
  pub is : gobble r m s ≡ some (to, after)
  pub gobbled : Gobbled m s k to after

clear-HasLength : (m : Bytes) (s k : ℕ) → HasLength m s (suc k) → HasLength (update m s 0) (s + 1) k
clear-HasLength m s k h =
    let g = HasLength-suc m s k h in
    record {
      before = λ i lt. let b = g.before i lt in ground arith;
      end = let e = g.end in ground arith;
    }

at_once :
    (m : Bytes) (s k : ℕ)
    → HasLength m s k
    → is_blank (m s) ≡ false
    → ((m s == 0) ≡ true → m s ≡ 0)
    → Gobbled m s k s m
at_once m s k h other null = record {
  left = k;
  short = omega arith;
  rest = h;
  up = omega arith;
  below = λ a lt. refl;
  ended = λ e. null (ground (arith, e, other));
  stop = other;
  same = refl;
}

one_more :
    (m m' : Bytes) (s k to : ℕ)
    → Gobbled (update m s 0) (s + 1) k to m'
    → is_blank (m s) ≡ true
    → m' s ≡ 0
    → Gobbled m s (suc k) to m'
unfolding words
one_more m m' s k to g blank null = record {
  left = g.left;
  short = let l = g.short in omega arith;
  rest = g.rest;
  up = let l = g.up in omega arith;
  below = λ a lt. g.below a (omega arith) ∙ ground arith;
  ended = λ e. null;
  stop = g.stop;
  same = rw blank (words-cong k false m (update m s 0) (s + 1) (λ a le. ground arith) ∙ g.same);
}

pub gobble-Gobbles : (r k : ℕ) (m : Bytes) (s : ℕ) → HasLength m s k → k < r → Gobbles m s k r
unfolding gobble is_blank
gobble-Gobbles zero k m s h lt = absurd (omega arith)
gobble-Gobbles (suc r) zero m s h lt =
    let at_s : s + 0 ≡ s = omega arith in
    let null : m s ≡ 0 = rw at_s at h.end in
    record { to = s; after = m; is = rw null; gobbled = at_once m s 0 h (rw null) (λ e. null) }
gobble-Gobbles (suc r) (suc k) m s h lt = elim (Bool-cases (is_blank (m s))) [
  | inl blank ↦
      let g = gobble-Gobbles r k (update m s 0) (s + 1) (clear-HasLength m s k h) (omega arith) in
      record {
        to = g.to;
        after = g.after;
        is = rw (first-nonzero m s k h, blank) g.is;
        gobbled =
            one_more m g.after s k g.to g.gobbled blank
              (g.gobbled.below s (omega arith) ∙ update_self m s 0);
      }
  | inr other ↦
      let ne = first-nonzero m s k h in
      record {
        to = s;
        after = m;
        is = rw (ne, other);
        gobbled = at_once m s (suc k) h other (λ e. absurd (ground (arith, e, ne)));
      }
]

-- What the scan past a word of k characters and more finds.
pub record Scanned (m : Bytes) (s k s' : ℕ) : Type 0 where
  pub len : ℕ
  pub left : ℕ
  pub here : s' ≡ s + len
  pub short : len + left ≡ k
  pub rest : HasLength m s' left
  pub inside : (i : ℕ) → i < len → is_blank (m (s + i)) ≡ false
  pub stop : (m s' == 0 || is_blank (m s')) ≡ true
  pub same : words k true m s ≡ words left false m s'

pub record Scans (m : Bytes) (s k r : ℕ) : Type 0 where
  pub to : ℕ
  pub is : scan r m s ≡ some to
  pub scanned : Scanned m s k to

no_word :
    (m : Bytes) (s k : ℕ)
    → HasLength m s k
    → (m s == 0 || is_blank (m s)) ≡ true
    → words k true m s ≡ words k false m s
    → Scanned m s k s
no_word m s k h stop same = record {
  len = 0;
  left = k;
  here = omega arith;
  short = omega arith;
  rest = h;
  inside = λ i lt. absurd (omega arith);
  stop = stop;
  same = same;
}

one_longer :
    (m : Bytes) (s k to : ℕ)
    → is_blank (m s) ≡ false
    → Scanned m (s + 1) k to
    → Scanned m s (suc k) to
unfolding words
one_longer m s k to other c = record {
  len = suc c.len;
  left = c.left;
  here = let e = c.here in omega arith;
  short = let e = c.short in omega arith;
  rest = c.rest;
  inside = inner;
  stop = c.stop;
  same = rw other c.same;
}
  where
    inner : (i : ℕ) → i < suc c.len → is_blank (m (s + i)) ≡ false
    inner zero lt = let e : s + 0 ≡ s = omega arith in rw e other
    inner (suc i) lt =
        let e : s + suc i ≡ s + 1 + i = omega arith in rw e (c.inside i (omega arith))

pub scan-Scans : (r k : ℕ) (m : Bytes) (s : ℕ) → HasLength m s k → k < r → Scans m s k r
unfolding scan words
scan-Scans zero k m s h lt = absurd (omega arith)
scan-Scans (suc r) zero m s h lt =
    let at_s : s + 0 ≡ s = omega arith in
    let null : m s ≡ 0 = rw at_s at h.end in
    record { to = s; is = rw null; scanned = no_word m s 0 h (rw null) refl }
scan-Scans (suc r) (suc k) m s h lt = elim (Bool-cases (is_blank (m s))) [
  | inl blank ↦
      let ne = first-nonzero m s k h in
      record {
        to = s;
        is = rw (ne, blank);
        scanned = no_word m s (suc k) h (rw (ne, blank)) (rw blank);
      }
  | inr other ↦
      let c = scan-Scans r k m (s + 1) (HasLength-suc m s k h) (omega arith) in
      record {
        to = c.to;
        is = rw (first-nonzero m s k h, other) c.is;
        scanned = one_longer m s k c.to other c.scanned;
      }
]
