-- ===== src/Base/Bits.antt =====
-- bit_or of a number of whole multiples and a smaller one is their sum.
use Prim.Native.Nat.{
  ℕ, zero, suc, ◌+◌, ◌*◌, ◌/◌, ◌%◌, ◌^◌, ◌≤◌, ◌<◌, max, bit_or, digits, bit_or-bitwise,
}
use mathlib.Core.Path.{◌≡◌, refl, sym, ap, ◌∙◌}
use native.Mathlib.Numerals.{unary_clauses}
use native.Mathlib.Omega.{arith}

-- The law for the lowest digit.
abbrev or_digits : ℕ → ℕ → ℕ → ℕ
or_digits n a b = digits (λ b. b) max n a b

or_digits_fuel : (n m a b : ℕ) → a ≤ n → a ≤ m → or_digits n a b ≡ or_digits m a b
or_digits_fuel zero zero a b p q = refl
or_digits_fuel zero (suc m) zero b p q = refl
or_digits_fuel zero (suc m) (suc a) b p q = absurd (omega arith)
or_digits_fuel (suc n) zero zero b p q = refl
or_digits_fuel (suc n) zero (suc a) b p q = absurd (omega arith)
or_digits_fuel (suc n) (suc m) zero b p q = refl
or_digits_fuel (suc n) (suc m) (suc a) b p q =
    omega (arith, or_digits_fuel n m (suc a / 2) (b / 2) (omega arith) (omega arith))

zero-bit_or : (b : ℕ) → bit_or 0 b ≡ b
zero-bit_or b = bit_or-bitwise 0 b

bit_or_step : (a b : ℕ) → bit_or a b ≡ bit_or (a / 2) (b / 2) * 2 + max (a % 2) (b % 2)
bit_or_step zero b = omega (arith, zero-bit_or b, zero-bit_or (b / 2))
bit_or_step (suc a) b = omega (
  arith,
  bit_or-bitwise (suc a) b,
  bit_or-bitwise (suc a / 2) (b / 2),
  or_digits_fuel a (suc a / 2) (suc a / 2) (b / 2) (omega arith) (omega arith),
)

bit_or-zero_fuel : (n a : ℕ) → a ≤ n → bit_or a 0 ≡ a
bit_or-zero_fuel n zero h = refl
bit_or-zero_fuel zero (suc a) h = absurd (omega arith)
bit_or-zero_fuel (suc n) (suc a) h =
    omega (arith, bit_or_step (suc a) 0, bit_or-zero_fuel n (suc a / 2) (omega arith))

bit_or-zero : (a : ℕ) → bit_or a 0 ≡ a
bit_or-zero a = bit_or-zero_fuel a a (omega arith)

pub pow_suc : (g k : ℕ) → g * 2 ^ suc k ≡ 2 * (g * 2 ^ k)
pow_suc g k = simp unary_clauses (omega arith)

half : (g k : ℕ) → g * 2 ^ suc k / 2 ≡ g * 2 ^ k
half g k = omega (arith, pow_suc g k)

-- The low k digits of g * 2 ^ k are free for b.
pub bit_or-below : (k g b : ℕ) → b < 2 ^ k → bit_or (g * 2 ^ k) b ≡ g * 2 ^ k + b
bit_or-below zero g b h =
    let none_set : b ≡ 0 = omega arith in rw none_set (bit_or-zero (g * 1) ∙ omega arith)
bit_or-below (suc k) g b h =
    let small : b / 2 < 2 ^ k = omega (arith, pow_suc 1 k) in
    let high : bit_or (g * 2 ^ suc k / 2) (b / 2) ≡ g * 2 ^ k + b / 2 =
      rw (half g k) (bit_or-below k g (b / 2) small) in
    omega (arith, pow_suc g k, bit_or_step (g * 2 ^ suc k) b, high)

-- The number without its low k binary digits.
abbrev shift : ℕ → ℕ → ℕ
shift zero a = a
shift (suc k) a = shift k (a / 2)

bit_or-half : (a b : ℕ) → bit_or a b / 2 ≡ bit_or (a / 2) (b / 2)
bit_or-half a b = omega (arith, bit_or_step a b)

bit_or-shift : (k a b : ℕ) → shift k (bit_or a b) ≡ bit_or (shift k a) (shift k b)
bit_or-shift zero a b = refl
bit_or-shift (suc k) a b = ap (shift k) (bit_or-half a b) ∙ bit_or-shift k (a / 2) (b / 2)

shift-page : (a : ℕ) → shift 12 a ≡ a / 0x1000
shift-page a = omega arith

-- The low twelve digits of one number do not reach the others.
pub bit_or-page : (a b : ℕ) → b < 0x1000 → bit_or a b / 0x1000 ≡ a / 0x1000
bit_or-page a b h =
    let none_left : shift 12 b ≡ 0 = omega arith in
    sym (shift-page (bit_or a b))
    ∙ bit_or-shift 12 a b
    ∙ ap (bit_or (shift 12 a)) none_left
    ∙ bit_or-zero (shift 12 a)
    ∙ shift-page a

-- PTE_P is the lowest digit.
pub bit_or_one : (a : ℕ) → bit_or a 1 % 2 ≡ 1
bit_or_one a = omega (arith, bit_or_step a 1)

-- An odd number stays odd.
pub bit_or_odd : (a b : ℕ) → a % 2 ≡ 1 → bit_or a b % 2 ≡ 1
bit_or_odd a b h = omega (arith, bit_or_step a b, h)

-- An odd number has the lowest digit already.
pub bit_or_one_odd : (a : ℕ) → a % 2 ≡ 1 → bit_or a 1 ≡ a
bit_or_one_odd a h = omega (arith, bit_or_step a 1, bit_or-zero (a / 2), h)
