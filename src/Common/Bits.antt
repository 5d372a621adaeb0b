-- ===== src/Common/Bits.antt =====
-- `&` and `|` on unsigned words as arithmetic. The native operations stand for a recursion on
-- binary digits, whose equations are the first lemmas.
use Prim.Native.Nat.{
  ℕ, zero, suc, ◌+◌, ◌-◌, ◌*◌, ◌/◌, ◌%◌, ◌^◌, ◌≤◌, ◌<◌, min, max, bit_and, bit_or, digits,
  bit_and-bitwise, bit_or-bitwise,
}
use mathlib.Core.Path.{◌≡◌, refl, sym, ap}
use native.Mathlib.Nat.{pow-suc, pow-succ', one-le-pow, div-div-eq-div-mul, div-add-mod}
use native.Mathlib.Omega.{arith}

module _ (low : ℕ → ℕ) (digit : ℕ → ℕ → ℕ) where
  -- Any fuel from the number on gives the same digits.
  digits_enough :
      (fuel fuel' a b : ℕ)
      → a ≤ fuel
      → a ≤ fuel'
      → digits low digit fuel a b ≡ digits low digit fuel' a b
  digits_enough zero zero a b h k = refl
  digits_enough zero (suc fuel') zero b h k = refl
  digits_enough zero (suc fuel') (suc a) b h k = absurd (omega arith)
  digits_enough (suc fuel) zero zero b h k = refl
  digits_enough (suc fuel) zero (suc a) b h k = absurd (omega arith)
  digits_enough (suc fuel) (suc fuel') zero b h k = refl
  digits_enough (suc fuel) (suc fuel') (suc a) b h k =
      omega (arith, digits_enough fuel fuel' (suc a / 2) (b / 2) (omega arith) (omega arith))

zero-bit_and : (b : ℕ) → bit_and 0 b ≡ 0
zero-bit_and b = bit_and-bitwise 0 b

zero-bit_or : (b : ℕ) → bit_or 0 b ≡ b
zero-bit_or b = bit_or-bitwise 0 b

bit_and_halves : (a b : ℕ) → bit_and a b ≡ bit_and (a / 2) (b / 2) * 2 + min (a % 2) (b % 2)
bit_and_halves zero b = omega (arith, zero-bit_and b, zero-bit_and (b / 2))
bit_and_halves (suc a) b = omega (
  arith,
  bit_and-bitwise (suc a) b,
  bit_and-bitwise (suc a / 2) (b / 2),
  digits_enough (λ _. 0) min a (suc a / 2) (suc a / 2) (b / 2) (omega arith) (omega arith),
)

bit_or_halves : (a b : ℕ) → bit_or a b ≡ bit_or (a / 2) (b / 2) * 2 + max (a % 2) (b % 2)
bit_or_halves zero b = omega (arith, zero-bit_or b, zero-bit_or (b / 2))
bit_or_halves (suc a) b = omega (
  arith,
  bit_or-bitwise (suc a) b,
  bit_or-bitwise (suc a / 2) (b / 2),
  digits_enough (λ y. y) max a (suc a / 2) (suc a / 2) (b / 2) (omega arith) (omega arith),
)

bit_or-zero_below : (fuel a : ℕ) → a ≤ fuel → bit_or a 0 ≡ a
bit_or-zero_below fuel zero h = refl
bit_or-zero_below zero (suc a) h = absurd (omega arith)
bit_or-zero_below (suc fuel) (suc a) h =
    omega (arith, bit_or_halves (suc a) 0, bit_or-zero_below fuel (suc a / 2) (omega arith))

bit_and-zero_below : (fuel a : ℕ) → a ≤ fuel → bit_and a 0 ≡ 0
bit_and-zero_below fuel zero h = refl
bit_and-zero_below zero (suc a) h = absurd (omega arith)
bit_and-zero_below (suc fuel) (suc a) h =
    omega (arith, bit_and_halves (suc a) 0, bit_and-zero_below fuel (suc a / 2) (omega arith))

double_pow : (q k : ℕ) → q * 2 ^ suc k ≡ 2 * (q * 2 ^ k)
double_pow q k = omega (arith, ap (λ (t : ℕ). q * t) (pow-suc 2 k))

-- `(q << k) | r` is a sum where `r` fits k bits.
pub bit_or_join : (k q r : ℕ) → r < 2 ^ k → bit_or (q * 2 ^ k) r ≡ q * 2 ^ k + r
bit_or_join zero q r h = ground (arith, bit_or-zero_below q q)
bit_or_join (suc k) q r h = ground (
  arith,
  pow-suc 2 k,
  bit_or_halves (q * 2 ^ suc k) r,
  double_pow q k,
  bit_or_join k q (r / 2) (omega (arith, pow-suc 2 k)),
)

-- `a & (2^n - 1)` keeps a word that fits n bits.
bit_and_ones : (n a : ℕ) → a < 2 ^ n → bit_and a (2 ^ n - 1) ≡ a
bit_and_ones zero a h = omega (arith, bit_and-zero_below a a)
bit_and_ones (suc n) a h = ground (
  arith,
  pow-suc 2 n,
  one-le-pow n 2 (omega arith),
  bit_and_halves a (2 ^ suc n - 1),
  bit_and_ones n (a / 2) (omega (arith, pow-suc 2 n)),
)

half_of_div : (a k : ℕ) → a / 2 ^ suc k ≡ a / 2 / 2 ^ k
half_of_div a k = rw (pow-succ' 2 k) (sym (div-div-eq-div-mul a 2 (2 ^ k)))

-- `a & ((2^n - 1) << k)` drops the low k bits.
pub bit_and_mask :
    (k n a : ℕ) → a < 2 ^ n * 2 ^ k → bit_and a ((2 ^ n - 1) * 2 ^ k) ≡ a / 2 ^ k * 2 ^ k
bit_and_mask zero n a h = ground (arith, bit_and_ones n a)
bit_and_mask (suc k) n a h = ground (
  arith,
  double_pow (2 ^ n) k,
  double_pow (2 ^ n - 1) k,
  double_pow (a / 2 / 2 ^ k) k,
  half_of_div a k,
  bit_and_halves a ((2 ^ n - 1) * 2 ^ suc k),
  bit_and_mask k n (a / 2),
)

-- `a & (2^n - 1)` is the remainder.
pub bit_and_low : (n a : ℕ) → bit_and a (2 ^ n - 1) ≡ a % 2 ^ n
bit_and_low zero a = omega (arith, bit_and-zero_below a a)
bit_and_low (suc n) a = ground (
  arith,
  pow-succ' 2 n,
  one-le-pow n 2 (omega arith),
  bit_and_halves a (2 ^ suc n - 1),
  bit_and_low n (a / 2),
  half_of_div a n,
  div-add-mod a (2 ^ suc n),
  div-add-mod (a / 2) (2 ^ n),
  double_pow (a / 2 / 2 ^ n) n,
)
