-- ===== src/Report/Stream.antt =====
-- The output streams of src/report: `operator<<` of an unsigned number in the C locale, and that of
-- floating point as a parameter.
use service_port_scanner.Core.Floats.{FloatLib}
use service_port_scanner.Common.{
  ℕ, zero, suc, ◌+◌, ◌-◌, ◌*◌, ◌/◌, ◌%◌, ◌<◌, ◌≡◌, refl, Bytes, List, [], ◌∷◌, ◌++◌, ltb, is_empty,
  false, if◌then◌else◌, decimal_from, AreDigits, Bool-cases, inl, inr, All-append, arith,
}

-- The digits of a number, on fuel.
unfoldable pub digits_from : ℕ → ℕ → Bytes
digits_from zero n = []
digits_from (suc fuel) n =
    let front = digits_from fuel (n / 10) in
    if ltb n 10 then (b'0' + n) ∷ [] else front ++ (b'0' + n % 10) ∷ []

-- A number has less digits than its successor counts.
unfoldable pub show_count : ℕ → Bytes
unfolding digits_from
show_count n = digits_from (suc n) n

-- `<<` one after the other.
unfoldable pub out : List Bytes → Bytes
out [] = []
out (x ∷ xs) = x ++ out xs

pub record StreamLib (fl : FloatLib) : Type 0 where
  -- `operator<<` of a stream as it is made, and behind `std::fixed << std::setprecision(2)`.
  pub show_float : fl.Float → Bytes
  pub show_double : fl.Double → Bytes
  pub show_float_fixed : fl.Float → Bytes
  pub show_double_fixed : fl.Double → Bytes
  -- `std::to_string`.
  pub float_to_string : fl.Float → Bytes
  pub double_to_string : fl.Double → Bytes
  -- `operator<<` of `static_cast<int>(x * 100)`.
  pub show_percent : fl.Double → Bytes

decimal_from-append :
    (n c : ℕ) (s : Bytes) → decimal_from n (s ++ c ∷ []) ≡ decimal_from n s * 10 + (c - b'0')
decimal_from-append n c [] = refl
decimal_from-append n c (d ∷ s) = decimal_from-append (n * 10 + (d - b'0')) c s

digits_from-decimal :
    (fuel n : ℕ)
    → n < fuel
    → (decimal_from 0 (digits_from fuel n) ≡ n) × AreDigits (digits_from fuel n)
unfolding digits_from
digits_from-decimal zero n h = absurd (omega arith)
digits_from-decimal (suc fuel) n h = elim (Bool-cases (ltb n 10)) [
  | inl small ↦ rw (small, digits_from) (omega arith, (ground arith, tt))
  | inr large ↦
      let (e, d) = digits_from-decimal fuel (n / 10) (ground arith) in
      rw (large, digits_from)
        (
          omega (arith, e, decimal_from-append 0 (b'0' + n % 10) (digits_from fuel (n / 10))),
          All-append _ (digits_from fuel (n / 10)) _ d (ground arith, tt),
        )
]

-- The digits of a number are digits, and stand for it.
pub show_count-decimal : (n : ℕ) → (decimal_from 0 (show_count n) ≡ n) × AreDigits (show_count n)
unfolding show_count
show_count-decimal n = digits_from-decimal (suc n) n (omega arith)

is_empty-snoc : (s : Bytes) (c : ℕ) → is_empty (s ++ c ∷ []) ≡ false
is_empty-snoc [] c = refl
is_empty-snoc (x ∷ s) c = refl

-- A number has at least one digit.
pub show_count-nonempty : (n : ℕ) → is_empty (show_count n) ≡ false
unfolding show_count digits_from
show_count-nonempty n = elim (Bool-cases (ltb n 10)) [
  | inl e ↦ rw e refl
  | inr e ↦ rw e (is_empty-snoc (digits_from n (n / 10)) (b'0' + n % 10))
]
