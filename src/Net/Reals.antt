-- ===== src/Net/Reals.antt =====
-- `double` with the arithmetic of the rate limiter, as a parameter.
use service_port_scanner.Common.{ℕ, Bool, true, false, ◌≡◌}

pub record RealLib : Type 1 where
  pub Real : Type 0
  -- `decimal n k` is the literal n / 10 ^ k.
  pub decimal : ℕ → ℕ → Real
  -- `static_cast<double>` of a count.
  pub of_count : ℕ → Real
  pub plus : Real → Real → Real
  pub minus : Real → Real → Real
  pub times : Real → Real → Real
  pub divide : Real → Real → Real
  pub abs : Real → Real
  pub lt : Real → Real → Bool
  pub ge : Real → Real → Bool
  pub ne : Real → Real → Bool

-- What IEEE 754 says of comparison, and of the subtraction of one.
pub record IsComparison (re : RealLib) : Type 0 where
  pub irreflexive : (a : re.Real) → re.lt a a ≡ false
  pub asymmetric : (a b : re.Real) → re.lt a b ≡ true → re.lt b a ≡ false
  pub minus_one :
      (a b : re.Real) → re.lt a b ≡ false → re.lt a (re.minus b (re.decimal 1 0)) ≡ false
