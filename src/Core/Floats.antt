-- ===== src/Core/Floats.antt =====
-- `float` and `double` as a parameter: the comparisons and conversions that the sources use.
use service_port_scanner.Common.{ℕ, Bool, true, false, ◌≡◌}

pub record FloatLib : Type 1 where
  pub Float : Type 0
  pub Double : Type 0
  pub float_zero : Float
  pub float : ℕ → Float
  -- The value of a whole number.
  pub double : ℕ → Double
  -- `decimal n k` is the literal n / 10 ^ k.
  pub decimal : ℕ → ℕ → Double
  pub widen : Float → Double
  pub narrow : Double → Float
  pub times : Double → Double → Double
  pub float_gt : Float → Float → Bool
  pub float_ge : Float → Float → Bool
  pub gt : Double → Double → Bool
  pub ge : Double → Double → Bool

-- What IEEE 754 says of the comparisons, for every value, those that are no numbers included.
pub record IsOrdered (fl : FloatLib) : Type 0 where
  pub gt_keeps : (a m n : fl.Double) → fl.gt n m ≡ true → fl.gt a m ≡ false → fl.gt a n ≡ false
  pub gt_irreflexive : (a : fl.Double) → fl.gt a a ≡ false
  pub float_gt_keeps :
      (a m n : fl.Float)
      → fl.float_gt n m ≡ true
      → fl.float_gt a m ≡ false
      → fl.float_gt a n ≡ false
  pub float_gt_irreflexive : (a : fl.Float) → fl.float_gt a a ≡ false
  pub ge_trans : (a b c : fl.Double) → fl.ge a b ≡ true → fl.ge b c ≡ true → fl.ge a c ≡ true
  pub ge_gt_trans : (a b c : fl.Double) → fl.ge a b ≡ true → fl.gt b c ≡ true → fl.gt a c ≡ true
