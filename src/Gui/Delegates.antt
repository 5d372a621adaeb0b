-- ===== src/Gui/Delegates.antt =====
-- src/gui/views/cvss_delegate.cpp, epss_delegate.cpp and risk_delegate.cpp: how the delegates paint a
-- cell of the table of results. The texts of numbers, `qRound` and
-- the conversions of `QVariant` are parameters.
pub mod Bands
use service_port_scanner.Core.Floats.{FloatLib}
use service_port_scanner.Gui.ResultModel.{QVariant, invalid}
use service_port_scanner.Common.{
  ℕ, max, Bool, true, false, ◌||◌, not, ◌&&◌, Bytes, ◌==◌, ◌++◌, codes, if◌then◌else◌,
}

pub record Color : Type 0 where
  pub red : ℕ
  pub green : ℕ
  pub blue : ℕ

abbrev pub rgb : ℕ → ℕ → ℕ → Color
rgb r g b = record { red = r; green = g; blue = b }

-- The default rendering, or a background with a text.
pub data Painted : Type 0 where
  default_paint : Painted
  filled : Color → Bytes → Painted

module _ (fl : FloatLib) where
  unfoldable pub cvss_color : fl.Float → Color
  cvss_color score =
      if fl.float_ge score (fl.float 9)
      then rgb 180 30 30
      else if fl.float_ge score (fl.float 7)
      then rgb 200 120 20
      else if fl.float_ge score (fl.float 4)
      then rgb 180 170 30
      else if fl.float_gt score (fl.float 0)
      then rgb 80 80 80
      else rgb 50 50 50

  unfoldable pub epss_color : fl.Double → Color
  epss_color score =
      if fl.ge score (fl.decimal 50 2)
      then rgb 180 30 30
      else if fl.ge score (fl.decimal 10 2)
      then rgb 180 170 30
      else rgb 30 140 30

  unfoldable pub risk_color : fl.Double → Color
  risk_color score =
      if fl.ge score (fl.double 7)
      then rgb 180 30 30
      else if fl.ge score (fl.double 3)
      then rgb 200 120 20
      else if fl.ge score (fl.double 1)
      then rgb 180 170 30
      else rgb 80 80 80

  -- `QString::number(x, 'f', 1)` of a float, `QString::number(x, 'f', 2)` of a double, and
  -- `QString::number(qRound(x * 100.0))`.
  -- `isValid`.
  unfoldable pub is_valid : QVariant fl → Bool
  is_valid invalid = false
  is_valid _ = true

  -- `toFloat` and `toDouble` of Qt, which convert between the types of values.
  pub record Conversions : Type 0 where
    pub to_float : QVariant fl → fl.Float
    pub to_double : QVariant fl → fl.Double

  module _ (qt : Conversions) (number_one : fl.Float → Bytes)
      (number_two rounded_percent : fl.Double → Bytes) where
    -- `paint` of the three delegates, on the column and the value of the user role.
    unfoldable pub paint_cvss : ℕ → QVariant fl → Painted
    unfolding cvss_color is_valid
    paint_cvss column val =
        if not (column == 6)
        then default_paint
        else if not (is_valid val)
        then default_paint
        else let cvss = qt.to_float val in filled (cvss_color cvss) (number_one cvss)

    unfoldable pub paint_epss : ℕ → QVariant fl → Painted
    unfolding epss_color is_valid
    paint_epss column val =
        if not (column == 7) && not (column == 8)
        then default_paint
        else if not (is_valid val)
        then default_paint
        else let epss = qt.to_double val in
          filled (epss_color epss) (rounded_percent epss ++ codes "%")

    unfoldable pub paint_risk : ℕ → QVariant fl → Painted
    unfolding risk_color is_valid
    paint_risk column val =
        if not (column == 9)
        then default_paint
        else if not (is_valid val)
        then default_paint
        else let risk = qt.to_double val in filled (risk_color risk) (number_two risk)

-- The widths of `sizeHint`.
unfoldable pub cvss_width : ℕ → ℕ
cvss_width width = max width 60

unfoldable pub risk_width : ℕ → ℕ
risk_width width = max width 70
