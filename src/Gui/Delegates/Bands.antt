-- ===== src/Gui/Delegates/Bands.antt =====
-- What a row of the table looks like under the delegates.
use service_port_scanner.Core.Floats.{FloatLib}
use service_port_scanner.Core.Result.{
  ScanResult, max_cvss, max_epss, max_percentile, max_risk, Severity, critical, high, medium, low,
  no_severity, severity_from_cvss,
}
use service_port_scanner.Report.Stream.{StreamLib}
use service_port_scanner.Report.HtmlWriter.{epss_style}
use service_port_scanner.Gui.ChartsPanel.{series_color, series_for_risk}
use service_port_scanner.Gui.ResultModel.{
  invalid, float_value, double_value, text_value, display_role, user_role, ModelIndex, data_at,
  display_value, user_value,
}
use service_port_scanner.Gui.Delegates.{
  Color, rgb, Conversions, filled, cvss_color, epss_color, risk_color, paint_cvss, paint_epss,
  paint_risk,
}
use service_port_scanner.Common.{
  ℕ, zero, suc, ◌≤◌, ◌≡◌, ◌⊎◌, inl, inr, sym, Bool-cases, refl, true, false, Bytes, codes, some,
  List, [], ◌∷◌, ◌++◌, length, get_elem?, is_empty, leb, if◌then◌else◌, arith,
}

get_elem?-leb {ℓ} :
    {A : Type ℓ} (xs : List A) (i : ℕ) {x : A} → get_elem? xs i ≡ some x → leb (length xs) i ≡ false
get_elem?-leb [] i h = cc
get_elem?-leb (y ∷ xs) zero h = ground arith
get_elem?-leb (y ∷ xs) (suc i) h = ground (arith, get_elem?-leb xs i h)

abbrev pub cell : ℕ → ℕ → ModelIndex
cell row column = record { is_valid = true; row = row; column = column }

-- The colour of a severity.
abbrev pub severity_color : Severity → Color
severity_color critical = rgb 180 30 30
severity_color high = rgb 200 120 20
severity_color medium = rgb 180 170 30
severity_color low = rgb 80 80 80
severity_color no_severity = rgb 50 50 50

-- What IEEE 754 says of `float` and `double`: a float and a small whole number compare as their
-- doubles do.
pub record IsWidening (fl : FloatLib) : Type 0 where
  pub ge_widen :
      (x : fl.Float) (n : ℕ)
      → n ≤ 10
      → fl.float_ge x (fl.float n) ≡ fl.ge (fl.widen x) (fl.double n)
  pub gt_widen :
      (x : fl.Float) (n : ℕ)
      → n ≤ 10
      → fl.float_gt x (fl.float n) ≡ fl.gt (fl.widen x) (fl.double n)

-- What Qt says of the conversions: a value of the type asked for is kept.
pub record IsConversion (fl : FloatLib) (qt : Conversions fl) : Type 0 where
  pub float_kept : (x : fl.Float) → qt.to_float (float_value x) ≡ x
  pub double_kept : (x : fl.Double) → qt.to_double (double_value x) ≡ x

module _ (fl : FloatLib) where
  cvss_color-severity :
      IsWidening fl
      → (x : fl.Float) → cvss_color fl x ≡ severity_color (severity_from_cvss fl (fl.widen x))
  unfolding cvss_color severity_from_cvss
  cvss_color-severity is x =
      rw
        (
          is.ge_widen x 9 (omega arith),
          is.ge_widen x 7 (omega arith),
          is.ge_widen x 4 (omega arith),
          is.gt_widen x 0 (omega arith),
        )
        (ground arith)

  risk_color-series : (x : fl.Double) → risk_color fl x ≡ series_color (series_for_risk fl x)
  unfolding risk_color series_for_risk series_color
  risk_color-series x = ground arith

  module _ (stream : StreamLib fl) where
    -- The report and the delegate put a probability in the same band.
    pub SameBand : fl.Double → Type 0
    SameBand x =
        ((epss_color fl x ≡ rgb 180 30 30)
          × (epss_style fl stream x ≡ codes "background:#b41e1e;color:#fff;font-weight:700;"))
        ⊎ ((epss_color fl x ≡ rgb 180 170 30)
            × (epss_style fl stream x ≡ codes "background:#b4aa1e;color:#fff;font-weight:700;"))
        ⊎ ((epss_color fl x ≡ rgb 30 140 30)
            × (epss_style fl stream x ≡ codes "background:#287828;color:#fff;font-weight:700;"))

    epss-SameBand : (x : fl.Double) → SameBand x
    unfolding SameBand epss_color epss_style
    epss-SameBand x = elim (Bool-cases (fl.ge x (fl.decimal 50 2))) [
      | inl e ↦ rw e (inl (refl, refl))
      | inr e ↦ elim (Bool-cases (fl.ge x (fl.decimal 10 2))) [
        | inl h ↦ rw (e, h) (inr (inl (refl, refl)))
        | inr h ↦ rw (e, h) (inr (inr (refl, refl)))
      ]
    ]

module _ (fl : FloatLib) (stream : StreamLib fl) (qt : Conversions fl)
    (number_one : fl.Float → Bytes) (number_two rounded_percent : fl.Double → Bytes) where
  -- What the delegates paint and the display role shows in the row of a result.
  pub record IsFilled (results : List (ScanResult fl)) (row : ℕ) (r : ScanResult fl) : Type 0 where
    pub cvss_painted :
        paint_cvss fl qt number_one number_two rounded_percent 6
          (data_at fl number_two results (cell row 6) user_role)
        ≡ filled
            (severity_color (severity_from_cvss fl (fl.widen (max_cvss fl r))))
            (number_one (max_cvss fl r))
    pub epss_painted :
        paint_epss fl qt number_one number_two rounded_percent 7
          (data_at fl number_two results (cell row 7) user_role)
        ≡ filled (epss_color fl (max_epss fl r)) (rounded_percent (max_epss fl r) ++ codes "%")
    pub epss_band : SameBand fl stream (max_epss fl r)
    pub percentile_painted :
        paint_epss fl qt number_one number_two rounded_percent 8
          (data_at fl number_two results (cell row 8) user_role)
        ≡ filled
            (epss_color fl (max_percentile fl r))
            (rounded_percent (max_percentile fl r) ++ codes "%")
    pub risk_painted :
        paint_risk fl qt number_one number_two rounded_percent 9
          (data_at fl number_two results (cell row 9) user_role)
        ≡ filled (series_color (series_for_risk fl (max_risk fl r))) (number_two (max_risk fl r))
    pub cvss_shown :
        data_at fl number_two results (cell row 6) display_role
        ≡ (if is_empty r.cves then invalid else float_value (max_cvss fl r))
    pub epss_shown :
        data_at fl number_two results (cell row 7) display_role
        ≡ (if is_empty r.cves then invalid else double_value (max_epss fl r))
    pub percentile_shown :
        data_at fl number_two results (cell row 8) display_role
        ≡ (if is_empty r.cves then invalid else double_value (max_percentile fl r))
    pub risk_shown :
        data_at fl number_two results (cell row 9) display_role
        ≡ (if is_empty r.cves then invalid else text_value (number_two (max_risk fl r)))

  -- With the documented conversions of Qt and of floats, the delegates fill the cells of CVSS, EPSS,
  -- percentile and risk in every row with the number of the greatest value over the CVEs, whether
  -- there is a CVE or not. The colour of CVSS is that of the severity of the score, that of risk is
  -- that of the series of the point in the chart, and EPSS lies in the band that the HTML report
  -- gives it. The display role of these cells is empty where there is no CVE, and else shows the value.
  pub row-IsFilled :
      IsWidening fl
      → IsConversion fl qt
      → (results : List (ScanResult fl)) (row : ℕ) (r : ScanResult fl)
      → get_elem? results row ≡ some r
      → IsFilled results row r
  unfolding data_at display_value user_value paint_cvss paint_epss paint_risk
  row-IsFilled wide kept results row r h =
      let found = get_elem?-leb results row h in
      record {
        cvss_painted =
            rw
              (
                h,
                found,
                kept.float_kept (max_cvss fl r),
                sym (cvss_color-severity fl wide (max_cvss fl r)),
              )
              refl;
        epss_painted = rw (h, found, kept.double_kept (max_epss fl r)) refl;
        epss_band = epss-SameBand fl stream (max_epss fl r);
        percentile_painted = rw (h, found, kept.double_kept (max_percentile fl r)) refl;
        risk_painted =
            rw
              (
                h,
                found,
                kept.double_kept (max_risk fl r),
                sym (risk_color-series fl (max_risk fl r)),
              )
              refl;
        cvss_shown = rw (h, found) refl;
        epss_shown = rw (h, found) refl;
        percentile_shown = rw (h, found) refl;
        risk_shown = rw (h, found) refl;
      }
