-- ===== src/Gui/ResultModel.antt =====
-- src/gui/views/result_model.cpp: the table of results. `QVariant` is the type of its values; the
-- views are told of every change.
pub mod Cells
use service_port_scanner.Core.Floats.{FloatLib}
use service_port_scanner.Core.Result.{
  ScanResult, max_cvss, max_epss, max_percentile, max_risk, verified_cve_count, has_verified_cve,
}
use service_port_scanner.Report.Names.{state_str}
use service_port_scanner.Report.Stream.{show_count}
use service_port_scanner.Common.{
  ℕ, ◌+◌, Bool, true, false, not, ◌&&◌, ◌||◌, Bytes, codes, Option, none, some, List, [], ◌∷◌, ◌++◌,
  length, get_elem?, is_empty, ltb, leb, if◌then◌else◌,
}

pub data Column : Type 0 where
  col_port col_state col_service col_product col_version col_cve_count col_max_cvss col_max_epss
        col_max_percentile col_risk col_verified col_ja4s col_ja4x col_cdn col_os :
      Column

-- The columns in order.
abbrev pub columns : List Column
columns =
    Column.col_port ∷ Column.col_state ∷ Column.col_service ∷ Column.col_product
    ∷ Column.col_version ∷ Column.col_cve_count ∷ Column.col_max_cvss ∷ Column.col_max_epss
    ∷ Column.col_max_percentile ∷ Column.col_risk ∷ Column.col_verified ∷ Column.col_ja4s
    ∷ Column.col_ja4x ∷ Column.col_cdn ∷ Column.col_os ∷ []

-- `columnCount`.
unfoldable pub column_count : ℕ
column_count = length columns

pub data Role : Type 0 where
  display_role user_role other_role : Role

pub data Orientation : Type 0 where
  horizontal vertical : Orientation

pub data QVariant (fl : FloatLib) : Type 0 where
  invalid : QVariant fl
  int_value : ℕ → QVariant fl
  text_value : Bytes → QVariant fl
  float_value : fl.Float → QVariant fl
  double_value : fl.Double → QVariant fl

-- An index of the model.
pub record ModelIndex : Type 0 where
  pub is_valid : Bool
  pub row : ℕ
  pub column : ℕ

-- What a view is told.
pub data Notice : Type 0 where
  rows_inserted : ℕ → ℕ → Notice
  model_reset : Notice

module _ (fl : FloatLib) where
  unfoldable pub header_text : Column → Bytes
  header_text Column.col_port = codes "Port"
  header_text Column.col_state = codes "State"
  header_text Column.col_service = codes "Service"
  header_text Column.col_product = codes "Product"
  header_text Column.col_version = codes "Version"
  header_text Column.col_cve_count = codes "CVEs"
  header_text Column.col_max_cvss = codes "CVSS"
  header_text Column.col_max_epss = codes "EPSS"
  header_text Column.col_max_percentile = codes "Percentile"
  header_text Column.col_risk = codes "Risk"
  header_text Column.col_verified = codes "Verified"
  header_text Column.col_ja4s = codes "JA4S"
  header_text Column.col_ja4x = codes "JA4X"
  header_text Column.col_cdn = codes "CDN"
  header_text Column.col_os = codes "OS"

  abbrev pub is_display : Role → Bool
  is_display display_role = true
  is_display _ = false

  abbrev pub is_user : Role → Bool
  is_user user_role = true
  is_user _ = false

  abbrev pub is_horizontal : Orientation → Bool
  is_horizontal horizontal = true
  is_horizontal vertical = false

  abbrev header_of : Option Column → QVariant fl
  header_of none = invalid
  header_of (some c) = text_value (header_text c)

  unfoldable pub header_data : ℕ → Orientation → Role → QVariant fl
  unfolding header_text
  header_data section orientation role =
      if not (is_display role) || not (is_horizontal orientation)
      then invalid
      else header_of (get_elem? columns section)

  -- `number_fixed` is `QString::number(x, 'f', 2)`; the text is UTF-8, and the check mark three bytes.
  module _ (number_fixed : fl.Double → Bytes) where
    abbrev pub unless_empty : ScanResult fl → QVariant fl → QVariant fl
    unless_empty r v = if is_empty r.cves then invalid else v

    unfoldable pub verified_text : ScanResult fl → Bytes
    unfolding verified_cve_count show_count
    verified_text r =
        if ltb 0 (verified_cve_count fl r)
        then 0xe2
          ∷ 0x9c
          ∷ 0x93
          ∷ b' '
          ∷ (show_count (verified_cve_count fl r) ++ b'/' ∷ show_count (length r.cves))
        else codes "0/" ++ show_count (length r.cves)

    -- The `switch` of the display role.
    unfoldable pub display_value : ScanResult fl → Column → QVariant fl
    unfolding state_str max_cvss max_epss max_percentile max_risk verified_text
    display_value r Column.col_port = int_value r.port
    display_value r Column.col_state = text_value (state_str r.state)
    display_value r Column.col_service = text_value r.service.name
    display_value r Column.col_product = text_value r.service.product
    display_value r Column.col_version = text_value r.service.version
    display_value r Column.col_cve_count = int_value (length r.cves)
    display_value r Column.col_max_cvss = unless_empty r (float_value (max_cvss fl r))
    display_value r Column.col_max_epss = unless_empty r (double_value (max_epss fl r))
    display_value r Column.col_max_percentile = unless_empty r (double_value (max_percentile fl r))
    display_value r Column.col_risk = unless_empty r (text_value (number_fixed (max_risk fl r)))
    display_value r Column.col_verified = unless_empty r (text_value (verified_text r))
    display_value r Column.col_ja4s = text_value r.ja4s
    display_value r Column.col_ja4x = text_value r.ja4x
    display_value r Column.col_cdn = text_value r.cdn
    display_value r Column.col_os = text_value r.os_guess

    -- The tests of the user role.
    unfoldable pub user_value : ScanResult fl → Column → QVariant fl
    unfolding max_cvss max_epss max_percentile max_risk has_verified_cve
    user_value r Column.col_max_cvss = float_value (max_cvss fl r)
    user_value r Column.col_max_epss = double_value (max_epss fl r)
    user_value r Column.col_max_percentile = double_value (max_percentile fl r)
    user_value r Column.col_risk = double_value (max_risk fl r)
    user_value r Column.col_verified = int_value (if has_verified_cve fl r then 1 else 0)
    user_value r _ = invalid

    abbrev pub cell_value : Role → ScanResult fl → Option Column → QVariant fl
    cell_value role r none = invalid
    cell_value display_role r (some c) = display_value r c
    cell_value user_role r (some c) = user_value r c
    cell_value other_role r (some c) = invalid

    abbrev pub row_value : Role → ℕ → Option (ScanResult fl) → QVariant fl
    row_value role column none = invalid
    row_value role column (some r) = cell_value role r (get_elem? columns column)

    -- `data`; a row behind the last has no result.
    unfoldable pub data_at : List (ScanResult fl) → ModelIndex → Role → QVariant fl
    unfolding display_value user_value
    data_at results index role =
        if not index.is_valid || leb (length results) index.row
        then invalid
        else row_value role index.column (get_elem? results index.row)

  -- The model: `results_`, and what the views were told.
  pub record Model : Type 0 where
    pub results : List (ScanResult fl)
    pub notices : List Notice

  abbrev pub row_count : Model → ℕ
  row_count m = length m.results

  unfoldable pub append_result : ScanResult fl → Model → Model
  append_result r m =
      let row = length m.results in
      record { results = m.results ++ r ∷ []; notices = m.notices ++ rows_inserted row row ∷ [] }

  unfoldable pub set_results : List (ScanResult fl) → Model → Model
  set_results rs m = record { results = rs; notices = m.notices ++ model_reset ∷ [] }

  -- `at` throws where there is no such row.
  unfoldable pub result_at : ℕ → Model → Option (ScanResult fl)
  result_at row m = get_elem? m.results row

  unfoldable pub clear : Model → Model
  clear m = record { results = []; notices = m.notices ++ model_reset ∷ [] }
