-- ===== src/Gui/ChartsPanel.antt =====
-- src/gui/views/charts_panel.cpp: the points of the risk matrix and the result a click selects. The
-- axes and the other settings of the chart are not modelled.
pub mod Nearest
use service_port_scanner.Core.Floats.{FloatLib}
use service_port_scanner.Core.Result.{ScanResult, max_cvss, max_epss, max_risk}
use service_port_scanner.Gui.Delegates.{Color, rgb}
use service_port_scanner.Common.{
  ℕ, ◌+◌, Bool, not, ◌||◌, Bytes, codes, bytes_eq, Option, none, some, List, [], ◌∷◌, ◌++◌,
  is_empty, if◌then◌else◌,
}

pub data RiskSeries : Type 0 where
  critical_series high_series medium_series low_series : RiskSeries

-- The colours that `updateData` gives the series.
unfoldable pub series_color : RiskSeries → Color
series_color critical_series = rgb 180 30 30
series_color high_series = rgb 200 120 20
series_color medium_series = rgb 180 170 30
series_color low_series = rgb 80 80 80

module _ (fl : FloatLib) where
  open fl use {Double}

  -- `QPointF`.
  pub record QPoint : Type 0 where
    pub x : Double
    pub y : Double

  pub record PointInfo : Type 0 where
    pub epss : Double
    pub cvss : Double
    pub result_index : ℕ

  -- The points of the four series, and `point_map_`.
  pub record ChartsPanel : Type 0 where
    pub critical : List QPoint
    pub high : List QPoint
    pub medium : List QPoint
    pub low : List QPoint
    pub point_map : List PointInfo

  abbrev pub empty_panel : ChartsPanel
  empty_panel = record { critical = []; high = []; medium = []; low = []; point_map = [] }

  unfoldable pub is_probe_result : ScanResult fl → Bool
  is_probe_result r =
      let service = r.service.name in
      (bytes_eq service (codes "ssh"))
      || (bytes_eq service (codes "http"))
      || (bytes_eq service (codes "tls"))
      || (bytes_eq service (codes "ftp"))
      || (bytes_eq service (codes "smtp"))

  unfoldable pub series_for_risk : Double → RiskSeries
  series_for_risk risk =
      if fl.ge risk (fl.double 7)
      then critical_series
      else if fl.ge risk (fl.double 3)
      then high_series
      else if fl.ge risk (fl.double 1)
      then medium_series
      else low_series

  -- `series->append`.
  abbrev pub append_point : RiskSeries → QPoint → ChartsPanel → ChartsPanel
  append_point critical_series p panel = record panel { critical = panel.critical ++ p ∷ [] }
  append_point high_series p panel = record panel { high = panel.high ++ p ∷ [] }
  append_point medium_series p panel = record panel { medium = panel.medium ++ p ∷ [] }
  append_point low_series p panel = record panel { low = panel.low ++ p ∷ [] }

  abbrev pub push_point : PointInfo → ChartsPanel → ChartsPanel
  push_point p panel = record panel { point_map = panel.point_map ++ p ∷ [] }

  abbrev pub point_info : ℕ → ScanResult fl → PointInfo
  point_info idx r = record {
    epss = max_epss fl r;
    cvss = fl.widen (max_cvss fl r);
    result_index = idx;
  }

  -- What a round of `updateData` does with a result.
  unfoldable pub add_result : ℕ → ScanResult fl → ChartsPanel → ChartsPanel
  unfolding is_probe_result series_for_risk
  add_result idx r panel =
      if not (is_probe_result r) || is_empty r.cves
      then panel
      else push_point (point_info idx r) (
          append_point (series_for_risk (max_risk fl r))
            (record { x = max_epss fl r; y = fl.widen (max_cvss fl r) }) panel)

  unfoldable pub add_results : ℕ → List (ScanResult fl) → ChartsPanel → ChartsPanel
  add_results idx [] panel = panel
  add_results idx (r ∷ rs) panel = add_results (idx + 1) rs (add_result idx r panel)

  unfoldable pub update_data : List (ScanResult fl) → ChartsPanel
  unfolding add_results
  update_data results = add_results 0 results empty_panel

  -- The difference, the sum and the quotient of doubles, and the largest of them.
  module _ (minus plus over : Double → Double → Double) (largest : Double) where
    unfoldable pub distance : QPoint → PointInfo → Double
    distance point p =
        let dx = minus p.epss point.x in
        let dy = over (minus p.cvss point.y) (fl.double 10) in
        plus (fl.times dx dx) (fl.times dy dy)

    -- The loop of `on_scatter_clicked`; no index is the -1 of the source.
    unfoldable pub nearest_from : QPoint → Double → Option ℕ → List PointInfo → Option ℕ
    nearest_from point min_dist best [] = best
    nearest_from point min_dist best (p ∷ ps) =
        let dist = distance point p in
        let nearer = fl.gt min_dist dist in
        nearest_from point (if nearer then dist else min_dist)
          (if nearer then some p.result_index else best) ps

    -- The index that `pointClicked` is emitted with.
    unfoldable pub on_scatter_clicked : QPoint → ChartsPanel → Option ℕ
    unfolding nearest_from
    on_scatter_clicked point panel = nearest_from point largest none panel.point_map
