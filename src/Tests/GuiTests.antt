-- ===== src/Tests/GuiTests.antt =====
-- Runs of src/gui/views, and the theorems on concrete inputs.
use service_port_scanner.Core.Result.{ScanResult, max_risk, max_epss, max_cvss}
use service_port_scanner.Scan.Connect.{make_result}
use service_port_scanner.Gui.ChartsPanel.{
  QPoint, add_result, distance, on_scatter_clicked, update_data,
}
use service_port_scanner.Gui.ChartsPanel.Nearest.{
  shown_points, dist, IsLeast, Places, on_scatter_clicked-Selects,
}
use service_port_scanner.Gui.Delegates.{Conversions, filled, rgb, paint_cvss}
use service_port_scanner.Gui.Delegates.Bands.{
  cell, IsFilled, IsWidening, IsConversion, row-IsFilled,
}
use service_port_scanner.Gui.ResultModel.{
  QVariant, float_value, double_value, int_value, invalid, text_value, display_role, user_role,
  rows_inserted, header_data, horizontal, data_at, Model, row_count, append_result, result_at,
}
use service_port_scanner.Gui.ResultModel.Cells.{append_result-data_at}
use service_port_scanner.Gui.ScanController.{
  Settings, scan_error, Controller, new_controller, start_scan, deliver, Turn, releasing,
}
use service_port_scanner.Gui.ScanController.Ends.{works}
use service_port_scanner.Tests.Documents.{whole_numbers, whole_numbers-IsOrdered}
use service_port_scanner.Tests.ProgramTests.{libs, digits, ssh_result, scan_port}
use service_port_scanner.Report.Stream.{show_count}
use service_port_scanner.Common.{
  ℕ, ◌+◌, ◌*◌, ◌⊎◌, All, ◌≡◌, refl, true, false, codes, bytes_eq, if◌then◌else◌, ◌==◌, none, some,
  List, [], ◌∷◌, ◌++◌,
}

abbrev settings : Settings libs
settings = record {
  probes = [];
  cves = [];
  epss = [];
  cdn = record { ranges = [] };
  rate = 100000;
  timeout = 1000;
}

abbrev turn : Turn libs
turn = record { exception = none; get = λ l. some (scan_port l); joined = true }

abbrev first_start : Controller libs
first_start = start_scan libs (codes "10.0.0.1") (22 ∷ []) (new_controller libs settings)

abbrev turns : List (Turn libs)
turns = turn ∷ turn ∷ turn ∷ turn ∷ turn ∷ turn ∷ turn ∷ turn ∷ turn ∷ []

-- Seven steps of the worker behind the start, its `scan_finished` is delivered, and the controller still
-- counts as running: the next `startScan` is refused.
abbrev finished_not_released : Controller libs
finished_not_released = deliver libs (
    deliver libs
      (deliver libs (works libs (turn ∷ turn ∷ turn ∷ turn ∷ turn ∷ turn ∷ turn ∷ []) first_start)))

refused_behind_finished :
    (finished_not_released.running ≡ true)
    × (finished_not_released.worker ≡ releasing)
    × ((start_scan libs (codes "10.0.0.1") [] finished_not_released).emitted
        ≡ finished_not_released.emitted ++ scan_error (codes "Scan already in progress") ∷ [])
unfolding new_controller start_scan works deliver
refused_behind_finished = (refl, refl, refl)

header_data_runs :
    (header_data whole_numbers 10 horizontal display_role ≡ text_value (codes "Verified"))
    × (header_data whole_numbers 15 horizontal display_role ≡ invalid)
unfolding header_data
header_data_runs = (refl, refl)

abbrev model : Model whole_numbers
model = record { results = ssh_result ∷ []; notices = [] }

append_result-data_at_example :
    (row_count whole_numbers (append_result whole_numbers ssh_result model)
      ≡ row_count whole_numbers model + 1)
    × ((append_result whole_numbers ssh_result model).notices
        ≡ model.notices ++ rows_inserted 1 1 ∷ [])
    × (result_at whole_numbers 1 (append_result whole_numbers ssh_result model) ≡ some ssh_result)
    × (data_at whole_numbers show_count
          (append_result whole_numbers ssh_result model).results
          (cell 1 10)
          display_role
        ≡ (if 1 == row_count whole_numbers model
            then data_at whole_numbers show_count (ssh_result ∷ []) (cell 0 10) display_role
            else data_at whole_numbers show_count model.results (cell 1 10) display_role))
append_result-data_at_example =
    append_result-data_at whole_numbers show_count ssh_result model (cell 1 10) display_role

-- A value that is no number counts as 0.
abbrev number_of : QVariant whole_numbers → ℕ
number_of (float_value x) = x
number_of (double_value x) = x
number_of (int_value n) = n
number_of _ = 0

abbrev conversions : Conversions whole_numbers
conversions = record { to_float = number_of; to_double = number_of }

-- A result without a CVE.
abbrev plain_result : ScanResult whole_numbers
plain_result = record ssh_result { cves = [] }

-- Its CVSS cell shows no value, and is painted with the number 0.
plain_result_run :
    (data_at whole_numbers show_count (plain_result ∷ []) (cell 0 6) display_role ≡ invalid)
    × (paint_cvss whole_numbers conversions show_count show_count show_count 6
          (data_at whole_numbers show_count (plain_result ∷ []) (cell 0 6) user_role)
        ≡ filled (rgb 50 50 50) (codes "0"))
unfolding data_at paint_cvss show_count
plain_result_run = (refl, refl)

whole_numbers-IsWidening : IsWidening whole_numbers
whole_numbers-IsWidening = record { ge_widen = λ x n h. refl; gt_widen = λ x n h. refl }

conversions-IsConversion : IsConversion whole_numbers conversions
conversions-IsConversion = record { float_kept = λ x. refl; double_kept = λ x. refl }

row-IsFilled_example :
    IsFilled whole_numbers digits conversions show_count show_count show_count
      (plain_result ∷ ssh_result ∷ [])
      1
      ssh_result
row-IsFilled_example =
    row-IsFilled whole_numbers digits conversions show_count show_count show_count
      whole_numbers-IsWidening conversions-IsConversion (plain_result ∷ ssh_result ∷ []) 1
      ssh_result refl

abbrev web_result : ScanResult whole_numbers
web_result = record ssh_result {
  service = record {
    name = codes "http";
    product = [];
    version = [];
    extra_info = [];
    banner_raw = [];
  };
}

abbrev click : QPoint whole_numbers
click = record { x = 0; y = 12 }

abbrev results : List (ScanResult whole_numbers)
results = plain_result ∷ web_result ∷ web_result ∷ []

-- Two results share the nearest point, and the first is selected; a result without a point is none.
on_scatter_clicked_runs :
    (on_scatter_clicked whole_numbers ◌+◌ ◌+◌ ◌*◌ 100000 click (update_data whole_numbers results)
      ≡ some 1)
    × (on_scatter_clicked whole_numbers ◌+◌ ◌+◌ ◌*◌ 100000 click
          (update_data whole_numbers (plain_result ∷ []))
        ≡ none)
unfolding on_scatter_clicked update_data distance add_result bytes_eq max_risk make_result max_epss
    max_cvss
on_scatter_clicked_runs = (refl, refl)

on_scatter_clicked-Selects_example :
    let out =
      on_scatter_clicked whole_numbers ◌+◌ ◌+◌ ◌*◌ 100000 click
        (update_data whole_numbers results) in
    let points = shown_points whole_numbers 0 results in
    ((out ≡ none)
      × All
          (λ q.
            whole_numbers.gt 100000
              (dist whole_numbers whole_numbers-IsOrdered ◌+◌ ◌+◌ ◌*◌ 100000 click q)
            ≡ false)
          points)
    ⊎ Places whole_numbers
        (λ p.
          (out ≡ some p.result_index)
          × IsLeast whole_numbers whole_numbers-IsOrdered ◌+◌ ◌+◌ ◌*◌ 100000 click 100000 points p)
        0
        results
on_scatter_clicked-Selects_example =
    on_scatter_clicked-Selects whole_numbers whole_numbers-IsOrdered ◌+◌ ◌+◌ ◌*◌ 100000 click
      results
