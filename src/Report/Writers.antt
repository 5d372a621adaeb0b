-- ===== src/Report/Writers.antt =====
-- src/report/writers.cpp: the reports of the command line. nlohmann::json, which builds and dumps the
-- JSON report, is a parameter, and so is the print of floating point.
pub mod Top
use service_port_scanner.Core.Floats.{FloatLib}
use service_port_scanner.Core.Result.{CveInfo, ScanResult, risk}
use service_port_scanner.Fp.Cve.{Outcome}
use service_port_scanner.Report.Csv.{escape_csv_field}
use service_port_scanner.Report.Html.{escape_html}
use service_port_scanner.Report.Names.{state_str}
use service_port_scanner.Report.Stream.{show_count, StreamLib}
use service_port_scanner.Common.{
  ℕ, Bool, true, false, Bytes, codes, Option, none, some, List, [], ◌∷◌, ◌++◌, map, is_empty,
  if◌then◌else◌,
}

-- Values of nlohmann::json. An object has its members in the order of the assignments; `dump` throws
-- on a string that is no UTF-8.
pub record JsonPrint (fl : FloatLib) : Type 1 where
  pub Value : Type 0
  pub string : Bytes → Value
  pub count : ℕ → Value
  pub float : fl.Float → Value
  pub double : fl.Double → Value
  pub bool : Bool → Value
  pub array : List Value → Value
  pub object : List (Bytes × Value) → Value
  pub dump : Value → ℕ → Outcome Bytes

-- What opening a file for writing, and writing to it, gives.
pub data Saving : Type 0 where
  not_opened write_failed written : Saving

abbrev pub is_written : Saving → Bool
is_written written = true
is_written _ = false

-- The return value, the text on the standard output, and the file that is left with the content.
pub record Written : Type 0 where
  pub good : Bool
  pub printed : Bytes
  pub file : Option (Bytes × Bytes)

unfoldable pub write_to_file : (Bytes → Saving) → Bytes → Bytes → Written
write_to_file save path content =
    if is_empty path then record { good = true; printed = content; file = none } else record {
      good = is_written (save path);
      printed = [];
      file = if is_written (save path) then some (path, content) else none;
    }

module _ (fl : FloatLib) where
  module _ (print : JsonPrint fl) where
    open print use {Value, string, count, float, double, bool, array, object}

    unfoldable pub cve_json : CveInfo fl → Value
    cve_json c = object (
        (codes "id", string c.cve_id)
        ∷ (codes "cvss", float c.cvss_score)
        ∷ (codes "epss", double c.epss)
        ∷ (codes "percentile", double c.percentile)
        ∷ (codes "risk", double (risk fl c))
        ∷ (codes "nuclei_verified", bool c.nuclei_verified)
        ∷ [])

    unfoldable pub result_json : ScanResult fl → Value
    unfolding cve_json state_str
    result_json r = object (
        (codes "host", string r.target_host)
        ∷ (codes "port", count r.port)
        ∷ (codes "state", string (state_str r.state))
        ∷ (codes "service", string r.service.name)
        ∷ (codes "product", string r.service.product)
        ∷ (codes "version", string r.service.version)
        ∷ (codes "banner", string r.service.banner_raw)
        ∷ (codes "ja4s", string r.ja4s)
        ∷ (codes "ja4x", string r.ja4x)
        ∷ (codes "cdn", string r.cdn)
        ∷ (codes "os_guess", string r.os_guess)
        ∷ (codes "cves", array (map cve_json r.cves))
        ∷ [])

    unfoldable pub to_json : List (ScanResult fl) → Outcome Bytes
    unfolding result_json
    to_json results = print.dump (array (map result_json results)) 2

  -- The loop for the top CVE, in `to_csv` and in `to_html`.
  unfoldable pub top_cve_from : Bytes × fl.Float → List (CveInfo fl) → Bytes × fl.Float
  top_cve_from top [] = top
  top_cve_from (top_id, top_cvss) (c ∷ cs) =
      top_cve_from
        (if fl.float_gt c.cvss_score top_cvss then (c.cve_id, c.cvss_score) else (top_id, top_cvss))
        cs

  unfoldable pub top_cve : List (CveInfo fl) → Bytes × fl.Float
  unfolding top_cve_from
  top_cve = top_cve_from ([], fl.float 0)

  module _ (stream : StreamLib fl) where
    unfoldable pub csv_line : ScanResult fl → Bytes
    unfolding escape_csv_field show_count state_str top_cve
    csv_line r =
        escape_csv_field r.target_host
        ++ b',' ∷ show_count r.port
        ++ b',' ∷ state_str r.state
        ++ b',' ∷ escape_csv_field r.service.name
        ++ b',' ∷ escape_csv_field r.service.version
        ++ b',' ∷ escape_csv_field (top_cve r.cves).0
        ++ b',' ∷ stream.show_float (top_cve r.cves).1
        ++ 10 ∷ []

    -- The loop of `to_csv`.
    unfoldable pub csv_lines : Bytes → List (ScanResult fl) → Bytes
    unfolding csv_line
    csv_lines ss [] = ss
    csv_lines ss (r ∷ rs) = csv_lines (ss ++ csv_line r) rs

    unfoldable pub to_csv : List (ScanResult fl) → Bytes
    unfolding csv_lines
    to_csv results =
        csv_lines (codes "host,port,state,service,version,top_cve,top_cvss" ++ 10 ∷ []) results

    unfoldable pub row_class : fl.Float → Bytes
    row_class top_cvss =
        if fl.float_ge top_cvss (fl.float 9)
        then codes "crit"
        else if fl.float_ge top_cvss (fl.float 7)
        then codes "high"
        else if fl.float_ge top_cvss (fl.float 4)
        then codes "med"
        else []

    abbrev pub td : Bytes → Bytes
    td cell = codes "<td>" ++ cell ++ codes "</td>"

    unfoldable pub html_row : ScanResult fl → Bytes
    unfolding escape_html show_count state_str top_cve row_class
    html_row r =
        codes "<tr class='"
        ++ row_class (top_cve r.cves).1
        ++ codes "'>"
        ++ td (escape_html r.target_host)
        ++ td (show_count r.port)
        ++ td (state_str r.state)
        ++ td (escape_html r.service.name)
        ++ td (escape_html r.service.version)
        ++ td (escape_html (top_cve r.cves).0)
        ++ td (stream.show_float (top_cve r.cves).1)
        ++ codes "</tr>"

    unfoldable pub html_rows : Bytes → List (ScanResult fl) → Bytes
    unfolding html_row
    html_rows ss [] = ss
    html_rows ss (r ∷ rs) = html_rows (ss ++ html_row r) rs

    abbrev pub html_head : Bytes
    html_head =
        codes "<!doctype html><html><head><meta charset='utf-8'>"
        ++ codes "<title>spscan report</title>"
        ++ codes "<style>"
        ++ codes
            "body{font-family:system-ui,sans-serif;background:#0f1115;color:#e6e6e6;padding:24px}"
        ++ codes "table{border-collapse:collapse;width:100%}"
        ++ codes
            "th,td{padding:6px 10px;border-bottom:1px solid #333;text-align:left;font-size:13px}"
        ++ codes "tr.crit{background:#5a1f1f}tr.high{background:#5a3a1f}tr.med{background:#4a4a1f}"
        ++ codes "</style></head><body>"
        ++ codes "<h1>spscan report</h1>"
        ++ codes "<table><thead><tr>"
        ++ codes "<th>host</th><th>port</th><th>state</th><th>service</th>"
        ++ codes "<th>version</th><th>top CVE</th><th>CVSS</th>"
        ++ codes "</tr></thead><tbody>"

    unfoldable pub to_html : List (ScanResult fl) → Bytes
    unfolding html_rows
    to_html results = html_rows html_head results ++ codes "</tbody></table></body></html>"
