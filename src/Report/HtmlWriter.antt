-- ===== src/Report/HtmlWriter.antt =====
-- src/report/html_writer.cpp, `HtmlWriter::write`: the text of the HTML export.
pub mod Reader
pub mod WellFormed
use service_port_scanner.Core.Floats.{FloatLib}
use service_port_scanner.Core.Result.{CveInfo, ScanResult, max_cvss, max_epss, risk}
use service_port_scanner.Fp.Cve.{Outcome, returned, thrown}
use service_port_scanner.Report.Html.{html_escape}
use service_port_scanner.Report.Names.{state_str, severity_str}
use service_port_scanner.Report.Stream.{StreamLib, out, show_count}
use service_port_scanner.Report.Summary.{Counters, zero_counters, count_results}
use service_port_scanner.Common.{
  Bool, Bytes, codes, String, List, [], ◌∷◌, ◌++◌, length, is_empty, if◌then◌else◌,
}

-- A value between two literals, as it is and escaped.
abbrev pub put : String → Bytes → String → List Bytes
put front value back = codes front ∷ value ∷ codes back ∷ []

abbrev pub put_escaped : String → Bytes → String → List Bytes
put_escaped front value back = put front (html_escape value) back

abbrev pub put_line : String → List Bytes
put_line text = codes text ∷ (10 ∷ []) ∷ []

-- A paragraph that is left out where its text is empty.
unfoldable pub put_unless_empty : String → Bytes → String → Bytes
unfolding out html_escape
put_unless_empty front value back =
    if is_empty value then [] else out (put_escaped front value back)

module _ (fl : FloatLib) (stream : StreamLib fl) where
  open stream use {show_float, show_double, show_percent}

  unfoldable pub cvss_style : fl.Float → Bytes
  cvss_style cvss =
      if fl.float_ge cvss (fl.float 9)
      then codes "background:#b41e1e;color:#fff;font-weight:700;"
      else if fl.float_ge cvss (fl.float 7)
      then codes "background:#c87814;color:#fff;font-weight:700;"
      else if fl.float_ge cvss (fl.float 4)
      then codes "background:#b4aa1e;color:#fff;font-weight:700;"
      else codes "background:#505050;color:#fff;font-weight:700;"

  unfoldable pub epss_style : fl.Double → Bytes
  epss_style epss =
      if fl.ge epss (fl.decimal 50 2)
      then codes "background:#b41e1e;color:#fff;font-weight:700;"
      else if fl.ge epss (fl.decimal 10 2)
      then codes "background:#b4aa1e;color:#fff;font-weight:700;"
      else codes "background:#287828;color:#fff;font-weight:700;"

  -- The body of the first loop over the results.
  abbrev pub table_row_texts : ScanResult fl → List Bytes
  table_row_texts r =
      codes "<tr>"
      ∷ (put "<td>" (show_count r.port) "</td>"
          ++ put_escaped "<td>" r.protocol "</td>"
          ++ put "<td>" (state_str r.state) "</td>"
          ++ put_escaped "<td>" r.service.name "</td>"
          ++ put_escaped "<td>" r.service.product "</td>"
          ++ put_escaped "<td>" r.service.version "</td>"
          ++ put "<td style='" (cvss_style (max_cvss fl r)) "'>"
          ++ (show_float (max_cvss fl r) ∷ codes "</td>" ∷ [])
          ++ put "<td style='" (epss_style (max_epss fl r)) "'>"
          ++ (show_percent (max_epss fl r) ∷ codes "%</td>" ∷ [])
          ++ put "<td>" (show_double (fl.times (fl.widen (max_cvss fl r)) (max_epss fl r))) "</td>"
          ++ put_line "</tr>")

  unfoldable pub table_row : ScanResult fl → Bytes
  unfolding out html_escape show_count state_str cvss_style epss_style max_cvss max_epss
  table_row r = out (table_row_texts r)

  unfoldable pub table_rows : List (ScanResult fl) → Bytes
  unfolding table_row
  table_rows [] = []
  table_rows (r ∷ rs) = table_row r ++ table_rows rs

  abbrev pub detail_cve_texts : CveInfo fl → List Bytes
  detail_cve_texts cve =
      put_escaped "<div class='cve'><b>" cve.cve_id "</b> "
      ++ put "(" (severity_str cve.severity) ", CVSS "
      ++ (show_float cve.cvss_score ∷ [])
      ++ put ", EPSS " (show_percent cve.epss) ""
      ++ put "%, Percentile " (show_percent cve.percentile) ""
      ++ put "%, Risk " (show_double (risk fl cve)) ""
      ++ put ", Nuclei Verified " (if cve.nuclei_verified then codes "yes" else codes "no") ")<br>"
      ++ (html_escape cve.description ∷ codes "</div>" ∷ [])

  unfoldable pub detail_cve : CveInfo fl → Bytes
  unfolding out html_escape severity_str
  detail_cve cve = out (detail_cve_texts cve)

  unfoldable pub detail_cve_list : List (CveInfo fl) → Bytes
  unfolding detail_cve
  detail_cve_list [] = []
  detail_cve_list (c ∷ cs) = detail_cve c ++ detail_cve_list cs

  unfoldable pub detail_cves : List (CveInfo fl) → Bytes
  unfolding detail_cve_list
  detail_cves cs = if is_empty cs then [] else codes "<b>CVEs:</b>" ++ detail_cve_list cs

  -- The body of the second loop.
  abbrev pub detail_texts : ScanResult fl → List Bytes
  detail_texts r =
      codes "<div class='detail'>"
      ∷ (put_escaped "<h3>" r.target_host ":"
          ++ put "" (show_count r.port) "/"
          ++ put_escaped "" r.protocol " - "
          ++ put_escaped "" r.service.name "</h3>"
          ++ put_escaped "<p><b>Resolved IP:</b> " r.resolved_ip "</p>"
          ++ put "<p><b>State:</b> " (state_str r.state) "</p>"
          ++ put "<p><b>RTT:</b> " (show_count r.rtt) " ms</p>"
          ++ put_escaped "<p><b>Product:</b> " r.service.product " "
          ++ put_escaped "" r.service.version "</p>"
          ++ (put_unless_empty "<p><b>Info:</b> " r.service.extra_info "</p>"
              ∷ put_unless_empty "<p><b>OS:</b> " r.os_guess "</p>"
              ∷ put_unless_empty "<p><b>CDN:</b> " r.cdn "</p>"
              ∷ put_unless_empty "<p><b>JA4S:</b> <code>" r.ja4s "</code></p>"
              ∷ put_unless_empty "<p><b>JA4X:</b> <code>" r.ja4x "</code></p>"
              ∷ put_unless_empty "<b>Banner:</b><pre>" r.service.banner_raw "</pre>"
              ∷ detail_cves r.cves
              ∷ [])
          ++ put_line "</div>")

  unfoldable pub detail : ScanResult fl → Bytes
  unfolding out html_escape show_count state_str put_unless_empty detail_cves
  detail r = out (detail_texts r)

  unfoldable pub details : List (ScanResult fl) → Bytes
  unfolding detail
  details [] = []
  details (r ∷ rs) = detail r ++ details rs

  abbrev pub style_texts : List Bytes
  style_texts =
      codes "<style>"
      ∷ codes
          "body{font-family:Segoe UI,Arial,sans-serif;background:#1e1e1e;color:#ddd;padding:24px;}"
      ∷ codes "h1,h2{color:#fff;}h1{border-bottom:2px solid #3a6ea5;padding-bottom:10px;}"
      ∷ codes ".summary{display:flex;gap:12px;flex-wrap:wrap;margin:16px 0 24px;}"
      ∷ codes
          ".metric{background:#2a2a2a;border:1px solid #444;padding:10px 14px;border-radius:4px;}"
      ∷ codes "table{border-collapse:collapse;width:100%;margin:16px 0 28px;}"
      ∷ codes "th,td{border:1px solid #444;padding:8px;text-align:left;vertical-align:top;}"
      ∷ codes "th{background:#333;color:#fff;}tr:nth-child(even){background:#282828;}"
      ∷ codes
          ".detail{background:#252525;border:1px solid #3d3d3d;border-radius:4px;padding:12px;margin:12px 0;}"
      ∷ codes
          "pre{background:#151515;border:1px solid #333;padding:8px;white-space:pre-wrap;overflow:auto;}"
      ∷ codes ".cve{margin:6px 0;padding:6px;background:#303030;border-radius:4px;}"
      ∷ codes "code{color:#b8d7ff;}"
      ∷ put_line "</style></head><body>"

  abbrev pub html_texts : List (ScanResult fl) → List Bytes
  html_texts results =
      let counters = count_results fl zero_counters results in
      put_line "<!DOCTYPE html>"
      ++ put_line "<html><head><meta charset='UTF-8'>"
      ++ put_line "<title>SPS Scan Report</title>"
      ++ style_texts
      ++ put_line "<h1>Service Port Scanner Report</h1>"
      ++ (codes "<div class='summary'>" ∷ [])
      ++ put "<div class='metric'><b>Total Ports</b><br>" (show_count (length results)) "</div>"
      ++ put "<div class='metric'><b>Open</b><br>" (show_count counters.open_ports) "</div>"
      ++ put "<div class='metric'><b>Closed</b><br>" (show_count counters.closed_ports) "</div>"
      ++ put "<div class='metric'><b>Filtered</b><br>" (show_count counters.filtered_ports) "</div>"
      ++ put "<div class='metric'><b>Total CVEs</b><br>" (show_count counters.total_cves) "</div>"
      ++ put_line "</div>"
      ++ put_line "<h2>Results</h2>"
      ++ (codes "<table><tr>"
          ∷ codes "<th>Port</th><th>Proto</th><th>State</th><th>Service</th>"
          ∷ codes "<th>Product</th><th>Version</th><th>CVSS</th><th>EPSS</th><th>Risk Score</th>"
          ∷ put_line "</tr>")
      ++ (table_rows results ∷ put_line "</table>")
      ++ put_line "<h2>Result Details</h2>"
      ++ (details results ∷ put_line "</body></html>")

  unfoldable pub html_text : List (ScanResult fl) → Bytes
  unfolding out count_results show_count table_rows details
  html_text results = out (html_texts results)

  -- The text of the file, or the exception where it does not open.
  unfoldable pub write : Bool → List (ScanResult fl) → Outcome Bytes
  unfolding html_text
  write opens results = if opens then returned (html_text results) else thrown
