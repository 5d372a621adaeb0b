-- ===== src/Report/JsonWriter.antt =====
-- src/report/json_writer.cpp, `JsonWriter::write`: the text of the JSON export.
pub mod Reader
pub mod WellFormed
use service_port_scanner.Core.Floats.{FloatLib}
use service_port_scanner.Core.Result.{
  CveInfo, ScanResult, max_cvss, max_epss, max_risk, verified_cve_count, risk,
}
use service_port_scanner.Fp.Cve.{Outcome, returned, thrown}
use service_port_scanner.Report.Json.{json_escape}
use service_port_scanner.Report.Names.{state_str, severity_str, bool_str}
use service_port_scanner.Report.Stream.{StreamLib, out, show_count}
use service_port_scanner.Report.Summary.{Counters, zero_counters, count_results}
use service_port_scanner.Common.{
  Bool, Bytes, codes, String, List, [], ◌∷◌, ◌++◌, length, if◌then◌else◌,
}

abbrev pub line_feed : Bytes
line_feed = 10 ∷ []

-- The texts that are written one after the other: a line; a line with a value between two literals, as
-- it is and escaped.
abbrev pub line : String → List Bytes
line text = codes text ∷ line_feed ∷ []

abbrev pub plain_line : String → Bytes → String → List Bytes
plain_line front value back = codes front ∷ value ∷ codes back ∷ line_feed ∷ []

abbrev pub escaped_line : String → Bytes → String → List Bytes
escaped_line front value back = plain_line front (json_escape value) back

module _ (fl : FloatLib) (stream : StreamLib fl) where
  open stream use {show_float, show_double}

  abbrev pub cve_texts : CveInfo fl → List Bytes
  cve_texts cve =
      (line_feed ∷ [])
      ++ line "        {"
      ++ escaped_line "          \"cve_id\": \"" cve.cve_id "\","
      ++ escaped_line "          \"description\": \"" cve.description "\","
      ++ plain_line "          \"cvss_score\": " (show_float cve.cvss_score) ","
      ++ plain_line "          \"severity\": \"" (severity_str cve.severity) "\","
      ++ plain_line "          \"epss\": " (show_double cve.epss) ","
      ++ plain_line "          \"percentile\": " (show_double cve.percentile) ","
      ++ plain_line "          \"risk_score\": " (show_double (risk fl cve)) ","
      ++ plain_line "          \"nuclei_verified\": " (bool_str cve.nuclei_verified) ""
      ++ (codes "        }" ∷ [])

  unfoldable pub write_cve : CveInfo fl → Bytes
  unfolding out json_escape severity_str bool_str
  write_cve cve = out (cve_texts cve)

  -- The loop over the CVEs, with the comma behind all but the last.
  unfoldable pub write_cves : List (CveInfo fl) → Bytes
  unfolding out write_cve
  write_cves [] = []
  write_cves (c ∷ []) = write_cve c
  write_cves (c ∷ d ∷ cs) = out (write_cve c ∷ codes "," ∷ write_cves (d ∷ cs) ∷ [])

  abbrev pub result_texts : ScanResult fl → List Bytes
  result_texts r =
      (line_feed ∷ [])
      ++ line "    {"
      ++ escaped_line "      \"target_host\": \"" r.target_host "\","
      ++ escaped_line "      \"resolved_ip\": \"" r.resolved_ip "\","
      ++ plain_line "      \"port\": " (show_count r.port) ","
      ++ escaped_line "      \"protocol\": \"" r.protocol "\","
      ++ plain_line "      \"state\": \"" (state_str r.state) "\","
      ++ line "      \"service\": {"
      ++ escaped_line "        \"name\": \"" r.service.name "\","
      ++ escaped_line "        \"product\": \"" r.service.product "\","
      ++ escaped_line "        \"version\": \"" r.service.version "\","
      ++ escaped_line "        \"extra_info\": \"" r.service.extra_info "\","
      ++ escaped_line "        \"banner_raw\": \"" r.service.banner_raw "\""
      ++ line "      },"
      ++ (codes "      \"cves\": [" ∷ [])
      ++ (write_cves r.cves ∷ [])
      ++ (line_feed ∷ [])
      ++ line "      ],"
      ++ plain_line "      \"cve_count\": " (show_count (length r.cves)) ","
      ++ plain_line "      \"max_cvss\": " (show_float (max_cvss fl r)) ","
      ++ plain_line "      \"max_epss\": " (show_double (max_epss fl r)) ","
      ++ plain_line "      \"max_risk\": " (show_double (max_risk fl r)) ","
      ++ plain_line "      \"verified_cve_count\": " (show_count (verified_cve_count fl r)) ","
      ++ escaped_line "      \"ja4s\": \"" r.ja4s "\","
      ++ escaped_line "      \"ja4x\": \"" r.ja4x "\","
      ++ escaped_line "      \"cdn\": \"" r.cdn "\","
      ++ escaped_line "      \"os_guess\": \"" r.os_guess "\","
      ++ plain_line "      \"rtt_ms\": " (show_count r.rtt) ""
      ++ (codes "    }" ∷ [])

  unfoldable pub write_result : ScanResult fl → Bytes
  unfolding out json_escape show_count state_str write_cves max_cvss max_epss max_risk
      verified_cve_count
  write_result r = out (result_texts r)

  unfoldable pub write_results : List (ScanResult fl) → Bytes
  unfolding out write_result
  write_results [] = []
  write_results (r ∷ []) = write_result r
  write_results (r ∷ s ∷ rs) = out (write_result r ∷ codes "," ∷ write_results (s ∷ rs) ∷ [])

  abbrev pub document_texts : List (ScanResult fl) → List Bytes
  document_texts results =
      let counters = count_results fl zero_counters results in
      line "{"
      ++ line "  \"scan_summary\": {"
      ++ plain_line "    \"total_ports\": " (show_count (length results)) ","
      ++ plain_line "    \"open\": " (show_count counters.open_ports) ","
      ++ plain_line "    \"closed\": " (show_count counters.closed_ports) ","
      ++ plain_line "    \"filtered\": " (show_count counters.filtered_ports) ","
      ++ plain_line "    \"total_cves\": " (show_count counters.total_cves) ""
      ++ line "  },"
      ++ (codes "  \"results\": [" ∷ [])
      ++ (write_results results ∷ [])
      ++ (line_feed ∷ [])
      ++ line "  ]"
      ++ line "}"

  unfoldable pub document : List (ScanResult fl) → Bytes
  unfolding out count_results show_count write_results
  document results = out (document_texts results)

  -- The text of the file, or the exception where it does not open.
  unfoldable pub write : Bool → List (ScanResult fl) → Outcome Bytes
  unfolding document
  write opens results = if opens then returned (document results) else thrown
