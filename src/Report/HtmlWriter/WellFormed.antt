-- ===== src/Report/HtmlWriter/WellFormed.antt =====
-- The elements of the HTML export are nested, whatever the results hold.
use service_port_scanner.Core.Floats.{FloatLib}
use service_port_scanner.Core.Result.{
  CveInfo, ScanResult, PortState, Severity, max_cvss, max_epss, risk,
}
use service_port_scanner.Report.Names.{state_str, severity_str}
use service_port_scanner.Report.Stream.{StreamLib, out, show_count, show_count-decimal}
use service_port_scanner.Report.Summary.{zero_counters, count_results}
use service_port_scanner.Report.Automaton.{
  read, Reads, reads, ◌▸◌, between, ◌▻◌, finish, Reads-out, Reads-append, Reads-nil, Reads-either,
}
use service_port_scanner.Report.HtmlWriter.Reader.{
  Position, at, read_byte, IsText, Reads-html_escape, Reads-IsText,
}
use service_port_scanner.Report.HtmlWriter.{
  put_escaped, put_unless_empty, cvss_style, epss_style, table_row_texts, table_row, table_rows,
  detail_cve_texts, detail_cve, detail_cve_list, detail_cves, detail_texts, detail, details,
  html_texts, html_text,
}
use service_port_scanner.Common.{
  ℕ, refl, Bytes, String, codes, List, [], ◌∷◌, length, is_empty, AreDigits, Bool-cases, inl, inr,
  arith,
}

-- The numbers of the stream hold no bracket and no ampersand.
pub record IsTextual {fl : FloatLib} (stream : StreamLib fl) : Type 0 where
  pub float_text : (x : fl.Float) → IsText (stream.show_float x)
  pub double_text : (x : fl.Double) → IsText (stream.show_double x)
  pub percent_text : (x : fl.Double) → IsText (stream.show_percent x)

AreDigits-IsText : (s : Bytes) → AreDigits s → IsText s
unfolding IsText
AreDigits-IsText [] h = refl
AreDigits-IsText (c ∷ s) h = ground (arith, AreDigits-IsText s)

pub show_count-IsText : (n : ℕ) → IsText (show_count n)
show_count-IsText n = AreDigits-IsText (show_count n) (show_count-decimal n).1

Reads-state_str :
    (e : List Bytes) (s : PortState)
    → Reads read_byte (at Position.text e) (state_str s) (at Position.text e)
unfolding read read_byte state_str
Reads-state_str e PortState.open_state = reads refl
Reads-state_str e PortState.closed_state = reads refl
Reads-state_str e PortState.filtered_state = reads refl
Reads-state_str e PortState.unknown_state = reads refl

Reads-severity_str :
    (e : List Bytes) (s : Severity)
    → Reads read_byte (at Position.text e) (severity_str s) (at Position.text e)
unfolding read read_byte severity_str
Reads-severity_str e Severity.critical = reads refl
Reads-severity_str e Severity.high = reads refl
Reads-severity_str e Severity.medium = reads refl
Reads-severity_str e Severity.low = reads refl
Reads-severity_str e Severity.no_severity = reads refl

Reads-put_unless_empty :
    (e : List Bytes) {e' : List Bytes} (front : String) (value : Bytes) (back : String)
    → Reads read_byte (at Position.text e) (codes front) (at Position.text e')
    → Reads read_byte (at Position.text e') (codes back) (at Position.text e)
    → Reads read_byte (at Position.text e) (put_unless_empty front value back) (at Position.text e)
unfolding put_unless_empty
Reads-put_unless_empty e {e'} front value back f g =
    Reads-either read_byte (is_empty value) [] (out (put_escaped front value back))
      (Reads-nil read_byte)
      (Reads-out (put_escaped front value back) (f ▸ Reads-html_escape e' value ▸ g ▸ finish))

module _ (fl : FloatLib) (stream : StreamLib fl) (plain : IsTextual stream) where
  Reads-cvss_style :
      (name : Bytes) (e : List Bytes) (x : fl.Float)
      → Reads read_byte
          (at (Position.quoted name) e)
          (cvss_style fl stream x)
          (at (Position.quoted name) e)
  unfolding read read_byte cvss_style
  Reads-cvss_style name e x = elim (Bool-cases (fl.float_ge x (fl.float 9))) [
    | inl h9 ↦ rw h9 (reads refl)
    | inr l9 ↦ elim (Bool-cases (fl.float_ge x (fl.float 7))) [
      | inl h7 ↦ rw (l9, h7) (reads refl)
      | inr l7 ↦ elim (Bool-cases (fl.float_ge x (fl.float 4))) [
        | inl h4 ↦ rw (l9, l7, h4) (reads refl)
        | inr l4 ↦ rw (l9, l7, l4) (reads refl)
      ]
    ]
  ]

  Reads-epss_style :
      (name : Bytes) (e : List Bytes) (x : fl.Double)
      → Reads read_byte
          (at (Position.quoted name) e)
          (epss_style fl stream x)
          (at (Position.quoted name) e)
  unfolding read read_byte epss_style
  Reads-epss_style name e x = elim (Bool-cases (fl.ge x (fl.decimal 50 2))) [
    | inl h50 ↦ rw h50 (reads refl)
    | inr l50 ↦ elim (Bool-cases (fl.ge x (fl.decimal 10 2))) [
      | inl h10 ↦ rw (l50, h10) (reads refl)
      | inr l10 ↦ rw (l50, l10) (reads refl)
    ]
  ]

  Reads-table_row :
      (e : List Bytes) (r : ScanResult fl)
      → Reads read_byte (at Position.text e) (table_row fl stream r) (at Position.text e)
  unfolding read read_byte table_row
  Reads-table_row e r = Reads-out (table_row_texts fl stream r) (
      reads refl
      ▸ between (reads refl) (Reads-IsText _ _ (show_count-IsText (r.port))) (reads refl)
      ▻ between (reads refl) (Reads-html_escape _ r.protocol) (reads refl)
      ▻ between (reads refl) (Reads-state_str _ r.state) (reads refl)
      ▻ between (reads refl) (Reads-html_escape _ r.service.name) (reads refl)
      ▻ between (reads refl) (Reads-html_escape _ r.service.product) (reads refl)
      ▻ between (reads refl) (Reads-html_escape _ r.service.version) (reads refl)
      ▻ between (reads refl) (Reads-cvss_style _ _ (max_cvss fl r)) (reads refl)
      ▻ Reads-IsText _ _ (plain.float_text (max_cvss fl r))
      ▸ reads refl
      ▸ between (reads refl) (Reads-epss_style _ _ (max_epss fl r)) (reads refl)
      ▻ Reads-IsText _ _ (plain.percent_text (max_epss fl r))
      ▸ reads refl
      ▸ between (reads refl)
          (Reads-IsText _ _
            (plain.double_text (fl.times (fl.widen (max_cvss fl r)) (max_epss fl r))))
          (reads refl)
      ▻ reads refl
      ▸ reads refl
      ▸ finish)

  Reads-table_rows :
      (e : List Bytes) (xs : List (ScanResult fl))
      → Reads read_byte (at Position.text e) (table_rows fl stream xs) (at Position.text e)
  unfolding table_rows
  Reads-table_rows e [] = Reads-nil read_byte
  Reads-table_rows e (x ∷ xs) = Reads-append read_byte (Reads-table_row e x) (Reads-table_rows e xs)

  Reads-detail_cve :
      (e : List Bytes) (c : CveInfo fl)
      → Reads read_byte (at Position.text e) (detail_cve fl stream c) (at Position.text e)
  unfolding read read_byte detail_cve
  Reads-detail_cve e c = Reads-out (detail_cve_texts fl stream c) (
      between (reads refl) (Reads-html_escape _ c.cve_id) (reads refl)
      ▻ between (reads refl) (Reads-severity_str _ c.severity) (reads refl)
      ▻ Reads-IsText _ _ (plain.float_text (c.cvss_score))
      ▸ between (reads refl) (Reads-IsText _ _ (plain.percent_text (c.epss))) (reads refl)
      ▻ between (reads refl) (Reads-IsText _ _ (plain.percent_text (c.percentile))) (reads refl)
      ▻ between (reads refl) (Reads-IsText _ _ (plain.double_text (risk fl c))) (reads refl)
      ▻ between (reads refl)
          (Reads-either read_byte c.nuclei_verified _ _ (reads refl) (reads refl)) (reads refl)
      ▻ Reads-html_escape _ c.description
      ▸ reads refl
      ▸ finish)

  Reads-detail_cve_list :
      (e : List Bytes) (xs : List (CveInfo fl))
      → Reads read_byte (at Position.text e) (detail_cve_list fl stream xs) (at Position.text e)
  unfolding detail_cve_list
  Reads-detail_cve_list e [] = Reads-nil read_byte
  Reads-detail_cve_list e (x ∷ xs) =
      Reads-append read_byte (Reads-detail_cve e x) (Reads-detail_cve_list e xs)

  Reads-detail_cves :
      (e : List Bytes) (cs : List (CveInfo fl))
      → Reads read_byte (at Position.text e) (detail_cves fl stream cs) (at Position.text e)
  unfolding read read_byte detail_cves
  Reads-detail_cves e cs =
      Reads-either read_byte (is_empty cs) [] _ (Reads-nil read_byte) (
        Reads-append read_byte {xs = codes "<b>CVEs:</b>"} (reads refl)
          (Reads-detail_cve_list e cs))

  Reads-detail :
      (e : List Bytes) (r : ScanResult fl)
      → Reads read_byte (at Position.text e) (detail fl stream r) (at Position.text e)
  unfolding read read_byte detail
  Reads-detail e r = Reads-out (detail_texts fl stream r) (
      reads refl
      ▸ between (reads refl) (Reads-html_escape _ r.target_host) (reads refl)
      ▻ between (reads refl) (Reads-IsText _ _ (show_count-IsText (r.port))) (reads refl)
      ▻ between (reads refl) (Reads-html_escape _ r.protocol) (reads refl)
      ▻ between (reads refl) (Reads-html_escape _ r.service.name) (reads refl)
      ▻ between (reads refl) (Reads-html_escape _ r.resolved_ip) (reads refl)
      ▻ between (reads refl) (Reads-state_str _ r.state) (reads refl)
      ▻ between (reads refl) (Reads-IsText _ _ (show_count-IsText (r.rtt))) (reads refl)
      ▻ between (reads refl) (Reads-html_escape _ r.service.product) (reads refl)
      ▻ between (reads refl) (Reads-html_escape _ r.service.version) (reads refl)
      ▻ Reads-put_unless_empty _ "<p><b>Info:</b> " r.service.extra_info "</p>" (reads refl)
          (reads refl)
      ▸ Reads-put_unless_empty _ "<p><b>OS:</b> " r.os_guess "</p>" (reads refl) (reads refl)
      ▸ Reads-put_unless_empty _ "<p><b>CDN:</b> " r.cdn "</p>" (reads refl) (reads refl)
      ▸ Reads-put_unless_empty _ "<p><b>JA4S:</b> <code>" r.ja4s "</code></p>" (reads refl)
          (reads refl)
      ▸ Reads-put_unless_empty _ "<p><b>JA4X:</b> <code>" r.ja4x "</code></p>" (reads refl)
          (reads refl)
      ▸ Reads-put_unless_empty _ "<b>Banner:</b><pre>" r.service.banner_raw "</pre>" (reads refl)
          (reads refl)
      ▸ Reads-detail_cves _ r.cves
      ▸ reads refl
      ▸ reads refl
      ▸ finish)

  Reads-details :
      (e : List Bytes) (xs : List (ScanResult fl))
      → Reads read_byte (at Position.text e) (details fl stream xs) (at Position.text e)
  unfolding details
  Reads-details e [] = Reads-nil read_byte
  Reads-details e (x ∷ xs) = Reads-append read_byte (Reads-detail e x) (Reads-details e xs)

  -- Where the stream prints floating point without a bracket and an ampersand, a reader of HTML goes
  -- through the whole export, whatever bytes the results hold: each element that is opened is closed,
  -- the innermost first, at the end none is open, and every ampersand begins a character reference.
  pub Reads-html_text :
      (rs : List (ScanResult fl))
      → Reads read_byte (at Position.text []) (html_text fl stream rs) (at Position.text [])
  unfolding read read_byte html_text
  Reads-html_text rs = Reads-out (html_texts fl stream rs) (
      reads refl
      ▸ reads refl
      ▸ reads refl
      ▸ reads refl
      ▸ reads refl
      ▸ reads refl
      ▸ reads refl
      ▸ reads refl
      ▸ reads refl
      ▸ reads refl
      ▸ reads refl
      ▸ reads refl
      ▸ reads refl
      ▸ reads refl
      ▸ reads refl
      ▸ reads refl
      ▸ reads refl
      ▸ reads refl
      ▸ reads refl
      ▸ reads refl
      ▸ reads refl
      ▸ reads refl
      ▸ reads refl
      ▸ between (reads refl) (Reads-IsText _ _ (show_count-IsText (length rs))) (reads refl)
      ▻ between (reads refl)
          (Reads-IsText _ _ (show_count-IsText ((count_results fl zero_counters rs).open_ports)))
          (reads refl)
      ▻ between (reads refl)
          (Reads-IsText _ _ (show_count-IsText ((count_results fl zero_counters rs).closed_ports)))
          (reads refl)
      ▻ between (reads refl)
          (Reads-IsText _ _
            (show_count-IsText ((count_results fl zero_counters rs).filtered_ports)))
          (reads refl)
      ▻ between (reads refl)
          (Reads-IsText _ _ (show_count-IsText ((count_results fl zero_counters rs).total_cves)))
          (reads refl)
      ▻ reads refl
      ▸ reads refl
      ▸ reads refl
      ▸ reads refl
      ▸ reads refl
      ▸ reads refl
      ▸ reads refl
      ▸ reads refl
      ▸ between (reads refl) (Reads-table_rows _ rs) (reads refl)
      ▻ reads refl
      ▸ reads refl
      ▸ between (reads refl) (Reads-details _ rs) (reads refl)
      ▻ reads refl
      ▸ finish)
