-- ===== src/Report/JsonWriter/WellFormed.antt =====
-- The JSON export is one JSON document, whatever the results hold.
use service_port_scanner.Core.Floats.{FloatLib}
use service_port_scanner.Core.Result.{
  CveInfo, ScanResult, PortState, Severity, max_cvss, max_epss, max_risk, verified_cve_count, risk,
}
use service_port_scanner.Report.Names.{state_str, severity_str, bool_str}
use service_port_scanner.Report.Stream.{
  StreamLib, show_count, show_count-decimal, show_count-nonempty,
}
use service_port_scanner.Report.Automaton.{read, Reads, reads, ◌▸◌, line_of, ◌▹◌, finish, Reads-out}
use service_port_scanner.Report.JsonWriter.Reader.{
  Expects, Place, at, read_byte, IsWord, is_word, Reads-json_escape, Reads-IsWord,
}
use service_port_scanner.Report.JsonWriter.{
  line_feed, cve_texts, result_texts, document_texts, write_cve, write_cves, write_result,
  write_results, document,
}
use service_port_scanner.Report.Summary.{zero_counters, count_results}
use service_port_scanner.Common.{
  ℕ, ◌≡◌, refl, Bool, true, false, Bytes, String, codes, List, [], ◌∷◌, length, all, AreDigits,
  arith,
}

-- The numbers of the stream are spelt with the bytes of numbers.
pub record IsNumeric {fl : FloatLib} (stream : StreamLib fl) : Type 0 where
  pub float_word : (x : fl.Float) → IsWord (stream.show_float x)
  pub double_word : (x : fl.Double) → IsWord (stream.show_double x)

Reads-state_str :
    (b : List Bool) (s : PortState)
    → Reads read_byte
        (at (Expects.in_string false) b)
        (state_str s)
        (at (Expects.in_string false) b)
unfolding read read_byte state_str
Reads-state_str b PortState.open_state = reads refl
Reads-state_str b PortState.closed_state = reads refl
Reads-state_str b PortState.filtered_state = reads refl
Reads-state_str b PortState.unknown_state = reads refl

Reads-severity_str :
    (b : List Bool) (s : Severity)
    → Reads read_byte
        (at (Expects.in_string false) b)
        (severity_str s)
        (at (Expects.in_string false) b)
unfolding read read_byte severity_str
Reads-severity_str b Severity.critical = reads refl
Reads-severity_str b Severity.high = reads refl
Reads-severity_str b Severity.medium = reads refl
Reads-severity_str b Severity.low = reads refl
Reads-severity_str b Severity.no_severity = reads refl

Reads-bool_str :
    (b : List Bool) (x : Bool)
    → Reads read_byte (at Expects.value b) (bool_str x) (at Expects.in_word b)
unfolding read read_byte bool_str
Reads-bool_str b true = reads refl
Reads-bool_str b false = reads refl

AreDigits-word : (s : Bytes) → AreDigits s → all is_word s ≡ true
AreDigits-word [] h = refl
AreDigits-word (c ∷ s) h = ground (arith, AreDigits-word s)

pub show_count-IsWord : (n : ℕ) → IsWord (show_count n)
unfolding IsWord
show_count-IsWord n =
    (show_count-nonempty n, AreDigits-word (show_count n) (show_count-decimal n).1)

-- An array behind its bracket: its items and the line that closes it.
record Listed (b : List Bool) (texts : Bytes) (close : String) (q : Place) : Type 0 where
  items_end : Place
  reads_texts : Reads read_byte (at Expects.value_or_close (false ∷ b)) texts items_end
  reads_line : Reads read_byte items_end line_feed items_end
  reads_close : Reads read_byte items_end (codes close) q

module _ (fl : FloatLib) (stream : StreamLib fl) (numeric : IsNumeric stream) where
  -- A CVE, behind the bracket or behind a comma.
  Reads-write_cve :
      (p : Place) (b : List Bool) (c : CveInfo fl)
      → Reads read_byte p line_feed p
      → Reads read_byte p (codes "        {") (at Expects.key_or_close (true ∷ b))
      → Reads read_byte p (write_cve fl stream c) (at Expects.comma_or_close b)
  unfolding read read_byte write_cve
  Reads-write_cve p b c h o = Reads-out (cve_texts fl stream c) (
      h
      ▸ o
      ▸ reads refl
      ▸ line_of (reads refl) (Reads-json_escape _ _ c.cve_id) (reads refl) (reads refl)
      ▹ line_of (reads refl) (Reads-json_escape _ _ c.description) (reads refl) (reads refl)
      ▹ line_of (reads refl) (Reads-IsWord _ _ (numeric.float_word (c.cvss_score))) (reads refl)
          (reads refl)
      ▹ line_of (reads refl) (Reads-severity_str _ c.severity) (reads refl) (reads refl)
      ▹ line_of (reads refl) (Reads-IsWord _ _ (numeric.double_word (c.epss))) (reads refl)
          (reads refl)
      ▹ line_of (reads refl) (Reads-IsWord _ _ (numeric.double_word (c.percentile))) (reads refl)
          (reads refl)
      ▹ line_of (reads refl) (Reads-IsWord _ _ (numeric.double_word (risk fl c))) (reads refl)
          (reads refl)
      ▹ line_of (reads refl) (Reads-bool_str _ c.nuclei_verified) (reads refl) (reads refl)
      ▹ reads refl
      ▸ finish)

  -- CVEs with a comma between two.
  Reads-write_cves_from :
      (p : Place) (b : List Bool) (x : CveInfo fl) (xs : List (CveInfo fl))
      → Reads read_byte p line_feed p
      → Reads read_byte p (codes "        {") (at Expects.key_or_close (true ∷ false ∷ b))
      → Reads read_byte p (write_cves fl stream (x ∷ xs)) (at Expects.comma_or_close (false ∷ b))
  unfolding read read_byte write_cves
  Reads-write_cves_from p b x [] h o = Reads-write_cve p (false ∷ b) x h o
  Reads-write_cves_from p b x (y ∷ ys) h o =
      Reads-out (write_cve fl stream x ∷ codes "," ∷ write_cves fl stream (y ∷ ys) ∷ []) (
        Reads-write_cve p (false ∷ b) x h o
        ▸ reads refl
        ▸ Reads-write_cves_from _ b y ys (reads refl) (reads refl)
        ▸ finish)

  Listed-write_cves :
      (b : List Bool) (cs : List (CveInfo fl))
      → Listed (true ∷ b) (write_cves fl stream cs) "      ]," (at Expects.key (true ∷ b))
  unfolding read read_byte write_cves
  Listed-write_cves b [] = record {
    items_end = at Expects.value_or_close (false ∷ true ∷ b);
    reads_texts = reads refl;
    reads_line = reads refl;
    reads_close = reads refl;
  }
  Listed-write_cves b (c ∷ cs) = record {
    items_end = at Expects.comma_or_close (false ∷ true ∷ b);
    reads_texts = Reads-write_cves_from _ (true ∷ b) c cs (reads refl) (reads refl);
    reads_line = reads refl;
    reads_close = reads refl;
  }

  Reads-write_result :
      (p : Place) (b : List Bool) (r : ScanResult fl)
      → Reads read_byte p line_feed p
      → Reads read_byte p (codes "    {") (at Expects.key_or_close (true ∷ b))
      → Reads read_byte p (write_result fl stream r) (at Expects.comma_or_close b)
  unfolding read read_byte write_result
  Reads-write_result p b r h o =
      let listed = Listed-write_cves b r.cves in
      Reads-out (result_texts fl stream r) (
        h
        ▸ o
        ▸ reads refl
        ▸ line_of (reads refl) (Reads-json_escape _ _ r.target_host) (reads refl) (reads refl)
        ▹ line_of (reads refl) (Reads-json_escape _ _ r.resolved_ip) (reads refl) (reads refl)
        ▹ line_of (reads refl) (Reads-IsWord _ _ (show_count-IsWord (r.port))) (reads refl)
            (reads refl)
        ▹ line_of (reads refl) (Reads-json_escape _ _ r.protocol) (reads refl) (reads refl)
        ▹ line_of (reads refl) (Reads-state_str _ r.state) (reads refl) (reads refl)
        ▹ reads refl
        ▸ reads refl
        ▸ line_of (reads refl) (Reads-json_escape _ _ r.service.name) (reads refl) (reads refl)
        ▹ line_of (reads refl) (Reads-json_escape _ _ r.service.product) (reads refl) (reads refl)
        ▹ line_of (reads refl) (Reads-json_escape _ _ r.service.version) (reads refl) (reads refl)
        ▹ line_of (reads refl) (Reads-json_escape _ _ r.service.extra_info) (reads refl)
            (reads refl)
        ▹ line_of (reads refl) (Reads-json_escape _ _ r.service.banner_raw) (reads refl)
            (reads refl)
        ▹ reads refl
        ▸ reads refl
        ▸ reads refl
        ▸ listed.reads_texts
        ▸ listed.reads_line
        ▸ listed.reads_close
        ▸ reads refl
        ▸ line_of (reads refl) (Reads-IsWord _ _ (show_count-IsWord (length r.cves))) (reads refl)
            (reads refl)
        ▹ line_of (reads refl) (Reads-IsWord _ _ (numeric.float_word (max_cvss fl r))) (reads refl)
            (reads refl)
        ▹ line_of (reads refl) (Reads-IsWord _ _ (numeric.double_word (max_epss fl r))) (reads refl)
            (reads refl)
        ▹ line_of (reads refl) (Reads-IsWord _ _ (numeric.double_word (max_risk fl r))) (reads refl)
            (reads refl)
        ▹ line_of (reads refl) (Reads-IsWord _ _ (show_count-IsWord (verified_cve_count fl r)))
            (reads refl) (reads refl)
        ▹ line_of (reads refl) (Reads-json_escape _ _ r.ja4s) (reads refl) (reads refl)
        ▹ line_of (reads refl) (Reads-json_escape _ _ r.ja4x) (reads refl) (reads refl)
        ▹ line_of (reads refl) (Reads-json_escape _ _ r.cdn) (reads refl) (reads refl)
        ▹ line_of (reads refl) (Reads-json_escape _ _ r.os_guess) (reads refl) (reads refl)
        ▹ line_of (reads refl) (Reads-IsWord _ _ (show_count-IsWord (r.rtt))) (reads refl)
            (reads refl)
        ▹ reads refl
        ▸ finish)

  -- Results with a comma between two.
  Reads-write_results_from :
      (p : Place) (b : List Bool) (x : ScanResult fl) (xs : List (ScanResult fl))
      → Reads read_byte p line_feed p
      → Reads read_byte p (codes "    {") (at Expects.key_or_close (true ∷ false ∷ b))
      → Reads read_byte p (write_results fl stream (x ∷ xs)) (at Expects.comma_or_close (false ∷ b))
  unfolding read read_byte write_results
  Reads-write_results_from p b x [] h o = Reads-write_result p (false ∷ b) x h o
  Reads-write_results_from p b x (y ∷ ys) h o =
      Reads-out (write_result fl stream x ∷ codes "," ∷ write_results fl stream (y ∷ ys) ∷ []) (
        Reads-write_result p (false ∷ b) x h o
        ▸ reads refl
        ▸ Reads-write_results_from _ b y ys (reads refl) (reads refl)
        ▸ finish)

  Listed-write_results :
      (rs : List (ScanResult fl))
      → Listed
          (true ∷ [])
          (write_results fl stream rs)
          "  ]"
          (at Expects.comma_or_close (true ∷ []))
  unfolding read read_byte write_results
  Listed-write_results [] = record {
    items_end = at Expects.value_or_close (false ∷ true ∷ []);
    reads_texts = reads refl;
    reads_line = reads refl;
    reads_close = reads refl;
  }
  Listed-write_results (r ∷ rs) = record {
    items_end = at Expects.comma_or_close (false ∷ true ∷ []);
    reads_texts = Reads-write_results_from _ (true ∷ []) r rs (reads refl) (reads refl);
    reads_line = reads refl;
    reads_close = reads refl;
  }

  -- Where the stream spells floating point with the bytes of JSON numbers, a reader of JSON that expects
  -- a value goes through the whole export, whatever bytes the results hold, and ends behind one value
  -- with every bracket and string closed. It takes any run of the bytes of numbers and of literal names
  -- for a number or a name.
  pub Reads-document :
      (rs : List (ScanResult fl))
      → Reads read_byte (at Expects.value []) (document fl stream rs) (at Expects.comma_or_close [])
  unfolding read read_byte document
  Reads-document rs =
      let listed = Listed-write_results rs in
      Reads-out (document_texts fl stream rs) (
        reads refl
        ▸ reads refl
        ▸ reads refl
        ▸ reads refl
        ▸ line_of (reads refl) (Reads-IsWord _ _ (show_count-IsWord (length rs))) (reads refl)
            (reads refl)
        ▹ line_of (reads refl)
            (Reads-IsWord _ _ (show_count-IsWord ((count_results fl zero_counters rs).open_ports)))
            (reads refl) (reads refl)
        ▹ line_of (reads refl)
            (Reads-IsWord _ _
              (show_count-IsWord ((count_results fl zero_counters rs).closed_ports)))
            (reads refl) (reads refl)
        ▹ line_of (reads refl)
            (Reads-IsWord _ _
              (show_count-IsWord ((count_results fl zero_counters rs).filtered_ports)))
            (reads refl) (reads refl)
        ▹ line_of (reads refl)
            (Reads-IsWord _ _ (show_count-IsWord ((count_results fl zero_counters rs).total_cves)))
            (reads refl) (reads refl)
        ▹ reads refl
        ▸ reads refl
        ▸ reads refl
        ▸ listed.reads_texts
        ▸ listed.reads_line
        ▸ listed.reads_close
        ▸ reads refl
        ▸ reads refl
        ▸ reads refl
        ▸ finish)
