-- ===== src/Report/Csv/Writer.antt =====
-- src/report/csv_writer.cpp, `CsvWriter::write` and `cve_list`: the file of a list of results.
use service_port_scanner.Core.Floats.{FloatLib}
use service_port_scanner.Core.Result.{
  PortState, CveInfo, ScanResult, max_cvss, max_epss, max_risk, verified_cve_count, risk,
}
use service_port_scanner.Fp.Cve.{Outcome, returned, thrown}
use service_port_scanner.Report.Csv.{ScanRow, write_row}
use service_port_scanner.Report.Csv.Reading.{
  Place, read_row, IsPlain, IsPrinted, values, read_row-write_row,
}
use service_port_scanner.Report.Names.{state_str, severity_str, bool_str}
use service_port_scanner.Report.Stream.{StreamLib, show_count, show_count-decimal}
use service_port_scanner.Common.{
  ℕ, ◌≡◌, refl, Bool, Bytes, codes, some, List, [], ◌∷◌, ◌++◌, length, AreDigits, if◌then◌else◌,
  arith,
}

module _ (fl : FloatLib) (stream : StreamLib fl) where
  open stream use {show_float_fixed, show_double_fixed, float_to_string, double_to_string}

  -- What the loop of `cve_list` appends for a CVE.
  unfoldable pub cve_entry : CveInfo fl → Bytes
  unfolding severity_str bool_str
  cve_entry cve =
      cve.cve_id
      ++ codes "|severity="
      ++ severity_str cve.severity
      ++ codes "|cvss="
      ++ float_to_string cve.cvss_score
      ++ codes "|epss="
      ++ double_to_string cve.epss
      ++ codes "|percentile="
      ++ double_to_string cve.percentile
      ++ codes "|risk="
      ++ double_to_string (risk fl cve)
      ++ codes "|nuclei_verified="
      ++ bool_str cve.nuclei_verified
      ++ codes "|description="
      ++ cve.description

  -- The separator stands before every CVE but the first.
  unfoldable pub cve_list_from : Bytes → List (CveInfo fl) → Bytes
  unfolding cve_entry
  cve_list_from text [] = text
  cve_list_from text (cve ∷ cves) = cve_list_from (text ++ codes "; " ++ cve_entry cve) cves

  unfoldable pub cve_list : List (CveInfo fl) → Bytes
  unfolding cve_list_from
  cve_list [] = []
  cve_list (cve ∷ cves) = cve_list_from (cve_entry cve) cves

  -- The values that are printed for a result.
  unfoldable pub scan_row : ScanResult fl → ScanRow
  unfolding show_count state_str max_cvss max_epss max_risk verified_cve_count cve_list
  scan_row r = record {
    target_host = r.target_host;
    resolved_ip = r.resolved_ip;
    port = show_count r.port;
    protocol = r.protocol;
    state = state_str r.state;
    name = r.service.name;
    product = r.service.product;
    version = r.service.version;
    extra_info = r.service.extra_info;
    banner_raw = r.service.banner_raw;
    cve_count = show_count (length r.cves);
    max_cvss = show_float_fixed (max_cvss fl r);
    max_epss = show_double_fixed (max_epss fl r);
    max_risk = show_double_fixed (max_risk fl r);
    verified_cve_count = show_count (verified_cve_count fl r);
    ja4s = r.ja4s;
    ja4x = r.ja4x;
    cdn = r.cdn;
    os_guess = r.os_guess;
    rtt = show_count r.rtt;
    cves = cve_list r.cves;
  }

  unfoldable pub write_rows : List (ScanResult fl) → Bytes
  unfolding write_row scan_row
  write_rows [] = []
  write_rows (r ∷ rs) = write_row (scan_row r) ++ write_rows rs

  -- The text of the file, or the exception where it does not open.
  unfoldable pub write : Bool → List (ScanResult fl) → Outcome Bytes
  unfolding write_rows
  write opens results =
      if opens
      then returned (
          codes
            "Target_Host,Resolved_IP,Port,Protocol,State,Service,Product,Version,Extra_Info,Banner_Raw,"
          ++ codes
              "CVE_Count,Max_CVSS,Max_EPSS,Max_Risk,Verified_CVE_Count,JA4S,JA4X,CDN,OS,RTT_ms,CVEs"
          ++ 10 ∷ []
          ++ write_rows results)
      else thrown

-- The numbers of the stream hold no comma, quote or line end.
pub record IsUnquoted {fl : FloatLib} (stream : StreamLib fl) : Type 0 where
  pub float_plain : (x : fl.Float) → IsPlain (stream.show_float_fixed x)
  pub double_plain : (x : fl.Double) → IsPlain (stream.show_double_fixed x)

AreDigits-IsPlain : (s : Bytes) → AreDigits s → IsPlain s
AreDigits-IsPlain [] h = refl
AreDigits-IsPlain (c ∷ s) h = ground (arith, AreDigits-IsPlain s)

pub show_count-IsPlain : (n : ℕ) → IsPlain (show_count n)
show_count-IsPlain n = AreDigits-IsPlain (show_count n) (show_count-decimal n).1

state_str-IsPlain : (s : PortState) → IsPlain (state_str s)
unfolding state_str
state_str-IsPlain PortState.open_state = refl
state_str-IsPlain PortState.closed_state = refl
state_str-IsPlain PortState.filtered_state = refl
state_str-IsPlain PortState.unknown_state = refl

module _ (fl : FloatLib) (stream : StreamLib fl) (plain : IsUnquoted stream) where
  scan_row-IsPrinted : (r : ScanResult fl) → IsPrinted (scan_row fl stream r)
  unfolding scan_row
  scan_row-IsPrinted r = record {
    port_plain = show_count-IsPlain r.port;
    state_plain = state_str-IsPlain r.state;
    cve_count_plain = show_count-IsPlain (length r.cves);
    max_cvss_plain = plain.float_plain (max_cvss fl r);
    max_epss_plain = plain.double_plain (max_epss fl r);
    max_risk_plain = plain.double_plain (max_risk fl r);
    verified_plain = show_count-IsPlain (verified_cve_count fl r);
    rtt_plain = show_count-IsPlain r.rtt;
  }

  -- Where the stream prints floating point without a comma, a quote or a line end, a CSV reader takes
  -- the row of any result apart into its 21 values, whatever bytes the texts of the result hold.
  pub read_row-scan_row :
      (r : ScanResult fl)
      → read_row Place.start [] (write_row (scan_row fl stream r))
        ≡ some (values (scan_row fl stream r))
  read_row-scan_row r = read_row-write_row (scan_row fl stream r) (scan_row-IsPrinted r)
