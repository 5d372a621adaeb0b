-- ===== src/Tests/TableTests.antt =====
-- Runs of the fingerprints, the tables of CVEs and the results, and their theorems on concrete inputs.
use service_port_scanner.Core.Result.Maxima.{IsGreatest, maxima-IsGreatest}
use service_port_scanner.Core.Result.{
  CveInfo, ScanResult, open_state, critical, max_cvss, max_epss, max_percentile, risk, max_risk,
  has_critical_cve, is_open,
}
use service_port_scanner.Fp.Cve.Entries.{IsWrongText, Ends, load_from_string-Ends}
use service_port_scanner.Fp.Cve.Hits.{Finds, lookup-Finds}
use service_port_scanner.Fp.Cve.{
  Entry, to_lower, returned, thrown, count_hits, push_hits, hit_of, load_from_string,
}
use service_port_scanner.Fp.Cve
use service_port_scanner.Fp.Epss.FirstRow.{join_lines, FirstRow, lookup-FirstRow}
use service_port_scanner.Fp.Epss
use service_port_scanner.Fp.Ja4Server.Fingerprint.Fields.{
  AreAlike, compute_ja4s-AreAlike, length-compute_ja4s,
}
use service_port_scanner.Fp.Ja4Server.Fingerprint.{compute_ja4s}
use service_port_scanner.Fp.Ja4Server.{Ja4SInput, empty_input}
use service_port_scanner.Tests.Documents.{
  Doc, doc_member, doc_number, json_of, whole_numbers, whole_numbers-IsOrdered, digits_number,
  weak_digest, length-weak_digest,
}
use service_port_scanner.Common.{ℕ, ◌≡◌, refl, true, Bytes, codes, List, [], ◌∷◌, length, arith}

abbrev tls_input : Ja4SInput
tls_input = record empty_input {
  legacy_version = 0x0303;
  negotiated_version = 0x0304;
  cipher_id = 0x1301;
  extension_types = 0x002b ∷ 0x0033 ∷ [];
  alpn = codes "http/1.1";
}

compute_ja4s_run : compute_ja4s weak_digest tls_input ≡ codes "t1302h1_1301_090000000000"
unfolding compute_ja4s
compute_ja4s_run = refl

compute_ja4s-AreAlike_example : AreAlike weak_digest tls_input tls_input
compute_ja4s-AreAlike_example =
    compute_ja4s-AreAlike weak_digest tls_input tls_input (omega arith) (omega arith) refl

length-compute_ja4s_example : length (compute_ja4s weak_digest tls_input) ≡ 25
length-compute_ja4s_example = length-compute_ja4s weak_digest tls_input length-weak_digest

abbrev cve : Bytes → ℕ → ℕ → CveInfo whole_numbers
cve id score probability = record {
  cve_id = id;
  description = [];
  cvss_score = score;
  severity = critical;
  epss = probability;
  percentile = 0;
  nuclei_verified = true;
}

abbrev result : ScanResult whole_numbers
result = record {
  target_host = codes "host";
  resolved_ip = codes "10.0.0.1";
  port = 22;
  protocol = codes "tcp";
  state = open_state;
  service = record {
    name = codes "ssh";
    product = [];
    version = [];
    extra_info = [];
    banner_raw = [];
  };
  ja4s = [];
  ja4x = [];
  cdn = [];
  os_guess = [];
  cves = cve (codes "CVE-1") 5 7 ∷ cve (codes "CVE-2") 9 1 ∷ [];
  rtt = 3;
}

result_runs :
    (max_cvss whole_numbers result ≡ 9)
    × (max_risk whole_numbers result ≡ 35)
    × (has_critical_cve whole_numbers result ≡ true)
    × (is_open whole_numbers result ≡ true)
unfolding max_cvss max_risk has_critical_cve is_open
result_runs = (refl, refl, refl, refl)

maxima-IsGreatest_example :
    IsGreatest whole_numbers.float_gt
      (λ c. c.cvss_score)
      0
      result.cves
      (max_cvss whole_numbers result)
    × IsGreatest whole_numbers.gt (λ c. c.epss) 0 result.cves (max_epss whole_numbers result)
    × IsGreatest whole_numbers.gt
        (λ c. c.percentile)
        0
        result.cves
        (max_percentile whole_numbers result)
    × IsGreatest whole_numbers.gt (risk whole_numbers) 0 result.cves (max_risk whole_numbers result)
maxima-IsGreatest_example = maxima-IsGreatest whole_numbers whole_numbers-IsOrdered result

abbrev cve_item : Doc → Doc
cve_item score = Doc.field (codes "version_prefix") (Doc.text (codes "7.4")) (
    Doc.field (codes "id") (Doc.text (codes "CVE-2018-15473"))
      (Doc.field (codes "cvss") score Doc.nil))

abbrev cve_doc : Doc → Doc
cve_doc score = Doc.field (codes "SSH") (Doc.item (cve_item score) Doc.nil) Doc.nil

abbrev entry : Entry whole_numbers
entry = record {
  service_lower = codes "ssh";
  version_prefix = codes "7.4";
  id = codes "CVE-2018-15473";
  cvss = 5;
}

-- The second document has a text for a score.
load_from_string_runs :
    (load_from_string whole_numbers (json_of (cve_doc (Doc.number 5))) doc_number (codes "{}")
      ≡ returned (entry ∷ []))
    × (load_from_string whole_numbers (json_of (cve_doc (Doc.text []))) doc_number (codes "{}")
        ≡ thrown)
unfolding load_from_string doc_member
load_from_string_runs = (refl, refl)

lookup_runs :
    (Cve.lookup whole_numbers (entry ∷ []) (codes "Ssh") (codes "OpenSSH_7.4p1")
      ≡ hit_of whole_numbers entry ∷ [])
    × (Cve.lookup whole_numbers (entry ∷ []) (codes "ssh") (codes "8.0") ≡ [])
unfolding Cve.lookup
lookup_runs = (refl, refl)

load_from_string-Ends_example :
    Ends whole_numbers
      (json_of (cve_doc (Doc.text [])))
      doc_number
      (IsWrongText whole_numbers (json_of (cve_doc (Doc.text []))) doc_number (codes "{}"))
      (load_from_string whole_numbers (json_of (cve_doc (Doc.text []))) doc_number (codes "{}"))
load_from_string-Ends_example =
    load_from_string-Ends whole_numbers (json_of (cve_doc (Doc.text []))) doc_number (codes "{}")

lookup-Finds_example :
    Finds whole_numbers
      (entry ∷ [])
      (codes "SSH")
      (codes "OpenSSH_7.4p1")
      (Cve.lookup whole_numbers (entry ∷ []) (codes "SSH") (codes "OpenSSH_7.4p1"))
lookup-Finds_example = lookup-Finds whole_numbers (entry ∷ []) (codes "SSH") (codes "OpenSSH_7.4p1")

abbrev epss_rows : List Bytes
epss_rows = codes " cve-1-23,7,9\r" ∷ codes "CVE-1-23,8,9" ∷ []

epss_run :
    Epss.lookup whole_numbers digits_number
      (Epss.parse whole_numbers digits_number (join_lines (codes "#x" ∷ epss_rows)))
      (codes "CVE-1-23")
    ≡ record { epss = 7; percentile = 9 }
unfolding Epss.lookup Epss.parse digits_number
epss_run = refl

lookup-FirstRow_example :
    FirstRow whole_numbers digits_number
      (Epss.to_upper (codes "Cve-1-23"))
      (codes "#x" ∷ epss_rows)
      (Epss.lookup whole_numbers digits_number
        (Epss.parse whole_numbers digits_number (join_lines (codes "#x" ∷ epss_rows)))
        (codes "Cve-1-23"))
lookup-FirstRow_example =
    lookup-FirstRow whole_numbers digits_number (codes "#x") epss_rows (codes "Cve-1-23")
      (ground arith)
