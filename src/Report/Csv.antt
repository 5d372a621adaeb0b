-- ===== src/Report/Csv.antt =====
-- src/report/csv_writer.cpp, `csv_escape` and the row that `CsvWriter::write` prints for a result,
-- and src/report/writers.cpp, `escape_csv_field`.
pub mod Reading
pub mod Writer
use service_port_scanner.Common.{
  ℕ, Bool, ◌||◌, Bytes, List, [], ◌∷◌, ◌++◌, any, ◌==◌, if◌then◌else◌,
}

-- The test of `find_first_of(",\"\r\n")`.
abbrev pub needs_quotes : ℕ → Bool
needs_quotes c = c == b',' || c == b'"' || c == 13 || c == 10

-- The loop of `csv_escape`.
unfoldable pub double_quotes : Bytes → Bytes
double_quotes [] = []
double_quotes (c ∷ s) = if c == b'"' then b'"' ∷ b'"' ∷ double_quotes s else c ∷ double_quotes s

unfoldable pub csv_escape : Bytes → Bytes
unfolding double_quotes
csv_escape s = if any needs_quotes s then b'"' ∷ (double_quotes s ++ b'"' ∷ []) else s

-- The loop of `escape_csv_field` appends to the text so far.
unfoldable pub escape_csv_loop : Bytes → Bytes → Bytes
escape_csv_loop out [] = out
escape_csv_loop out (c ∷ s) =
    escape_csv_loop ((if c == b'"' then out ++ b'"' ∷ [] else out) ++ c ∷ []) s

unfoldable pub escape_csv_field : Bytes → Bytes
unfolding escape_csv_loop
escape_csv_field s = if any needs_quotes s then escape_csv_loop (b'"' ∷ []) s ++ b'"' ∷ [] else s

-- The values of a row. Those that the code prints without `csv_escape` are given as the stream
-- prints them: the names of enumerators, counts and numbers.
pub record ScanRow : Type 0 where
  pub target_host : Bytes
  pub resolved_ip : Bytes
  pub port : Bytes
  pub protocol : Bytes
  pub state : Bytes
  pub name : Bytes
  pub product : Bytes
  pub version : Bytes
  pub extra_info : Bytes
  pub banner_raw : Bytes
  pub cve_count : Bytes
  pub max_cvss : Bytes
  pub max_epss : Bytes
  pub max_risk : Bytes
  pub verified_cve_count : Bytes
  pub ja4s : Bytes
  pub ja4x : Bytes
  pub cdn : Bytes
  pub os_guess : Bytes
  pub rtt : Bytes
  pub cves : Bytes

-- A column and the comma behind it.
abbrev pub column : Bytes → Bytes → Bytes
column cell rest = cell ++ b',' ∷ rest

-- The body of the loop over the results.
unfoldable pub write_row : ScanRow → Bytes
unfolding csv_escape
write_row r = column (csv_escape r.target_host) (
    column (csv_escape r.resolved_ip) (
      column r.port (
        column (csv_escape r.protocol) (
          column r.state (
            column (csv_escape r.name) (
              column (csv_escape r.product) (
                column (csv_escape r.version) (
                  column (csv_escape r.extra_info) (
                    column (csv_escape r.banner_raw) (
                      column r.cve_count (
                        column r.max_cvss (
                          column r.max_epss (
                            column r.max_risk (
                              column r.verified_cve_count (
                                column (csv_escape r.ja4s) (
                                  column (csv_escape r.ja4x) (
                                    column (csv_escape r.cdn) (
                                      column (csv_escape r.os_guess) (
                                        column r.rtt
                                          (csv_escape r.cves ++ 10 ∷ []))))))))))))))))))))
