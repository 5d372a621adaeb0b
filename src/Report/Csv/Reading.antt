-- ===== src/Report/Csv/Reading.antt =====
-- A CSV reader (RFC 4180) takes a row of the export apart into the values that were written.
use service_port_scanner.Common.{
  ◌≡◌, refl, sym, ◌∙◌, true, false, Bytes, Option, none, some, List, [], ◌∷◌, ◌++◌, append-nil,
  append_assoc, any, ◌==◌, ◌>>=◌, Bool-cases, inl, inr, arith,
}
use service_port_scanner.Report.Csv.{
  needs_quotes, double_quotes, csv_escape, escape_csv_loop, escape_csv_field, ScanRow, column,
  write_row,
}

-- Where the reader is: at the start of a field, in a plain one, between quotes, or behind a quote
-- that closes the field or is the first of two.
pub data Place : Type 0 where
  start : Place
  plain : Place
  quoted : Place
  closing : Place

abbrev pub ends_row : Bytes → Option (List Bytes)
ends_row [] = some []
ends_row (c ∷ s) = none

-- The fields of a row, from the place and the field so far. Text behind a closing quote, and a
-- quote or a carriage return in a plain field, are `none`.
unfoldable pub read_row : Place → Bytes → Bytes → Option (List Bytes)
read_row place field [] = none
read_row Place.quoted field (c ∷ s) = elim (c == b'"') [
  | true ↦ read_row Place.closing field s
  | false ↦ read_row Place.quoted (field ++ c ∷ []) s
]
read_row Place.closing field (c ∷ s) = elim (c == b'"') [
  | true ↦ read_row Place.quoted (field ++ c ∷ []) s
  | false ↦ elim (c == b',') [
    | true ↦ read_row Place.start [] s >>= λ fs. some (field ∷ fs)
    | false ↦ elim (c == 10) [ true ↦ ends_row s >>= λ fs. some (field ∷ fs) | false ↦ none ]
  ]
]
read_row Place.plain field (c ∷ s) = elim (c == b',') [
  | true ↦ read_row Place.start [] s >>= λ fs. some (field ∷ fs)
  | false ↦ elim (c == 10) [
    | true ↦ ends_row s >>= λ fs. some (field ∷ fs)
    | false ↦ elim (needs_quotes c) [
      | true ↦ none
      | false ↦ read_row Place.plain (field ++ c ∷ []) s
    ]
  ]
]
read_row Place.start field (c ∷ s) = elim (c == b'"') [
  | true ↦ read_row Place.quoted [] s
  | false ↦ elim (c == b',') [
    | true ↦ read_row Place.start [] s >>= λ fs. some ([] ∷ fs)
    | false ↦ elim (c == 10) [
      | true ↦ ends_row s >>= λ fs. some ([] ∷ fs)
      | false ↦ elim (c == 13) [ true ↦ none | false ↦ read_row Place.plain (c ∷ []) s ]
    ]
  ]
]

-- A value that is written as it is.
abbrev pub IsPlain : Bytes → Type 0
IsPlain s = any needs_quotes s ≡ false

pub data Follows : Bytes → Type 0 where
  comma : (s : Bytes) → Follows (b',' ∷ s)
  newline : (s : Bytes) → Follows (10 ∷ s)

read_row-double_quotes :
    (s field rest : Bytes)
    → read_row Place.quoted field (double_quotes s ++ b'"' ∷ rest)
      ≡ read_row Place.closing (field ++ s) rest
unfolding read_row double_quotes
read_row-double_quotes [] field rest = ground (arith, append-nil field)
read_row-double_quotes (c ∷ s) field rest =
    ground (arith, read_row-double_quotes s (field ++ c ∷ []) rest, append_assoc field (c ∷ []) s)

read_row_plain :
    (s field rest : Bytes)
    → IsPlain s
    → Follows rest
    → read_row Place.plain field (s ++ rest) ≡ read_row Place.closing (field ++ s) rest
unfolding read_row
read_row_plain [] field rest p (Follows.comma r) = ground (arith, append-nil field)
read_row_plain [] field rest p (Follows.newline r) = ground (arith, append-nil field)
read_row_plain (c ∷ s) field rest p f =
    ground (arith, read_row_plain s (field ++ c ∷ []) rest, append_assoc field (c ∷ []) s, f)

read_row_as_is :
    (s rest : Bytes)
    → IsPlain s
    → Follows rest
    → read_row Place.start [] (s ++ rest) ≡ read_row Place.closing s rest
unfolding read_row
read_row_as_is [] rest p (Follows.comma r) = refl
read_row_as_is [] rest p (Follows.newline r) = refl
read_row_as_is (c ∷ s) rest p f = ground (arith, read_row_plain s (c ∷ []) rest, f)

-- A reader at the start of an escaped value takes the value.
read_row-csv_escape :
    (s rest : Bytes)
    → Follows rest
    → read_row Place.start [] (csv_escape s ++ rest) ≡ read_row Place.closing s rest
unfolding csv_escape
read_row-csv_escape s rest f = elim (Bool-cases (any needs_quotes s)) [
  | inl e ↦ rw e (simp append_assoc (unfold read_row in read_row-double_quotes s [] rest))
  | inr e ↦ rw e (read_row_as_is s rest e f)
]

read_row-closing_comma :
    (s rest : Bytes)
    → read_row Place.closing s (b',' ∷ rest)
      ≡ (read_row Place.start [] rest >>= λ fs. some (s ∷ fs))
unfolding read_row
read_row-closing_comma s rest = refl

cell :
    (s rest : Bytes) (fs : List Bytes)
    → read_row Place.start [] rest ≡ some fs
    → read_row Place.start [] (column (csv_escape s) rest) ≡ some (s ∷ fs)
cell s rest fs h =
    read_row-csv_escape s (b',' ∷ rest) (Follows.comma rest)
    ∙ read_row-closing_comma s rest
    ∙ rw h refl

plain_cell :
    (s rest : Bytes) (fs : List Bytes)
    → IsPlain s
    → read_row Place.start [] rest ≡ some fs
    → read_row Place.start [] (column s rest) ≡ some (s ∷ fs)
plain_cell s rest fs p h =
    read_row_as_is s (b',' ∷ rest) p (Follows.comma rest)
    ∙ read_row-closing_comma s rest
    ∙ rw h refl

last_cell : (s : Bytes) → read_row Place.start [] (csv_escape s ++ 10 ∷ []) ≡ some (s ∷ [])
last_cell s = read_row-csv_escape s (10 ∷ []) (Follows.newline []) ∙ unfold read_row in refl

-- The columns that are written as they are.
pub record IsPrinted (r : ScanRow) : Type 0 where
  pub port_plain : IsPlain r.port
  pub state_plain : IsPlain r.state
  pub cve_count_plain : IsPlain r.cve_count
  pub max_cvss_plain : IsPlain r.max_cvss
  pub max_epss_plain : IsPlain r.max_epss
  pub max_risk_plain : IsPlain r.max_risk
  pub verified_plain : IsPlain r.verified_cve_count
  pub rtt_plain : IsPlain r.rtt

-- The values of a row in the order of the columns.
abbrev pub values : ScanRow → List Bytes
values r =
    r.target_host ∷ r.resolved_ip ∷ r.port ∷ r.protocol ∷ r.state ∷ r.name ∷ r.product ∷ r.version
    ∷ r.extra_info ∷ r.banner_raw ∷ r.cve_count ∷ r.max_cvss ∷ r.max_epss ∷ r.max_risk
    ∷ r.verified_cve_count ∷ r.ja4s ∷ r.ja4x ∷ r.cdn ∷ r.os_guess ∷ r.rtt ∷ r.cves ∷ []

-- A row of the export whose numbers and enumerators are plain is read back by a CSV reader as its
-- 21 values, whatever commas, quotes and line ends the other values have in them.
pub read_row-write_row :
    (r : ScanRow) → IsPrinted r → read_row Place.start [] (write_row r) ≡ some (values r)
unfolding write_row
read_row-write_row r p = cell r.target_host _ _ (
    cell r.resolved_ip _ _ (
      plain_cell r.port _ _ p.port_plain (
        cell r.protocol _ _ (
          plain_cell r.state _ _ p.state_plain (
            cell r.name _ _ (
              cell r.product _ _ (
                cell r.version _ _ (
                  cell r.extra_info _ _ (
                    cell r.banner_raw _ _ (
                      plain_cell r.cve_count _ _ p.cve_count_plain (
                        plain_cell r.max_cvss _ _ p.max_cvss_plain (
                          plain_cell r.max_epss _ _ p.max_epss_plain (
                            plain_cell r.max_risk _ _ p.max_risk_plain (
                              plain_cell r.verified_cve_count _ _ p.verified_plain (
                                cell r.ja4s _ _ (
                                  cell r.ja4x _ _ (
                                    cell r.cdn _ _ (
                                      cell r.os_guess _ _ (
                                        plain_cell r.rtt _ _ p.rtt_plain
                                          (last_cell r.cves))))))))))))))))))))

escape_csv_loop_lem : (s out : Bytes) → escape_csv_loop out s ≡ out ++ double_quotes s
unfolding escape_csv_loop double_quotes
escape_csv_loop_lem [] out = sym (append-nil out)
escape_csv_loop_lem (c ∷ s) out =
    escape_csv_loop_lem s _
    ∙ ground (
      arith,
      append_assoc out (c ∷ []) (double_quotes s),
      append_assoc (out ++ c ∷ []) (c ∷ []) (double_quotes s),
      append_assoc out (c ∷ []) (c ∷ double_quotes s),
    )

-- The two CSV writers escape every value to the same bytes.
pub escape_csv_field-csv_escape : (s : Bytes) → escape_csv_field s ≡ csv_escape s
unfolding escape_csv_field csv_escape
escape_csv_field-csv_escape s = rw (escape_csv_loop_lem s (b'"' ∷ [])) refl
