-- ===== src/Tests/ProgramTests.antt =====
-- Runs of src/main.cpp and of the reports, and their theorems on concrete inputs.
use service_port_scanner.Core.Result.{
  CveInfo, ScanResult, open_state, closed_state, max_cvss, critical, medium,
}
use service_port_scanner.Cli.Args.{
  csv_report, Bound, AppOutcome, parsed, parse_error, default_args, default_bound, parse,
}
use service_port_scanner.Cli.Args.Selection.{Parses, parse-Parses}
use service_port_scanner.Cli.Scope.{check_scope}
use service_port_scanner.Fp.Cve.{returned}
use service_port_scanner.Report.Stream.{StreamLib, show_count}
use service_port_scanner.Report.Writers.{JsonPrint, written, top_cve}
use service_port_scanner.Report.Writers.Top.{Tops, top_cve-Tops}
use service_port_scanner.Report.JsonWriter.{document}
use service_port_scanner.Report.JsonWriter.Reader.{Expects, at, read_byte}
use service_port_scanner.Report.Automaton.{Reads}
use service_port_scanner.Report.JsonWriter.WellFormed.{IsNumeric, show_count-IsWord, Reads-document}
use service_port_scanner.Report.HtmlWriter.{html_text}
use service_port_scanner.Report.HtmlWriter.Reader
use service_port_scanner.Report.HtmlWriter.WellFormed.{
  IsTextual, show_count-IsText, Reads-html_text,
}
use service_port_scanner.Report.Csv.{write_row}
use service_port_scanner.Report.Csv.Reading.{start, values, read_row}
use service_port_scanner.Report.Csv.Writer.{
  scan_row, IsUnquoted, show_count-IsPlain, read_row-scan_row,
}
use service_port_scanner.Main.Annotate.{returned_results, IsAnnotated, collect-IsAnnotated}
use service_port_scanner.Main.Guard.{Guarded, main-Guarded}
use service_port_scanner.Main.{
  Libs, Scores, Launch, Task, task_result, task_error, World, collect, exits, main,
}
use service_port_scanner.Core.Result
use service_port_scanner.Scan.Connect.{make_result}
use service_port_scanner.Tests.Documents.{
  Doc, doc_number, json_of, prefixes, addresses, addresses-IsDocumented, whole_numbers,
  digits_number, make_address,
}
use service_port_scanner.Tests.NetTests.{thousandths, thousandths-IsComparison}
use service_port_scanner.Common.{
  ℕ, ◌*◌, ◌≡◌, refl, true, Bytes, codes, none, some, List, [], ◌∷◌, ◌==◌, length, filter, All2,
  if◌then◌else◌,
}

-- Whole numbers are spelt by their digits.
abbrev pub digits : StreamLib whole_numbers
digits = record {
  show_float = show_count;
  show_double = show_count;
  show_float_fixed = show_count;
  show_double_fixed = show_count;
  float_to_string = show_count;
  double_to_string = show_count;
  show_percent = λ x. show_count (x * 100);
}

digits-IsNumeric : IsNumeric digits
digits-IsNumeric = record { float_word = show_count-IsWord; double_word = show_count-IsWord }

abbrev json_print : JsonPrint whole_numbers
json_print = record {
  Value = Bytes;
  string = λ s. s;
  count = show_count;
  float = show_count;
  double = show_count;
  bool = λ b. [];
  array = λ vs. [];
  object = λ ms. [];
  dump = λ v n. returned v;
}

-- The built-in tables read as an empty document here.
abbrev pub libs : Libs
libs = record {
  re = thousandths;
  fl = whole_numbers;
  json = json_of Doc.nil;
  as_double = doc_number;
  regex = prefixes;
  strtod = digits_number;
  addresses = addresses;
  stream = digits;
  print = json_print;
}

abbrev cve_of : Bytes → ℕ → CveInfo whole_numbers
cve_of id score = record {
  cve_id = id;
  description = codes "\"quoted\"";
  cvss_score = score;
  severity = critical;
  epss = 0;
  percentile = 0;
  nuclei_verified = true;
}

abbrev pub ssh_result : ScanResult whole_numbers
ssh_result =
    record (make_result whole_numbers (record { host = codes "10.0.0.1"; port = 22 }) open_state) {
      cves = cve_of (codes "CVE-1") 5 ∷ cve_of (codes "CVE-2") 9 ∷ cve_of (codes "CVE-3") 9 ∷ [];
    }

-- Port 22 is open, and the scan of any other port throws.
abbrev pub scan_port : Launch libs → Task libs
scan_port l = if l.port == 22 then task_result ssh_result else task_error

abbrev bound_to : Bytes → Bound thousandths
bound_to target = record (default_bound thousandths) {
  args = record (default_args thousandths) { target = target; report = csv_report };
  ports_spec = codes "80,22";
}

abbrev world_of : AppOutcome thousandths → World libs
world_of o = record {
  app_parse = λ b argv. o;
  read = λ path. none;
  save = λ path. written;
  scan = λ threads limiter launches. scan_port;
}

abbrev internal : World libs
internal = world_of (parsed (bound_to (codes "10.0.0.1")))

-- `--help` ends in a parse error whose exit code is 0: the program returns 2. An external target
-- without consent ends in 3.
main_runs :
    (main libs
        (world_of (parse_error 0 (codes "Usage") (codes "help") (default_bound thousandths)))
        []
      ≡ returned (exits libs 2 (codes "Usage")))
    × (main libs (world_of (parsed (bound_to (codes "8.8.8.8")))) [] ≡ returned (exits libs 3 []))
unfolding main check_scope make_address
main_runs = (refl, refl)

abbrev scores : Scores libs
scores = (codes "CVE-2", record { epss = 7; percentile = 8 }) ∷ []

abbrev tasks : List (Task libs)
tasks = task_error ∷ task_result ssh_result ∷ []

parse-Parses_example :
    Parses thousandths
      (parsed (bound_to (codes "10.0.0.1")))
      (parse thousandths (λ b argv. parsed (bound_to (codes "10.0.0.1"))) [])
parse-Parses_example =
    parse-Parses thousandths thousandths-IsComparison
      (λ b argv. parsed (bound_to (codes "10.0.0.1"))) []

collect-IsAnnotated_example :
    All2
      (IsAnnotated libs (codes "cdn") scores)
      (returned_results libs tasks)
      (collect libs (codes "cdn") scores tasks (record { results = []; open_count = 0 })).results
    × ((collect libs
          (codes "cdn")
          scores
          tasks
          (record { results = []; open_count = 0 })).open_count
        ≡ length (
            filter
              (Result.is_open whole_numbers)
              (collect libs
                (codes "cdn")
                scores
                tasks
                (record { results = []; open_count = 0 })).results))
collect-IsAnnotated_example = collect-IsAnnotated libs (codes "cdn") scores tasks

main-Guarded_example : Guarded libs internal [] (main libs internal [])
main-Guarded_example = main-Guarded libs internal [] thousandths-IsComparison addresses-IsDocumented

top_cve-Tops_example :
    Tops whole_numbers [] 0 ssh_result.cves (top_cve whole_numbers ssh_result.cves)
    × ((top_cve whole_numbers ssh_result.cves).1 ≡ max_cvss whole_numbers ssh_result)
top_cve-Tops_example = top_cve-Tops whole_numbers ssh_result refl

Reads-document_example :
    Reads read_byte
      (at Expects.value [])
      (document whole_numbers digits (ssh_result ∷ ssh_result ∷ []))
      (at Expects.comma_or_close [])
Reads-document_example =
    Reads-document whole_numbers digits digits-IsNumeric (ssh_result ∷ ssh_result ∷ [])

digits-IsTextual : IsTextual digits
digits-IsTextual = record {
  float_text = show_count-IsText;
  double_text = show_count-IsText;
  percent_text = λ x. show_count-IsText (x * 100);
}

digits-IsUnquoted : IsUnquoted digits
digits-IsUnquoted = record { float_plain = show_count-IsPlain; double_plain = show_count-IsPlain }

Reads-html_text_example :
    Reads Reader.read_byte
      (Reader.at Reader.Position.text [])
      (html_text whole_numbers digits (ssh_result ∷ []))
      (Reader.at Reader.Position.text [])
Reads-html_text_example = Reads-html_text whole_numbers digits digits-IsTextual (ssh_result ∷ [])

read_row-scan_row_example :
    read_row start [] (write_row (scan_row whole_numbers digits ssh_result))
    ≡ some (values (scan_row whole_numbers digits ssh_result))
read_row-scan_row_example = read_row-scan_row whole_numbers digits digits-IsUnquoted ssh_result
