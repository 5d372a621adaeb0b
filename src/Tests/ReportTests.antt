-- ===== src/Tests/ReportTests.antt =====
-- Runs of src/report, and its theorems on concrete inputs.
use service_port_scanner.Report.Csv.{csv_escape}
use service_port_scanner.Report.Html.Reading.{shown, shown-html_escape}
use service_port_scanner.Report.Html.{html_escape}
use service_port_scanner.Report.Json.Strings.{blanked, read_string, read_string-json_escape}
use service_port_scanner.Report.Json.{json_escape}
use service_port_scanner.Common.{◌≡◌, refl, false, codes, none, some, ◌∷◌, ◌++◌, map}

html_escape_run : html_escape (codes "<a href='x'>&") ≡ codes "&lt;a href=&#39;x&#39;&gt;&amp;"
unfolding html_escape
html_escape_run = refl

json_escape_run : json_escape (1 ∷ codes "a\n\"\\") ≡ codes " a\\n\\\"\\\\"
unfolding json_escape
json_escape_run = refl

csv_escape_runs :
    (csv_escape (codes "a \"b\", c") ≡ codes "\"a \"\"b\"\", c\"")
    × (csv_escape (codes "a b") ≡ codes "a b")
unfolding csv_escape
csv_escape_runs = (refl, refl)

shown-html_escape_example : shown none (html_escape (codes "<b>&amp;")) ≡ some (codes "<b>&amp;")
shown-html_escape_example = shown-html_escape (codes "<b>&amp;")

read_string-json_escape_example :
    read_string false (json_escape (codes "a\"\n") ++ b'"' ∷ codes ", 1")
    ≡ some (map blanked (codes "a\"\n"), codes ", 1")
read_string-json_escape_example = read_string-json_escape (codes "a\"\n") (codes ", 1")
