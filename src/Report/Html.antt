-- ===== src/Report/Html.antt =====
-- src/report/html_writer.cpp, `html_escape`, and src/report/writers.cpp, `escape_html`.
pub mod Reading
use service_port_scanner.Common.{ℕ, Bytes, codes, [], ◌∷◌, ◌++◌, ◌==◌, if◌then◌else◌}

-- The `switch` of the loop in `html_escape`.
abbrev pub html_entity : ℕ → Bytes
html_entity c =
    if c == b'&'
    then codes "&amp;"
    else if c == b'<'
    then codes "&lt;"
    else if c == b'>'
    then codes "&gt;"
    else if c == b'"'
    then codes "&quot;"
    else if c == b'\''
    then codes "&#39;"
    else c ∷ []

unfoldable pub html_escape : Bytes → Bytes
html_escape [] = []
html_escape (c ∷ s) = html_entity c ++ html_escape s

-- The loop of `escape_html` appends to the text so far.
unfoldable pub escape_html_loop : Bytes → Bytes → Bytes
escape_html_loop out [] = out
escape_html_loop out (c ∷ s) =
    escape_html_loop
      (if c == b'&'
        then out ++ codes "&amp;"
        else if c == b'<'
        then out ++ codes "&lt;"
        else if c == b'>'
        then out ++ codes "&gt;"
        else if c == b'"'
        then out ++ codes "&quot;"
        else if c == b'\''
        then out ++ codes "&#39;"
        else out ++ c ∷ [])
      s

unfoldable pub escape_html : Bytes → Bytes
unfolding escape_html_loop
escape_html input = escape_html_loop [] input
