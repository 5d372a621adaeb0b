-- ===== src/Report/Json.antt =====
-- src/report/json_writer.cpp, `json_escape`: text inside a JSON string.
pub mod Strings
use service_port_scanner.Common.{ℕ, Bytes, codes, [], ◌∷◌, ◌++◌, ◌==◌, ltb, if◌then◌else◌}

-- The `switch` of the loop.
abbrev pub json_escape_char : ℕ → Bytes
json_escape_char c =
    if c == b'"'
    then b'\\' ∷ b'"' ∷ []
    else if c == b'\\'
    then b'\\' ∷ b'\\' ∷ []
    else if c == 8
    then b'\\' ∷ b'b' ∷ []
    else if c == 12
    then b'\\' ∷ b'f' ∷ []
    else if c == 10
    then b'\\' ∷ b'n' ∷ []
    else if c == 13
    then b'\\' ∷ b'r' ∷ []
    else if c == 9
    then b'\\' ∷ b't' ∷ []
    else if ltb c 0x20
    then b' ' ∷ []
    else c ∷ []

unfoldable pub json_escape : Bytes → Bytes
json_escape [] = []
json_escape (c ∷ s) = json_escape_char c ++ json_escape s
