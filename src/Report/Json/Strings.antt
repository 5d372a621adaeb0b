-- ===== src/Report/Json/Strings.antt =====
-- What a JSON reader makes of the escaped text.
use service_port_scanner.Common.{
  append_assoc, ℕ, ◌≡◌, refl, ◌∙◌, Bool, true, false, Bytes, Option, none, some, [], ◌∷◌, ◌++◌, map,
  ◌==◌, ◌&&◌, ◌||◌, not, ltb, ◌>>=◌, if◌then◌else◌, arith,
}
use service_port_scanner.Report.Json.{json_escape_char, json_escape}

-- The escapes of RFC 8259, section 7, without `\u`.
abbrev pub escaped : ℕ → Option ℕ
escaped c =
    if c == b'"'
    then some b'"'
    else if c == b'\\'
    then some b'\\'
    else if c == b'/'
    then some b'/'
    else if c == b'b'
    then some 8
    else if c == b'f'
    then some 12
    else if c == b'n'
    then some 10
    else if c == b'r'
    then some 13
    else if c == b't'
    then some 9
    else none

-- A JSON string behind its opening quote: the text and what follows the closing quote. `true` is a
-- backslash in front. A control byte is `none`.
unfoldable pub read_string : Bool → Bytes → Option (Bytes × Bytes)
read_string _ [] = none
read_string true (c ∷ s) = escaped c >>= λ b. read_string false s >>= λ r. some (b ∷ r.0, r.1)
read_string false (c ∷ s) = elim (c == b'"') [
  | true ↦ some ([], s)
  | false ↦ elim (c == b'\\') [
    | true ↦ read_string true s
    | false ↦ elim (ltb c 0x20) [
      | true ↦ none
      | false ↦ read_string false s >>= λ r. some (c ∷ r.0, r.1)
    ]
  ]
]

-- A control byte that has no short escape is shown as a space.
abbrev pub blanked : ℕ → ℕ
blanked c =
    if ltb c 0x20 && not (c == 8 || c == 9 || c == 10 || c == 12 || c == 13) then b' ' else c

read_string-json_escape_char :
    (c : ℕ) (s : Bytes)
    → read_string false (json_escape_char c ++ s)
      ≡ (read_string false s >>= λ r. some (blanked c ∷ r.0, r.1))
unfolding read_string
read_string-json_escape_char c s = ground arith

-- A JSON reader takes the escaped text up to the closing quote, whatever follows it, and reads the
-- text back, where the control bytes without a short escape are spaces.
pub read_string-json_escape :
    (s rest : Bytes) → read_string false (json_escape s ++ b'"' ∷ rest) ≡ some (map blanked s, rest)
unfolding read_string json_escape
read_string-json_escape [] rest = refl
read_string-json_escape (c ∷ s) rest = simp append_assoc (
    read_string-json_escape_char c (json_escape s ++ b'"' ∷ rest)
    ∙ rw (read_string-json_escape s rest) refl)
