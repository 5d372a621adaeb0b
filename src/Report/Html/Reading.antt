-- ===== src/Report/Html/Reading.antt =====
-- What a browser shows for the escaped text, and that it is the text.
use service_port_scanner.Common.{
  ℕ, ◌≡◌, refl, sym, ◌∙◌, Bool, true, false, Bytes, codes, bytes_eq, Option, none, some, [], ◌∷◌,
  ◌++◌, append-nil, append_assoc, ◌==◌, ◌||◌, ◌>>=◌, if◌then◌else◌, Bool-cases, inl, inr, arith,
}
use service_port_scanner.Report.Html.{html_entity, html_escape, escape_html_loop, escape_html}

-- A character reference by its name.
unfoldable pub named : Bytes → Option ℕ
unfolding bytes_eq
named name =
    if bytes_eq name (codes "amp")
    then some b'&'
    else if bytes_eq name (codes "lt")
    then some b'<'
    else if bytes_eq name (codes "gt")
    then some b'>'
    else if bytes_eq name (codes "quot")
    then some b'"'
    else if bytes_eq name (codes "#39")
    then some b'\''
    else none

-- The bytes that end a text or an attribute value.
abbrev pub is_markup : ℕ → Bool
is_markup c = c == b'<' || c == b'>' || c == b'"' || c == b'\''

-- The text that is shown, read byte by byte; inside a reference its name so far is kept. Markup
-- and a broken reference are `none`.
unfoldable pub shown : Option Bytes → Bytes → Option Bytes
unfolding named
shown none [] = some []
shown (some name) [] = none
shown none (c ∷ s) = elim (c == b'&') [
  | true ↦ shown (some []) s
  | false ↦ elim (is_markup c) [ true ↦ none | false ↦ shown none s >>= λ t. some (c ∷ t) ]
]
shown (some name) (c ∷ s) = elim (c == b';') [
  | true ↦ named name >>= λ b. shown none s >>= λ t. some (b ∷ t)
  | false ↦ shown (some (name ++ c ∷ [])) s
]

shown-html_entity :
    (c : ℕ) (s : Bytes) → shown none (html_entity c ++ s) ≡ (shown none s >>= λ t. some (c ∷ t))
unfolding shown named bytes_eq
shown-html_entity c s = elim (Bool-cases (c == b'&')) [
  | inl e ↦ let c' : c ≡ b'&' = ground arith in rw c' refl
  | inr amp ↦ elim (Bool-cases (c == b'<')) [
    | inl e ↦ let c' : c ≡ b'<' = ground arith in rw c' refl
    | inr lt ↦ elim (Bool-cases (c == b'>')) [
      | inl e ↦ let c' : c ≡ b'>' = ground arith in rw c' refl
      | inr gt ↦ elim (Bool-cases (c == b'"')) [
        | inl e ↦ let c' : c ≡ b'"' = ground arith in rw c' refl
        | inr quot ↦ elim (Bool-cases (c == b'\'')) [
          | inl e ↦ let c' : c ≡ b'\'' = ground arith in rw c' refl
          | inr apostrophe ↦ ground arith
        ]
      ]
    ]
  ]
]

-- The escaped text has no markup in it, and what is shown for it is the text itself.
pub shown-html_escape : (s : Bytes) → shown none (html_escape s) ≡ some s
unfolding shown html_escape
shown-html_escape [] = refl
shown-html_escape (c ∷ s) = shown-html_entity c (html_escape s) ∙ rw (shown-html_escape s) refl

escape_html_loop_lem : (s out : Bytes) → escape_html_loop out s ≡ out ++ html_escape s
unfolding html_escape escape_html_loop
escape_html_loop_lem [] out = sym (append-nil out)
escape_html_loop_lem (c ∷ s) out =
    escape_html_loop_lem s _ ∙ ground (arith, append_assoc out (html_entity c) (html_escape s))

-- The two HTML writers escape every text to the same bytes.
pub escape_html-html_escape : (s : Bytes) → escape_html s ≡ html_escape s
unfolding escape_html
escape_html-html_escape s = escape_html_loop_lem s []
