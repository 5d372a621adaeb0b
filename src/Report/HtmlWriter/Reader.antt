-- ===== src/Report/HtmlWriter/Reader.antt =====
-- A reader of HTML as an automaton on bytes: it keeps where it stands and the elements that are open.
-- An element that is closed must be the innermost one that is open; `meta` and `br` have no content.
-- Attributes are in single quotes, and an ampersand begins a character reference.
use service_port_scanner.Report.Html.{html_entity, html_escape}
use service_port_scanner.Report.Automaton.{read, Reads, reads, Reads-append, Reads-cons, Reads-nil}
use service_port_scanner.Common.{
  ℕ, ◌≡◌, Bool, true, not, ◌&&◌, ◌||◌, Bytes, codes, bytes_eq, Option, none, some, List, [], ◌∷◌,
  ◌++◌, all, leb, ◌==◌, if◌then◌else◌, arith,
}

pub data Position : Type 0 where
  text reference opening declaration : Position
  open_name attributes quoted close_name : Bytes → Position

-- The elements that are open, the innermost first.
pub record Place : Type 0 where
  pub position : Position
  pub elements : List Bytes

abbrev pub at : Position → List Bytes → Place
at p e = record { position = p; elements = e }

abbrev is_letter : ℕ → Bool
is_letter c = leb b'a' c && leb c b'z' || leb b'0' c && leb c b'9'

unfoldable pub is_void : Bytes → Bool
unfolding bytes_eq
is_void name = bytes_eq name (codes "meta") || bytes_eq name (codes "br")

unfoldable pub open_element : Bytes → List Bytes → Place
unfolding is_void
open_element name e = at Position.text (if is_void name then e else name ∷ e)

unfoldable pub close_element : Bytes → List Bytes → Option Place
unfolding bytes_eq
close_element name [] = none
close_element name (n ∷ e) = if bytes_eq n name then some (at Position.text e) else none

unfoldable pub step : Position → List Bytes → ℕ → Option Place
unfolding open_element close_element
step Position.text e c =
    if c == b'<'
    then some (at Position.opening e)
    else if c == b'&'
    then some (at Position.reference e)
    else some (at Position.text e)
step Position.reference e c =
    if c == b';'
    then some (at Position.text e)
    else if is_letter c || c == b'#'
    then some (at Position.reference e)
    else none
step Position.opening e c =
    if c == b'/'
    then some (at (Position.close_name []) e)
    else if c == b'!'
    then some (at Position.declaration e)
    else if is_letter c
    then some (at (Position.open_name (c ∷ [])) e)
    else none
step Position.declaration e c =
    some (at (if c == b'>' then Position.text else Position.declaration) e)
step (Position.open_name name) e c =
    if c == b'>'
    then some (open_element name e)
    else if c == b' '
    then some (at (Position.attributes name) e)
    else if is_letter c
    then some (at (Position.open_name (name ++ c ∷ [])) e)
    else none
step (Position.attributes name) e c =
    if c == b'>'
    then some (open_element name e)
    else if c == b'\''
    then some (at (Position.quoted name) e)
    else if c == b'<'
    then none
    else some (at (Position.attributes name) e)
step (Position.quoted name) e c =
    some (at (if c == b'\'' then Position.attributes name else Position.quoted name) e)
step (Position.close_name name) e c =
    if c == b'>'
    then close_element name e
    else if is_letter c
    then some (at (Position.close_name (name ++ c ∷ [])) e)
    else none

unfoldable pub read_byte : Place → ℕ → Option Place
unfolding step
read_byte p c = step p.position p.elements c

read-html_entity :
    (e : List Bytes) (c : ℕ)
    → read read_byte (at Position.text e) (html_entity c) ≡ some (at Position.text e)
unfolding read read_byte
read-html_entity e c = ground arith

-- An escaped text opens and closes nothing.
pub Reads-html_escape :
    (e : List Bytes) (s : Bytes)
    → Reads read_byte (at Position.text e) (html_escape s) (at Position.text e)
unfolding html_escape
Reads-html_escape e [] = Reads-nil read_byte
Reads-html_escape e (c ∷ s) =
    Reads-append read_byte (reads (read-html_entity e c)) (Reads-html_escape e s)

-- A text without a bracket and an ampersand.
unfoldable pub IsText : Bytes → Type 0
IsText s = all (λ c. not (c == b'<') && not (c == b'&')) s ≡ true

read_byte_text :
    (e : List Bytes) (c : ℕ)
    → (not (c == b'<') && not (c == b'&')) ≡ true
    → read_byte (at Position.text e) c ≡ some (at Position.text e)
unfolding read_byte
read_byte_text e c h = ground arith

pub Reads-IsText :
    (e : List Bytes) (s : Bytes)
    → IsText s
    → Reads read_byte (at Position.text e) s (at Position.text e)
unfolding IsText
Reads-IsText e [] h = Reads-nil read_byte
Reads-IsText e (c ∷ s) h =
    Reads-cons read_byte (read_byte_text e c (ground arith)) (Reads-IsText e s (ground arith))
