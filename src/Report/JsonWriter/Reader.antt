-- ===== src/Report/JsonWriter/Reader.antt =====
-- A reader of JSON (RFC 8259) as an automaton on bytes: it keeps what it expects and the open brackets.
-- A number or a literal name is any run of the bytes that these have.
use service_port_scanner.Report.Json.{json_escape_char, json_escape}
use service_port_scanner.Report.Json.Strings.{escaped}
use service_port_scanner.Report.Automaton.{read, Reads, reads, Reads-append, Reads-nil}
use service_port_scanner.Common.{
  ℕ, ◌≡◌, refl, Bool, true, false, ◌&&◌, ◌||◌, Bytes, Option, none, some, List, [], ◌∷◌, all,
  is_empty, ltb, leb, ◌==◌, if◌then◌else◌, arith,
}

-- `in_string` and `in_escape` say whether the string is a key.
pub data Expects : Type 0 where
  value value_or_close key_or_close key colon comma_or_close in_word : Expects
  in_string in_escape : Bool → Expects

-- The open brackets, the innermost first: `true` is an object.
pub record Place : Type 0 where
  pub expects : Expects
  pub brackets : List Bool

abbrev pub at : Expects → List Bool → Place
at e b = record { expects = e; brackets = b }

abbrev pub is_space : ℕ → Bool
is_space c = c == 32 || c == 10 || c == 13 || c == 9

abbrev pub is_word : ℕ → Bool
is_word c =
    leb b'0' c && leb c b'9'
    || leb b'a' c && leb c b'z'
    || c == b'E'
    || c == b'+'
    || c == b'-'
    || c == b'.'

abbrev pub close_object : List Bool → Option Place
close_object (true ∷ b) = some (at Expects.comma_or_close b)
close_object _ = none

abbrev pub close_array : List Bool → Option Place
close_array (false ∷ b) = some (at Expects.comma_or_close b)
close_array _ = none

abbrev pub comma : List Bool → Option Place
comma [] = none
comma (true ∷ b) = some (at Expects.key (true ∷ b))
comma (false ∷ b) = some (at Expects.value (false ∷ b))

abbrev pub begin_value : List Bool → ℕ → Option Place
begin_value b c =
    if c == b'"'
    then some (at (Expects.in_string false) b)
    else if c == b'{'
    then some (at Expects.key_or_close (true ∷ b))
    else if c == b'['
    then some (at Expects.value_or_close (false ∷ b))
    else if is_word c
    then some (at Expects.in_word b)
    else none

abbrev pub end_value : List Bool → ℕ → Option Place
end_value b c =
    if is_space c
    then some (at Expects.comma_or_close b)
    else if c == b','
    then comma b
    else if c == b'}'
    then close_object b
    else if c == b']'
    then close_array b
    else none

abbrev pub begin_key : List Bool → ℕ → Option Place
begin_key b c = if c == b'"' then some (at (Expects.in_string true) b) else none

abbrev pub escape_at : Bool → List Bool → Option ℕ → Option Place
escape_at k b none = none
escape_at k b (some c) = some (at (Expects.in_string k) b)

unfoldable pub step : Expects → List Bool → ℕ → Option Place
step Expects.value b c = if is_space c then some (at Expects.value b) else begin_value b c
step Expects.value_or_close b c =
    if is_space c
    then some (at Expects.value_or_close b)
    else if c == b']'
    then close_array b
    else begin_value b c
step Expects.key_or_close b c =
    if is_space c
    then some (at Expects.key_or_close b)
    else if c == b'}'
    then close_object b
    else begin_key b c
step Expects.key b c = if is_space c then some (at Expects.key b) else begin_key b c
step Expects.colon b c =
    if is_space c
    then some (at Expects.colon b)
    else if c == b':'
    then some (at Expects.value b)
    else none
step Expects.comma_or_close b c = end_value b c
step Expects.in_word b c = if is_word c then some (at Expects.in_word b) else end_value b c
step (Expects.in_string k) b c =
    if c == b'"'
    then some (at (if k then Expects.colon else Expects.comma_or_close) b)
    else if c == b'\\'
    then some (at (Expects.in_escape k) b)
    else if ltb c 0x20
    then none
    else some (at (Expects.in_string k) b)
step (Expects.in_escape k) b c = escape_at k b (escaped c)

unfoldable pub read_byte : Place → ℕ → Option Place
unfolding step
read_byte p c = step p.expects p.brackets c

read-json_escape_char :
    (k : Bool) (b : List Bool) (c : ℕ)
    → read read_byte (at (Expects.in_string k) b) (json_escape_char c)
      ≡ some (at (Expects.in_string k) b)
unfolding read read_byte
read-json_escape_char k b c = ground arith

-- An escaped text stays inside its string.
pub Reads-json_escape :
    (k : Bool) (b : List Bool) (s : Bytes)
    → Reads read_byte (at (Expects.in_string k) b) (json_escape s) (at (Expects.in_string k) b)
unfolding json_escape
Reads-json_escape k b [] = Reads-nil read_byte
Reads-json_escape k b (c ∷ s) =
    Reads-append read_byte (reads (read-json_escape_char k b c)) (Reads-json_escape k b s)

-- A run of the bytes of numbers and names.
unfoldable pub IsWord : Bytes → Type 0
IsWord s = (is_empty s ≡ false) × (all is_word s ≡ true)

read_in_word :
    (b : List Bool) (s : Bytes)
    → all is_word s ≡ true
    → read read_byte (at Expects.in_word b) s ≡ some (at Expects.in_word b)
unfolding read read_byte step
read_in_word b [] h = refl
read_in_word b (c ∷ s) h = ground (arith, read_in_word b s)

read_word_start :
    (b : List Bool) (c : ℕ)
    → is_word c ≡ true
    → step Expects.value b c ≡ some (at Expects.in_word b)
unfolding step
read_word_start b c h = ground arith

pub Reads-IsWord :
    (b : List Bool) (s : Bytes)
    → IsWord s
    → Reads read_byte (at Expects.value b) s (at Expects.in_word b)
unfolding IsWord read read_byte
Reads-IsWord b [] h = cc h.0
Reads-IsWord b (c ∷ s) h =
    reads (rw (read_word_start b c (ground arith)) (read_in_word b s (ground arith)))
