-- ===== src/Probes/Rules.antt =====
-- src/probes/probe_engine.cpp, `parse_match`, `parse_probe` and `ProbeDatabase::parse`, with the
-- records of src/probes/probe_engine.hpp. `json` and `std::regex` are parameters.
pub mod Loading
pub mod Default
use service_port_scanner.Json.{ℤ, JsonLib}
use service_port_scanner.Probes.Regex.{RegexLib}
use service_port_scanner.Probes.Hex.{decode_hex}
use service_port_scanner.Common.{
  ℕ, ◌%◌, ◌^◌, Bool, ◌&&◌, Bytes, codes, Option, none, some, List, [], ◌∷◌, ◌++◌, leb,
  if◌then◌else◌, ◌>>=◌,
}

module _ (json : JsonLib) (re : RegexLib) where
  pub record MatchRule : Type 0 where
    pub regex : re.Regex
    pub raw_pattern : Bytes
    pub service_template : Bytes
    pub version_template : Bytes

  pub record ProbeRule : Type 0 where
    pub name : Bytes
    pub rarity : ℤ
    pub ports : List ℕ
    pub send_payload : Bytes
    pub matches : List MatchRule

  -- `if (j.contains(key) && j[key].is_string())`.
  abbrev pub string_member : json.Value → Bytes → Option Bytes
  string_member j key = json.member j key >>= json.as_string

  abbrev pub or_else {ℓ} : {A : Type ℓ} → A → Option A → A
  or_else d none = d
  or_else d (some a) = a

  unfoldable pub parse_match : json.Value → Option MatchRule
  parse_match j = do
    pattern ← string_member j (codes "regex")
    regex ← re.compile pattern
    some (record {
      regex = regex;
      raw_pattern = pattern;
      service_template = or_else [] (string_member j (codes "service"));
      version_template = or_else [] (string_member j (codes "version"));
    })

  -- The payload; `none` is `return false` for a broken `send_hex`.
  unfoldable pub read_payload : json.Value → Option Bytes
  unfolding decode_hex
  read_payload j = elim (string_member j (codes "send")) [
    | some text ↦ some text
    | none ↦ elim (string_member j (codes "send_hex")) [
      | some hex ↦ decode_hex hex
      | none ↦ some []
    ]
  ]

  -- The loop over `j["ports"]`; `get<unsigned>()` keeps 32 bits.
  unfoldable pub read_ports : List json.Value → List ℕ
  read_ports [] = []
  read_ports (p ∷ ps) =
      let rest = read_ports ps in
      elim (json.as_unsigned p) [
        | none ↦ rest
        | some n ↦ let v = n % 2 ^ 32 in if leb 1 v && leb v 65535 then v % 2 ^ 16 ∷ rest else rest
      ]

  unfoldable pub ports_member : json.Value → List ℕ
  unfolding read_ports
  ports_member j = read_ports (or_else [] (json.member j (codes "ports") >>= json.as_array))

  -- The loop over `j["match"]`.
  unfoldable pub read_matches : List json.Value → List MatchRule
  unfolding parse_match
  read_matches [] = []
  read_matches (m ∷ ms) =
      let rest = read_matches ms in elim (parse_match m) [ none ↦ rest | some rule ↦ rule ∷ rest ]

  -- `return !out.matches.empty();`
  abbrev pub nonempty_rule : ProbeRule → Option ProbeRule
  nonempty_rule rule = elim rule.matches [ [] ↦ none | (m ∷ ms) ↦ some rule ]

  -- A rarity that is missing is 5.
  unfoldable pub parse_probe : json.Value → Option ProbeRule
  unfolding read_payload ports_member read_matches
  parse_probe j = do
    name ← string_member j (codes "name")
    matches ← json.member j (codes "match") >>= json.as_array
    payload ← read_payload j
    nonempty_rule (record {
      name = name;
      rarity = or_else (ℤ.pos 5) (json.member j (codes "rarity") >>= json.as_int);
      ports = ports_member j;
      send_payload = payload;
      matches = read_matches matches;
    })

  -- The loop over `j["probes"]`.
  unfoldable pub read_probes : List json.Value → List ProbeRule
  unfolding parse_probe
  read_probes [] = []
  read_probes (j ∷ js) =
      let rest = read_probes js in elim (parse_probe j) [ none ↦ rest | some rule ↦ rule ∷ rest ]

  -- `ProbeDatabase::parse`: the rules of the database.
  unfoldable pub parse : Bytes → List ProbeRule
  unfolding read_probes
  parse text =
      read_probes
        (or_else [] (json.parse text >>= λ j. json.member j (codes "probes") >>= json.as_array))
