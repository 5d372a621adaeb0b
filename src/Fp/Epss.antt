-- ===== src/Fp/Epss.antt =====
-- src/fp/epss_lookup.cpp and `EpssDb` of its header: probabilities by CVE, read from CSV text. The
-- map is a list of pairs in the order of insertion; `strtod` and floating point are parameters.
pub mod FirstRow
use service_port_scanner.Core.Floats.{FloatLib}
use service_port_scanner.Common.Split.{split_at}
use service_port_scanner.Common.{
  ℕ, ◌-◌, Bool, true, false, not, ◌&&◌, ◌||◌, Bytes, bytes_eq, Option, none, some, List, [], ◌∷◌,
  ◌++◌, map, length, is_empty, leb, ◌==◌, if◌then◌else◌, guard, ◌>>=◌, ◌>>◌,
}

-- `std::toupper` of a byte in the C locale.
abbrev pub toupper : ℕ → ℕ
toupper c = if leb b'a' c && leb c b'z' then c - 32 else c

abbrev pub to_upper : Bytes → Bytes
to_upper = map toupper

abbrev pub is_blank : ℕ → Bool
is_blank c = c == b' ' || c == 9 || c == 13 || c == 10

-- The first loop of `trim`, and the second.
unfoldable pub trim_front : Bytes → Bytes
trim_front [] = []
trim_front (c ∷ s) = let rest = trim_front s in if is_blank c then rest else c ∷ s

unfoldable pub trim_back : Bytes → Bytes
trim_back [] = []
trim_back (c ∷ s) = let rest = trim_back s in if is_empty rest && is_blank c then [] else c ∷ rest

unfoldable pub trim : Bytes → Bytes
unfolding trim_front trim_back
trim s = trim_back (trim_front s)

unfoldable pub looks_like_cve : Bytes → Bool
looks_like_cve (c0 ∷ c1 ∷ c2 ∷ c3 ∷ c4 ∷ c5 ∷ c6 ∷ s) =
    (c0 == b'C' || c0 == b'c')
    && (c1 == b'V' || c1 == b'v')
    && (c2 == b'E' || c2 == b'e')
    && c3 == b'-'
looks_like_cve _ = false

-- `line.front() == '#'`.
abbrev pub is_comment : Bytes → Bool
is_comment [] = false
is_comment (c ∷ s) = c == b'#'

-- `strtod` on the whole text; `none` where it reads nothing.
module _ (fl : FloatLib) (strtod : Bytes → Option fl.Double) where
  pub record Entry : Type 0 where
    pub epss : fl.Double
    pub percentile : fl.Double

  abbrev pub no_entry : Entry
  no_entry = record { epss = fl.double 0; percentile = fl.double 0 }

  abbrev pub parse_double : Bytes → Option fl.Double
  parse_double [] = none
  parse_double (c ∷ s) = strtod (c ∷ s)

  -- A broken percentile is 0.
  abbrev pub percentile_of : Option fl.Double → fl.Double
  percentile_of none = fl.double 0
  percentile_of (some p) = p

  -- One round of the loop behind `trim`; `none` is `continue`.
  unfoldable pub read_line : Bytes → Option (Bytes × Entry)
  unfolding looks_like_cve split_at
  read_line line = do
    guard (not (is_empty line))
    guard (not (is_comment line))
    guard (looks_like_cve line)
    (cve, rest) ← split_at b',' line
    (epss_s, pct_s) ← split_at b',' rest
    epss ← parse_double epss_s
    some (to_upper cve, record { epss = epss; percentile = percentile_of (parse_double pct_s) })

  -- `map_.find`.
  unfoldable pub find : Bytes → List (Bytes × Entry) → Option Entry
  unfolding bytes_eq
  find key [] = none
  find key ((k, e) ∷ map_) = let later = find key map_ in if bytes_eq k key then some e else later

  -- `map_.emplace` keeps what is there.
  unfoldable pub emplace : Bytes → Entry → List (Bytes × Entry) → List (Bytes × Entry)
  unfolding find
  emplace key e map_ = elim (find key map_) [ none ↦ map_ ++ (key, e) ∷ [] | some old ↦ map_ ]

  unfoldable pub add_line : Bytes → List (Bytes × Entry) → List (Bytes × Entry)
  unfolding trim read_line emplace
  add_line line map_ = elim (read_line (trim line)) [
    | none ↦ map_
    | some (key, e) ↦ emplace key e map_
  ]

  -- The loop over the text: the text that is left, and the line since `line_start`.
  unfoldable pub parse_loop : Bytes → Bytes → List (Bytes × Entry) → List (Bytes × Entry)
  unfolding add_line
  parse_loop [] line map_ = add_line line map_
  parse_loop (c ∷ s) line map_ = elim (c == 10) [
    | true ↦ parse_loop s [] (add_line line map_)
    | false ↦ parse_loop s (line ++ c ∷ []) map_
  ]

  unfoldable pub parse : Bytes → List (Bytes × Entry)
  unfolding parse_loop
  parse csv_text = parse_loop csv_text [] []

  unfoldable pub lookup : List (Bytes × Entry) → Bytes → Entry
  unfolding find
  lookup map_ cve_id = elim (find (to_upper cve_id) map_) [ none ↦ no_entry | some e ↦ e ]
