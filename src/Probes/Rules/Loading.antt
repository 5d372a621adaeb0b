-- ===== src/Probes/Rules/Loading.antt =====
-- What every rule of a database has, whatever text it was read from.
use mathlib.Core.Option.{some-injective}
use mathlib.Core.Path.{subst}
use service_port_scanner.Json.{JsonLib}
use service_port_scanner.Probes.Regex.{RegexLib}
use service_port_scanner.Probes.Rules.{
  MatchRule, ProbeRule, string_member, parse_match, read_payload, read_ports, ports_member,
  read_matches, nonempty_rule, parse_probe, read_probes, parse,
}
use service_port_scanner.Common.{
  ◌⊎◌, sym, ◌∙◌, ◌≤◌, ◌≡◌, ◌≢◌, refl, Bytes, codes, Option, none, some, List, [], ◌∷◌, All, ◌>>=◌,
  >>=-eq-some, inl, inr, arith,
}

List-cases {ℓ} : {A : Type ℓ} (xs : List A) → (xs ≡ []) ⊎ ((y : A) × (ys : List A) × (xs ≡ y ∷ ys))
List-cases [] = inl refl
List-cases (y ∷ ys) = inr (y, ys, refl)

-- A loop that keeps the results that are there.
All-keep {ℓ} :
    {A : Type ℓ} {P : A → Type 0} (o : Option A) (rest : List A)
    → ((a : A) → o ≡ some a → P a)
    → All P rest
    → All P (elim o [ none ↦ rest | some a ↦ a ∷ rest ])
All-keep none rest h k = k
All-keep (some a) rest h k = (h a refl, k)

module _ (json : JsonLib) (re : RegexLib) where
  -- The compiled expression is the one of the pattern.
  abbrev pub IsCompiled : MatchRule json re → Type 0
  IsCompiled m = re.compile m.raw_pattern ≡ some m.regex

  pub record IsRule (r : ProbeRule json re) : Type 0 where
    pub has_match : r.matches ≢ []
    pub all_compiled : All IsCompiled r.matches
    pub ports_in_range : All (λ p. (1 ≤ p) × (p ≤ 65535)) r.ports

  parse_match-IsCompiled :
      (j : json.Value) {m : MatchRule json re} → parse_match json re j ≡ some m → IsCompiled m
  unfolding parse_match
  parse_match-IsCompiled j h =
      let (pattern, e, h1) = >>=-eq-some (string_member json re j (codes "regex")) _ h in
      let (regex, e', h2) = >>=-eq-some (re.compile pattern) _ h1 in
      subst IsCompiled (some-injective _ _ h2) e'

  read_matches-IsCompiled : (ms : List json.Value) → All IsCompiled (read_matches json re ms)
  unfolding read_matches
  read_matches-IsCompiled [] = tt
  read_matches-IsCompiled (m ∷ ms) =
      All-keep (parse_match json re m) _ (λ r e. parse_match-IsCompiled m e)
        (read_matches-IsCompiled ms)

  read_ports_in_range :
      (ps : List json.Value) → All (λ p. (1 ≤ p) × (p ≤ 65535)) (read_ports json re ps)
  unfolding read_ports
  read_ports_in_range [] = tt
  read_ports_in_range (p ∷ ps) = ground (arith, read_ports_in_range ps)

  nonempty_rule-IsRule :
      (r : ProbeRule json re) {r' : ProbeRule json re}
      → nonempty_rule json re r ≡ some r'
      → All IsCompiled r.matches
      → All (λ p. (1 ≤ p) × (p ≤ 65535)) r.ports
      → IsRule r'
  nonempty_rule-IsRule r h c p = elim (List-cases r.matches) [
    | inl e ↦ absurd (ground arith)
    | inr (m, ms, e) ↦
        let same : nonempty_rule json re r ≡ some r = rw e refl in
        subst IsRule (some-injective _ _ (sym same ∙ h))
          (record { has_match = λ e'. cc; all_compiled = c; ports_in_range = p })
  ]

  parse_probe-IsRule :
      (j : json.Value) {r : ProbeRule json re} → parse_probe json re j ≡ some r → IsRule r
  unfolding parse_probe ports_member
  parse_probe-IsRule j h =
      let (name, e, h1) = >>=-eq-some (string_member json re j (codes "name")) _ h in
      let (ms, e', h2) = >>=-eq-some (json.member j (codes "match") >>= json.as_array) _ h1 in
      let (payload, e'', h3) = >>=-eq-some (read_payload json re j) _ h2 in
      nonempty_rule-IsRule _ h3 (read_matches-IsCompiled ms) (read_ports_in_range _)

  read_probes-IsRule : (js : List json.Value) → All IsRule (read_probes json re js)
  unfolding read_probes
  read_probes-IsRule [] = tt
  read_probes-IsRule (j ∷ js) =
      All-keep (parse_probe json re j) _ (λ r e. parse_probe-IsRule j e) (read_probes-IsRule js)

  -- Every rule of a database has a match rule, expressions that are compiled from their patterns,
  -- and hint ports from 1 to 65535, whatever text the database is parsed from.
  pub parse-IsRule : (text : Bytes) → All IsRule (parse json re text)
  unfolding parse
  parse-IsRule text = read_probes-IsRule _
