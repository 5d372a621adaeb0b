-- ===== src/Fp/Cve.antt =====
-- src/fp/cve_lookup.cpp and `CveDb` of its header: entries by service and version, read from JSON.
-- The exceptions of nlohmann::json that the code does not catch are results.
pub mod Substring
pub mod Hits
pub mod Entries
use service_port_scanner.Json.{JsonLib}
use service_port_scanner.Core.Floats.{FloatLib}
use service_port_scanner.Core.Result.{CveInfo, no_severity, severity_from_cvss}
use service_port_scanner.Common.{
  ℕ, ◌+◌, Bool, true, false, not, ◌&&◌, ◌||◌, Bytes, codes, bytes_eq, Option, none, some, List, [],
  ◌∷◌, ◌++◌, map, length, is_empty, leb, ◌==◌, if◌then◌else◌, ◌>>=◌,
}

-- `std::tolower` of a byte in the C locale.
abbrev pub tolower : ℕ → ℕ
tolower c = if leb b'A' c && leb c b'Z' then c + 32 else c

abbrev pub to_lower : Bytes → Bytes
to_lower = map tolower

abbrev pub starts_with : Bytes → Bytes → Bool
starts_with s [] = true
starts_with [] (p ∷ prefix) = false
starts_with (c ∷ s) (p ∷ prefix) = c == p && starts_with s prefix

-- `s.find(prefix) != npos`.
abbrev pub contains : Bytes → Bytes → Bool
contains [] prefix = starts_with [] prefix
contains (c ∷ s) prefix = starts_with (c ∷ s) prefix || contains s prefix

unfoldable pub version_matches : Bytes → Bytes → Bool
version_matches version prefix = if is_empty prefix then false else contains version prefix

-- What a call gives that may end in an exception.
pub data Outcome {ℓ} (A : Type ℓ) : Type ℓ where
  returned : A → Outcome A
  thrown : Outcome A

abbrev pub and_then {ℓ κ} : {A : Type ℓ} {B : Type κ} → Outcome A → (A → Outcome B) → Outcome B
and_then thrown f = thrown
and_then (returned a) f = f a

module _ (fl : FloatLib) where
  pub record Entry : Type 0 where
    pub service_lower : Bytes
    pub version_prefix : Bytes
    pub id : Bytes
    pub cvss : fl.Double

  -- The tests at the head of both loops.
  unfoldable pub is_hit : Bytes → Bytes → Entry → Bool
  unfolding version_matches bytes_eq
  is_hit svc version e =
      if not (bytes_eq e.service_lower svc) then false else version_matches version e.version_prefix

  -- The first loop.
  unfoldable pub count_hits : Bytes → Bytes → ℕ → List Entry → ℕ
  unfolding is_hit
  count_hits svc version count [] = count
  count_hits svc version count (e ∷ es) =
      count_hits svc version (if is_hit svc version e then count + 1 else count) es

  unfoldable pub hit_of : Entry → CveInfo fl
  unfolding severity_from_cvss
  hit_of e = record {
    cve_id = e.id;
    description = [];
    cvss_score = fl.narrow e.cvss;
    severity = severity_from_cvss fl e.cvss;
    epss = fl.double 0;
    percentile = fl.double 0;
    nuclei_verified = false;
  }

  -- The second loop.
  unfoldable pub push_hits : Bytes → Bytes → List (CveInfo fl) → List Entry → List (CveInfo fl)
  unfolding is_hit hit_of
  push_hits svc version hits [] = hits
  push_hits svc version hits (e ∷ es) =
      push_hits svc version (if is_hit svc version e then hits ++ hit_of e ∷ [] else hits) es

  unfoldable pub lookup : List Entry → Bytes → Bytes → List (CveInfo fl)
  unfolding count_hits push_hits
  lookup entries service version =
      let svc = to_lower service in
      if is_empty service || is_empty version
      then []
      else if count_hits svc version 0 entries == 0
      then []
      else push_hits svc version [] entries

  -- `load_from_string`; `as_double` is `get<double>` of a JSON value, `none` for another type.
  module _ (json : JsonLib) (as_double : json.Value → Option fl.Double) where
    -- `item.value(key, default)` throws where the member has another type.
    abbrev pub value_or {ℓ} :
        {A : Type ℓ} → (json.Value → Option A) → json.Value → Bytes → A → Outcome A
    value_or read item key default = elim (json.member item key) [
      | none ↦ returned default
      | some v ↦ elim (read v) [ none ↦ thrown | some a ↦ returned a ]
    ]

    -- One round of the inner loop.
    unfoldable pub load_item : Bytes → json.Value → List Entry → Outcome (List Entry)
    load_item svc item entries = elim (json.as_object item) [
      | none ↦ returned entries
      | some members ↦
          and_then (value_or json.as_string item (codes "version_prefix") []) λ version_prefix.
            and_then (value_or json.as_string item (codes "id") []) λ id.
              and_then (value_or as_double item (codes "cvss") (fl.double 0)) λ cvss. returned (
                if not (is_empty id) && not (is_empty version_prefix)
                then entries
                  ++ record {
                    service_lower = svc;
                    version_prefix = version_prefix;
                    id = id;
                    cvss = cvss;
                  }
                    ∷ []
                else entries)
    ]

    unfoldable pub load_items : Bytes → List json.Value → List Entry → Outcome (List Entry)
    unfolding load_item
    load_items svc [] entries = returned entries
    load_items svc (item ∷ items) entries =
        and_then (load_item svc item entries) (load_items svc items)

    unfoldable pub load_services : List (Bytes × json.Value) → List Entry → Outcome (List Entry)
    unfolding load_items
    load_services [] entries = returned entries
    load_services ((key, value) ∷ rest) entries = elim (json.as_array value) [
      | none ↦ load_services rest entries
      | some items ↦ and_then (load_items (to_lower key) items entries) (load_services rest)
    ]

    unfoldable pub load_from_string : Bytes → Outcome (List Entry)
    unfolding load_services
    load_from_string [] = returned []
    load_from_string (c ∷ text) = elim (json.parse (c ∷ text) >>= json.as_object) [
      | none ↦ returned []
      | some members ↦ load_services members []
    ]
