-- ===== src/Fp/Cdn.antt =====
-- src/fp/cdn_lookup.cpp, `CdnDatabase`: its ranges, read from JSON, and the lookup of an address.
pub mod Match
pub mod Loading
pub mod Default
use service_port_scanner.Common.{
  ℕ, bit_and, Bool, Option, none, some, List, [], ◌∷◌, ◌++◌, Bytes, codes, ◌==◌, if◌then◌else◌,
  ◌>>=◌, length, is_empty,
}
use service_port_scanner.Fp.Ipv4.{parse_ipv4, parse_cidr}
use service_port_scanner.Json.{JsonLib}

pub record Range : Type 0 where
  pub base : ℕ
  pub mask : ℕ
  pub provider : Bytes

-- `ranges_`.
pub record CdnDatabase : Type 0 where
  pub ranges : List Range

unfoldable pub size : CdnDatabase → ℕ
size db = length db.ranges

unfoldable pub empty : CdnDatabase → Bool
empty db = is_empty db.ranges

module _ (lib : JsonLib) where
  open lib use {Value, member, as_string, as_array}

  -- A string member, or `none` where the entry is skipped.
  unfoldable pub string_member : Value → Bytes → Option Bytes
  string_member v key = do m ← member v key; as_string m

  -- One round of the loop; `none` is `continue`.
  unfoldable pub read_range : Value → Option Range
  unfolding string_member parse_cidr
  read_range rj = do
    cidr ← string_member rj (codes "cidr")
    provider ← string_member rj (codes "provider")
    (base, mask) ← parse_cidr cidr
    some (record { base = base; mask = mask; provider = provider })

  unfoldable pub read_ranges : List Value → List Range
  unfolding read_range
  read_ranges [] = []
  read_ranges (rj ∷ rest) = elim (read_range rj) [
    | none ↦ read_ranges rest
    | some r ↦ r ∷ read_ranges rest
  ]

  unfoldable pub ranges_array : Bytes → Option (List Value)
  ranges_array json_text = do j ← lib.parse json_text; m ← member j (codes "ranges"); as_array m

  -- `CdnDatabase::parse`; a text that is no JSON, or has no array "ranges", gives the empty database.
  unfoldable pub parse : Bytes → CdnDatabase
  unfolding read_ranges ranges_array
  parse json_text = elim (ranges_array json_text) [
    | none ↦ record { ranges = [] }
    | some items ↦ record { ranges = read_ranges items }
  ]

unfoldable pub matches : ℕ → Range → Bool
matches addr r = bit_and addr r.mask == r.base

-- The loop of `lookup`.
unfoldable pub first_match : ℕ → List Range → Bytes
unfolding matches
first_match addr [] = []
first_match addr (r ∷ rs) = if matches addr r then r.provider else first_match addr rs

-- `CdnDatabase::lookup`.
unfoldable pub lookup : CdnDatabase → Bytes → Bytes
unfolding first_match
lookup db ipv4 = elim (parse_ipv4 ipv4) [ none ↦ [] | some addr ↦ first_match addr db.ranges ]
