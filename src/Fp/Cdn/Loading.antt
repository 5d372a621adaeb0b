-- ===== src/Fp/Cdn/Loading.antt =====
-- What `CdnDatabase::parse` stores: only blocks that `parse_cidr` accepts.
use mathlib.Core.Option.{some-injective}
use mathlib.Core.Path.{subst}
use service_port_scanner.Common.{
  ◌≡◌, some, List, [], ◌∷◌, Bytes, codes, All, >>=-eq-some, Option-cases, inl, inr,
}
use service_port_scanner.Fp.Cdn.{Range, read_range, read_ranges, parse, string_member, ranges_array}
use service_port_scanner.Fp.Ipv4.Masks.{IsCidr, parse_cidr_iff}
use service_port_scanner.Fp.Ipv4.{parse_cidr}
use service_port_scanner.Json.{JsonLib}

-- A stored range comes from the text of a CIDR block.
pub record IsRange (r : Range) : Type 0 where
  pub text : Bytes
  pub block : IsCidr text r.base r.mask

module _ (lib : JsonLib) where
  open lib use {Value}

  read_range-IsRange : (v : Value) {r : Range} → read_range lib v ≡ some r → IsRange r
  unfolding read_range
  read_range-IsRange v h =
      let (cidr, e1, h1) = >>=-eq-some (string_member lib v (codes "cidr")) _ h in
      let (provider, e2, h2) = >>=-eq-some (string_member lib v (codes "provider")) _ h1 in
      let (block, e3, h3) = >>=-eq-some (parse_cidr cidr) _ h2 in
      subst IsRange (some-injective _ _ h3)
        (record { text = cidr; block = (parse_cidr_iff cidr block.0 block.1).0 e3 })

  read_ranges-IsRange : (vs : List Value) → All IsRange (read_ranges lib vs)
  unfolding read_ranges
  read_ranges-IsRange [] = tt
  read_ranges-IsRange (v ∷ vs) = elim (Option-cases (read_range lib v)) [
    | inl e ↦ rw (e, read_ranges) (read_ranges-IsRange vs)
    | inr (r, e) ↦ rw (e, read_ranges) (read_range-IsRange v e, read_ranges-IsRange vs)
  ]

  -- Whatever the JSON text holds, each range that is stored is a well-formed block, masked.
  pub parse-IsRange : (json_text : Bytes) → All IsRange (parse lib json_text).ranges
  unfolding parse
  parse-IsRange json_text = elim (Option-cases (ranges_array lib json_text)) [
    | inl e ↦ rw (e, parse) tt
    | inr (items, e) ↦ rw (e, parse) (read_ranges-IsRange items)
  ]
