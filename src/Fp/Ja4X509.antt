-- ===== src/Fp/Ja4X509.antt =====
-- src/fp/ja4_x509.cpp: the fingerprint of a certificate, by its object identifiers. The digest of
-- OpenSSL is a parameter.
pub mod Layout
use service_port_scanner.Fp.Ja4Server.Fingerprint.{sha256_hex}
use service_port_scanner.Common.{
  Bytes, codes, Option, List, [], ◌∷◌, ◌++◌, take, is_empty, if◌then◌else◌,
}

pub record Ja4XInput : Type 0 where
  pub issuer_oids : List Bytes
  pub subject_oids : List Bytes
  pub ext_oids : List Bytes

-- The loop of `hash_or_default`.
unfoldable pub join_oids : Bytes → List Bytes → Bytes
join_oids joined [] = joined
join_oids joined (o ∷ oids) =
    join_oids ((if is_empty joined then joined else joined ++ b',' ∷ []) ++ o) oids

abbrev pub zero_hash : Bytes
zero_hash = codes "000000000000"

abbrev pub short_hash : Bytes → Bytes
short_hash h = if is_empty h then zero_hash else take 12 h

module _ (digest : Bytes → Option Bytes) where
  unfoldable pub hash_or_default : List Bytes → Bytes
  unfolding join_oids sha256_hex
  hash_or_default [] = zero_hash
  hash_or_default (o ∷ oids) = short_hash (sha256_hex digest (join_oids [] (o ∷ oids)))

  unfoldable pub compute_ja4x : Ja4XInput → Bytes
  unfolding hash_or_default
  compute_ja4x input =
      hash_or_default input.issuer_oids
      ++ (codes "_"
          ++ (hash_or_default input.subject_oids ++ (codes "_" ++ hash_or_default input.ext_oids)))
