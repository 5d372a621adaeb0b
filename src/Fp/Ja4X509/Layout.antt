-- ===== src/Fp/Ja4X509/Layout.antt =====
-- The three hashes of a certificate's fingerprint.
use service_port_scanner.Fp.Ja4Server.Fingerprint.{hex_bytes, sha256_hex}
use service_port_scanner.Fp.Ja4Server.Fingerprint.Fields.{append-injective, length-hex_bytes}
use service_port_scanner.Fp.Ja4X509.{
  Ja4XInput, join_oids, short_hash, hash_or_default, compute_ja4x,
}
use service_port_scanner.Common.{
  ◌≡◌, ◌↔◌, refl, Bytes, codes, Option, some, List, [], ◌∷◌, ◌++◌, length, length-append,
  length-take, arith,
}

length-short_hex : (s : Bytes) → length s ≡ 64 → length (short_hash s) ≡ 12
length-short_hex [] h = refl
length-short_hex (c ∷ s) h = omega (arith, h, length-take 12 (c ∷ s))

length-three :
    (a b c : Bytes)
    → length a ≡ 12
    → length b ≡ 12
    → length c ≡ 12
    → length (a ++ (codes "_" ++ (b ++ (codes "_" ++ c)))) ≡ 38
length-three a b c h k l = omega (
  arith,
  length-append a (codes "_" ++ (b ++ (codes "_" ++ c))),
  length-append b (codes "_" ++ c),
  h,
  k,
  l,
)

-- Three texts of which the first two have one length each, with a mark between two.
three_parts :
    (a b c a' b' c' : Bytes)
    → length a ≡ length a'
    → length b ≡ length b'
    → a ++ (codes "_" ++ (b ++ (codes "_" ++ c))) ≡ a' ++ (codes "_" ++ (b' ++ (codes "_" ++ c')))
    → (a ≡ a') × (b ≡ b') × (c ≡ c')
three_parts a b c a' b' c' l m h =
    let (e, h1) = append-injective a a' _ _ l h in
    let (_, h2) = append-injective (codes "_") (codes "_") _ _ refl h1 in
    let (f, h3) = append-injective b b' _ _ m h2 in
    let (_, g) = append-injective (codes "_") (codes "_") _ _ refl h3 in (e, f, g)

module _ (digest : Bytes → Option Bytes)
    (wide : (s : Bytes) → (bytes : Bytes) × (digest s ≡ some bytes) × (length bytes ≡ 32)) where
  length-short_hash : (s : Bytes) → length (short_hash (sha256_hex digest s)) ≡ 12
  unfolding sha256_hex
  length-short_hash s =
      let (bytes, e, l) = wide s in
      rw (e, sha256_hex)
        (length-short_hex (hex_bytes bytes) (omega (arith, length-hex_bytes digest bytes, l)))

  length-hash_or_default : (oids : List Bytes) → length (hash_or_default digest oids) ≡ 12
  unfolding hash_or_default
  length-hash_or_default [] = refl
  length-hash_or_default (o ∷ oids) = length-short_hash (join_oids [] (o ∷ oids))

  -- Where the digest gives 32 bytes for every text, a fingerprint has 38 bytes, and two are equal
  -- exactly where each of the three hashes is: that of the issuer, the subject and the extensions.
  pub compute_ja4x_iff :
      (a b : Ja4XInput)
      → (length (compute_ja4x digest a) ≡ 38)
        × ((compute_ja4x digest a ≡ compute_ja4x digest b) ↔ (
            (hash_or_default digest a.issuer_oids ≡ hash_or_default digest b.issuer_oids)
            × (hash_or_default digest a.subject_oids ≡ hash_or_default digest b.subject_oids)
            × (hash_or_default digest a.ext_oids ≡ hash_or_default digest b.ext_oids)))
  unfolding compute_ja4x
  compute_ja4x_iff a b =
      let hash = hash_or_default digest in
      let width = length-hash_or_default in
      (
        length-three (hash a.issuer_oids) (hash a.subject_oids) (hash a.ext_oids)
            (width a.issuer_oids) (width a.subject_oids) (width a.ext_oids),
        (
          λ h.
              three_parts (hash a.issuer_oids) (hash a.subject_oids) (hash a.ext_oids)
                (hash b.issuer_oids) (hash b.subject_oids) (hash b.ext_oids)
                (omega (arith, width a.issuer_oids, width b.issuer_oids))
                (omega (arith, width a.subject_oids, width b.subject_oids)) h,
          λ (e, f, g). rw (e, f, g) refl,
        ),
      )
