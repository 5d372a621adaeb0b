-- ===== src/Fp/Ja4Server/Fingerprint/Fields.antt =====
-- The fields of a fingerprint have fixed widths, so that they can be told apart.
use service_port_scanner.Fp.Ja4Server.{Ja4SInput}
use service_port_scanner.Fp.Ja4Server.Fingerprint.{
  hex_digit, hex_bytes, version_tag, alpn_tag, two_digits, four_hex, join_extensions, sha256_hex,
  extension_hash, compute_ja4s,
}
use service_port_scanner.Common.{
  ℕ, ◌+◌, ◌*◌, ◌/◌, ◌%◌, ◌<◌, min, ◌≡◌, refl, sym, ◌∙◌, Bool, true, false, Bytes, codes, Option,
  some, [], ◌∷◌, ◌++◌, length, length-append, length-take, ◌==◌, if◌then◌else◌, arith,
}

pub append-injective :
    (xs xs' ys ys' : Bytes)
    → length xs ≡ length xs'
    → xs ++ ys ≡ xs' ++ ys'
    → (xs ≡ xs') × (ys ≡ ys')
append-injective [] [] ys ys' l h = (refl, h)
append-injective [] (x' ∷ xs') ys ys' l h = absurd (omega arith)
append-injective (x ∷ xs) [] ys ys' l h = absurd (omega arith)
append-injective (x ∷ xs) (x' ∷ xs') ys ys' l h =
    let (e, e') = append-injective xs xs' ys ys' (omega arith) (ground arith) in (ground arith, e')

wide : (xs ys : Bytes) (n m : ℕ) → length xs ≡ n → length ys ≡ m → length (xs ++ ys) ≡ n + m
wide xs ys n m h k = omega (arith, length-append xs ys)

hex_digit-injective : (a b : ℕ) → a < 16 → b < 16 → hex_digit a ≡ hex_digit b → a ≡ b
hex_digit-injective a b h k e = ground arith

four_hex-injective : (a b : ℕ) → a < 65536 → b < 65536 → four_hex a ≡ four_hex b → a ≡ b
unfolding four_hex
four_hex-injective a b h k e =
    let e1 =
      hex_digit-injective (a / 4096 % 16) (b / 4096 % 16) (omega arith) (omega arith)
        (ground arith) in
    let e2 =
      hex_digit-injective (a / 256 % 16) (b / 256 % 16) (omega arith) (omega arith)
        (ground arith) in
    let e3 =
      hex_digit-injective (a / 16 % 16) (b / 16 % 16) (omega arith) (omega arith) (ground arith) in
    let e4 = hex_digit-injective (a % 16) (b % 16) (omega arith) (omega arith) (ground arith) in
    omega arith

two_digits-injective : (a b : ℕ) → two_digits a ≡ two_digits b → min a 99 ≡ min b 99
unfolding two_digits
two_digits-injective a b e = ground arith

length-version_tag : (v : ℕ) → length (version_tag v) ≡ 2
unfolding version_tag
length-version_tag v = ground arith

length-alpn_tag : (s : Bytes) → length (alpn_tag s) ≡ 2
unfolding alpn_tag
length-alpn_tag [] = refl
length-alpn_tag (c ∷ []) = refl
length-alpn_tag (c ∷ d ∷ s) = refl

length-two_digits : (n : ℕ) → length (two_digits n) ≡ 2
unfolding two_digits
length-two_digits n = refl

length-four_hex : (v : ℕ) → length (four_hex v) ≡ 4
unfolding four_hex
length-four_hex v = refl

-- The version that the fingerprint names.
abbrev pub version_used : Ja4SInput → ℕ
version_used input =
    if input.negotiated_version == 0 then input.legacy_version else input.negotiated_version

-- What two inputs with the same fingerprint have in common.
pub record AreAlike (digest : Bytes → Option Bytes) (a b : Ja4SInput) : Type 0 where
  pub same_protocol : a.over_quic ≡ b.over_quic
  pub same_version : version_tag (version_used a) ≡ version_tag (version_used b)
  pub same_count : min (length a.extension_types) 99 ≡ min (length b.extension_types) 99
  pub same_alpn : alpn_tag a.alpn ≡ alpn_tag b.alpn
  pub same_cipher : a.cipher_id ≡ b.cipher_id
  pub same_hash :
      extension_hash digest (join_extensions [] a.extension_types)
      ≡ extension_hash digest (join_extensions [] b.extension_types)

abbrev protocol : Bool → Bytes
protocol quic = if quic then codes "q" else codes "t"

length-protocol : (quic : Bool) → length (protocol quic) ≡ 1
length-protocol true = refl
length-protocol false = refl

protocol-injective : (p q : Bool) → protocol p ≡ protocol q → p ≡ q
protocol-injective true true e = refl
protocol-injective true false e = absurd (ground arith)
protocol-injective false true e = absurd (ground arith)
protocol-injective false false e = refl

module _ (digest : Bytes → Option Bytes) where
  -- Two inputs with 16-bit ciphers that have the same fingerprint agree in every field of it: the
  -- protocol, the tag of the version, the number of extensions up to 99, the tag of the ALPN, the
  -- cipher, and the hash of the extensions.
  pub compute_ja4s-AreAlike :
      (a b : Ja4SInput)
      → a.cipher_id < 65536
      → b.cipher_id < 65536
      → compute_ja4s digest a ≡ compute_ja4s digest b
      → AreAlike digest a b
  unfolding compute_ja4s
  compute_ja4s-AreAlike a b ha hb h =
      let (p, h1) =
        append-injective (protocol a.over_quic) (protocol b.over_quic) _ _
          (length-protocol a.over_quic ∙ sym (length-protocol b.over_quic)) h in
      let (v, h2) =
        append-injective (version_tag (version_used a)) (version_tag (version_used b)) _ _
          (length-version_tag (version_used a) ∙ sym (length-version_tag (version_used b))) h1 in
      let (n, h3) =
        append-injective (two_digits (length a.extension_types))
          (two_digits (length b.extension_types)) _ _
          (length-two_digits (length a.extension_types)
            ∙ sym (length-two_digits (length b.extension_types)))
          h2 in
      let (t, h4) =
        append-injective (alpn_tag a.alpn) (alpn_tag b.alpn) _ _
          (length-alpn_tag a.alpn ∙ sym (length-alpn_tag b.alpn)) h3 in
      let (_, h5) = append-injective (codes "_") (codes "_") _ _ refl h4 in
      let (c, h6) =
        append-injective (four_hex a.cipher_id) (four_hex b.cipher_id) _ _
          (length-four_hex a.cipher_id ∙ sym (length-four_hex b.cipher_id)) h5 in
      let (_, h7) = append-injective (codes "_") (codes "_") _ _ refl h6 in
      record {
        same_protocol = protocol-injective a.over_quic b.over_quic p;
        same_version = v;
        same_count = two_digits-injective (length a.extension_types) (length b.extension_types) n;
        same_alpn = t;
        same_cipher = four_hex-injective a.cipher_id b.cipher_id ha hb c;
        same_hash = h7;
      }

  pub length-hex_bytes : (bs : Bytes) → length (hex_bytes bs) ≡ 2 * length bs
  unfolding hex_bytes
  length-hex_bytes [] = refl
  length-hex_bytes (b ∷ bs) = omega (arith, length-hex_bytes bs)

  length-extension_hash :
      (text : Bytes)
      → ((s : Bytes) → (bytes : Bytes) × (digest s ≡ some bytes) × (length bytes ≡ 32))
      → length (extension_hash digest text) ≡ 12
  unfolding extension_hash
  length-extension_hash [] d = refl
  length-extension_hash (c ∷ text) d =
      let (bytes, e, l) = d (c ∷ text) in
      rw (e, sha256_hex) (omega (arith, length-take 12 (hex_bytes bytes), length-hex_bytes bytes))

  -- Where the digest gives 32 bytes for every text, a fingerprint has 25 bytes.
  pub length-compute_ja4s :
      (input : Ja4SInput)
      → ((s : Bytes) → (bytes : Bytes) × (digest s ≡ some bytes) × (length bytes ≡ 32))
      → length (compute_ja4s digest input) ≡ 25
  unfolding compute_ja4s
  length-compute_ja4s input d =
      let hash = extension_hash digest (join_extensions [] input.extension_types) in
      wide (protocol input.over_quic) _ 1 24 (length-protocol input.over_quic) (
        wide (version_tag (version_used input)) _ 2 22 (length-version_tag (version_used input)) (
          wide (two_digits (length input.extension_types)) _ 2 20
            (length-two_digits (length input.extension_types))
            (wide (alpn_tag input.alpn) _ 2 18 (length-alpn_tag input.alpn) (
              wide (codes "_") (four_hex input.cipher_id ++ (codes "_" ++ hash)) 1 17 refl (
                wide (four_hex input.cipher_id) (codes "_" ++ hash) 4 13
                  (length-four_hex input.cipher_id)
                  (wide (codes "_") hash 1 12 refl
                    (length-extension_hash (join_extensions [] input.extension_types) d)))))))
