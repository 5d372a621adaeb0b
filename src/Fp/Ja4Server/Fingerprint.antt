-- ===== src/Fp/Ja4Server/Fingerprint.antt =====
-- src/fp/ja4_server.cpp, `compute_ja4s`: the text of a fingerprint. The digest is OpenSSL's, a
-- parameter: its bytes, or `none` where a call fails.
pub mod Fields
use service_port_scanner.Fp.Ja4Server.{Ja4SInput}
use service_port_scanner.Common.{
  ℕ, zero, suc, ◌+◌, ◌-◌, ◌/◌, ◌%◌, min, Bool, Bytes, codes, Option, none, some, List, [], ◌∷◌,
  ◌++◌, length, take, is_empty, ltb, ◌==◌, if◌then◌else◌,
}

-- A lower-case hexadecimal digit.
abbrev pub hex_digit : ℕ → ℕ
hex_digit n = if ltb n 10 then b'0' + n else b'a' + (n - 10)

-- The loop of `sha256_hex` over the digest.
unfoldable pub hex_bytes : Bytes → Bytes
hex_bytes [] = []
hex_bytes (b ∷ bs) = hex_digit (b / 16) ∷ hex_digit (b % 16) ∷ hex_bytes bs

unfoldable pub version_tag : ℕ → Bytes
version_tag v =
    if v == 0x0304
    then codes "13"
    else if v == 0x0303
    then codes "12"
    else if v == 0x0302
    then codes "11"
    else if v == 0x0301
    then codes "10"
    else if v == 0x0300
    then codes "s3"
    else codes "00"

-- `a.back()` of a text that begins with `c`.
unfoldable pub back : ℕ → Bytes → ℕ
back c [] = c
back c (d ∷ s) = back d s

unfoldable pub alpn_tag : Bytes → Bytes
unfolding back
alpn_tag [] = codes "00"
alpn_tag (c ∷ []) = b'0' ∷ c ∷ []
alpn_tag (c ∷ d ∷ s) = c ∷ back d s ∷ []

-- `%02zu` of at most 99.
unfoldable pub two_digits : ℕ → Bytes
two_digits n = (b'0' + min n 99 / 10) ∷ (b'0' + min n 99 % 10) ∷ []

-- `%04x` of 16 bits.
unfoldable pub four_hex : ℕ → Bytes
four_hex v =
    hex_digit (v / 4096 % 16)
    ∷ hex_digit (v / 256 % 16)
    ∷ hex_digit (v / 16 % 16)
    ∷ hex_digit (v % 16)
    ∷ []

-- The loop over the extensions.
unfoldable pub join_extensions : Bytes → List ℕ → Bytes
unfolding four_hex
join_extensions ext_joined [] = ext_joined
join_extensions ext_joined (et ∷ ets) =
    join_extensions
      ((if is_empty ext_joined then ext_joined else ext_joined ++ b',' ∷ []) ++ four_hex et) ets

module _ (digest : Bytes → Option Bytes) where
  unfoldable pub sha256_hex : Bytes → Bytes
  unfolding hex_bytes
  sha256_hex data_ = elim (digest data_) [ none ↦ [] | some bytes ↦ hex_bytes bytes ]

  unfoldable pub extension_hash : Bytes → Bytes
  unfolding sha256_hex
  extension_hash ext_joined =
      if is_empty ext_joined then codes "000000000000" else take 12 (sha256_hex ext_joined)

  unfoldable pub compute_ja4s : Ja4SInput → Bytes
  unfolding version_tag two_digits alpn_tag four_hex join_extensions extension_hash
  compute_ja4s input =
      let v =
        if input.negotiated_version == 0 then input.legacy_version else input.negotiated_version in
      (if input.over_quic then codes "q" else codes "t")
      ++ (version_tag v
          ++ (two_digits (length input.extension_types)
              ++ (alpn_tag input.alpn
                  ++ (codes "_"
                      ++ (four_hex input.cipher_id
                          ++ (codes "_"
                              ++ extension_hash (join_extensions [] input.extension_types)))))))
