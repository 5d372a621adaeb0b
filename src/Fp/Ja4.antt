-- ===== src/Fp/Ja4.antt =====
-- src/fp/ja4.cpp: the fingerprint of the text of a TLS client. The digest of OpenSSL is a parameter.
use service_port_scanner.Fp.Ja4Server.Fingerprint.{sha256_hex}
use service_port_scanner.Common.{
  Bytes, codes, bytes_eq, Option, ◌∷◌, ◌++◌, take, is_empty, if◌then◌else◌,
}

pub record Ja4Input : Type 0 where
  pub tls_version : Bytes
  pub cipher : Bytes
  pub alpn : Bytes

unfoldable pub version_name_tag : Bytes → Bytes
unfolding bytes_eq
version_name_tag ver =
    if bytes_eq ver (codes "TLSv1.3")
    then codes "13"
    else if bytes_eq ver (codes "TLSv1.2")
    then codes "12"
    else if bytes_eq ver (codes "TLSv1.1")
    then codes "11"
    else if bytes_eq ver (codes "TLSv1.0")
    then codes "10"
    else codes "00"

-- A text that is not empty begins with `take`, as `substr(0, 12)` does.
unfoldable pub compute_ja4 : (Bytes → Option Bytes) → Ja4Input → Bytes
unfolding sha256_hex version_name_tag
compute_ja4 digest input =
    let canonical = input.tls_version ++ b'|' ∷ input.cipher ++ b'|' ∷ input.alpn in
    codes "t"
    ++ version_name_tag input.tls_version
    ++ codes "d_"
    ++ take 12 (sha256_hex digest canonical)
    ++ codes "_"
    ++ (if is_empty input.alpn then codes "00" else input.alpn)
