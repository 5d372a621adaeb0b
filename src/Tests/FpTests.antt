-- ===== src/Tests/FpTests.antt =====
-- Runs of src/fp, and its theorems on concrete inputs.
use service_port_scanner.Fp.Cdn.Loading.{IsRange, parse-IsRange}
use service_port_scanner.Fp.Cdn.Match.{LooksUp, lookup-LooksUp}
use service_port_scanner.Fp.Cdn.{CdnDatabase, parse, lookup}
use service_port_scanner.Fp.Ipv4.Dotted.{IsDotted, parse_ipv4_iff}
use service_port_scanner.Fp.Ipv4.Masks.{IsCidr, parse_cidr_iff}
use service_port_scanner.Fp.Ipv4.{parse_ipv4, parse_cidr}
use service_port_scanner.Fp.Ja4.{compute_ja4}
use service_port_scanner.Fp.Ja4X509.{Ja4XInput, hash_or_default, compute_ja4x}
use service_port_scanner.Fp.Ja4X509.Layout.{compute_ja4x_iff}
use service_port_scanner.Fp.Ja4Server.Encode.{Hello, IsWire, encode, summary}
use service_port_scanner.Fp.Ja4Server.RoundTrip.{parse_server_hello-encode}
use service_port_scanner.Fp.Ja4Server.Safety.{parse_server_hello_total}
use service_port_scanner.Fp.Ja4Server.{Ja4SInput, empty_input, parse_server_hello}
use service_port_scanner.Tests.Documents.{Doc, doc_member, json_of, weak_digest, length-weak_digest}
use service_port_scanner.Common.{
  ◌≡◌, refl, ◌↔◌, Bytes, length, take, codes, none, some, [], ◌∷◌, ◌++◌, All, arith,
}

parse_ipv4_runs :
    (parse_ipv4 (codes "10.0.0.1") ≡ some 167772161)
    × (parse_ipv4 (codes "010.000.0.255") ≡ some 167772415)
    × (parse_ipv4 (codes "10.0.0.256") ≡ none)
    × (parse_ipv4 (codes "10.0.0.1 ") ≡ none)
unfolding parse_ipv4
parse_ipv4_runs = (refl, refl, refl, refl)

parse_cidr_runs :
    (parse_cidr (codes "173.245.48.9/20") ≡ some (2918526976, 4294963200))
    × (parse_cidr (codes "173.245.48.0/33") ≡ none)
    × (parse_cidr (codes "173.245.48.0") ≡ none)
unfolding parse_cidr
parse_cidr_runs = (refl, refl, refl)

abbrev range_doc : Doc
range_doc =
    Doc.field (codes "cidr") (Doc.text (codes "173.245.48.0/20"))
      (Doc.field (codes "provider") (Doc.text (codes "Cloudflare")) Doc.nil)

-- One range, and one with a broken block.
abbrev cdn_doc : Doc
cdn_doc =
    Doc.field (codes "ranges")
      (Doc.item range_doc
        (Doc.item (Doc.field (codes "cidr") (Doc.text (codes "1.2.3.4/40")) Doc.nil) Doc.nil))
      Doc.nil

abbrev cdn_text : Bytes
cdn_text = codes "{}"

abbrev cdn_db : CdnDatabase
cdn_db = record {
  ranges = record { base = 2918526976; mask = 4294963200; provider = codes "Cloudflare" } ∷ [];
}

parse_run : parse (json_of cdn_doc) cdn_text ≡ cdn_db
unfolding parse doc_member
parse_run = refl

lookup_runs :
    (lookup cdn_db (codes "173.245.50.1") ≡ codes "Cloudflare")
    × (lookup cdn_db (codes "173.245.64.0") ≡ [])
unfolding lookup parse_ipv4
lookup_runs = (refl, refl)

abbrev hello : Hello
hello = record {
  legacy_version = 0x0303;
  random =
      0 ∷ 1 ∷ 2 ∷ 3 ∷ 4 ∷ 5 ∷ 6 ∷ 7 ∷ 8 ∷ 9 ∷ 10 ∷ 11 ∷ 12 ∷ 13 ∷ 14 ∷ 15 ∷ 16 ∷ 17 ∷ 18 ∷ 19 ∷ 20
      ∷ 21 ∷ 22 ∷ 23 ∷ 24 ∷ 25 ∷ 26 ∷ 27 ∷ 28 ∷ 29 ∷ 30 ∷ 31 ∷ [];
  session_id = 7 ∷ 7 ∷ [];
  cipher_id = 0x1301;
  compression = 0;
  extensions =
      record { kind = 0x1a1a; body = 9 ∷ [] }
      ∷ record { kind = 0x002b; body = 3 ∷ 4 ∷ [] }
      ∷ record { kind = 0x0033; body = [] }
      ∷ [];
}

abbrev hello-IsWire : IsWire hello
hello-IsWire = record {
  legacy_fits = omega arith;
  random_length = refl;
  session_fits = omega arith;
  cipher_fits = omega arith;
  kinds_fit = (omega arith, (omega arith, (omega arith, tt)));
  extensions_fit = omega arith;
}

parse_server_hello_run :
    parse_server_hello (some (encode hello))
    ≡ some (record empty_input {
      legacy_version = 0x0303;
      negotiated_version = 0x0304;
      cipher_id = 0x1301;
      extension_types = 0x002b ∷ 0x0033 ∷ [];
    })
unfolding parse_server_hello
parse_server_hello_run = refl

parse_server_hello-encode_example :
    parse_server_hello (some (encode hello ++ 1 ∷ 2 ∷ [])) ≡ some (summary hello)
parse_server_hello-encode_example = parse_server_hello-encode hello (1 ∷ 2 ∷ []) hello-IsWire

parse_server_hello_total_example :
    (r : Ja4SInput) × (parse_server_hello (some (encode hello)) ≡ some r)
parse_server_hello_total_example = parse_server_hello_total (some (encode hello))

parse_ipv4_iff_example :
    (parse_ipv4 (codes "10.0.0.1") ≡ some 167772161) ↔ IsDotted (codes "10.0.0.1") 167772161
parse_ipv4_iff_example = parse_ipv4_iff (codes "10.0.0.1") 167772161

parse_cidr_iff_example :
    (parse_cidr (codes "173.245.48.9/20") ≡ some (2918526976, 4294963200))
    ↔ IsCidr (codes "173.245.48.9/20") 2918526976 4294963200
parse_cidr_iff_example = parse_cidr_iff (codes "173.245.48.9/20") 2918526976 4294963200

parse-IsRange_example : All IsRange (parse (json_of cdn_doc) cdn_text).ranges
parse-IsRange_example = parse-IsRange (json_of cdn_doc) cdn_text

abbrev cdn_ranges-IsRange : All IsRange (parse (json_of cdn_doc) cdn_text).ranges
cdn_ranges-IsRange = parse-IsRange (json_of cdn_doc) cdn_text

lookup-LooksUp_example :
    LooksUp
      (parse (json_of cdn_doc) cdn_text).ranges
      cdn_ranges-IsRange
      (codes "173.245.50.1")
      (lookup (parse (json_of cdn_doc) cdn_text) (codes "173.245.50.1"))
lookup-LooksUp_example =
    lookup-LooksUp (parse (json_of cdn_doc) cdn_text) cdn_ranges-IsRange (codes "173.245.50.1")

abbrev certificate : Ja4XInput
certificate = record {
  issuer_oids = codes "2.5.4.6" ∷ codes "2.5.4.3" ∷ [];
  subject_oids = codes "2.5.4.3" ∷ [];
  ext_oids = [];
}

compute_ja4x_iff_example :
    (length (compute_ja4x weak_digest certificate) ≡ 38)
    × ((compute_ja4x weak_digest certificate ≡ compute_ja4x weak_digest certificate) ↔ (
        (hash_or_default weak_digest certificate.issuer_oids
          ≡ hash_or_default weak_digest certificate.issuer_oids)
        × (hash_or_default weak_digest certificate.subject_oids
            ≡ hash_or_default weak_digest certificate.subject_oids)
        × (hash_or_default weak_digest certificate.ext_oids
            ≡ hash_or_default weak_digest certificate.ext_oids)))
compute_ja4x_iff_example = compute_ja4x_iff weak_digest length-weak_digest certificate certificate

compute_ja4_run :
    take 5
      (compute_ja4 weak_digest (record { tls_version = codes "TLSv1.3"; cipher = []; alpn = [] }))
    ≡ codes "t13d_"
unfolding compute_ja4
compute_ja4_run = refl
