-- ===== src/Fp/Ja4Server/Encode.antt =====
-- The wire format of a ServerHello (RFC 8446, section 4.1.3), from its fields to bytes.
use service_port_scanner.Common.{
  ℕ, ◌/◌, ◌%◌, ◌≤◌, ◌<◌, ◌≡◌, List, [], ◌∷◌, ◌++◌, map, Bytes, length, All, ◌==◌, if◌then◌else◌,
  filter, not,
}
use service_port_scanner.Fp.Ja4Server.{Ja4SInput, word, is_grease, empty_input}

pub record Extension : Type 0 where
  pub kind : ℕ
  pub body : Bytes

pub record Hello : Type 0 where
  pub legacy_version : ℕ
  pub random : Bytes
  pub session_id : Bytes
  pub cipher_id : ℕ
  pub compression : ℕ
  pub extensions : List Extension

-- A 16-bit number, the high byte first.
abbrev pub u16_bytes : ℕ → Bytes
u16_bytes n = n / 256 ∷ n % 256 ∷ []

abbrev pub encode_extensions : List Extension → Bytes
encode_extensions [] = []
encode_extensions (e ∷ es) =
    u16_bytes e.kind ++ (u16_bytes (length e.body) ++ (e.body ++ encode_extensions es))

abbrev pub encode : Hello → Bytes
encode h =
    u16_bytes h.legacy_version
    ++ (h.random
        ++ (length h.session_id
            ∷ (h.session_id
                ++ (u16_bytes h.cipher_id
                    ++ (h.compression
                        ∷ (u16_bytes (length (encode_extensions h.extensions))
                            ++ encode_extensions h.extensions))))))

-- The lengths and numbers fit their fields.
pub record IsWire (h : Hello) : Type 0 where
  pub legacy_fits : h.legacy_version < 65536
  pub random_length : length h.random ≡ 32
  pub session_fits : length h.session_id ≤ 255
  pub cipher_fits : h.cipher_id < 65536
  pub kinds_fit : All (λ e. e.kind < 65536) h.extensions
  pub extensions_fit : length (encode_extensions h.extensions) < 65536

-- A supported_versions extension with a body of two bytes names the version.
abbrev pub version_of : ℕ → ℕ → Bytes → ℕ
version_of v kind (a ∷ b ∷ []) = if kind == 0x002b then word a b else v
version_of v kind _ = v

-- The last such extension counts.
abbrev pub chosen_version : ℕ → List Extension → ℕ
chosen_version v [] = v
chosen_version v (e ∷ es) = chosen_version (version_of v e.kind e.body) es

-- The kinds in their order, without the reserved ones.
abbrev pub kinds : List Extension → List ℕ
kinds es = filter (λ v. not (is_grease v)) (map (λ e. e.kind) es)

-- What the fingerprint uses of a ServerHello.
abbrev pub summary : Hello → Ja4SInput
summary h = record empty_input {
  legacy_version = h.legacy_version;
  cipher_id = h.cipher_id;
  extension_types = kinds h.extensions;
  negotiated_version = chosen_version 0 h.extensions;
}
