-- ===== src/Fp/Ja4Server.antt =====
-- src/fp/ja4_server.cpp, `parse_server_hello`: a TLS ServerHello, read from bytes. The pointer `p`
-- with `len` is the list of the bytes that are left, and a read past its end is `none`.
pub mod Grease
pub mod Safety
pub mod Encode
pub mod RoundTrip
pub mod Fingerprint
use service_port_scanner.Common.{
  ℕ, zero, suc, ◌+◌, ◌*◌, ◌/◌, ◌%◌, ◌^◌, bit_or, bit_and, Bool, true, false, ◌&&◌, Option, none,
  some, List, [], ◌∷◌, ◌++◌, Bytes, length, get_elem?, drop, ltb, leb, ◌==◌, if◌then◌else◌, guard,
  ◌>>=◌, ◌>>◌,
}

pub record Ja4SInput : Type 0 where
  pub over_quic : Bool
  pub legacy_version : ℕ
  pub negotiated_version : ℕ
  pub cipher_id : ℕ
  pub extension_types : List ℕ
  pub alpn : Bytes

-- `Ja4SInput{}`.
abbrev pub empty_input : Ja4SInput
empty_input = record {
  over_quic = false;
  legacy_version = 0;
  negotiated_version = 0;
  cipher_id = 0;
  extension_types = [];
  alpn = [];
}

-- `static_cast<std::uint16_t>((a << 8) | b)` of two bytes.
abbrev pub word : ℕ → ℕ → ℕ
word a b = bit_or (a * 2 ^ 8) b % 2 ^ 16

unfoldable pub is_grease : ℕ → Bool
is_grease v =
    let hi = v / 2 ^ 8 % 2 ^ 8 in let lo = bit_and v 0xff in hi == lo && bit_and lo 0x0f == 0x0a

unfoldable pub take_u8 : Bytes → Option (ℕ × Bytes)
take_u8 [] = none
take_u8 (b ∷ p) = some (b, p)

unfoldable pub take_u16 : Bytes → Option (ℕ × Bytes)
take_u16 [] = none
take_u16 (a ∷ []) = none
take_u16 (a ∷ b ∷ p) = some (word a b, p)

unfoldable pub skip : ℕ → Bytes → Option Bytes
skip n p = if ltb (length p) n then none else some (drop n p)

-- `(p[i] << 8) | p[i + 1]`.
unfoldable pub word_at : Bytes → ℕ → Option ℕ
word_at p i = do a ← get_elem? p i; b ← get_elem? p (i + 1); some (word a b)

-- `if (!is_grease(et)) in.extension_types.push_back(et);`
unfoldable pub push_extension : ℕ → Ja4SInput → Ja4SInput
unfolding is_grease
push_extension et input =
    if is_grease et
    then input
    else record input { extension_types = input.extension_types ++ et ∷ [] }

-- The version of a supported_versions extension with a body of two bytes.
unfoldable pub read_version : Bytes → ℕ → ℕ → ℕ → Ja4SInput → Option Ja4SInput
unfolding word_at
read_version p off et el input =
    if et == 0x002b && el == 2
    then (word_at p (off + 4) >>= λ v. some (record input { negotiated_version = v }))
    else some input

-- The loop over the extensions, on fuel.
unfoldable pub read_extensions : ℕ → Bytes → ℕ → ℕ → Ja4SInput → Option Ja4SInput
unfolding word_at push_extension read_version
read_extensions zero p ext_total off input = none
read_extensions (suc fuel) p ext_total off input = elim (leb (off + 4) ext_total) [
  | false ↦ some input
  | true ↦ do
    et ← word_at p off
    el ← word_at p (off + 2)
    elim (ltb ext_total (off + 4 + el)) [
      | true ↦ some input
      | false ↦ do
        input' ← read_version p off et el (push_extension et input)
        read_extensions fuel p ext_total (off + 4 + el) input'
    ]
]

-- The fields in front of the extensions; `none` is `return {}`.
unfoldable pub read_header : Bytes → Option (Ja4SInput × ℕ × Bytes)
unfolding take_u8 take_u16 skip
read_header p = do
  (legacy, p) ← take_u16 p
  p ← skip 32 p
  (sid_len, p) ← take_u8 p
  p ← skip sid_len p
  (cipher, p) ← take_u16 p
  (compression, p) ← take_u8 p
  (ext_total, p) ← take_u16 p
  guard (leb ext_total (length p))
  some (record empty_input { legacy_version = legacy; cipher_id = cipher }, ext_total, p)

-- Behind the header: an offset grows by four at least, so `ext_total` rounds and one are enough.
unfoldable pub read_body : Option (Ja4SInput × ℕ × Bytes) → Option Ja4SInput
unfolding read_extensions
read_body none = some empty_input
read_body (some (input, ext_total, p)) = read_extensions (suc ext_total) p ext_total 0 input

-- `none` for the text is the null pointer; `none` for the result is a read out of bounds, or the
-- end of the fuel.
unfoldable pub parse_server_hello : Option Bytes → Option Ja4SInput
unfolding read_header read_body
parse_server_hello none = some empty_input
parse_server_hello (some p) =
    if ltb (length p) 40 then some empty_input else read_body (read_header p)
