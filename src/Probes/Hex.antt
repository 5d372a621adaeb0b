-- ===== src/Probes/Hex.antt =====
-- src/probes/probe_engine.cpp, `decode_hex`.
pub mod Spelling
use service_port_scanner.Common.{
  ℕ, ◌+◌, ◌-◌, ◌*◌, ◌^◌, ◌%◌, bit_or, Bool, not, ◌&&◌, Bytes, Option, none, some, [], ◌∷◌, length,
  leb, ◌==◌, if◌then◌else◌, ◌>>=◌,
}

-- The lambda `nibble`; `none` is -1.
abbrev pub nibble : ℕ → Option ℕ
nibble c =
    if leb b'0' c && leb c b'9'
    then some (c - b'0')
    else if leb b'a' c && leb c b'f'
    then some (10 + c - b'a')
    else if leb b'A' c && leb c b'F'
    then some (10 + c - b'A')
    else none

-- The loop over the pairs.
unfoldable pub decode_pairs : Bytes → Option Bytes
decode_pairs [] = some []
decode_pairs (h ∷ []) = none
decode_pairs (h ∷ l ∷ s) = nibble h >>= λ hi.
    nibble l >>= λ lo. decode_pairs s >>= λ out. some (bit_or (hi * 2 ^ 4) lo % 2 ^ 8 ∷ out)

unfoldable pub decode_hex : Bytes → Option Bytes
unfolding decode_pairs
decode_hex hex = if not (length hex % 2 == 0) then none else decode_pairs hex
