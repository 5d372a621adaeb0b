-- ===== src/Probes/Hex/Spelling.antt =====
-- `decode_hex` takes exactly the texts that spell bytes in hexadecimal.
use mathlib.Core.Option.{some-injective}
use mathlib.Core.Path.{subst}
use service_port_scanner.Common.Bits.{bit_or_join}
use service_port_scanner.Common.{
  ℕ, ◌+◌, ◌-◌, ◌*◌, ◌/◌, ◌^◌, ◌%◌, ◌<◌, ◌≤◌, ◌≡◌, refl, ◌↔◌, ◌⊎◌, bit_or, Bytes, some, [], ◌∷◌,
  length, >>=-eq-some, arith,
}
use service_port_scanner.Probes.Hex.{nibble, decode_pairs, decode_hex}

-- A hexadecimal digit of either case and its value.
abbrev pub IsNibble : ℕ → ℕ → Type 0
IsNibble c n =
    ((n < 10) × (c ≡ b'0' + n))
    ⊎ ((10 ≤ n) × (n < 16) × ((c ≡ b'a' + (n - 10)) ⊎ (c ≡ b'A' + (n - 10))))

-- Two digits for a byte, the high one first.
abbrev pub IsHex : Bytes → Bytes → Type 0
IsHex [] [] = Unit
IsHex (h ∷ l ∷ s) (b ∷ out) = (b < 256) × IsNibble h (b / 16) × IsNibble l (b % 16) × IsHex s out
IsHex _ _ = ⊥

nibble_iff : (c n : ℕ) → (nibble c ≡ some n) ↔ IsNibble c n
nibble_iff c n = ground arith

nibble-lt : (c : ℕ) {n : ℕ} → nibble c ≡ some n → n < 16
nibble-lt c h = ground arith

join_nibbles : (hi lo : ℕ) → hi < 16 → lo < 16 → bit_or (hi * 2 ^ 4) lo % 2 ^ 8 ≡ hi * 16 + lo
join_nibbles hi lo h l = ground (arith, bit_or_join 4 hi lo)

decode_pairs_complete : (s out : Bytes) → IsHex s out → decode_pairs s ≡ some out
unfolding decode_pairs
decode_pairs_complete [] [] h = refl
decode_pairs_complete [] (b ∷ out) h = absurd h
decode_pairs_complete (c ∷ []) [] h = absurd h
decode_pairs_complete (c ∷ []) (b ∷ out) h = absurd h
decode_pairs_complete (c ∷ d ∷ s) [] h = absurd h
decode_pairs_complete (c ∷ d ∷ s) (b ∷ out) (fits, hi, lo, h) =
    let sum : b / 16 * 16 + b % 16 ≡ b = omega arith in
    rw
      (
        (nibble_iff c (b / 16)).1 hi,
        (nibble_iff d (b % 16)).1 lo,
        decode_pairs_complete s out h,
        join_nibbles (b / 16) (b % 16) (omega arith) (omega arith),
        sum,
      )
      refl

cons_IsHex :
    (c d hi lo : ℕ) (s rest out : Bytes)
    → nibble c ≡ some hi
    → nibble d ≡ some lo
    → IsHex s rest
    → some (bit_or (hi * 2 ^ 4) lo % 2 ^ 8 ∷ rest) ≡ some out
    → IsHex (c ∷ d ∷ s) out
cons_IsHex c d hi lo s rest out h l t e =
    let h' = nibble-lt c h in
    let l' = nibble-lt d l in
    let high : (hi * 16 + lo) / 16 ≡ hi = omega arith in
    let low : (hi * 16 + lo) % 16 ≡ lo = omega arith in
    subst (IsHex (c ∷ d ∷ s)) (some-injective _ _ e) (
      rw (join_nibbles hi lo h' l', high, low)
        (omega arith, (nibble_iff c hi).0 h, (nibble_iff d lo).0 l, t))

decode_pairs_sound : (s : Bytes) {out : Bytes} → decode_pairs s ≡ some out → IsHex s out
unfolding decode_pairs
decode_pairs_sound [] h = subst (IsHex []) (some-injective _ _ h) tt
decode_pairs_sound (c ∷ []) h = cc
decode_pairs_sound (c ∷ d ∷ s) {out} h =
    let (hi, eh, h1) = >>=-eq-some (nibble c) _ h in
    let (lo, el, h2) = >>=-eq-some (nibble d) _ h1 in
    let (rest, er, h3) = >>=-eq-some (decode_pairs s) _ h2 in
    cons_IsHex c d hi lo s rest out eh el (decode_pairs_sound s er) h3

even_IsHex : (s out : Bytes) → IsHex s out → length s % 2 ≡ 0
even_IsHex [] [] h = omega arith
even_IsHex [] (b ∷ out) h = absurd h
even_IsHex (c ∷ []) [] h = absurd h
even_IsHex (c ∷ []) (b ∷ out) h = absurd h
even_IsHex (c ∷ d ∷ s) [] h = absurd h
even_IsHex (c ∷ d ∷ s) (b ∷ out) h = omega (arith, even_IsHex s out h.3)

-- `decode_hex` gives bytes exactly where the text spells them, two digits of either case for each
-- byte, and fails on every other text.
pub decode_hex_iff : (s out : Bytes) → (decode_hex s ≡ some out) ↔ IsHex s out
unfolding decode_hex
decode_hex_iff s out = (
  λ h. decode_pairs_sound s (ground arith),
  λ h. ground (arith, even_IsHex s out h, decode_pairs_complete s out h),
)
