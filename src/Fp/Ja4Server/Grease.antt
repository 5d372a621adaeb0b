-- ===== src/Fp/Ja4Server/Grease.antt =====
-- `is_grease` against the values that RFC 8701 reserves.
use service_port_scanner.Common.Bits.{bit_and_low}
use service_port_scanner.Common.{ℕ, ◌+◌, ◌*◌, ◌/◌, ◌%◌, ◌<◌, ◌≡◌, ◌↔◌, true, arith}
use service_port_scanner.Fp.Ja4Server.{is_grease}

-- 0x0a0a, 0x1a1a, and so on up to 0xfafa.
abbrev pub IsGrease : ℕ → Type 0
IsGrease v = (k : ℕ) × (k < 16) × (v ≡ 0x0a0a + k * 0x1010)

is_grease-IsGrease : (v : ℕ) → v < 65536 → is_grease v ≡ true → IsGrease v
unfolding is_grease
is_grease-IsGrease v l h = (
  v / 0x1010,
  ground (arith, bit_and_low 8 v, bit_and_low 4 (v % 256)),
  ground (arith, bit_and_low 8 v, bit_and_low 4 (v % 256)),
)

IsGrease-is_grease : (v : ℕ) → IsGrease v → is_grease v ≡ true
unfolding is_grease
IsGrease-is_grease v (k, l, e) = ground (arith, bit_and_low 8 v, bit_and_low 4 (v % 256))

-- Of the 16-bit values, `is_grease` holds of exactly the sixteen reserved ones.
is_grease_iff : (v : ℕ) → v < 65536 → (is_grease v ≡ true) ↔ IsGrease v
is_grease_iff v h = (is_grease-IsGrease v h, IsGrease-is_grease v)
