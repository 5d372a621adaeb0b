-- ===== src/Cli/Ports/Numbers.antt =====
-- `parse_uint16` against decimal notation.
use service_port_scanner.Common.{
  ℕ, ◌+◌, ◌-◌, ◌*◌, ◌≤◌, ◌≡◌, refl, ◌↔◌, true, some, [], ◌∷◌, Bytes, is_empty, length, AreDigits,
  decimal_from, arith,
}
use service_port_scanner.Cli.Ports.{scan_digits, as_int, from_chars, parse_uint16}

-- Decimal digits that spell a port number; zeros may stand in front.
pub record IsPort (text : Bytes) (n : ℕ) : Type 0 where
  pub digits : AreDigits text
  pub some_digits : 1 ≤ length text
  pub value : n ≡ decimal_from 0 text
  pub lower : 1 ≤ n
  pub upper : n ≤ 65535

-- A scan that reaches the end has read digits alone, and digits are read to the end.
scan_digits_end :
    (s : Bytes) (v n : ℕ)
    → is_empty (scan_digits s v n).2 ≡ true
    → AreDigits s
      × ((scan_digits s v n).0 ≡ decimal_from v s)
      × ((scan_digits s v n).1 ≡ n + length s)
unfolding scan_digits
scan_digits_end [] v n h = (tt, refl, omega arith)
scan_digits_end (c ∷ s) v n h = ground (arith, scan_digits_end s (v * 10 + (c - b'0')) (n + 1))

scan_digits-AreDigits :
    (s : Bytes) (v n : ℕ) → AreDigits s → scan_digits s v n ≡ (decimal_from v s, n + length s, [])
unfolding scan_digits
scan_digits-AreDigits [] v n h = ground arith
scan_digits-AreDigits (c ∷ s) v n h =
    ground (arith, scan_digits-AreDigits s (v * 10 + (c - b'0')) (n + 1) h.1)

parse_uint16-IsPort : (s : Bytes) {n : ℕ} → parse_uint16 s ≡ some n → IsPort s n
unfolding parse_uint16 from_chars as_int
parse_uint16-IsPort [] h = cc
parse_uint16-IsPort (c ∷ s) h = ground (arith, scan_digits_end (c ∷ s) 0 0)

IsPort-parse_uint16 : (s : Bytes) {n : ℕ} → IsPort s n → parse_uint16 s ≡ some n
unfolding parse_uint16 from_chars as_int
IsPort-parse_uint16 [] i = absurd (omega (arith, i.some_digits))
IsPort-parse_uint16 (c ∷ s) i = ground (arith, scan_digits-AreDigits (c ∷ s) 0 0 i.digits)

-- The texts that `parse_uint16` accepts are the decimal numbers from 1 to 65535.
pub parse_uint16_iff : (s : Bytes) (n : ℕ) → (parse_uint16 s ≡ some n) ↔ IsPort s n
parse_uint16_iff s n = (parse_uint16-IsPort s, IsPort-parse_uint16 s)
