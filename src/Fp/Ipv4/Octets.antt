-- ===== src/Fp/Ipv4/Octets.antt =====
-- One octet of a dotted address: the inner loop of `parse_ipv4` against decimal notation.
use mathlib.Core.Path.{subst}
use service_port_scanner.Common.{
  ℕ, ◌+◌, ◌-◌, ◌*◌, ◌≤◌, ◌≡◌, refl, true, false, some, [], ◌∷◌, ◌++◌, Bytes, is_digit, length, inl,
  inr, Bool-cases, arith, decimal_from, AreDigits, decimal_from-le,
}
use service_port_scanner.Fp.Ipv4.{read_octet}

-- No digit stands next.
abbrev pub EndsDigits : Bytes → Type 0
EndsDigits [] = Unit
EndsDigits (c ∷ s) = is_digit c ≡ false

-- `text` is one to three digits that spell `n`, which fits a byte.
pub record IsOctet (text : Bytes) (n : ℕ) : Type 0 where
  pub digits : AreDigits text
  pub some_digits : 1 ≤ length text
  pub three_digits : length text ≤ 3
  pub value : n ≡ decimal_from 0 text
  pub byte : n ≤ 255

-- What the loop leaves in its variables, and that it stops at the end of the digits.
pub record Read (s : Bytes) (octet digits : ℕ) (r : ℕ × ℕ × Bytes) : Type 0 where
  pub text : Bytes
  pub splits : s ≡ text ++ r.2
  pub text_digits : AreDigits text
  pub stops : EndsDigits r.2
  pub octet_eq : r.0 ≡ decimal_from octet text
  pub digits_eq : r.1 ≡ digits + length text
  pub octet_le : r.0 ≤ 255
  pub digits_le : r.1 ≤ 3

Read-cons :
    (c : ℕ) (s : Bytes) (octet digits : ℕ) {r : ℕ × ℕ × Bytes}
    → is_digit c ≡ true
    → Read s (octet * 10 + (c - b'0')) (digits + 1) r
    → Read (c ∷ s) octet digits r
Read-cons c s octet digits d h = record {
  text = c ∷ h.text;
  splits = cc (h.splits);
  text_digits = (d, h.text_digits);
  stops = h.stops;
  octet_eq = h.octet_eq;
  digits_eq = omega (arith, h.digits_eq);
  octet_le = h.octet_le;
  digits_le = h.digits_le;
}

Read-stop :
    (s : Bytes) (octet digits : ℕ) {r : ℕ × ℕ × Bytes}
    → (octet, digits, s) ≡ r
    → EndsDigits s
    → octet ≤ 255
    → digits ≤ 3
    → Read s octet digits r
Read-stop s octet digits e stops o d = subst (Read s octet digits) e (record {
  text = [];
  splits = refl;
  text_digits = tt;
  stops = stops;
  octet_eq = refl;
  digits_eq = omega arith;
  octet_le = o;
  digits_le = d;
})

-- A digit is taken only if the octet stays a byte of at most three digits.
read_octet_digit :
    (c : ℕ) (s : Bytes) (octet digits : ℕ) {r : ℕ × ℕ × Bytes}
    → octet ≤ 255
    → is_digit c ≡ true
    → read_octet (c ∷ s) octet digits ≡ some r
    → (octet * 10 + (c - b'0') ≤ 255)
      × (digits + 1 ≤ 3)
      × (read_octet s (octet * 10 + (c - b'0')) (digits + 1) ≡ some r)
unfolding read_octet
read_octet_digit c s octet digits o digit h = ground arith

pub read_octet-Read :
    (s : Bytes) (octet digits : ℕ) {r : ℕ × ℕ × Bytes}
    → octet ≤ 255
    → digits ≤ 3
    → read_octet s octet digits ≡ some r
    → Read s octet digits r
unfolding read_octet
read_octet-Read [] octet digits o d h = Read-stop [] octet digits (ground arith) tt o d
read_octet-Read (c ∷ s) octet digits o d h = elim (Bool-cases (is_digit c)) [
  | inl digit ↦
      let (o', d', h') = read_octet_digit c s octet digits o digit h in
      Read-cons c s octet digits digit
        (read_octet-Read s (octet * 10 + (c - b'0')) (digits + 1) o' d' h')
  | inr other ↦ Read-stop (c ∷ s) octet digits (ground arith) other o d
]

-- The loop reads any digits that spell a byte, up to what is no digit.
pub read_octet-append :
    (t rest : Bytes) (octet digits : ℕ)
    → AreDigits t
    → EndsDigits rest
    → digits + length t ≤ 3
    → decimal_from octet t ≤ 255
    → read_octet (t ++ rest) octet digits ≡ some (decimal_from octet t, digits + length t, rest)
unfolding read_octet
read_octet-append [] [] octet digits a e l v = ground arith
read_octet-append [] (c ∷ rest) octet digits a e l v = ground arith
read_octet-append (c ∷ t) rest octet digits a e l v = ground (
  arith,
  decimal_from-le (octet * 10 + (c - b'0')) t,
  read_octet-append t rest (octet * 10 + (c - b'0')) (digits + 1) a.1 e,
)
