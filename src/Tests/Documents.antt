-- ===== src/Tests/Documents.antt =====
-- Concrete libraries for the tests: JSON documents, expressions that match a prefix, and addresses.
use service_port_scanner.Json.{ℤ, JsonLib}
use service_port_scanner.Probes.Regex.{RegexLib}
use service_port_scanner.Cli.Scope.{AddressLib, Address, v4, v6}
use service_port_scanner.Cli.Scope.Internal.{IsDocumented}
use service_port_scanner.Fp.Ipv4.{parse_ipv4}
use service_port_scanner.Core.Floats.{FloatLib, IsOrdered}
use service_port_scanner.Common.{
  ◌≡◌, leb, ltb, all, is_digit, decimal_from, ℕ, ◌+◌, ◌-◌, ◌*◌, ◌/◌, ◌%◌, ◌^◌, refl, true, false,
  Bytes, codes, bytes_eq, Option, none, some, List, [], ◌∷◌, length, take, drop, ◌==◌, ◌>>=◌,
  if◌then◌else◌, arith,
}

-- A JSON value: an array ends in `nil`, and so does an object.
pub data Doc : Type 0 where
  text : Bytes → Doc
  number : ℕ → Doc
  nil : Doc
  item : Doc → Doc → Doc
  field : Bytes → Doc → Doc → Doc

unfoldable pub doc_member : Doc → Bytes → Option Doc
unfolding bytes_eq
doc_member (Doc.field name value rest) key =
    let later = doc_member rest key in if bytes_eq name key then some value else later
doc_member _ key = none

abbrev pub doc_text : Doc → Option Bytes
doc_text (Doc.text s) = some s
doc_text _ = none

abbrev pub doc_number : Doc → Option ℕ
doc_number (Doc.number n) = some n
doc_number _ = none

abbrev pub doc_items : Doc → Option (List Doc)
doc_items Doc.nil = some []
doc_items (Doc.item d rest) = doc_items rest >>= λ ds. some (d ∷ ds)
doc_items _ = none

abbrev pub doc_fields : Doc → Option (List (Bytes × Doc))
doc_fields Doc.nil = some []
doc_fields (Doc.field name d rest) = doc_fields rest >>= λ ds. some ((name, d) ∷ ds)
doc_fields _ = none

-- The library that reads one document from every text that is not empty.
abbrev pub json_of : Doc → JsonLib
json_of doc = record {
  Value = Doc;
  parse = λ s. elim s [ [] ↦ none | (c ∷ s) ↦ some doc ];
  member = doc_member;
  as_string = doc_text;
  as_array = doc_items;
  as_unsigned = doc_number;
  as_int = λ d. doc_number d >>= λ n. some (ℤ.pos n);
  as_object = doc_fields;
}

-- Expressions that are a prefix of the text, with the rest of it as a group.
unfoldable pub prefix_search : Bytes → Bytes → Option (List Bytes)
unfolding bytes_eq
prefix_search s p =
    if bytes_eq (take (length p) s) p then some (s ∷ drop (length p) s ∷ []) else none

abbrev pub prefixes : RegexLib
prefixes = record {
  Regex = Bytes;
  compile = λ p. elim p [ [] ↦ none | (c ∷ p) ↦ some (c ∷ p) ];
  search = prefix_search;
}

-- IPv4 addresses as numbers, and of IPv6 the address 0.
abbrev pub v4_byte : ℕ → ℕ → ℕ
v4_byte a i = a / 256 ^ (3 - i) % 256

unfoldable pub make_address : Bytes → Option (Address ℕ (Unit {0}))
unfolding parse_ipv4 bytes_eq
make_address s =
    if bytes_eq s (codes "::") then some (v6 tt) else (parse_ipv4 s >>= λ a. some (v4 a))

abbrev pub addresses : AddressLib
addresses = record {
  V4 = ℕ;
  V6 = Unit {0};
  make_address = make_address;
  v4_byte = v4_byte;
  v6_byte = λ a i. 0;
  is_loopback_v4 = λ a. v4_byte a 0 == 127;
  is_unspecified_v4 =
      λ a. ((v4_byte a 0 * 256 + v4_byte a 1) * 256 + v4_byte a 2) * 256 + v4_byte a 3 == 0;
  is_loopback_v6 = λ a. false;
  is_unspecified_v6 = λ a. true;
  is_link_local = λ a. false;
  is_site_local = λ a. false;
}

pub addresses-IsDocumented : IsDocumented addresses
addresses-IsDocumented = record {
  v4_byte_lt = λ a i. omega arith;
  v6_byte_lt = λ a i. omega arith;
  loopback_v4 = λ a. ground arith;
  unspecified_v4 = λ a. ground arith;
  loopback_v6 = λ a. ground arith;
  unspecified_v6 = λ a. (λ _. (λ i h. refl, refl), λ _. refl);
  link_local = λ a. ground arith;
  site_local = λ a. ground arith;
}

-- Whole numbers in place of floating point.
abbrev pub whole_numbers : FloatLib
whole_numbers = record {
  Float = ℕ;
  Double = ℕ;
  float_zero = 0;
  float = λ n. n;
  double = λ n. n;
  decimal = λ n k. n / 10 ^ k;
  widen = λ n. n;
  narrow = λ n. n;
  times = ◌*◌;
  float_gt = λ a b. ltb b a;
  float_ge = λ a b. leb b a;
  gt = λ a b. ltb b a;
  ge = λ a b. leb b a;
}

pub whole_numbers-IsOrdered : IsOrdered whole_numbers
whole_numbers-IsOrdered = record {
  gt_keeps = λ a m n h k. ground arith;
  gt_irreflexive = λ a. ground arith;
  float_gt_keeps = λ a m n h k. ground arith;
  float_gt_irreflexive = λ a. ground arith;
  ge_trans = λ a b c h k. ground arith;
  ge_gt_trans = λ a b c h k. ground arith;
}

-- A number in digits alone.
unfoldable pub digits_number : Bytes → Option ℕ
digits_number s = if all is_digit s then some (decimal_from 0 s) else none

-- A digest of 32 bytes: the length of the text and zeros.
abbrev pub weak_digest : Bytes → Option Bytes
weak_digest s = some (
    length s % 256
    ∷ 0
    ∷ 0
    ∷ 0
    ∷ 0
    ∷ 0
    ∷ 0
    ∷ 0
    ∷ 0
    ∷ 0
    ∷ 0
    ∷ 0
    ∷ 0
    ∷ 0
    ∷ 0
    ∷ 0
    ∷ 0
    ∷ 0
    ∷ 0
    ∷ 0
    ∷ 0
    ∷ 0
    ∷ 0
    ∷ 0
    ∷ 0
    ∷ 0
    ∷ 0
    ∷ 0
    ∷ 0
    ∷ 0
    ∷ 0
    ∷ 0
    ∷ [])

pub length-weak_digest :
    (s : Bytes) → (bytes : Bytes) × (weak_digest s ≡ some bytes) × (length bytes ≡ 32)
length-weak_digest s = (_, refl, refl)
