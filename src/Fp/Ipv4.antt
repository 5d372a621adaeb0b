-- ===== src/Fp/Ipv4.antt =====
-- src/fp/cdn_lookup.cpp: `parse_ipv4` and `parse_cidr`. The index `i` into the text is the text
-- that is left; `out`, `base` and `mask` are results, and `return false` is `none`.
pub mod Octets
pub mod Dotted
pub mod Masks
use service_port_scanner.Common.Split.{split_at}
use service_port_scanner.Common.{
  ℕ, zero, suc, ◌+◌, ◌-◌, ◌*◌, ◌/◌, ◌%◌, ◌^◌, bit_and, bit_or, Bool, true, not, ◌&&◌, ◌||◌, Option,
  none, some, List, [], ◌∷◌, Bytes, is_digit, is_empty, length, ltb, ◌==◌, if◌then◌else◌, guard,
  ◌>>=◌, ◌>>◌,
}

-- A value kept in a `std::uint32_t`.
abbrev pub u32 : ℕ → ℕ
u32 n = n % 2 ^ 32

-- The inner loop: the octet so far, the digits read, and the text that is left.
unfoldable pub read_octet : Bytes → ℕ → ℕ → Option (ℕ × ℕ × Bytes)
read_octet [] octet digits = some (octet, digits, [])
read_octet (c ∷ s) octet digits =
    let octet' = u32 (octet * 10 + (c - b'0')) in
    let digits' = digits + 1 in
    let rest = if ltb 3 digits' || ltb 255 octet' then none else read_octet s octet' digits' in
    if is_digit c then rest else some (octet, digits, c ∷ s)

-- `if (parts < 4)`: a dot stands between two parts, and none behind the last.
unfoldable pub expect_dot : ℕ → Bytes → Option Bytes
expect_dot zero s = some s
expect_dot (suc left) [] = none
expect_dot (suc left) (c ∷ s) = if c == b'.' then some s else none

-- The outer loop, on the parts that are left to read: it stops at the end of the text too, and
-- then there are fewer than four parts.
unfoldable pub read_parts : ℕ → Bytes → ℕ → Option (ℕ × Bytes)
unfolding read_octet expect_dot
read_parts zero s v = some (v, s)
read_parts (suc left) [] v = none
read_parts (suc left) (c ∷ s) v = do
  (octet, digits, rest) ← read_octet (c ∷ s) 0 0
  guard (not (digits == 0))
  next ← expect_dot left rest
  read_parts left next (bit_or (u32 (v * 2 ^ 8)) octet)

unfoldable pub parse_ipv4 : Bytes → Option ℕ
unfolding read_parts
parse_ipv4 s = do (v, rest) ← read_parts 4 s 0; guard (is_empty rest); some v

-- The loop over the prefix length's digits.
unfoldable pub read_prefix : Bytes → ℕ → Option ℕ
read_prefix [] prefix = some prefix
read_prefix (c ∷ s) prefix =
    let rest = read_prefix s (prefix * 10 + (c - b'0')) in if is_digit c then rest else none

-- `~0u << (32 - prefix)` in 32 bits, and 0 for the prefix 0.
unfoldable pub mask_of : ℕ → ℕ
mask_of prefix = if prefix == 0 then 0 else u32 ((2 ^ 32 - 1) * 2 ^ (32 - prefix))

-- The rest of `parse_cidr` behind the address: the base, masked, and the mask.
unfoldable pub block_of : ℕ → Bytes → Option (ℕ × ℕ)
unfolding read_prefix mask_of
block_of base prefix_str = do
  guard (not (is_empty prefix_str || ltb 2 (length prefix_str)))
  prefix ← read_prefix prefix_str 0
  guard (not (ltb 32 prefix))
  some (bit_and base (mask_of prefix), mask_of prefix)

unfoldable pub parse_cidr : Bytes → Option (ℕ × ℕ)
unfolding parse_ipv4 split_at block_of
parse_cidr s = do
  (address, prefix_str) ← split_at b'/' s
  base ← parse_ipv4 address
  block_of base prefix_str
