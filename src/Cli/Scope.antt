-- ===== src/Cli/Scope.antt =====
-- src/cli/scope_guard.cpp: which targets may be scanned. Addresses are boost::asio's: their parser
-- and predicates are parameters.
pub mod Internal
use service_port_scanner.Common.{
  ℕ, Bool, true, false, ◌&&◌, ◌||◌, Option, none, some, Bytes, codes, ◌++◌, ◌∷◌, bit_and, leb, ◌==◌,
  if◌then◌else◌,
}

-- The two families of addresses.
pub data Address (V4 V6 : Type 0) : Type 0 where
  v4 : V4 → Address V4 V6
  v6 : V6 → Address V4 V6

-- `ip::address` of boost::asio. Bytes are counted from 0; `none` is a parse error.
pub record AddressLib : Type 1 where
  pub V4 : Type 0
  pub V6 : Type 0
  pub make_address : Bytes → Option (Address V4 V6)
  pub v4_byte : V4 → ℕ → ℕ
  pub v6_byte : V6 → ℕ → ℕ
  pub is_loopback_v4 : V4 → Bool
  pub is_unspecified_v4 : V4 → Bool
  pub is_loopback_v6 : V6 → Bool
  pub is_unspecified_v6 : V6 → Bool
  pub is_link_local : V6 → Bool
  pub is_site_local : V6 → Bool

pub data ScopeDecision : Type 0 where
  allowed denied_external_needs_consent denied_invalid_address : ScopeDecision

pub record ScopeOptions : Type 0 where
  pub explicit_consent : Bool

module _ (lib : AddressLib) where
  open lib use {V4, V6, v4_byte, v6_byte}

  unfoldable pub is_private_v4 : V4 → Bool
  is_private_v4 a =
      if lib.is_loopback_v4 a || lib.is_unspecified_v4 a
      then true
      else if v4_byte a 0 == 10
      then true
      else if v4_byte a 0 == 192 && v4_byte a 1 == 168
      then true
      else if v4_byte a 0 == 172 && leb 16 (v4_byte a 1) && leb (v4_byte a 1) 31
      then true
      else if v4_byte a 0 == 169 && v4_byte a 1 == 254
      then true
      else false

  unfoldable pub is_private_v6 : V6 → Bool
  is_private_v6 a =
      if lib.is_loopback_v6 a || lib.is_unspecified_v6 a
      then true
      else if lib.is_link_local a || lib.is_site_local a
      then true
      else bit_and (v6_byte a 0) 0xfe == 0xfc

  unfoldable pub is_internal : Address V4 V6 → Bool
  unfolding is_private_v4 is_private_v6
  is_internal (v4 a) = is_private_v4 a
  is_internal (v6 a) = is_private_v6 a

  unfoldable pub check_scope : Bytes → ScopeOptions → ScopeDecision
  unfolding is_internal
  check_scope target_ip opts = elim (lib.make_address target_ip) [
    | none ↦ denied_invalid_address
    | some addr ↦
        if is_internal addr
        then allowed
        else if opts.explicit_consent
        then allowed
        else denied_external_needs_consent
  ]

-- `describe`: the literals are UTF-8, and the dash is three bytes.
unfoldable pub describe : ScopeDecision → Bytes
describe allowed = codes "allowed"
describe denied_external_needs_consent =
    codes "external IP " ++ 0xe2 ∷ 0x80 ∷ 0x94 ∷ codes " pass --i-know-what-im-doing to proceed"
describe denied_invalid_address = codes "invalid address"
