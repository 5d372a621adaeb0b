-- ===== src/Cli/Scope/Internal.antt =====
-- The scope guard against the address blocks that it stands for, written as CIDR arithmetic.
use service_port_scanner.Common.{
  ℕ, ◌+◌, ◌-◌, ◌*◌, ◌/◌, ◌^◌, ◌<◌, ◌≡◌, ◌↔◌, ◌⊎◌, inl, inr, Bool, true, false, Option, none, some,
  Bytes, arith, Option-cases,
}
use service_port_scanner.Common.Bits.{bit_and_mask}
use service_port_scanner.Cli.Scope.{
  AddressLib, Address, v4, v6, ScopeDecision, ScopeOptions, allowed, denied_external_needs_consent,
  denied_invalid_address, is_private_v4, is_private_v6, is_internal, check_scope,
}

-- The number `address` lies in the block of `network` with this prefix length, of `width` bits.
abbrev pub InBlock : ℕ → ℕ → ℕ → ℕ → Type 0
InBlock width network prefix address =
    address / 2 ^ (width - prefix) ≡ network / 2 ^ (width - prefix)

module _ (lib : AddressLib) where
  open lib use {V4, V6, v4_byte, v6_byte}

  -- An IPv4 address as a number.
  abbrev pub v4_number : V4 → ℕ
  v4_number a = ((v4_byte a 0 * 256 + v4_byte a 1) * 256 + v4_byte a 2) * 256 + v4_byte a 3

  -- The first two bytes of an IPv6 address as a number.
  abbrev pub v6_head : V6 → ℕ
  v6_head a = v6_byte a 0 * 256 + v6_byte a 1

  -- All bytes of an IPv6 address are zero but the last.
  abbrev pub LastByteIs : ℕ → V6 → Type 0
  LastByteIs n a = ((i : ℕ) → i < 15 → v6_byte a i ≡ 0) × (v6_byte a 15 ≡ n)

  -- What the documentation of boost::asio says of these calls.
  pub record IsDocumented : Type 0 where
    pub v4_byte_lt : (a : V4) (i : ℕ) → v4_byte a i < 256
    pub v6_byte_lt : (a : V6) (i : ℕ) → v6_byte a i < 256
    pub loopback_v4 : (a : V4) → (lib.is_loopback_v4 a ≡ true) ↔ (v4_byte a 0 ≡ 127)
    pub unspecified_v4 : (a : V4) → (lib.is_unspecified_v4 a ≡ true) ↔ (v4_number a ≡ 0)
    pub loopback_v6 : (a : V6) → (lib.is_loopback_v6 a ≡ true) ↔ LastByteIs 1 a
    pub unspecified_v6 : (a : V6) → (lib.is_unspecified_v6 a ≡ true) ↔ LastByteIs 0 a
    pub link_local : (a : V6) → (lib.is_link_local a ≡ true) ↔ InBlock 16 0xfe80 10 (v6_head a)
    pub site_local : (a : V6) → (lib.is_site_local a ≡ true) ↔ InBlock 16 0xfec0 10 (v6_head a)

  -- 127/8, the address 0, 10/8, 192.168/16, 172.16/12 and 169.254/16; and for IPv6 the addresses
  -- 1 and 0, fe80::/10, fec0::/10 and fc00::/7.
  abbrev pub InternalAddress : Address V4 V6 → Type 0
  InternalAddress (v4 a) =
      InBlock 32 0x7f000000 8 (v4_number a)
      ⊎ InBlock 32 0 32 (v4_number a)
      ⊎ InBlock 32 0x0a000000 8 (v4_number a)
      ⊎ InBlock 32 0xc0a80000 16 (v4_number a)
      ⊎ InBlock 32 0xac100000 12 (v4_number a)
      ⊎ InBlock 32 0xa9fe0000 16 (v4_number a)
  InternalAddress (v6 a) =
      LastByteIs 1 a
      ⊎ LastByteIs 0 a
      ⊎ InBlock 16 0xfe80 10 (v6_head a)
      ⊎ InBlock 16 0xfec0 10 (v6_head a)
      ⊎ InBlock 16 0xfc00 7 (v6_head a)

  -- The decision for a target: what is internal is free, and the rest needs consent.
  abbrev pub Decides : Option (Address V4 V6) → Bool → ScopeDecision → Type 0
  Decides none consent d = d ≡ denied_invalid_address
  Decides (some a) consent d =
      (InternalAddress a × (d ≡ allowed))
      ⊎ (¬ InternalAddress a × (consent ≡ true) × (d ≡ allowed))
      ⊎ (¬ InternalAddress a × (consent ≡ false) × (d ≡ denied_external_needs_consent))

  module _ (doc : IsDocumented) where
    is_private_v4_iff : (a : V4) → (is_private_v4 lib a ≡ true) ↔ InternalAddress (v4 a)
    unfolding is_private_v4
    is_private_v4_iff a = ground (
      arith,
      doc.v4_byte_lt a 0,
      doc.v4_byte_lt a 1,
      doc.v4_byte_lt a 2,
      doc.v4_byte_lt a 3,
      doc.loopback_v4 a,
      doc.unspecified_v4 a,
    )

    is_private_v6_iff : (a : V6) → (is_private_v6 lib a ≡ true) ↔ InternalAddress (v6 a)
    unfolding is_private_v6
    is_private_v6_iff a = ground (
      arith,
      doc.v6_byte_lt a 0,
      doc.v6_byte_lt a 1,
      doc.loopback_v6 a,
      doc.unspecified_v6 a,
      doc.link_local a,
      doc.site_local a,
      bit_and_mask 1 7 (v6_byte a 0),
    )

    is_internal_iff : (a : Address V4 V6) → (is_internal lib a ≡ true) ↔ InternalAddress a
    unfolding is_internal
    is_internal_iff (v4 a) = is_private_v4_iff a
    is_internal_iff (v6 a) = is_private_v6_iff a

    -- With the documented behaviour of boost::asio, `check_scope` denies what is no address; it
    -- allows an address of the internal blocks always, and any other exactly with consent.
    pub check_scope-Decides :
        (target_ip : Bytes) (opts : ScopeOptions)
        → Decides
            (lib.make_address target_ip)
            opts.explicit_consent
            (check_scope lib target_ip opts)
    unfolding check_scope
    check_scope-Decides target_ip opts = elim (Option-cases (lib.make_address target_ip)) [
      | inl e ↦ rw (e, check_scope)
      | inr (a, e) ↦ rw (e, check_scope) (ground (arith, is_internal_iff a))
    ]
