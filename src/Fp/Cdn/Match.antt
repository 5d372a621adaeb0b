-- ===== src/Fp/Cdn/Match.antt =====
-- `CdnDatabase::lookup` against blocks of addresses in arithmetic.
use native.Mathlib.Nat.{le_antisymm, le_of_mul-le-mul_right, one-le-pow}
use service_port_scanner.Common.{
  ℕ, ◌/◌, ◌*◌, ◌^◌, ◌-◌, ◌<◌, ◌≡◌, refl, ap, ◌↔◌, ◌⊎◌, List, [], ◌∷◌, Bytes, All, true, arith,
  Bool-cases, Option-cases, inl, inr,
}
use service_port_scanner.Fp.Cdn.Loading.{IsRange}
use service_port_scanner.Fp.Cdn.{Range, CdnDatabase, matches, first_match, lookup}
use service_port_scanner.Fp.Ipv4.Dotted.{IsDotted, parse_ipv4_iff}
use service_port_scanner.Fp.Ipv4.Masks.{bit_and-mask_of, mask_of_unique, parse_ipv4-lt}
use service_port_scanner.Fp.Ipv4.{parse_ipv4}

-- The address and the network of a block agree above its prefix length.
abbrev pub InBlock : ℕ → (r : Range) → IsRange r → Type 0
InBlock addr r i = addr / 2 ^ (32 - i.block.prefix) ≡ i.block.network / 2 ^ (32 - i.block.prefix)

scaled_iff : (a b k : ℕ) → (a * 2 ^ k ≡ b * 2 ^ k) ↔ (a ≡ b)
scaled_iff a b k = (
  λ e.
      le_antisymm (le_of_mul-le-mul_right {k = 2 ^ k} (omega arith) (one-le-pow k 2 (omega arith)))
        (le_of_mul-le-mul_right {k = 2 ^ k} (omega arith) (one-le-pow k 2 (omega arith))),
  λ e. ap (λ (t : ℕ). t * 2 ^ k) e,
)

-- The test of the loop is membership in the block.
pub matches-InBlock :
    (addr : ℕ) (r : Range) (i : IsRange r)
    → addr < 2 ^ 32
    → (matches addr r ≡ true) ↔ InBlock addr r i
unfolding matches
matches-InBlock addr r i h = ground (
  arith,
  mask_of_unique i.block.prefix r.mask i.block.prefix_le i.block.mask_ones,
  bit_and-mask_of i.block.prefix addr i.block.prefix_le h,
  scaled_iff (addr / 2 ^ (32 - i.block.prefix)) (i.block.network / 2 ^ (32 - i.block.prefix))
      (32 - i.block.prefix),
)

-- `provider` is that of the first block that holds the address, or empty where none does.
abbrev pub FirstOf : ℕ → (rs : List Range) → All IsRange rs → Bytes → Type 0
FirstOf addr [] i provider = provider ≡ []
FirstOf addr (r ∷ rs) (i, is) provider =
    (InBlock addr r i × (provider ≡ r.provider))
    ⊎ (¬ InBlock addr r i × FirstOf addr rs is provider)

first_match-FirstOf :
    (addr : ℕ) (rs : List Range) (is : All IsRange rs)
    → addr < 2 ^ 32
    → FirstOf addr rs is (first_match addr rs)
unfolding first_match
first_match-FirstOf addr [] is h = refl
first_match-FirstOf addr (r ∷ rs) (i, is) h = elim (Bool-cases (matches addr r)) [
  | inl hit ↦ inl ((matches-InBlock addr r i h).0 hit, rw hit)
  | inr miss ↦ inr (
    λ held. cc (miss, (matches-InBlock addr r i h).1 held),
    rw miss (first_match-FirstOf addr rs is h),
  )
]

-- What a lookup of a text gives.
pub data LooksUp (rs : List Range) (is : All IsRange rs) (text provider : Bytes) : Type 0 where
  dotted :
      (addr : ℕ) → IsDotted text addr → FirstOf addr rs is provider → LooksUp rs is text provider
  not_dotted : ((addr : ℕ) → ¬ IsDotted text addr) → provider ≡ [] → LooksUp rs is text provider

-- Over well-formed ranges, the lookup of a dotted address gives the provider of the first block
-- that holds it, or the empty text where none does; of any other text it gives the empty text.
pub lookup-LooksUp :
    (db : CdnDatabase) (is : All IsRange db.ranges) (ipv4 : Bytes)
    → LooksUp db.ranges is ipv4 (lookup db ipv4)
unfolding lookup
lookup-LooksUp db is ipv4 = elim (Option-cases (parse_ipv4 ipv4)) [
  | inl e ↦ not_dotted (λ addr d. cc (e, (parse_ipv4_iff ipv4 addr).1 d)) (rw (e, lookup))
  | inr (addr, e) ↦
      dotted addr ((parse_ipv4_iff ipv4 addr).0 e)
        (rw (e, lookup) (first_match-FirstOf addr db.ranges is (parse_ipv4-lt ipv4 e)))
]
