-- ===== src/Fp/Ipv4/Masks.antt =====
-- `parse_cidr` against a description of CIDR blocks in arithmetic: no `&` and no shift.
use native.Mathlib.Nat.{pow-suc, mul-le-mul_right, le_trans}
use service_port_scanner.Common.{
  ℕ, suc, ◌+◌, ◌-◌, ◌*◌, ◌/◌, ◌^◌, ◌≤◌, ◌<◌, ◌≡◌, refl, ap, ◌↔◌, bit_and, some, List, [], ◌∷◌, ◌++◌,
  Bytes, length, true, false, ◌==◌, ◌&&◌, >>=-eq-some, arith, is_digit, holds_below, AreDigits,
  decimal_from, holds_below_sound, Bool, Option-cases, inl, inr, All-append, All-map,
}
use service_port_scanner.Common.Split.{split_at, split_at-eq, split_at-append, Lacks}
use service_port_scanner.Common.Bits.{bit_and_mask}
use service_port_scanner.Fp.Ipv4.Dotted.{IsDotted, Spells, value_from, parse_ipv4_iff}
use service_port_scanner.Fp.Ipv4.{read_prefix, mask_of, block_of, parse_ipv4, parse_cidr}

abbrev mask_facts : ℕ → Bool
mask_facts p =
    mask_of p == (2 ^ p - 1) * 2 ^ (32 - p)
    && 2 ^ p * 2 ^ (32 - p) == 2 ^ 32
    && mask_of p + 2 ^ (32 - p) == 2 ^ 32

mask_table : holds_below 33 mask_facts ≡ true
unfolding mask_of
mask_table = refl

-- The first `p` of 32 bits are set.
mask_of-ones :
    (p : ℕ)
    → p ≤ 32
    → (mask_of p ≡ (2 ^ p - 1) * 2 ^ (32 - p))
      × (2 ^ p * 2 ^ (32 - p) ≡ 2 ^ 32)
      × (mask_of p + 2 ^ (32 - p) ≡ 2 ^ 32)
mask_of-ones p h = ground (arith, holds_below_sound 33 mask_facts p mask_table)

-- Masking clears the low bits of a word.
pub bit_and-mask_of :
    (p a : ℕ) → p ≤ 32 → a < 2 ^ 32 → bit_and a (mask_of p) ≡ a / 2 ^ (32 - p) * 2 ^ (32 - p)
bit_and-mask_of p a h l =
    let (e, f, _) = mask_of-ones p h in rw e (bit_and_mask (32 - p) p a (rw f l))

widen : (v n k : ℕ) → n ≤ 255 → (v * 256 + n + 1) * 256 ^ k ≤ (v + 1) * 256 ^ suc k
widen v n k h = omega (
  arith,
  ap (λ (t : ℕ). (v + 1) * t) (pow-suc 256 k),
  mul-le-mul_right {m = v * 256 + n + 1} {n = (v + 1) * 256} (256 ^ k) (omega arith),
)

value_from-lt :
    (ns : List ℕ) (s rest : Bytes) (v : ℕ)
    → Spells ns s rest
    → value_from v ns + 1 ≤ (v + 1) * 256 ^ length ns
value_from-lt [] s rest v sp = omega arith
value_from-lt (n ∷ []) s rest v (t, e, o, stops) = omega (arith, o.byte)
value_from-lt (n ∷ m ∷ ns) s rest v (t, r, e, o, sp) =
    le_trans (value_from-lt (m ∷ ns) r rest (v * 256 + n) sp) (widen v n (suc (length ns)) o.byte)

pub IsDotted-lt : {s : Bytes} {v : ℕ} → IsDotted s v → v < 2 ^ 32
IsDotted-lt {s} d =
    let below = rw d.four at (value_from-lt d.octets s [] 0 d.spelled) in omega (arith, d.value)

pub parse_ipv4-lt : (s : Bytes) {v : ℕ} → parse_ipv4 s ≡ some v → v < 2 ^ 32
parse_ipv4-lt s h = IsDotted-lt ((parse_ipv4_iff s _).0 h)

read_prefix_iff :
    (s : Bytes) (p q : ℕ) → (read_prefix s p ≡ some q) ↔ (AreDigits s × (q ≡ decimal_from p s))
unfolding read_prefix
read_prefix_iff [] p q = ground arith
read_prefix_iff (c ∷ s) p q = ground (arith, read_prefix_iff s (p * 10 + (c - b'0')) q)

-- `s` is a dotted address, a slash and a prefix length of one or two digits, at most 32: the
-- block's mask has that many ones, and its base is the address with the other bits cleared.
pub record IsCidr (s : Bytes) (base mask : ℕ) : Type 0 where
  pub address : Bytes
  pub prefix_text : Bytes
  pub network : ℕ
  pub prefix : ℕ
  pub splits : s ≡ address ++ b'/' ∷ prefix_text
  pub dotted : IsDotted address network
  pub prefix_digits : AreDigits prefix_text
  pub some_digits : 1 ≤ length prefix_text
  pub two_digits : length prefix_text ≤ 2
  pub prefix_value : prefix ≡ decimal_from 0 prefix_text
  pub prefix_le : prefix ≤ 32
  pub mask_ones : mask + 2 ^ (32 - prefix) ≡ 2 ^ 32
  pub base_cleared : base ≡ network / 2 ^ (32 - prefix) * 2 ^ (32 - prefix)

record Block (base : ℕ) (prefix_str : Bytes) (r : ℕ × ℕ) : Type 0 where
  prefix : ℕ
  read : read_prefix prefix_str 0 ≡ some prefix
  some_digits : 1 ≤ length prefix_str
  two_digits : length prefix_str ≤ 2
  prefix_le : prefix ≤ 32
  masked : r ≡ (bit_and base (mask_of prefix), mask_of prefix)

block_of-Block : (base : ℕ) (s : Bytes) {r : ℕ × ℕ} → block_of base s ≡ some r → Block base s r
unfolding block_of
block_of-Block base [] h = cc
block_of-Block base (c ∷ s) h = elim (Option-cases (read_prefix (c ∷ s) 0)) [
  | inl e ↦ absurd (ground arith)
  | inr (q, e) ↦ record {
    prefix = q;
    read = e;
    some_digits = omega arith;
    two_digits = ground arith;
    prefix_le = ground arith;
    masked = ground arith;
  }
]

parse_cidr-IsCidr : (s : Bytes) {r : ℕ × ℕ} → parse_cidr s ≡ some r → IsCidr s r.0 r.1
unfolding parse_cidr
parse_cidr-IsCidr s h =
    let (p, found, h1) = >>=-eq-some (split_at b'/' s) _ h in
    let (v, parsed, h2) = >>=-eq-some (parse_ipv4 p.0) _ h1 in
    let b = block_of-Block v p.1 h2 in
    let (digits, value) = (read_prefix_iff p.1 0 b.prefix).0 b.read in
    record {
      address = p.0;
      prefix_text = p.1;
      network = v;
      prefix = b.prefix;
      splits = split_at-eq b'/' s found;
      dotted = (parse_ipv4_iff p.0 v).0 parsed;
      prefix_digits = digits;
      some_digits = b.some_digits;
      two_digits = b.two_digits;
      prefix_value = value;
      prefix_le = b.prefix_le;
      mask_ones = rw b.masked (mask_of-ones b.prefix b.prefix_le).2;
      base_cleared =
          rw b.masked (bit_and-mask_of b.prefix v b.prefix_le (parse_ipv4-lt p.0 parsed));
    }

digit-ne-slash : (c : ℕ) → is_digit c ≡ true → (c == b'/') ≡ false
digit-ne-slash c h = ground arith

Spells-Lacks : (ns : List ℕ) (s rest : Bytes) → Lacks b'/' rest → Spells ns s rest → Lacks b'/' s
Spells-Lacks [] s rest h sp = rw sp h
Spells-Lacks (n ∷ []) s rest h (t, e, o, stops) =
    rw e (All-append _ t rest (All-map digit-ne-slash t o.digits) h)
Spells-Lacks (n ∷ m ∷ ns) s rest h (t, r, e, o, sp) = rw e (
    All-append _ t (b'.' ∷ r) (All-map digit-ne-slash t o.digits)
      (refl, Spells-Lacks (m ∷ ns) r rest h sp))

pub mask_of_unique : (p mask : ℕ) → p ≤ 32 → mask + 2 ^ (32 - p) ≡ 2 ^ 32 → mask ≡ mask_of p
mask_of_unique p mask h e = omega (arith, (mask_of-ones p h).2)

IsCidr-block_of :
    {s : Bytes} {base mask : ℕ} (c : IsCidr s base mask)
    → block_of c.network c.prefix_text ≡ some (base, mask)
unfolding block_of
IsCidr-block_of {s} {base} {mask} c = ground (
  arith,
  (read_prefix_iff c.prefix_text 0 c.prefix).1 (c.prefix_digits, c.prefix_value),
  mask_of_unique c.prefix mask c.prefix_le c.mask_ones,
  bit_and-mask_of c.prefix c.network c.prefix_le (IsDotted-lt c.dotted),
)

IsCidr-parse_cidr :
    {s : Bytes} {base mask : ℕ} → IsCidr s base mask → parse_cidr s ≡ some (base, mask)
unfolding parse_cidr
IsCidr-parse_cidr {s} c =
    rw
      (
        c.splits,
        split_at-append b'/' c.address c.prefix_text
            (Spells-Lacks c.dotted.octets c.address [] tt c.dotted.spelled),
        (parse_ipv4_iff c.address c.network).1 c.dotted,
      )
      (IsCidr-block_of c)

-- `parse_cidr` accepts exactly a dotted address, a slash and one or two digits that spell at most
-- 32; it returns the mask with that many leading ones and the address with all other bits cleared.
pub parse_cidr_iff :
    (s : Bytes) (base mask : ℕ) → (parse_cidr s ≡ some (base, mask)) ↔ IsCidr s base mask
parse_cidr_iff s base mask = (parse_cidr-IsCidr s, IsCidr-parse_cidr)
