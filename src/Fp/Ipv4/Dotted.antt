-- ===== src/Fp/Ipv4/Dotted.antt =====
-- `parse_ipv4` against a description of dotted addresses that does not run.
use mathlib.Core.Path.{subst}
use native.Mathlib.Nat.{pow-suc, one-le-pow, mul-le-mul_right}
use service_port_scanner.Common.{
  ℕ, zero, suc, ◌+◌, ◌*◌, ◌^◌, ◌≤◌, ◌<◌, ◌≡◌, refl, ap, ◌∙◌, sym, ◌↔◌, bit_or, some, List, [], ◌∷◌,
  ◌++◌, Bytes, length, not, ◌==◌, guard, ◌>>◌, >>=-eq-some, arith, is_empty,
}
use service_port_scanner.Common.Bits.{bit_or_join}
use service_port_scanner.Fp.Ipv4.Octets.{IsOctet, EndsDigits, read_octet-Read, read_octet-append}
use service_port_scanner.Fp.Ipv4.{u32, read_octet, expect_dot, read_parts, parse_ipv4}

-- The numbers, written one after the other with a dot between two, stand in front of `rest`.
abbrev pub Spells : List ℕ → Bytes → Bytes → Type 0
Spells [] s rest = s ≡ rest
Spells (n ∷ []) s rest = (t : Bytes) × (s ≡ t ++ rest) × IsOctet t n × EndsDigits rest
Spells (n ∷ m ∷ ns) s rest =
    (t : Bytes) × (r : Bytes) × (s ≡ t ++ b'.' ∷ r) × IsOctet t n × Spells (m ∷ ns) r rest

-- Base 256, the first number the most significant.
abbrev pub value_from : ℕ → List ℕ → ℕ
value_from v [] = v
value_from v (n ∷ ns) = value_from (v * 256 + n) ns

-- `s` is four octets with a dot between two, and `v` is the number that they make.
pub record IsDotted (s : Bytes) (v : ℕ) : Type 0 where
  pub octets : List ℕ
  pub four : length octets ≡ 4
  pub spelled : Spells octets s []
  pub value : v ≡ value_from 0 octets

-- With `left` more octets the word does not overflow.
abbrev Fits : ℕ → ℕ → Type 0
Fits v left = (v + 1) * 256 ^ left ≤ 2 ^ 32

Fits-next : (v left octet : ℕ) → octet ≤ 255 → Fits v (suc left) → Fits (v * 256 + octet) left
Fits-next v left octet o f = omega (
  arith,
  pow-suc 256 left,
  ap (λ (t : ℕ). v * t) (pow-suc 256 left),
  mul-le-mul_right (256 ^ left) o,
)

Fits-below : (v left : ℕ) → Fits v (suc left) → v * 256 < 2 ^ 32
Fits-below v left f = grind (arith, pow-suc 256 left, one-le-pow left 256 (omega arith))

shift_in :
    (v left octet : ℕ)
    → octet ≤ 255
    → Fits v (suc left)
    → bit_or (u32 (v * 2 ^ 8)) octet ≡ v * 256 + octet
shift_in v left octet o f = ground (arith, Fits-below v left f, bit_or_join 8 v octet (omega arith))

record Step (left : ℕ) (s : Bytes) (v : ℕ) (p : ℕ × Bytes) : Type 0 where
  octet : ℕ
  digits : ℕ
  rest : Bytes
  next : Bytes
  octet_read : read_octet s 0 0 ≡ some (octet, digits, rest)
  some_digits : 1 ≤ digits
  dot_read : expect_dot left rest ≡ some next
  others_read : read_parts left next (bit_or (u32 (v * 2 ^ 8)) octet) ≡ some p

read_parts-Step :
    (left : ℕ) (s : Bytes) (v : ℕ) {p : ℕ × Bytes}
    → read_parts (suc left) s v ≡ some p
    → Step left s v p
unfolding read_parts
read_parts-Step left [] v h = cc
read_parts-Step left (c ∷ s) v h =
    let (r, e, h1) = >>=-eq-some (read_octet (c ∷ s) 0 0) _ h in
    let (u, g, h2) = >>=-eq-some (guard (not (r.1 == 0))) _ h1 in
    let (next, d, h3) = >>=-eq-some (expect_dot left r.2) _ h2 in
    record {
      octet = r.0;
      digits = r.1;
      rest = r.2;
      next = next;
      octet_read = e;
      some_digits = ground arith;
      dot_read = d;
      others_read = h3;
    }

-- The text that a step consumes, and what it leaves.
record Taken (left : ℕ) (s : Bytes) (octet : ℕ) (rest next : Bytes) : Type 0 where
  text : Bytes
  splits : s ≡ text ++ rest
  is_octet : IsOctet text octet
  stops : EndsDigits rest

Step-Taken :
    (left : ℕ) (s : Bytes) (v : ℕ) {p : ℕ × Bytes} (st : Step left s v p)
    → Taken left s st.octet st.rest st.next
Step-Taken left s v st =
    let r = read_octet-Read s 0 0 (omega arith) (omega arith) st.octet_read in
    record {
      text = r.text;
      splits = r.splits;
      is_octet = record {
        digits = r.text_digits;
        some_digits = omega (arith, r.digits_eq, st.some_digits);
        three_digits = omega (arith, r.digits_eq, r.digits_le);
        value = r.octet_eq;
        byte = r.octet_le;
      };
      stops = r.stops;
    }

expect_dot-some :
    (left : ℕ) (s next : Bytes) → expect_dot (suc left) s ≡ some next → s ≡ b'.' ∷ next
unfolding expect_dot
expect_dot-some left s next h = ground arith

Step-last :
    (s : Bytes) (v : ℕ) {p : ℕ × Bytes} (st : Step zero s v p)
    → (st.rest ≡ p.1) × (p.0 ≡ bit_or (u32 (v * 2 ^ 8)) st.octet)
unfolding expect_dot read_parts
Step-last s v st = (cc (st.dot_read, st.others_read), cc (st.others_read))

read_parts-Spells :
    (left : ℕ) (s : Bytes) (v : ℕ) {p : ℕ × Bytes}
    → Fits v (suc left)
    → read_parts (suc left) s v ≡ some p
    → (n : ℕ) × (ns : List ℕ) × (length ns ≡ left)
      × Spells (n ∷ ns) s p.1
      × (p.0 ≡ value_from v (n ∷ ns))
read_parts-Spells zero s v f h =
    let st = read_parts-Step zero s v h in
    let t = Step-Taken zero s v st in
    let (e, val) = Step-last s v st in
    let e' = shift_in v 0 st.octet t.is_octet.byte f in
    (st.octet, [], refl, (t.text, rw (← e) t.splits, t.is_octet, rw (← e) t.stops), val ∙ e')
read_parts-Spells (suc left) s v f h =
    let st = read_parts-Step (suc left) s v h in
    let t = Step-Taken (suc left) s v st in
    let v' = v * 256 + st.octet in
    let e = shift_in v (suc left) st.octet t.is_octet.byte f in
    let (m, ms, len, sp, val) =
      read_parts-Spells left st.next v' (Fits-next v (suc left) st.octet t.is_octet.byte f)
        (rw e at st.others_read) in
    (
      st.octet,
      m ∷ ms,
      omega arith,
      (
        t.text,
        st.next,
        t.splits ∙ ap (◌++◌ t.text) (expect_dot-some left st.rest st.next st.dot_read),
        t.is_octet,
        sp,
      ),
      val,
    )

finish :
    (v : ℕ) (rest : Bytes) {v' : ℕ}
    → (guard (is_empty rest) >> some v) ≡ some v'
    → (rest ≡ []) × (v ≡ v')
finish v [] h = (refl, ground arith)
finish v (c ∷ rest) h = cc

-- Whatever `parse_ipv4` accepts is a dotted address, and its number is returned.
parse_ipv4-IsDotted : (s : Bytes) {v : ℕ} → parse_ipv4 s ≡ some v → IsDotted s v
unfolding parse_ipv4
parse_ipv4-IsDotted s h =
    let (p, e, h1) = >>=-eq-some (read_parts 4 s 0) _ h in
    let (ends, same) = finish p.0 p.1 h1 in
    let (n, ns, len, sp, val) = read_parts-Spells 3 s 0 (omega arith) e in
    record {
      octets = n ∷ ns;
      four = omega arith;
      spelled = subst (Spells (n ∷ ns) s) ends sp;
      value = sym same ∙ val;
    }

IsOctet-read :
    {t : Bytes} {n : ℕ} (rest : Bytes)
    → IsOctet t n
    → EndsDigits rest
    → read_octet (t ++ rest) 0 0 ≡ some (n, length t, rest)
IsOctet-read {t} rest o e = ground (arith, read_octet-append t rest 0 0 o.digits e)

expect_dot_last : (s : Bytes) → expect_dot zero s ≡ some s
unfolding expect_dot
expect_dot_last s = refl

expect_dot_next : (left : ℕ) (s : Bytes) → expect_dot (suc left) (b'.' ∷ s) ≡ some s
unfolding expect_dot
expect_dot_next left s = refl

-- One round of the outer loop.
read_parts_round :
    (left : ℕ) (s : Bytes) (v : ℕ) {octet digits : ℕ} {rest next : Bytes}
    → read_octet s 0 0 ≡ some (octet, digits, rest)
    → 1 ≤ digits
    → expect_dot left rest ≡ some next
    → read_parts (suc left) s v ≡ read_parts left next (bit_or (u32 (v * 2 ^ 8)) octet)
unfolding read_parts
read_parts_round left [] v r d e = absurd (unfold read_octet in ground arith)
read_parts_round left (c ∷ s) v r d e = ground arith

read_parts-append :
    (ns : List ℕ) (n : ℕ) (s rest : Bytes) (v : ℕ)
    → Fits v (suc (length ns))
    → Spells (n ∷ ns) s rest
    → read_parts (suc (length ns)) s v ≡ some (value_from v (n ∷ ns), rest)
read_parts-append [] n s rest v f (t, e, o, stops) = rw e (
    read_parts_round 0 (t ++ rest) v (IsOctet-read rest o stops) o.some_digits
      (expect_dot_last rest)
    ∙ rw (shift_in v 0 n o.byte f) (unfold read_parts in refl))
read_parts-append (m ∷ ns) n s rest v f (t, r, e, o, sp) = rw e (
    read_parts_round (suc (length ns)) (t ++ b'.' ∷ r) v (IsOctet-read (b'.' ∷ r) o refl)
      o.some_digits (expect_dot_next (length ns) r)
    ∙ rw (shift_in v (suc (length ns)) n o.byte f)
        (read_parts-append ns m r rest (v * 256 + n) (Fits-next v _ n o.byte f) sp))

parse_ipv4-Spells :
    (ns : List ℕ) (s : Bytes)
    → length ns ≡ 4
    → Spells ns s []
    → parse_ipv4 s ≡ some (value_from 0 ns)
unfolding parse_ipv4
parse_ipv4-Spells [] s len sp = absurd (omega arith)
parse_ipv4-Spells (n ∷ ns) s len sp =
    let three : length ns ≡ 3 = omega arith in
    let e = read_parts-append ns n s [] 0 (rw three (omega arith)) sp in rw (rw three at e)

IsDotted-parse_ipv4 : (s : Bytes) {v : ℕ} → IsDotted s v → parse_ipv4 s ≡ some v
IsDotted-parse_ipv4 s d = rw (d.value) (parse_ipv4-Spells d.octets s d.four d.spelled)

-- `parse_ipv4` accepts exactly the texts of four octets, each of one to three digits (leading
-- zeros included) and at most 255, with one dot between two and nothing else, and returns the
-- number whose base-256 digits they are.
pub parse_ipv4_iff : (s : Bytes) (v : ℕ) → (parse_ipv4 s ≡ some v) ↔ IsDotted s v
parse_ipv4_iff s v = (parse_ipv4-IsDotted s, IsDotted-parse_ipv4 s)
