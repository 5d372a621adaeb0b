-- ===== src/Cli/Ports/Pieces.antt =====
-- One piece of the specification: what `flush` makes of it.
use service_port_scanner.Common.{
  ℕ, ◌≡◌, refl, Bool, true, false, ◌&&◌, ◌||◌, Option, none, some, List, [], ◌∷◌, ◌++◌, Bytes, ltb,
  leb, ◌==◌, min, max, if◌then◌else◌, Option-cases, >>=-eq-some, inl, inr, arith, All-map, is_digit,
}
use mathlib.Core.Option.{some-injective}
use mathlib.Core.Path.{subst}
use service_port_scanner.Common.Split.{
  split_at, split_at-eq, split_at-append, split_at-Lacks, Lacks,
}
use service_port_scanner.Cli.Ports.Numbers.{IsPort, parse_uint16_iff}
use service_port_scanner.Cli.Ports.PortSet.{
  has, has-insert, has-insert_between, Rising, insert-Rising, insert_between-Rising,
}
use service_port_scanner.Cli.Ports.{parse_uint16, insert, insert_between, flush}

-- What a well-formed piece stands for: nothing, or the ports of an interval.
abbrev pub Interval : Type 0
Interval = Option (ℕ × ℕ)

abbrev pub inside : ℕ → Interval → Bool
inside p none = false
inside p (some (lo, hi)) = leb lo p && leb p hi

-- A piece is empty, a port, or two ports in either order with a dash between.
pub data Piece (tok : Bytes) (r : Interval) : Type 0 where
  blank : tok ≡ [] → r ≡ none → Piece tok r
  single : (p : ℕ) → IsPort tok p → r ≡ some (p, p) → Piece tok r
  span :
      (a b : Bytes) (m n : ℕ)
      → tok ≡ a ++ b'-' ∷ b
      → IsPort a m
      → IsPort b n
      → r ≡ some (min m n, max m n)
      → Piece tok r

-- What `flush` adds to the set, with the interval that the piece stands for.
pub record Flushed (tok : Bytes) (set set' : List ℕ) : Type 0 where
  pub interval : Interval
  pub piece : Piece tok interval
  pub adds : (p : ℕ) → has p set' ≡ (inside p interval || has p set)
  pub rising : Rising 0 set → Rising 0 set'

flush_single : (tok : Bytes) (p : ℕ) (set : List ℕ) → IsPort tok p → Flushed tok set (insert p set)
flush_single tok p set i = record {
  interval = some (p, p);
  piece = single p i refl;
  adds = λ q. ground (arith, has-insert q p set);
  rising = insert-Rising 0 p set i.lower i.upper;
}

flush_span :
    (tok a b : Bytes) (m n : ℕ) (set : List ℕ)
    → tok ≡ a ++ b'-' ∷ b
    → IsPort a m
    → IsPort b n
    → Flushed tok set (if ltb n m then insert_between n m set else insert_between m n set)
flush_span tok a b m n set e i j = record {
  interval = some (min m n, max m n);
  piece = span a b m n e i j refl;
  adds = λ q. ground (arith, has-insert_between q n m set, has-insert_between q m n set);
  rising = λ r.
      ground (arith, insert_between-Rising n m set j.lower, insert_between-Rising m n set i.lower);
}

pub flush-Flushed :
    (tok : Bytes) (set : List ℕ) {set' : List ℕ} → flush tok set ≡ some set' → Flushed tok set set'
unfolding flush
flush-Flushed [] set h =
    subst (Flushed [] set) (some-injective _ _ h)
      (record { interval = none; piece = blank refl refl; adds = λ p. refl; rising = λ r. r })
flush-Flushed (c ∷ tok) set h = elim (Option-cases (split_at b'-' (c ∷ tok))) [
  | inl e ↦
      let (p, e1, h1) = >>=-eq-some (parse_uint16 (c ∷ tok)) _ (rw (e, flush) at h) in
      subst (Flushed (c ∷ tok) set) (some-injective _ _ h1)
        (flush_single (c ∷ tok) p set ((parse_uint16_iff (c ∷ tok) p).0 e1))
  | inr (q, e) ↦
      let (m, e1, h1) = >>=-eq-some (parse_uint16 q.0) _ (rw (e, flush) at h) in
      let (n, e2, h2) = >>=-eq-some (parse_uint16 q.1) _ h1 in
      subst (Flushed (c ∷ tok) set) (some-injective _ _ h2) (
        flush_span (c ∷ tok) q.0 q.1 m n set (split_at-eq b'-' (c ∷ tok) e)
          ((parse_uint16_iff q.0 m).0 e1) ((parse_uint16_iff q.1 n).0 e2))
]

digit-ne-dash : (c : ℕ) → is_digit c ≡ true → (c == b'-') ≡ false
digit-ne-dash c h = ground arith

IsPort-Lacks : {t : Bytes} {n : ℕ} → IsPort t n → Lacks b'-' t
IsPort-Lacks {t} i = All-map digit-ne-dash t i.digits

flush_whole :
    (tok : Bytes) (set : List ℕ) {p : ℕ} → IsPort tok p → flush tok set ≡ some (insert p set)
unfolding flush insert
flush_whole [] set i = absurd (omega (arith, i.some_digits))
flush_whole (c ∷ tok) set {p} i =
    rw (flush, split_at-Lacks b'-' (c ∷ tok) (IsPort-Lacks i), (parse_uint16_iff (c ∷ tok) p).1 i)

flush_parts :
    (a b : Bytes) (m n : ℕ) (set : List ℕ)
    → IsPort a m
    → IsPort b n
    → flush (a ++ b'-' ∷ b) set
      ≡ some (if ltb n m then insert_between n m set else insert_between m n set)
unfolding flush insert_between
flush_parts [] b m n set i j = absurd (omega (arith, i.some_digits))
flush_parts (c ∷ a) b m n set i j = rw (
  flush,
  split_at-append b'-' (c ∷ a) b (IsPort-Lacks i),
  (parse_uint16_iff (c ∷ a) m).1 i,
  (parse_uint16_iff b n).1 j,
)

-- Conversely every well-formed piece is accepted.
pub Piece-flush :
    {tok : Bytes} {r : Interval} (set : List ℕ)
    → Piece tok r
    → (set' : List ℕ) × (flush tok set ≡ some set')
unfolding flush
Piece-flush set (blank e _) = (set, rw (e, flush))
Piece-flush {tok} set (single p i _) = (insert p set, flush_whole tok set i)
Piece-flush set (span a b m n e i j _) = (
  if ltb n m then insert_between n m set else insert_between m n set,
  rw e (flush_parts a b m n set i j),
)
