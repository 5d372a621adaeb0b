-- ===== src/Cli/Ports/Expand.antt =====
-- `expand_port_spec` as a whole: the pieces between the commas, and what they add up to.
use mathlib.Core.List.{append-nil, append_assoc}
use mathlib.Core.Path.{fun_ext}
use service_port_scanner.Common.Split.{Lacks}
use service_port_scanner.Common.{
  ℕ, ◌≡◌, refl, ◌∙◌, sym, ap, true, false, ◌||◌, Option, none, some, List, [], ◌∷◌, ◌++◌, Bytes,
  ◌==◌, any, ◌>>=◌, Bool-cases, Option-cases, inl, inr, ==_iff, arith, All, All-append, Any,
}
use service_port_scanner.Cli.Ports.Pieces.{
  Interval, inside, Piece, Flushed, flush-Flushed, Piece-flush,
}
use service_port_scanner.Cli.Ports.PortSet.{has, Rising}
use service_port_scanner.Cli.Ports.{flush, expand_loop, expand_port_spec}

-- Pieces written one after the other with a comma between two.
abbrev pub join_commas : List Bytes → Bytes
join_commas [] = []
join_commas (p ∷ []) = p
join_commas (p ∷ q ∷ ps) = p ++ b',' ∷ join_commas (q ∷ ps)

-- The pieces that the loop hands to `flush`.
pieces_from : Bytes → Bytes → List Bytes
pieces_from [] piece = piece ∷ []
pieces_from (c ∷ s) piece = elim (c == b',') [
  | true ↦ piece ∷ pieces_from s []
  | false ↦ pieces_from s (piece ++ c ∷ [])
]

flush_all : List Bytes → List ℕ → Option (List ℕ)
flush_all [] set = some set
flush_all (p ∷ ps) set = flush p set >>= flush_all ps

>>=-some : (m : Option (List ℕ)) → (m >>= λ x. some x) ≡ m
>>=-some none = refl
>>=-some (some x) = refl

expand_loop-flush_all :
    (s piece : Bytes) (set : List ℕ) → expand_loop s piece set ≡ flush_all (pieces_from s piece) set
unfolding expand_loop flush_all pieces_from
expand_loop-flush_all [] piece set = sym (>>=-some (flush piece set))
expand_loop-flush_all (c ∷ s) piece set = elim (Bool-cases (c == b',')) [
  | inl e ↦ rw (e, expand_loop, pieces_from) (rw (fun_ext (expand_loop-flush_all s [])))
  | inr e ↦ rw (e, expand_loop, pieces_from) (expand_loop-flush_all s (piece ++ c ∷ []) set)
]

-- Every piece between two commas stands for an interval, in order.
abbrev pub AllPieces : List Bytes → List Interval → Type 0
AllPieces [] [] = Unit
AllPieces (p ∷ ps) (r ∷ rs) = Piece p r × AllPieces ps rs
AllPieces _ _ = ⊥

pub IsMalformed : Bytes → Type 0
IsMalformed tok = (r : Interval) → ¬ Piece tok r

-- The specification is its pieces with a comma between two, and the result is either the ports of
-- all their intervals, if every piece is well formed, or nothing.
pub data Outcome (ps : List Bytes) (ports : List ℕ) : Type 0 where
  accepted :
      (rs : List Interval)
      → AllPieces ps rs
      → ((p : ℕ) → has p ports ≡ any (inside p) rs)
      → Outcome ps ports
  rejected : Any IsMalformed ps → ports ≡ [] → Outcome ps ports

pub record Expansion (spec : Bytes) (ports : List ℕ) : Type 0 where
  pub pieces : List Bytes
  pub joined : join_commas pieces ≡ spec
  pub no_comma : All (Lacks b',') pieces
  pub rising : Rising 0 ports
  pub outcome : Outcome pieces ports

join_commas-cons :
    (p : Bytes) (s piece : Bytes)
    → join_commas (p ∷ pieces_from s piece) ≡ p ++ b',' ∷ join_commas (pieces_from s piece)
unfolding pieces_from
join_commas-cons p [] piece = refl
join_commas-cons p (c ∷ s) piece = elim (Bool-cases (c == b',')) [
  | inl e ↦ rw (e, pieces_from) refl
  | inr e ↦ rw (e, pieces_from) (join_commas-cons p s (piece ++ c ∷ []))
]

pieces_from-join :
    (s piece : Bytes)
    → Lacks b',' piece
    → (join_commas (pieces_from s piece) ≡ piece ++ s) × All (Lacks b',') (pieces_from s piece)
unfolding pieces_from
pieces_from-join [] piece l = (sym (append-nil piece), (l, tt))
pieces_from-join (c ∷ s) piece l = elim (Bool-cases (c == b',')) [
  | inl e ↦
      let (j, a) = pieces_from-join s [] tt in
      rw (e, pieces_from)
        (
          join_commas-cons piece s []
              ∙ ap (◌++◌ piece) (ap (◌∷◌ b',') j ∙ ap (λ b. b ∷ s) (sym ((==_iff c b',').0 e))),
          (l, a),
        )
  | inr e ↦
      let (j, a) = pieces_from-join s (piece ++ c ∷ []) (All-append _ piece (c ∷ []) l (e, tt)) in
      rw (e, pieces_from) (j ∙ append_assoc piece (c ∷ []) s, a)
]

-- What the pieces do to a set, one after the other.
data FlushedAll (ps : List Bytes) (set : List ℕ) : Option (List ℕ) → Type 0 where
  done :
      (rs : List Interval) (set' : List ℕ)
      → AllPieces ps rs
      → ((p : ℕ) → has p set' ≡ (any (inside p) rs || has p set))
      → (Rising 0 set → Rising 0 set')
      → FlushedAll ps set (some set')
  failed : Any IsMalformed ps → FlushedAll ps set none

FlushedAll-cons :
    {p : Bytes} {ps : List Bytes} {set set1 : List ℕ} {r : Option (List ℕ)}
    → Flushed p set set1
    → FlushedAll ps set1 r
    → FlushedAll (p ∷ ps) set r
FlushedAll-cons f (failed bad) = failed (inr bad)
FlushedAll-cons {p} {ps} {set} f (done rs set' all_pieces adds rising) =
    done (f.interval ∷ rs) set' (f.piece, all_pieces) (λ q. ground (arith, adds q, f.adds q))
      (λ r. rising (f.rising r))

flush-IsMalformed : (p : Bytes) (set : List ℕ) → flush p set ≡ none → IsMalformed p
unfolding IsMalformed
flush-IsMalformed p set e r piece = let (set', f) = Piece-flush set piece in cc (e, f)

flush_all-FlushedAll : (ps : List Bytes) (set : List ℕ) → FlushedAll ps set (flush_all ps set)
unfolding flush_all
flush_all-FlushedAll [] set = done [] set tt (λ p. refl) (λ r. r)
flush_all-FlushedAll (p ∷ ps) set = elim (Option-cases (flush p set)) [
  | inl e ↦ rw (e, flush_all) (failed (inl (flush-IsMalformed p set e)))
  | inr (set1, e) ↦
      rw (e, flush_all) (FlushedAll-cons (flush-Flushed p set e) (flush_all-FlushedAll ps set1))
]

-- The result of a loop, taken as the result of the function.
FlushedAll-Expansion :
    (spec : Bytes) {r : Option (List ℕ)}
    → FlushedAll (pieces_from spec []) [] r
    → Expansion spec (elim r [ none ↦ [] | some set ↦ set ])
FlushedAll-Expansion spec (failed bad) = record {
  pieces = pieces_from spec [];
  joined = (pieces_from-join spec [] tt).0;
  no_comma = (pieces_from-join spec [] tt).1;
  rising = tt;
  outcome = rejected bad refl;
}
FlushedAll-Expansion spec (done rs set' all_pieces adds rising) = record {
  pieces = pieces_from spec [];
  joined = (pieces_from-join spec [] tt).0;
  no_comma = (pieces_from-join spec [] tt).1;
  rising = rising tt;
  outcome = accepted rs all_pieces (λ p. ground (arith, adds p));
}

-- `expand_port_spec` splits the text at its commas. If every piece is empty, a port or two ports
-- in either order with a dash between, the result holds exactly the ports of these intervals;
-- if some piece is none of these, it is empty. It rises strictly and stays within 1 and 65535.
pub expand_port_spec-Expansion : (spec : Bytes) → Expansion spec (expand_port_spec spec)
unfolding expand_port_spec
expand_port_spec-Expansion spec =
    rw (expand_port_spec, expand_loop-flush_all spec [] [])
      (FlushedAll-Expansion spec (flush_all-FlushedAll (pieces_from spec []) []))
