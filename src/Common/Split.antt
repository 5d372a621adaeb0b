-- ===== src/Common/Split.antt =====
-- A text cut at the first occurrence of a byte.
use mathlib.Core.Path.{◌≡◌, refl}
use mathlib.Core.Logic.{inl, inr}
use mathlib.Core.Bool.{false}
use mathlib.Core.List.{[], ◌∷◌, ◌++◌}
use mathlib.Core.Option.{Option, none, some}
use native.Mathlib.Omega.{arith}
use Prim.Native.Nat.{ℕ}
use service_port_scanner.Common.Booleans.{◌==◌, if◌then◌else◌, Bool-cases, Option-cases, ◌>>=◌}
use service_port_scanner.Common.Predicates.{All}
use service_port_scanner.Common.Text.{Bytes}

-- `s.find(b)` of one byte, as the text before the first such byte and the text behind it.
unfoldable pub split_at : ℕ → Bytes → Option (Bytes × Bytes)
split_at b [] = none
split_at b (c ∷ s) =
    let found = split_at b s >>= λ r. some (c ∷ r.0, r.1) in if c == b then some ([], s) else found

abbrev pub Lacks : ℕ → Bytes → Type 0
Lacks b = All λ c. (c == b) ≡ false

split_at_later :
    (b c : ℕ) (s : Bytes) {p : Bytes × Bytes}
    → (c == b) ≡ false
    → split_at b (c ∷ s) ≡ some p
    → (q : Bytes × Bytes) × (split_at b s ≡ some q) × (p ≡ (c ∷ q.0, q.1))
unfolding split_at
split_at_later b c s other h = elim (Option-cases (split_at b s)) [
  | inl e ↦ absurd (ground arith)
  | inr (q, e) ↦ (q, e, ground arith)
]

pub split_at-eq :
    (b : ℕ) (s : Bytes) {p : Bytes × Bytes} → split_at b s ≡ some p → s ≡ p.0 ++ b ∷ p.1
unfolding split_at
split_at-eq b [] h = cc
split_at-eq b (c ∷ s) h = elim (Bool-cases (c == b)) [
  | inl found ↦ ground arith
  | inr other ↦ let (q, e, h') = split_at_later b c s other h in cc (split_at-eq b s e, h')
]

pub split_at-append : (b : ℕ) (l r : Bytes) → Lacks b l → split_at b (l ++ b ∷ r) ≡ some (l, r)
unfolding split_at
split_at-append b [] r h = ground arith
split_at-append b (c ∷ l) r h = ground (arith, split_at-append b l r h.1)

pub split_at-Lacks : (b : ℕ) (s : Bytes) → Lacks b s → split_at b s ≡ none
unfolding split_at
split_at-Lacks b [] h = refl
split_at-Lacks b (c ∷ s) h = ground (arith, split_at-Lacks b s h.1)
