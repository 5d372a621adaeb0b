-- ===== src/Scan/Pipeline/Probing.antt =====
-- How the probes of an open port end.
use mathlib.Core.Path.{subst}
use service_port_scanner.Core.Floats.{FloatLib}
use service_port_scanner.Core.Result.{ScanResult}
use service_port_scanner.Scan.Pipeline.{Attempt, match_hint, fill, run_probes}
use service_port_scanner.Common.{
  ℕ, ◌≡◌, sym, refl, ap, ◌⊎◌, inl, inr, Bool, true, false, not, List, [], ◌∷◌, ◌++◌, All,
  Bool-cases, if◌then◌else◌, arith,
}

module _ (fl : FloatLib) where
  -- A probe that is not meant for the port, or that finds nothing and leaves a connection.
  abbrev pub IsPassed : ℕ → Attempt → Type 0
  IsPassed port a =
      (match_hint port a ≡ false) ⊎ ((a.found.matched ≡ false) × (a.reconnected ≡ true))

  -- How the probes end: the first that finds something fills the result in, all of them pass, or
  -- the connection is lost behind one that finds nothing.
  pub data Probed (base : ScanResult fl) (probes : List Attempt) : ScanResult fl → Type 0 where
    filled :
        (before : List Attempt) (a : Attempt) (after : List Attempt)
        → probes ≡ before ++ a ∷ after
        → All (IsPassed base.port) before
        → match_hint base.port a ≡ true
        → a.found.matched ≡ true
        → Probed base probes (fill fl a.found base)
    exhausted : All (IsPassed base.port) probes → Probed base probes base
    cut_off :
        (before : List Attempt) (a : Attempt) (after : List Attempt)
        → probes ≡ before ++ a ∷ after
        → All (IsPassed base.port) before
        → match_hint base.port a ≡ true
        → a.found.matched ≡ false
        → a.reconnected ≡ false
        → Probed base probes base

  Probed-cons :
      (base : ScanResult fl) (a : Attempt) (probes : List Attempt) {r : ScanResult fl}
      → IsPassed base.port a
      → Probed base probes r
      → Probed base (a ∷ probes) r
  Probed-cons base a probes p (Probed.filled before b after e ps h m) =
      Probed.filled (a ∷ before) b after (ap (λ t. a ∷ t) e) (p, ps) h m
  Probed-cons base a probes p (Probed.exhausted ps) = Probed.exhausted (p, ps)
  Probed-cons base a probes p (Probed.cut_off before b after e ps h m c) =
      Probed.cut_off (a ∷ before) b after (ap (λ t. a ∷ t) e) (p, ps) h m c

  -- One round of the loop.
  run_probes-round :
      (a : Attempt) (later : List Attempt) (base : ScanResult fl) (hint matched reconnected : Bool)
      → match_hint base.port a ≡ hint
      → a.found.matched ≡ matched
      → a.reconnected ≡ reconnected
      → run_probes fl (a ∷ later) base ≡ (
          if not hint
          then run_probes fl later base
          else if matched
          then fill fl a.found base
          else if reconnected
          then run_probes fl later base
          else base)
  unfolding run_probes
  run_probes-round a later base hint matched reconnected h m c = ground arith

  -- The probes are tried in their order, those alone that have no hint or the port among their
  -- hints. The first that finds something fills the result in; where none does, or a connection
  -- after a probe fails, the result stays as it was.
  pub run_probes-Probed :
      (probes : List Attempt) (base : ScanResult fl)
      → Probed base probes (run_probes fl probes base)
  unfolding run_probes
  run_probes-Probed [] base = Probed.exhausted tt
  run_probes-Probed (a ∷ later) base =
      let round = run_probes-round a later base in
      elim (Bool-cases (match_hint base.port a)) [
        | inr h ↦
            subst (Probed base (a ∷ later)) (sym (round false _ _ h refl refl))
              (Probed-cons base a later (inl h) (run_probes-Probed later base))
        | inl h ↦ elim (Bool-cases a.found.matched) [
          | inl m ↦
              subst (Probed base (a ∷ later)) (sym (round true true _ h m refl))
                (Probed.filled [] a later refl tt h m)
          | inr m ↦ elim (Bool-cases a.reconnected) [
            | inl c ↦
                subst (Probed base (a ∷ later)) (sym (round true false true h m c))
                  (Probed-cons base a later (inr (m, c)) (run_probes-Probed later base))
            | inr c ↦
                subst (Probed base (a ∷ later)) (sym (round true false false h m c))
                  (Probed.cut_off [] a later refl tt h m c)
          ]
        ]
      ]
