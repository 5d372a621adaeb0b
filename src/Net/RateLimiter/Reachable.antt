-- ===== src/Net/RateLimiter/Reachable.antt =====
-- A rate limiter in use by several threads: any calls, whose accesses interleave in any order.
use service_port_scanner.Json.{ℤ}
use service_port_scanner.Net.Reals.{RealLib, IsComparison}
use service_port_scanner.Net.RateLimiter.Places.{IsPlaced, begin-IsPlaced, access-IsPlaced}
use service_port_scanner.Net.RateLimiter.Accesses.{
  Place, load_srtt, store_first_srtt, store_first_rttvar, load_rttvar, store_srtt, store_rttvar,
  add_sample, add_loss, load_losses, load_rate, store_rate, reset_samples, reset_losses, finished,
  begin, access,
}
use service_port_scanner.Net.RateLimiter.{
  Mode, Limiter, smaller, make, refill_locked, set_rate, acquire,
}
use mathlib.Core.Option.{some-injective}
use mathlib.Core.Path.{subst}
use service_port_scanner.Common.{
  ◌++◌, All, ◌≡◌, refl, sym, ap, ◌∙◌, Bool, false, some, List, [], ◌∷◌, Bool-cases, inl, inr,
  if◌then◌else◌,
}

module _ (re : RealLib) where
  -- A limiter with the calls of `on_response` that are under way or finished, each at its place.
  pub record Shared : Type 0 where
    pub limiter : Limiter re
    pub calls : List (Place re)

  -- A round of `acquire`, which finds no token or takes one; a call of `set_rate`; a call of
  -- `on_response`; or the next access of some call of `on_response`.
  pub data Step : Shared → Shared → Type 0 where
    refilled :
        (dt : re.Real) (s : Shared) → Step s (record s { limiter = refill_locked re dt s.limiter })
    acquired :
        (dt : re.Real) (s : Shared) (l : Limiter re)
        → acquire re (dt ∷ []) s.limiter ≡ some l
        → Step s (record s { limiter = l })
    retimed :
        (rate : re.Real) (s : Shared) → Step s (record s { limiter = set_rate re rate s.limiter })
    called :
        (rtt : ℤ) (was_loss : Bool) (s : Shared)
        → Step s (record s { calls = begin re s.limiter.mode rtt was_loss ∷ s.calls })
    accessed :
        (before : List (Place re)) (p : Place re) (later : List (Place re)) (s : Shared)
        → s.calls ≡ before ++ p ∷ later
        → Step s (record {
          limiter = (access re p s.limiter).1;
          calls = before ++ (access re p s.limiter).0 ∷ later;
        })

  pub data Reachable (start : Limiter re) : Shared → Type 0 where
    at_start : Reachable start (record { limiter = start; calls = [] })
    after : (s s' : Shared) → Reachable start s → Step s s' → Reachable start s'

  -- The tokens are not more than the capacity, which is the one of the start, as are the mode and the
  -- maximal rate.
  pub record IsSound (start l : Limiter re) : Type 0 where
    pub within : re.lt l.capacity l.tokens ≡ false
    pub same_capacity : l.capacity ≡ start.capacity
    pub same_mode : l.mode ≡ start.mode
    pub same_max : l.max_rate ≡ start.max_rate

  keep :
      {start l l' : Limiter re}
      → IsSound start l
      → l'.capacity ≡ l.capacity
      → l'.tokens ≡ l.tokens
      → l'.mode ≡ l.mode
      → l'.max_rate ≡ l.max_rate
      → IsSound start l'
  keep s c t m x = record {
    within = rw (c, t) s.within;
    same_capacity = c ∙ s.same_capacity;
    same_mode = m ∙ s.same_mode;
    same_max = x ∙ s.same_max;
  }

  -- An access leaves what only the rounds of `acquire` and the constructor write.
  access-IsSound :
      (start : Limiter re) (p : Place re) (l : Limiter re)
      → IsSound start l
      → IsSound start (access re p l).1
  unfolding access
  access-IsSound start (load_srtt r) l s = keep s refl refl refl refl
  access-IsSound start (store_first_srtt r) l s = keep s refl refl refl refl
  access-IsSound start (store_first_rttvar r) l s = keep s refl refl refl refl
  access-IsSound start (load_rttvar r srtt) l s = keep s refl refl refl refl
  access-IsSound start (store_srtt srtt rttvar) l s = keep s refl refl refl refl
  access-IsSound start (store_rttvar rttvar) l s = keep s refl refl refl refl
  access-IsSound start (add_sample was_loss) l s = keep s refl refl refl refl
  access-IsSound start (add_loss samples) l s = keep s refl refl refl refl
  access-IsSound start (load_losses samples) l s = keep s refl refl refl refl
  access-IsSound start (load_rate samples losses) l s = keep s refl refl refl refl
  access-IsSound start (store_rate samples next) l s = keep s refl refl refl refl
  access-IsSound start reset_samples l s = keep s refl refl refl refl
  access-IsSound start reset_losses l s = keep s refl refl refl refl
  access-IsSound start finished l s = keep s refl refl refl refl

  module _ (comparison : IsComparison re) where
    smaller-within : (c x : re.Real) → re.lt c (smaller re c x) ≡ false
    smaller-within c x = elim (Bool-cases (re.lt x c)) [
      | inl e ↦ rw e (comparison.asymmetric x c e)
      | inr e ↦ rw e (comparison.irreflexive c)
    ]

    refill_locked-IsSound :
        (start : Limiter re) (dt : re.Real) (l : Limiter re)
        → IsSound start l
        → IsSound start (refill_locked re dt l)
    unfolding refill_locked
    refill_locked-IsSound start dt l s = record {
      within = smaller-within l.capacity _;
      same_capacity = s.same_capacity;
      same_mode = s.same_mode;
      same_max = s.same_max;
    }

    take_one-IsSound :
        (start : Limiter re) (l : Limiter re)
        → IsSound start l
        → IsSound start (record l { tokens = re.minus l.tokens (re.decimal 1 0) })
    take_one-IsSound start l s = record {
      within = comparison.minus_one l.capacity l.tokens s.within;
      same_capacity = s.same_capacity;
      same_mode = s.same_mode;
      same_max = s.same_max;
    }

    acquire-IsSound :
        (start : Limiter re) (times : List re.Real) (l : Limiter re) {l' : Limiter re}
        → acquire re times l ≡ some l'
        → IsSound start l
        → IsSound start l'
    unfolding acquire
    acquire-IsSound start [] l h s = cc
    acquire-IsSound start (dt ∷ times) l h s =
        let filled = refill_locked-IsSound start dt l s in
        elim (Bool-cases (re.ge (refill_locked re dt l).tokens (re.decimal 1 0))) [
          | inl e ↦
              let taken =
                ap
                  (λ b.
                    if b
                    then some (record (refill_locked re dt l) {
                      tokens = re.minus (refill_locked re dt l).tokens (re.decimal 1 0);
                    })
                    else acquire re times (refill_locked re dt l))
                  e in
              subst (IsSound start) (some-injective _ _ (sym taken ∙ h))
                (take_one-IsSound start _ filled)
          | inr e ↦
              let waited =
                ap
                  (λ b.
                    if b
                    then some (record (refill_locked re dt l) {
                      tokens = re.minus (refill_locked re dt l).tokens (re.decimal 1 0);
                    })
                    else acquire re times (refill_locked re dt l))
                  e in
              acquire-IsSound start times (refill_locked re dt l) (sym waited ∙ h) filled
        ]

    set_rate-IsSound :
        (start : Limiter re) (rate : re.Real) (l : Limiter re)
        → IsSound start l
        → IsSound start (set_rate re rate l)
    unfolding set_rate
    set_rate-IsSound start rate l s = record {
      within = s.within;
      same_capacity = s.same_capacity;
      same_mode = s.same_mode;
      same_max = s.same_max;
    }

    -- The calls of a shared limiter.
    AreSound : Limiter re → Shared → Type 0
    AreSound start s = IsSound start s.limiter × All (IsPlaced re start.mode) s.calls

    All-access :
        (mode : Mode) (before : List (Place re)) (p : Place re) (later : List (Place re))
        (l : Limiter re)
        → All (IsPlaced re mode) (before ++ p ∷ later)
        → All (IsPlaced re mode) (before ++ (access re p l).0 ∷ later)
    All-access mode [] p later l (h, hs) = (access-IsPlaced re mode p l h, hs)
    All-access mode (q ∷ before) p later l (h, hs) = (h, All-access mode before p later l hs)

    Step-AreSound :
        (start : Limiter re) (s s' : Shared) → Step s s' → AreSound start s → AreSound start s'
    unfolding AreSound
    Step-AreSound start s s' (Step.refilled dt _) (h, hs) =
        (refill_locked-IsSound start dt s.limiter h, hs)
    Step-AreSound start s s' (Step.acquired dt _ l e) (h, hs) =
        (acquire-IsSound start (dt ∷ []) s.limiter e h, hs)
    Step-AreSound start s s' (Step.retimed rate _) (h, hs) =
        (set_rate-IsSound start rate s.limiter h, hs)
    Step-AreSound start s s' (Step.called rtt was_loss _) (h, hs) =
        (h, (rw h.same_mode (begin-IsPlaced re start.mode rtt was_loss), hs))
    Step-AreSound start s s' (Step.accessed before p later _ e) (h, hs) = (
      access-IsSound start p s.limiter h,
      All-access start.mode before p later s.limiter (subst (All (IsPlaced re start.mode)) e hs),
    )

    make-IsSound :
        (rate burst max_rate : re.Real) (mode : Mode)
        → IsSound (make re rate burst mode max_rate) (make re rate burst mode max_rate)
    unfolding make
    make-IsSound rate burst max_rate mode = record {
      within = comparison.irreflexive _;
      same_capacity = refl;
      same_mode = refl;
      same_max = refl;
    }

    -- Whatever calls are made of a limiter, and however the accesses of the calls of `on_response` that
    -- overlap interleave with each other, with `set_rate` and with the rounds of `acquire`: the tokens
    -- are never more than the capacity the limiter was made with, and its mode and maximal rate stay; in
    -- the fixed mode each call is finished at once, and in the adaptive mode a call loads and stores the
    -- rate only where the sample it counted is a multiple of 100.
    pub Reachable-IsSound :
        (rate burst max_rate : re.Real) (mode : Mode) (s : Shared)
        → Reachable (make re rate burst mode max_rate) s
        → IsSound (make re rate burst mode max_rate) s.limiter × All (IsPlaced re mode) s.calls
    unfolding AreSound make
    Reachable-IsSound rate burst max_rate mode s Reachable.at_start =
        (make-IsSound rate burst max_rate mode, tt)
    Reachable-IsSound rate burst max_rate mode s' (Reachable.after s m reached step) =
        Step-AreSound (make re rate burst mode max_rate) s s' step
          (Reachable-IsSound rate burst max_rate mode s reached)
