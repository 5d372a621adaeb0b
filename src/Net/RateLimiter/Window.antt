-- ===== src/Net/RateLimiter/Window.antt =====
-- The counters of the window.
use mathlib.Core.Path.{subst}
use service_port_scanner.Json.{ℤ}
use service_port_scanner.Net.Reals.{RealLib}
use service_port_scanner.Net.RateLimiter.{
  Mode, fixed, adaptive, Limiter, update_rtt, take_sample, count_sample, adjust, on_response,
}
use service_port_scanner.Common.{
  ◌+◌, ◌%◌, ◌≤◌, ◌<◌, ◌≡◌, ◌≢◌, ◌⊎◌, refl, sym, ◌∙◌, Bool, not, Bool-cases, inl, inr, ◌==◌,
  if◌then◌else◌, arith,
}

module _ (re : RealLib) where
  pub record IsWindow (l : Limiter re) : Type 0 where
    pub losses_le : l.loss_count ≤ l.sample_count
    pub samples_lt : l.sample_count < 1000

  pub record SameCounts (l l' : Limiter re) : Type 0 where
    pub same_samples : l'.sample_count ≡ l.sample_count
    pub same_losses : l'.loss_count ≡ l.loss_count
    pub same_rate : l'.rate ≡ l.rate
    pub same_tokens : l'.tokens ≡ l.tokens
    pub same_capacity : l'.capacity ≡ l.capacity

  update_rtt-SameCounts : (r : re.Real) (l : Limiter re) → SameCounts l (update_rtt re r l)
  unfolding update_rtt
  update_rtt-SameCounts r l = ground arith

  take_sample-SameCounts :
      (rtt : ℤ) (was_loss : Bool) (l : Limiter re) → SameCounts l (take_sample re rtt was_loss l)
  unfolding take_sample
  take_sample-SameCounts (ℤ.pos n) was_loss l =
      ground (arith, update_rtt-SameCounts (re.of_count n) l)
  take_sample-SameCounts (ℤ.negsuc n) was_loss l = ground arith

  count_sample-lem :
      (was_loss : Bool) (l : Limiter re)
      → IsWindow l
      → ((count_sample re was_loss l).sample_count ≡ l.sample_count + 1)
        × ((count_sample re was_loss l).loss_count ≤ l.sample_count + 1)
        × ((count_sample re was_loss l).rate ≡ l.rate)
        × ((count_sample re was_loss l).tokens ≡ l.tokens)
        × ((count_sample re was_loss l).capacity ≡ l.capacity)
  unfolding count_sample
  count_sample-lem was_loss l w = ground (arith, w.losses_le, w.samples_lt)

  adjust-lem :
      (l : Limiter re)
      → l.sample_count ≤ 1000
      → l.loss_count ≤ l.sample_count
      → ((adjust re l).sample_count ≡ l.sample_count % 1000)
        × ((adjust re l).loss_count ≤ (adjust re l).sample_count)
        × ((adjust re l).tokens ≡ l.tokens)
        × ((adjust re l).capacity ≡ l.capacity)
  unfolding adjust
  adjust-lem l h k = ground arith

  IsWindow-SameCounts : (l l' : Limiter re) → SameCounts l l' → IsWindow l → IsWindow l'
  IsWindow-SameCounts l l' s w = record {
    losses_le = omega (arith, s.same_samples, s.same_losses, w.losses_le);
    samples_lt = omega (arith, s.same_samples, w.samples_lt);
  }

  -- What a report does: nothing in the fixed mode; in the adaptive mode the samples are counted
  -- modulo 1000, and the rate stays but for every hundredth sample.
  pub data Responds (l : Limiter re) : Limiter re → Type 0 where
    ignored : l.mode ≡ fixed → Responds l l
    counted :
        (l' : Limiter re)
        → l.mode ≡ adaptive
        → (l.sample_count + 1) % 100 ≢ 0
        → l'.sample_count ≡ (l.sample_count + 1) % 1000
        → l'.rate ≡ l.rate
        → Responds l l'
    adjusted :
        (l' : Limiter re)
        → l.mode ≡ adaptive
        → (l.sample_count + 1) % 100 ≡ 0
        → l'.sample_count ≡ (l.sample_count + 1) % 1000
        → Responds l l'

  pub record IsReported (l l' : Limiter re) : Type 0 where
    pub responds : Responds l l'
    pub window : IsWindow l'
    pub tokens_kept : l'.tokens ≡ l.tokens
    pub capacity_kept : l'.capacity ≡ l.capacity

  on_response_adaptive :
      (rtt : ℤ) (was_loss : Bool) (l : Limiter re)
      → l.mode ≡ adaptive
      → IsWindow l
      → IsReported l (
          if not
            ((count_sample re was_loss (take_sample re rtt was_loss l)).sample_count % 100 == 0)
          then count_sample re was_loss (take_sample re rtt was_loss l)
          else adjust re (count_sample re was_loss (take_sample re rtt was_loss l)))
  on_response_adaptive rtt was_loss l m w =
      let s = take_sample-SameCounts rtt was_loss l in
      let taken = take_sample re rtt was_loss l in
      let c = count_sample-lem was_loss taken (IsWindow-SameCounts l taken s w) in
      let now = count_sample re was_loss taken in
      let more : now.sample_count ≡ l.sample_count + 1 = omega (arith, c.0, s.same_samples) in
      elim (Bool-cases (now.sample_count % 100 == 0)) [
        | inl e ↦
            let a = adjust-lem now (omega (arith, more, w.samples_lt)) (omega (arith, c.0, c.1)) in
            rw e (record {
              responds =
                  Responds.adjusted (adjust re now) m (ground (arith, more, e))
                    (omega (arith, a.0, more));
              window = record { losses_le = a.1; samples_lt = omega (arith, a.0) };
              tokens_kept = a.2 ∙ c.3 ∙ s.same_tokens;
              capacity_kept = a.3 ∙ c.4 ∙ s.same_capacity;
            })
        | inr e ↦
            let h : now.sample_count % 100 ≢ 0 = ground (arith, e) in
            rw e (record {
              responds =
                  Responds.counted now m (λ z. h (omega (arith, more, z)))
                    (omega (arith, more, h, w.samples_lt)) (c.2 ∙ s.same_rate);
              window = record {
                losses_le = omega (arith, c.0, c.1);
                samples_lt = omega (arith, more, h, w.samples_lt);
              };
              tokens_kept = c.3 ∙ s.same_tokens;
              capacity_kept = c.4 ∙ s.same_capacity;
            })
      ]

  Mode-cases : (m : Mode) → (m ≡ fixed) ⊎ (m ≡ adaptive)
  Mode-cases fixed = inl refl
  Mode-cases adaptive = inr refl

  pub in_fixed :
      (m : Mode) (l l' : Limiter re) → m ≡ fixed → elim m [ fixed ↦ l | adaptive ↦ l' ] ≡ l
  in_fixed fixed l l' h = refl
  in_fixed adaptive l l' h = cc

  pub in_adaptive :
      (m : Mode) (l l' : Limiter re) → m ≡ adaptive → elim m [ fixed ↦ l | adaptive ↦ l' ] ≡ l'
  in_adaptive fixed l l' h = cc
  in_adaptive adaptive l l' h = refl

  -- A report that no other overlaps keeps the window: the losses are at most the samples, and these stay below 1000. In
  -- the fixed mode it changes nothing; in the adaptive mode the samples go up by one modulo 1000,
  -- and the rate stays but for every hundredth sample. The tokens and the capacity stay.
  pub on_response-IsReported :
      (rtt : ℤ) (was_loss : Bool) (l : Limiter re)
      → IsWindow l
      → IsReported l (on_response re rtt was_loss l)
  unfolding on_response
  on_response-IsReported rtt was_loss l w = elim (Mode-cases l.mode) [
    | inl m ↦ subst (IsReported l) (sym (in_fixed l.mode l _ m)) (record {
      responds = Responds.ignored m;
      window = w;
      tokens_kept = refl;
      capacity_kept = refl;
    })
    | inr m ↦
        subst (IsReported l) (sym (in_adaptive l.mode l _ m))
          (on_response_adaptive rtt was_loss l m w)
  ]
