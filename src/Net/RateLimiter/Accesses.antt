-- ===== src/Net/RateLimiter/Accesses.antt =====
-- src/net/rate_limiter.cpp, `on_response` as the threads of the pool run it: each of its accesses to an
-- atomic is a step of its own, and the accesses of several calls interleave. `RateLimiter.on_response`
-- is a call that no other overlaps (`alone-on_response`).
use service_port_scanner.Json.{ℤ}
use service_port_scanner.Net.Reals.{RealLib}
use service_port_scanner.Net.RateLimiter.Window.{in_fixed, in_adaptive}
use service_port_scanner.Net.RateLimiter.{
  Mode, fixed, adaptive, Limiter, ewma_alpha, ewma_beta, adjust_every, window_reset, update_rtt,
  take_sample, count_sample, next_rate, adjust, on_response,
}
use service_port_scanner.Common.{
  ℕ, zero, suc, ◌+◌, ◌%◌, ◌^◌, ◌≡◌, refl, Bool, true, false, not, Bool-cases, inl, inr, leb, ◌==◌,
  if◌then◌else◌, ap, sym, ◌∙◌,
}

module _ (re : RealLib) where
  open re use {Real, decimal, lt}

  -- Where a call of `on_response` is, with its local variables: before the named access, or finished.
  pub data Place : Type 0 where
    load_srtt : Real → Place
    store_first_srtt store_first_rttvar : Real → Place
    load_rttvar : Real → Real → Place
    store_srtt : Real → Real → Place
    store_rttvar : Real → Place
    add_sample : Bool → Place
    add_loss : ℕ → Place
    load_losses : ℕ → Place
    load_rate : ℕ → ℕ → Place
    store_rate : ℕ → Real → Place
    reset_samples reset_losses finished : Place

  -- The call up to its first access.
  unfoldable pub begin : Mode → ℤ → Bool → Place
  begin fixed rtt was_loss = finished
  begin adaptive (ℤ.pos n) was_loss =
      if not was_loss then load_srtt (re.of_count n) else add_sample was_loss
  begin adaptive (ℤ.negsuc n) was_loss = add_sample was_loss

  abbrev pub behind_count : ℕ → Place
  behind_count samples =
      if not (samples % adjust_every re == 0) then finished else load_losses samples

  abbrev pub behind_rate : ℕ → Place
  behind_rate samples = if leb (window_reset re) samples then reset_samples else finished

  -- The next access, and where the call is behind it.
  unfoldable pub access : Place → Limiter re → Place × Limiter re
  unfolding next_rate
  access (load_srtt r) l =
      (if lt l.srtt_ms (decimal 0 0) then store_first_srtt r else load_rttvar r l.srtt_ms, l)
  access (store_first_srtt r) l = (store_first_rttvar r, record l { srtt_ms = r })
  access (store_first_rttvar r) l =
      (add_sample false, record l { rttvar_ms = re.times r (decimal 5 1) })
  access (load_rttvar r srtt) l = (
    store_srtt
        (re.plus (re.times (re.minus (decimal 1 0) (ewma_alpha re)) srtt)
          (re.times (ewma_alpha re) r))
        (re.plus (re.times (re.minus (decimal 1 0) (ewma_beta re)) l.rttvar_ms)
          (re.times (ewma_beta re) (re.abs (re.minus srtt r)))),
    l,
  )
  access (store_srtt srtt rttvar) l = (store_rttvar rttvar, record l { srtt_ms = srtt })
  access (store_rttvar rttvar) l = (add_sample false, record l { rttvar_ms = rttvar })
  access (add_sample was_loss) l =
      let samples = (l.sample_count + 1) % 2 ^ 64 in
      (
        if was_loss then add_loss samples else behind_count samples,
        record l { sample_count = samples },
      )
  access (add_loss samples) l =
      (behind_count samples, record l { loss_count = (l.loss_count + 1) % 2 ^ 64 })
  access (load_losses samples) l = (load_rate samples l.loss_count, l)
  access (load_rate samples losses) l =
      let next = next_rate re (record l { sample_count = samples; loss_count = losses }) in
      (if re.ne next l.rate then store_rate samples next else behind_rate samples, l)
  access (store_rate samples next) l = (behind_rate samples, record l { rate = next })
  access reset_samples l = (reset_losses, record l { sample_count = 0 })
  access reset_losses l = (finished, record l { loss_count = 0 })
  access finished l = (finished, l)

  -- A call alone, for a number of accesses.
  unfoldable pub alone : ℕ → Place → Limiter re → Place × Limiter re
  unfolding access
  alone zero p l = (p, l)
  alone (suc rounds) p l = alone rounds (access p l).0 (access p l).1

  alone-more :
      (rounds : ℕ) (p : Place) (l : Limiter re) {l' : Limiter re}
      → alone rounds p l ≡ (finished, l')
      → alone (suc rounds) p l ≡ (finished, l')
  unfolding alone access
  alone-more zero p l h = ap (λ (q : Place × Limiter re). access q.0 q.1) h
  alone-more (suc rounds) p l h = alone-more rounds (access p l).0 (access p l).1 h

  adjust-alone : (l : Limiter re) → alone 5 (load_losses l.sample_count) l ≡ (finished, adjust re l)
  unfolding alone access adjust
  adjust-alone l = elim (Bool-cases (re.ne (next_rate re l) l.rate)) [
    | inl e ↦ elim (Bool-cases (leb 1000 l.sample_count)) [
      | inl h ↦ rw (e, h) refl
      | inr h ↦ rw (e, h) refl
    ]
    | inr e ↦ elim (Bool-cases (leb 1000 l.sample_count)) [
      | inl h ↦ rw (e, h) refl
      | inr h ↦ rw (e, h) refl
    ]
  ]

  -- A call from the count of its sample on.
  abbrev counted : Bool → Limiter re → Limiter re
  counted was_loss l =
      let c = count_sample re was_loss l in
      if not (c.sample_count % 100 == 0) then c else adjust re c

  add_sample-alone :
      (was_loss : Bool) (l : Limiter re)
      → alone 7 (add_sample was_loss) l ≡ (finished, counted was_loss l)
  unfolding alone access count_sample
  add_sample-alone true l = elim (Bool-cases ((l.sample_count + 1) % 2 ^ 64 % 100 == 0)) [
    | inl e ↦ rw e (adjust-alone (count_sample re true l))
    | inr e ↦ rw e refl
  ]
  add_sample-alone false l = elim (Bool-cases ((l.sample_count + 1) % 2 ^ 64 % 100 == 0)) [
    | inl e ↦ rw e (
        alone-more 5 (load_losses (count_sample re false l).sample_count) (count_sample re false l)
          (adjust-alone (count_sample re false l)))
    | inr e ↦ rw e refl
  ]

  first_sample-alone :
      (r : Real) (l : Limiter re)
      → lt l.srtt_ms (decimal 0 0) ≡ true
      → alone 11 (load_srtt r) l ≡ (finished, counted false (update_rtt re r l))
  unfolding alone access update_rtt
  first_sample-alone r l e =
      let l' = record l { srtt_ms = r; rttvar_ms = re.times r (decimal 5 1) } in
      rw e (alone-more 7 (add_sample false) l' (add_sample-alone false l'))

  later_sample-alone :
      (r : Real) (l : Limiter re)
      → lt l.srtt_ms (decimal 0 0) ≡ false
      → alone 11 (load_srtt r) l ≡ (finished, counted false (update_rtt re r l))
  unfolding alone access update_rtt
  later_sample-alone r l e = rw e (
      add_sample-alone false (record l {
        srtt_ms =
            re.plus (re.times (re.minus (decimal 1 0) (ewma_alpha re)) l.srtt_ms)
              (re.times (ewma_alpha re) r);
        rttvar_ms =
            re.plus (re.times (re.minus (decimal 1 0) (ewma_beta re)) l.rttvar_ms)
              (re.times (ewma_beta re) (re.abs (re.minus l.srtt_ms r)));
      }))

  finished_stays : (l : Limiter re) → alone 11 finished l ≡ (finished, l)
  unfolding alone access
  finished_stays l = refl

  counted-alone :
      (was_loss : Bool) (l : Limiter re)
      → alone 11 (add_sample was_loss) l ≡ (finished, counted was_loss l)
  counted-alone was_loss l =
      let p = add_sample was_loss in
      alone-more 10 p l
        (alone-more 9 p l (alone-more 8 p l (alone-more 7 p l (add_sample-alone was_loss l))))

  -- A call that no other overlaps does what `on_response` does, in at most eleven accesses.
  alone-on_response :
      (rtt : ℤ) (was_loss : Bool) (mode : Mode) (l : Limiter re)
      → l.mode ≡ mode
      → alone 11 (begin mode rtt was_loss) l ≡ (finished, on_response re rtt was_loss l)
  unfolding begin on_response take_sample
  alone-on_response rtt was_loss fixed l h =
      finished_stays l ∙ ap (λ x. (finished, x)) (sym (in_fixed re l.mode l _ h))
  alone-on_response (ℤ.negsuc n) was_loss adaptive l h =
      counted-alone was_loss l ∙ ap (λ x. (finished, x)) (sym (in_adaptive re l.mode l _ h))
  alone-on_response (ℤ.pos n) true adaptive l h =
      counted-alone true l ∙ ap (λ x. (finished, x)) (sym (in_adaptive re l.mode l _ h))
  alone-on_response (ℤ.pos n) false adaptive l h =
      (elim (Bool-cases (lt l.srtt_ms (decimal 0 0))) [
        | inl e ↦ first_sample-alone (re.of_count n) l e
        | inr e ↦ later_sample-alone (re.of_count n) l e
      ])
      ∙ ap (λ x. (finished, x)) (sym (in_adaptive re l.mode l _ h))
