-- ===== src/Net/RateLimiter/Places.antt =====
-- Where the calls of `on_response` may be that run on a limiter, by its mode.
use service_port_scanner.Json.{ℤ}
use service_port_scanner.Net.Reals.{RealLib}
use service_port_scanner.Net.RateLimiter.Accesses.{
  Place, load_srtt, store_first_srtt, load_rttvar, add_sample, add_loss, load_losses, load_rate,
  store_rate, finished, begin, behind_count, behind_rate, access,
}
use service_port_scanner.Net.RateLimiter.{Mode, fixed, adaptive, Limiter, next_rate}
use service_port_scanner.Common.{
  ℕ, ◌%◌, ◌==◌, ==_iff, leb, true, ◌≡◌, Bool, false, Bool-cases, inl, inr, if◌then◌else◌,
}

module _ (re : RealLib) where
  -- In the adaptive mode a call is on its way to the rate only where the sample it counted is a
  -- multiple of 100; in the fixed mode it has nothing to do.
  pub IsPlaced : Mode → Place re → Type 0
  IsPlaced fixed finished = Unit
  IsPlaced fixed _ = ⊥
  IsPlaced adaptive (load_losses samples) = samples % 100 ≡ 0
  IsPlaced adaptive (load_rate samples losses) = samples % 100 ≡ 0
  IsPlaced adaptive (store_rate samples next) = samples % 100 ≡ 0
  IsPlaced adaptive _ = Unit

  pub begin-IsPlaced :
      (mode : Mode) (rtt : ℤ) (was_loss : Bool) → IsPlaced mode (begin re mode rtt was_loss)
  unfolding begin IsPlaced
  begin-IsPlaced fixed rtt was_loss = tt
  begin-IsPlaced adaptive (ℤ.negsuc n) was_loss = tt
  begin-IsPlaced adaptive (ℤ.pos n) true = tt
  begin-IsPlaced adaptive (ℤ.pos n) false = tt

  behind_count-IsPlaced : (samples : ℕ) → IsPlaced adaptive (behind_count re samples)
  unfolding IsPlaced
  behind_count-IsPlaced samples = elim (Bool-cases (samples % 100 == 0)) [
    | inl e ↦ rw e ((==_iff _ 0).0 e)
    | inr e ↦ rw e tt
  ]

  behind_rate-IsPlaced : (samples : ℕ) → IsPlaced adaptive (behind_rate re samples)
  unfolding IsPlaced
  behind_rate-IsPlaced samples = elim (Bool-cases (leb 1000 samples)) [
    | inl e ↦ rw e tt
    | inr e ↦ rw e tt
  ]

  either_IsPlaced :
      (b : Bool) (p q : Place re)
      → IsPlaced adaptive p
      → IsPlaced adaptive q
      → IsPlaced adaptive (if b then p else q)
  either_IsPlaced true p q h k = h
  either_IsPlaced false p q h k = k

  pub access-IsPlaced :
      (mode : Mode) (p : Place re) (l : Limiter re)
      → IsPlaced mode p
      → IsPlaced mode (access re p l).0
  unfolding access IsPlaced
  access-IsPlaced fixed finished l h = tt
  access-IsPlaced fixed p l h = absurd h
  access-IsPlaced adaptive (load_srtt r) l h =
      either_IsPlaced (re.lt l.srtt_ms (re.decimal 0 0)) (store_first_srtt r)
        (load_rttvar r l.srtt_ms) tt tt
  access-IsPlaced adaptive (add_sample was_loss) l h =
      either_IsPlaced was_loss _ _ tt (behind_count-IsPlaced _)
  access-IsPlaced adaptive (add_loss samples) l h = behind_count-IsPlaced samples
  access-IsPlaced adaptive (load_losses samples) l h = h
  access-IsPlaced adaptive (load_rate samples losses) l h =
      let next = next_rate re (record l { sample_count = samples; loss_count = losses }) in
      either_IsPlaced (re.ne next l.rate) (store_rate samples next) (behind_rate re samples) h
        (behind_rate-IsPlaced samples)
  access-IsPlaced adaptive (store_rate samples next) l h = behind_rate-IsPlaced samples
  access-IsPlaced adaptive p l h = tt
