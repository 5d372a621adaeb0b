-- ===== src/Net/RateLimiter.antt =====
-- src/net/rate_limiter.cpp and its header: a token bucket whose rate follows the losses. `on_response`
-- is here a call that no other overlaps; Accesses has the steps of overlapping calls. The clock is an
-- argument, the seconds since the last refill. `double` is a parameter.
pub mod Window
pub mod Accesses
pub mod Places
pub mod Reachable
use service_port_scanner.Json.{ℤ}
use service_port_scanner.Net.Reals.{RealLib}
use service_port_scanner.Common.{
  ℕ, ◌+◌, ◌%◌, ◌^◌, Bool, true, false, not, ◌&&◌, Option, none, some, List, [], ◌∷◌, leb, ◌==◌,
  if◌then◌else◌,
}

pub data Mode : Type 0 where
  fixed adaptive : Mode

module _ (re : RealLib) where
  open re use {Real, decimal, lt}

  -- The constants of the adaptation.
  abbrev pub ewma_alpha : Real
  ewma_alpha = decimal 125 3

  abbrev pub ewma_beta : Real
  ewma_beta = decimal 25 2

  abbrev pub loss_high : Real
  loss_high = decimal 5 2

  abbrev pub loss_low : Real
  loss_low = decimal 1 2

  abbrev pub step_down : Real
  step_down = decimal 7 1

  abbrev pub step_up : Real
  step_up = decimal 105 2

  abbrev pub adjust_every : ℕ
  adjust_every = 100

  abbrev pub window_reset : ℕ
  window_reset = 1000

  -- `std::max` and `std::min`.
  abbrev pub larger : Real → Real → Real
  larger a b = if lt a b then b else a

  abbrev pub smaller : Real → Real → Real
  smaller a b = if lt b a then b else a

  pub record Limiter : Type 0 where
    pub rate : Real
    pub capacity : Real
    pub tokens : Real
    pub mode : Mode
    pub max_rate : Real
    pub srtt_ms : Real
    pub rttvar_ms : Real
    pub sample_count : ℕ
    pub loss_count : ℕ

  -- The constructor.
  unfoldable pub make : Real → Real → Mode → Real → Limiter
  make tokens_per_second bucket_capacity mode max_rate = record {
    rate = larger (decimal 1 1) tokens_per_second;
    capacity = larger (decimal 1 0) bucket_capacity;
    tokens = larger (decimal 1 0) bucket_capacity;
    mode = mode;
    max_rate = larger tokens_per_second max_rate;
    srtt_ms = re.minus (decimal 0 0) (decimal 1 0);
    rttvar_ms = decimal 0 0;
    sample_count = 0;
    loss_count = 0;
  }

  unfoldable pub refill_locked : Real → Limiter → Limiter
  refill_locked dt l = record l {
    tokens = smaller l.capacity (re.plus l.tokens (re.times dt l.rate));
  }

  unfoldable pub set_rate : Real → Limiter → Limiter
  set_rate tokens_per_second l = record l { rate = larger (decimal 1 1) tokens_per_second }

  unfoldable pub loss_ratio : Limiter → Real
  loss_ratio l =
      if l.sample_count == 0
      then decimal 0 0
      else re.divide (re.of_count l.loss_count) (re.of_count l.sample_count)

  -- The estimate of the round-trip time, from a sample of `r` milliseconds.
  unfoldable pub update_rtt : Real → Limiter → Limiter
  update_rtt r l =
      if lt l.srtt_ms (decimal 0 0)
      then record l { srtt_ms = r; rttvar_ms = re.times r (decimal 5 1) }
      else record l {
        srtt_ms =
            re.plus (re.times (re.minus (decimal 1 0) ewma_alpha) l.srtt_ms)
              (re.times ewma_alpha r);
        rttvar_ms =
            re.plus (re.times (re.minus (decimal 1 0) ewma_beta) l.rttvar_ms)
              (re.times ewma_beta (re.abs (re.minus l.srtt_ms r)));
      }

  -- `if (!was_loss && rtt.count() >= 0)`.
  unfoldable pub take_sample : ℤ → Bool → Limiter → Limiter
  unfolding update_rtt
  take_sample (ℤ.pos n) was_loss l = if not was_loss then update_rtt (re.of_count n) l else l
  take_sample (ℤ.negsuc n) was_loss l = l

  unfoldable pub count_sample : Bool → Limiter → Limiter
  count_sample was_loss l = record l {
    sample_count = (l.sample_count + 1) % 2 ^ 64;
    loss_count = if was_loss then (l.loss_count + 1) % 2 ^ 64 else l.loss_count;
  }

  unfoldable pub next_rate : Limiter → Real
  next_rate l =
      let ratio = re.divide (re.of_count l.loss_count) (re.of_count l.sample_count) in
      if lt loss_high ratio
      then larger (decimal 1 0) (re.times l.rate step_down)
      else if lt ratio loss_low
      then smaller l.max_rate (re.times l.rate step_up)
      else l.rate

  -- From the rate's adjustment to the end of `on_response`.
  unfoldable pub adjust : Limiter → Limiter
  unfolding next_rate
  adjust l =
      let next = next_rate l in
      let l' = if re.ne next l.rate then record l { rate = next } else l in
      if leb window_reset l.sample_count then record l' { sample_count = 0; loss_count = 0 } else l'

  unfoldable pub on_response : ℤ → Bool → Limiter → Limiter
  unfolding take_sample count_sample adjust
  on_response rtt was_loss l = elim l.mode [
    | fixed ↦ l
    | adaptive ↦
        let counted = count_sample was_loss (take_sample rtt was_loss l) in
        if not (counted.sample_count % adjust_every == 0) then counted else adjust counted
  ]

  -- The loop of `acquire`, with the time that passes before each round; `none` is still waiting.
  unfoldable pub acquire : List Real → Limiter → Option Limiter
  unfolding refill_locked
  acquire [] l = none
  acquire (dt ∷ later) l =
      let filled = refill_locked dt l in
      let waited = acquire later filled in
      if re.ge filled.tokens (decimal 1 0)
      then some (record filled { tokens = re.minus filled.tokens (decimal 1 0) })
      else waited
