-- ===== src/Tests/NetTests.antt =====
-- Runs of src/net, and its theorems on concrete inputs. Real numbers are thousandths here.
use service_port_scanner.Json.{ℤ}
use service_port_scanner.Net.RateLimiter.Accesses.{
  load_srtt, add_sample, add_loss, reset_samples, reset_losses, begin, access,
}
use service_port_scanner.Net.RateLimiter.Reachable.{
  Shared, Step, Reachable, IsSound, Reachable-IsSound,
}
use service_port_scanner.Net.RateLimiter.Places.{IsPlaced}
use service_port_scanner.Net.RateLimiter.Window.{IsReported, on_response-IsReported}
use service_port_scanner.Net.RateLimiter.{adaptive, Limiter, make, on_response, acquire}
use service_port_scanner.Net.AsyncPool.Calls.{
  start_call, stop_call, after_calls, IsPool, after_calls-IsPool,
}
use service_port_scanner.Net.AsyncPool.{resolve_thread_count, make_pool, destroy}
use service_port_scanner.Net.Reals.{RealLib, IsComparison}
use service_port_scanner.Common.{
  All, ℕ, ◌+◌, ◌-◌, ◌*◌, ◌/◌, ◌^◌, ◌≡◌, ◌≢◌, refl, true, false, not, none, some, [], ◌∷◌, ltb, leb,
  ◌==◌, arith,
}

abbrev pub thousandths : RealLib
thousandths = record {
  Real = ℕ;
  decimal = λ n k. n * 1000 / 10 ^ k;
  of_count = λ n. n * 1000;
  plus = ◌+◌;
  minus = ◌-◌;
  times = λ a b. a * b / 1000;
  divide = λ a b. a * 1000 / b;
  abs = λ a. a;
  lt = ltb;
  ge = λ a b. leb b a;
  ne = λ a b. not (a == b);
}

pub thousandths-IsComparison : IsComparison thousandths
thousandths-IsComparison = record {
  irreflexive = λ a. ground arith;
  asymmetric = λ a b h. ground arith;
  minus_one = λ a b h. ground arith;
}

-- 2 connections a second, a burst of 1, and 8 at most.
abbrev pub limiter : Limiter thousandths
limiter = make thousandths 2000 1000 adaptive 8000

-- The token of the start, and then one after half a second.
acquire_runs :
    ((acquire thousandths (0 ∷ []) limiter) ≡ some (record limiter { tokens = 0 }))
    × (acquire thousandths (100 ∷ []) (record limiter { tokens = 0 }) ≡ none)
    × (acquire thousandths (100 ∷ 400 ∷ []) (record limiter { tokens = 0 })
        ≡ some (record limiter { tokens = 0 }))
unfolding make acquire
acquire_runs = (refl, refl, refl)

-- The hundredth sample with no loss raises the rate by a twentieth.
on_response_run :
    (on_response thousandths (ℤ.pos 5) false (record limiter { sample_count = 99 })).rate ≡ 2100
unfolding make on_response
on_response_run = refl

on_response-IsReported_example :
    IsReported thousandths
      (record limiter { sample_count = 999; loss_count = 3 })
      (on_response thousandths
        (ℤ.negsuc 0)
        true
        (record limiter { sample_count = 999; loss_count = 3 }))
on_response-IsReported_example =
    on_response-IsReported thousandths (ℤ.negsuc 0) true
      (record limiter { sample_count = 999; loss_count = 3 })
      (record { losses_le = omega arith; samples_lt = omega arith })

-- A token is taken, and one call of `on_response` makes its first access.
abbrev taken : Shared thousandths
taken = record { limiter = record limiter { tokens = 0 }; calls = [] }

abbrev one_call : Shared thousandths
one_call = record taken { calls = load_srtt 5000 ∷ [] }

abbrev one_access : Shared thousandths
one_access = record taken { calls = (access thousandths (load_srtt 5000) taken.limiter).0 ∷ [] }

one_access-Reachable : Reachable thousandths limiter one_access
unfolding make acquire begin access
one_access-Reachable =
    Reachable.after one_call one_access
      (Reachable.after taken one_call
        (Reachable.after (record { limiter = limiter; calls = [] }) taken Reachable.at_start
          (Step.acquired 0 (record { limiter = limiter; calls = [] }) taken.limiter acquire_runs.0))
        (Step.called (ℤ.pos 5) false taken))
      (Step.accessed [] (load_srtt 5000) [] one_call refl)

Reachable-IsSound_example :
    IsSound thousandths limiter one_access.limiter
    × All (IsPlaced thousandths adaptive) one_access.calls
Reachable-IsSound_example =
    Reachable-IsSound thousandths thousandths-IsComparison 2000 1000 8000 adaptive one_access
      one_access-Reachable

-- A call adds its sample, another one resets both counters, and the first one adds its loss: one loss
-- is left with no sample.
abbrev reset_between : Limiter thousandths
reset_between =
    let counted =
      (access thousandths (add_sample true) (record limiter { sample_count = 1000 })).1 in
    let both_reset =
      (access thousandths reset_losses (access thousandths reset_samples counted).1).1 in
    (access thousandths (add_loss 1001) both_reset).1

reset_between_run : (reset_between.sample_count ≡ 0) × (reset_between.loss_count ≡ 1)
unfolding access make
reset_between_run = (refl, refl)

after_calls-IsPool_example :
    let p =
      after_calls (make_pool 0 0) (start_call ∷ stop_call true ∷ start_call ∷ start_call ∷ []) in
    IsPool (resolve_thread_count 0 0) true p
    × (resolve_thread_count 0 0 ≢ 0)
    × ((destroy p).running ≡ false)
    × ((destroy p).workers ≡ 0)
after_calls-IsPool_example =
    after_calls-IsPool 0 0 (start_call ∷ stop_call true ∷ start_call ∷ start_call ∷ [])
