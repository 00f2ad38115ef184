-- ===== src/TokenBucket/Examples.antt =====
-- The token buckets at concrete histories, with whole numbers in place of `float64`.
use go_gateway.Prelude.{ℕ, ◌≤◌, ◌≡◌, refl, true, false, List, [], ◌∷◌, arith}
use go_gateway.Go.Whole.{whole_numbers}
use go_gateway.RateLimit.{verdict, limiter_error}
use go_gateway.TokenBucket.{
  TokenBucket, new_token_bucket, Event, request, ticked, closed, verdicts, at_request, take_token,
  allow_key, allow_bucket, swept, sweep, tick, close_sweep,
}
use go_gateway.TokenBucket.Sweep.{without_ticks, sweeps_unobservable}
use go_gateway.TokenBucket.Bounds.{IsCounting, grants, grants_burst}

-- Two tokens a second, three at most.
abbrev three : TokenBucket ℕ
three = new_token_bucket 2 3

-- A sweep falls between the requests of one key, twelve minutes apart.
abbrev slow_client : List Event
slow_client =
    request false 0 "ip"
    ∷ request false 1 "ip"
    ∷ ticked false 700000000000
    ∷ request true 700000000001 "ip"
    ∷ request false 720000000000 "ip"
    ∷ closed 720000000001
    ∷ []

slow_client-verdicts :
    verdicts slow_client three
    ≡ verdict true 2 ∷ verdict true 1 ∷ limiter_error ∷ verdict true 2 ∷ []
unfolding verdicts new_token_bucket allow_bucket allow_key at_request take_token tick sweep swept
    close_sweep
slow_client-verdicts = refl

sweeps_unobservable_example :
    verdicts slow_client three ≡ verdicts (without_ticks slow_client) three
sweeps_unobservable_example = sweeps_unobservable 0 slow_client three (omega arith)

whole-IsCounting : IsCounting (λ (x : ℕ). x) 2 3
whole-IsCounting = record {
  burst_irrefl = refl;
  whole_mono = λ x h. ground arith;
  sub_one = λ x h below. (ground arith, ground arith);
  no_time = λ x. omega arith;
}

abbrev burst : List Event
burst =
    request false 5 "ip"
    ∷ request false 5 "other"
    ∷ request false 5 "ip"
    ∷ ticked false 5
    ∷ request false 5 "ip"
    ∷ request false 5 "ip"
    ∷ []

burst-granted : grants "ip" burst three ≡ 3
unfolding grants new_token_bucket allow_bucket allow_key at_request take_token tick sweep swept
    close_sweep
burst-granted = refl

grants_burst_example : grants "ip" burst three ≤ 3
unfolding new_token_bucket
grants_burst_example = grants_burst (λ (x : ℕ). x) 5 "ip" burst three whole-IsCounting (omega arith)
