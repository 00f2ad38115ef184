-- ===== src/RateLimit/Examples.antt =====
-- The limiter at a concrete run: a fallback that allows every request.
use go_gateway.Prelude.{ℕ, ℤ, pos, ◌≡◌, refl, true, false, List, [], ◌∷◌, none, some, arith}
use go_gateway.CircuitBreaker.{new, allow, record_failure}
use go_gateway.RateLimit.{verdict, Limiter, new_redis_limiter, allow_redis, after_eval}
use go_gateway.RateLimit.Window.{no_keys, sliding_window, decide, evict, zadd}
use go_gateway.RateLimit.Sliding.{answers, sliding_log, answers-sliding_log}
use go_gateway.RateLimit.Fallback.{Event, asked, due, event, events, answered_probe_strands}

abbrev all_pass : Limiter ℤ ℕ
all_pass = record { ask = λ key l. (verdict true (pos 7), l) }

abbrev same_number : ℤ → ℤ
same_number x = x

-- Five requests that Redis does not answer.
abbrev no_redis : List (Event same_number all_pass)
no_redis =
    asked 1 2 "ip" none
    ∷ asked 3 4 "ip" none
    ∷ asked 5 6 "ip" none
    ∷ asked 7 8 "ip" none
    ∷ asked 9 10 "ip" none
    ∷ []

abbrev half_a_minute : ℕ
half_a_minute = 30000000010

answered_probe_strands_example :
    let r = events same_number all_pass no_redis (new_redis_limiter 0) in
    let (v, r₁) =
      allow_redis same_number all_pass half_a_minute half_a_minute "ip"
        (some (pos 0 ∷ pos 0 ∷ []))
        r in
    let r₂ = events same_number all_pass (asked 40000000000 40000000001 "ip" none ∷ due ∷ []) r₁ in
    (v ≡ verdict false (pos 0))
    × ((allow_redis same_number all_pass 90000000000 90000000001 "ip"
          (some (pos 0 ∷ pos 0 ∷ []))
          r₂).0
        ≡ verdict true (pos 7))
unfolding events event allow_redis after_eval new_redis_limiter new allow record_failure
answered_probe_strands_example =
    answered_probe_strands same_number all_pass no_redis 0 half_a_minute half_a_minute "ip"
      (pos 0 ∷ pos 0 ∷ []) (asked 40000000000 40000000001 "ip" none ∷ due ∷ []) 90000000000
      90000000001 "ip" (some (pos 0 ∷ pos 0 ∷ [])) refl (omega arith) refl

-- Three requests in a window of 100 ms with a limit of 2, and one after the keys have expired.
answers-run :
    answers 100 2 (1000 ∷ 1000 ∷ 1099 ∷ 9000 ∷ []) no_keys
    ≡ (pos 1 ∷ pos 1 ∷ []) ∷ (pos 1 ∷ pos 0 ∷ []) ∷ (pos 0 ∷ pos 0 ∷ []) ∷ (pos 1 ∷ pos 1 ∷ []) ∷ []
unfolding answers sliding_window decide evict zadd
answers-run = refl

answers-sliding_log_example :
    answers 100 2 (1000 ∷ 1000 ∷ 1099 ∷ 9000 ∷ []) no_keys
    ≡ sliding_log 100 2 (1000 ∷ 1000 ∷ 1099 ∷ 9000 ∷ []) []
answers-sliding_log_example =
    answers-sliding_log 100 2 (1000 ∷ 1000 ∷ 1099 ∷ 9000 ∷ []) (omega arith) (omega arith)
