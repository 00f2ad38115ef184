-- ===== src/CircuitBreaker/Examples.antt =====
-- The circuit breaker at concrete runs.
use go_gateway.Prelude.{pos, ◌≡◌, refl, true, false, List, [], ◌∷◌, arith}
use go_gateway.CircuitBreaker.{
  state_half_open, Config, CircuitBreaker, new, allow, record_success, Call, allow_at, success,
  failure_at, run,
}
use go_gateway.CircuitBreaker.Invariant.{Counts, Walk, run-new_invariant}
use go_gateway.CircuitBreaker.Recovery.{Gate, start, success_locks_out}

abbrev sample_config : Config
sample_config = record {
  failure_threshold = pos 2;
  success_threshold = pos 0;
  reset_timeout = pos 10;
}

abbrev sample_calls : List Call
sample_calls = failure_at 3 ∷ failure_at 4 ∷ allow_at 5 ∷ allow_at 20 ∷ success ∷ []

-- Two failures trip the breaker at time 4.
abbrev tripped : CircuitBreaker
tripped = run (failure_at 3 ∷ failure_at 4 ∷ []) (new sample_config true)

sample_run : (run sample_calls (new sample_config true)).state ≡ state_half_open
unfolding run new
sample_run = refl

run-new_invariant_example :
    Counts (run sample_calls (new sample_config true))
    × Walk
        (run sample_calls (new sample_config true)).state
        (run sample_calls (new sample_config true)).fired
run-new_invariant_example = run-new_invariant sample_calls sample_config (omega arith) (omega arith)

abbrev stuck : Gate
stuck = record { breaker = record_success (allow 14 tripped).1; in_flight = 0 }

success_locks_out_example :
    ((allow 14 tripped).0 ≡ true)
    × (stuck.breaker.state ≡ state_half_open)
    × ((allow 1000 stuck.breaker).0 ≡ false)
unfolding run new
success_locks_out_example =
    success_locks_out tripped 14 stuck 1000 refl (omega arith) (omega arith) start

abbrev quick_config : Config
quick_config = record sample_config { success_threshold = pos 1 }

abbrev quick : CircuitBreaker
quick = run (failure_at 3 ∷ failure_at 4 ∷ []) (new quick_config false)
