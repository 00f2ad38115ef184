-- ===== src/CircuitBreaker/Traces.antt =====
-- How the circuit breaker trips, and what it does while it is open.
use go_gateway.Prelude.{
  ℕ, suc, ◌+◌, ◌≤◌, ◌<◌, pos, ◌<ℤ◌, sub_ℕ, max_int, ◌≡◌, refl, false, List, [], ◌∷◌, ◌++◌, map,
  arith, length, All,
}
use go_gateway.CircuitBreaker.{
  state_closed, state_open, CircuitBreaker, allow, Call, allow_at, success, failure_at, call, run,
}

pub run-append : (cs ds : List Call) (cb : CircuitBreaker) → run (cs ++ ds) cb ≡ run ds (run cs cb)
unfolding run
run-append [] ds cb = refl
run-append (c ∷ cs) ds cb = run-append cs ds (call c cb)

-- `k` failures have been counted of the `n` that trip the closed circuit.
abbrev Counted : ℕ → ℕ → CircuitBreaker → Type 0
Counted k n cb =
    (cb.state ≡ state_closed) × (cb.consecutive_fails ≡ pos k) × (cb.cfg.failure_threshold ≡ pos n)

failure-Counted :
    (k n now : ℕ) (cb : CircuitBreaker)
    → n ≤ max_int
    → suc k < n
    → Counted k n cb
    → Counted (suc k) n (call (failure_at now) cb)
unfolding call
failure-Counted k n now cb fits more h = ground arith

failures-Counted :
    (k n : ℕ) (ts : List ℕ) (cb : CircuitBreaker)
    → n ≤ max_int
    → k + length ts < n
    → Counted k n cb
    → Counted (k + length ts) n (run (map failure_at ts) cb)
unfolding run
failures-Counted k n [] cb fits more h = ground arith
failures-Counted k n (t ∷ ts) cb fits more h =
    ground
      (arith, failures-Counted (suc k) n ts (call (failure_at t) cb), failure-Counted k n t cb fits)

last-failure_trips :
    (k t : ℕ) (cb : CircuitBreaker)
    → suc k ≤ max_int
    → Counted k (suc k) cb
    → ((call (failure_at t) cb).state ≡ state_open) × ((call (failure_at t) cb).opened_at ≡ t)
unfolding call
last-failure_trips k t cb fits h = ground arith

-- A closed circuit breaker with no failure counted, and failure threshold n + 1 (an `int`), stays
-- closed through n failures in a row, whenever they are recorded, and opens at the next one, with
-- that failure's time as the time of opening.
trips_at_threshold :
    (cb : CircuitBreaker) (ts : List ℕ) (t : ℕ)
    → suc (length ts) ≤ max_int
    → cb.state ≡ state_closed
    → cb.consecutive_fails ≡ pos 0
    → cb.cfg.failure_threshold ≡ pos (suc (length ts))
    → ((run (map failure_at ts) cb).state ≡ state_closed)
      × ((run (map failure_at ts ++ failure_at t ∷ []) cb).state ≡ state_open)
      × ((run (map failure_at ts ++ failure_at t ∷ []) cb).opened_at ≡ t)
unfolding run
trips_at_threshold cb ts t fits closed none_yet threshold =
    let counted =
      failures-Counted 0 (suc (length ts)) ts cb fits (omega arith) (closed, none_yet, threshold) in
    let opens =
      last-failure_trips (length ts) t (run (map failure_at ts) cb) fits
        (counted.0, ground (arith, counted.1), counted.2) in
    (counted.0, rw run-append opens.0, rw run-append opens.1)

-- The call comes before the reset timeout has passed since the circuit opened.
abbrev pub Early : CircuitBreaker → Call → Type 0
Early cb (allow_at now) = sub_ℕ now cb.opened_at <ℤ cb.cfg.reset_timeout
Early cb success = Unit
Early cb (failure_at now) = Unit

abbrev SameDeadline : CircuitBreaker → CircuitBreaker → Type 0
SameDeadline cb cb' = (cb'.state ≡ state_open) × (cb'.opened_at ≡ cb.opened_at) × (cb'.cfg ≡ cb.cfg)

call_open :
    (c : Call) (cb cb' : CircuitBreaker)
    → Early cb c
    → SameDeadline cb cb'
    → SameDeadline cb (call c cb')
unfolding call
call_open (allow_at now) cb cb' e h = ground arith
call_open success cb cb' e h = ground arith
call_open (failure_at now) cb cb' e h = ground arith

run_open :
    (cs : List Call) (cb cb' : CircuitBreaker)
    → All (Early cb) cs
    → SameDeadline cb cb'
    → SameDeadline cb (run cs cb')
unfolding run
run_open [] cb cb' e h = h
run_open (c ∷ cs) cb cb' (e, es) h = run_open cs cb (call c cb') es (call_open c cb cb' e h)

-- While the reset timeout has not passed, an open circuit breaker stays open with the same time of
-- opening, whatever results are recorded in between, and rejects the next request.
pub open_rejects :
    (cs : List Call) (now : ℕ) (cb : CircuitBreaker)
    → cb.state ≡ state_open
    → All (Early cb) cs
    → sub_ℕ now cb.opened_at <ℤ cb.cfg.reset_timeout
    → ((run cs cb).state ≡ state_open)
      × ((run cs cb).opened_at ≡ cb.opened_at)
      × (allow now (run cs cb) ≡ (false, run cs cb))
unfolding allow
open_rejects cs now cb is_open early e =
    let h = run_open cs cb cb early (is_open, refl, refl) in (h.0, h.1, ground arith)
