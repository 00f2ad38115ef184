-- ===== src/CircuitBreaker/Invariant.antt =====
-- What holds of a circuit breaker between two calls of its methods.
use go_gateway.Prelude.{
  ℤ, pos, ◌<ℤ◌, ◌⊎◌, ◌≡◌, refl, ◌∙◌, List, [], ◌∷◌, Bool, true, arith, ◌≤◌, pos_part, max_int,
}
use go_gateway.CircuitBreaker.{
  State, state_closed, state_open, state_half_open, Config, CircuitBreaker, new, Call, allow_at,
  success, failure_at, call, run,
}

-- A count of calls below the threshold that would have changed the state.
abbrev pub Below : ℤ → ℤ → Type 0
Below n threshold = (n ≡ pos 0) ⊎ ((pos 0 <ℤ n) × (n <ℤ threshold))

-- The counters of the two states that count.
pub record Counts (cb : CircuitBreaker) : Type 0 where
  pub closed_below : cb.state ≡ state_closed → Below cb.consecutive_fails cb.cfg.failure_threshold
  pub half_open_below :
      cb.state ≡ state_half_open → Below cb.consecutive_oks cb.cfg.success_threshold
  pub half_open_no_fails : cb.state ≡ state_half_open → cb.consecutive_fails ≡ pos 0

-- Thresholds are `int`s.
pub record Fits (cb : CircuitBreaker) : Type 0 where
  pub failures_fit : pos_part cb.cfg.failure_threshold ≤ max_int
  pub successes_fit : pos_part cb.cfg.success_threshold ≤ max_int

call-cfg : (c : Call) (cb : CircuitBreaker) → (call c cb).cfg ≡ cb.cfg
unfolding call
call-cfg (allow_at now) cb = ground arith
call-cfg success cb = ground arith
call-cfg (failure_at now) cb = ground arith

call-Counts : (c : Call) (cb : CircuitBreaker) → Fits cb → Counts cb → Counts (call c cb)
unfolding call
call-Counts (allow_at now) cb f h = ground arith
call-Counts success cb f h = ground arith
call-Counts (failure_at now) cb f h = ground arith

call-Fits : (c : Call) (cb : CircuitBreaker) → Fits cb → Fits (call c cb)
call-Fits c cb f = record {
  failures_fit = rw (call-cfg c cb) f.failures_fit;
  successes_fit = rw (call-cfg c cb) f.successes_fit;
}

pub run-cfg : (cs : List Call) (cb : CircuitBreaker) → (run cs cb).cfg ≡ cb.cfg
unfolding run
run-cfg [] cb = refl
run-cfg (c ∷ cs) cb = run-cfg cs (call c cb) ∙ call-cfg c cb

pub run-Counts : (cs : List Call) (cb : CircuitBreaker) → Fits cb → Counts cb → Counts (run cs cb)
unfolding run
run-Counts [] cb f h = h
run-Counts (c ∷ cs) cb f h = run-Counts cs (call c cb) (call-Fits c cb f) (call-Counts c cb f h)

pub new-Counts : (c : Config) (callback : Bool) → Counts (new c callback)
unfolding new
new-Counts c callback = ground arith

-- The edges of the state diagram.
pub data Edge : State → State → Type 0 where
  trip : Edge state_closed state_open
  probe : Edge state_open state_half_open
  recover : Edge state_half_open state_closed
  retrip : Edge state_half_open state_open

-- The calls of `onTransition`, latest first, follow edges, each starts where the one before it
-- ended, the first starts in the closed state and the last ends in the state `s`.
abbrev pub Walk : State → List (State × State) → Type 0
Walk s [] = s ≡ state_closed
Walk s ((from, to) ∷ log) = (s ≡ to) × Edge from to × Walk from log

-- The walk of a circuit breaker whose callback is set.
abbrev pub Logged : CircuitBreaker → Type 0
Logged cb = (cb.on_transition ≡ true) × Walk cb.state cb.fired

ruleset edges = (trip, probe, recover, retrip)

call-Logged : (c : Call) (cb : CircuitBreaker) → Logged cb → Logged (call c cb)
unfolding call
call-Logged (allow_at now) cb h = ground (arith, probe)
call-Logged success cb h = ground (arith, recover)
call-Logged (failure_at now) cb h = ground (arith, trip, retrip)

pub run-Logged : (cs : List Call) (cb : CircuitBreaker) → Logged cb → Logged (run cs cb)
unfolding run
run-Logged [] cb h = h
run-Logged (c ∷ cs) cb h = run-Logged cs (call c cb) (call-Logged c cb h)

-- Thresholds given as `int`s fit, with the defaults put in.
pub new-Fits :
    (c : Config) (callback : Bool)
    → pos_part c.failure_threshold ≤ max_int
    → pos_part c.success_threshold ≤ max_int
    → Fits (new c callback)
unfolding new
new-Fits c callback f s = ground arith

-- After any sequence of calls of the methods of a new circuit breaker whose thresholds are `int`s
-- and whose callback is set: in the closed state the consecutive failures are 0 or lie strictly
-- between 0 and the failure threshold; in the half-open state the failures are 0 and the
-- consecutive successes are 0 or lie strictly between 0 and the success threshold; and the calls of
-- the callback form a walk along the edges of the state diagram from the closed state to the state
-- now.
pub run-new_invariant :
    (cs : List Call) (c : Config)
    → pos_part c.failure_threshold ≤ max_int
    → pos_part c.success_threshold ≤ max_int
    → Counts (run cs (new c true)) × Walk (run cs (new c true)).state (run cs (new c true)).fired
run-new_invariant cs c f s = (
  run-Counts cs (new c true) (new-Fits c true f s) (new-Counts c true),
  (run-Logged cs (new c true) (unfold new in (refl, refl))).1,
)
