-- ===== src/CircuitBreaker.antt =====
-- pkg/circuitbreaker/circuitbreaker.go: the circuit breaker. A method that mutates `*CircuitBreaker`
-- returns the new record. The clock is an argument: `now` is the reading of `time.Now`, in
-- nanoseconds on the monotonic clock. A duration is the integer number of nanoseconds that Go's
-- `time.Duration` holds; the saturation of `time.Since` at 292 years is left out. The mutex makes
-- each method one step. `onTransition` is the callback of the caller: the model keeps whether it is
-- set, and the calls made of it, latest first.
pub mod Invariant
pub mod Traces
pub mod Recovery
mod Examples
use go_gateway.Prelude.{
  ℕ, ℤ, pos, inc_int, leb_ℤ, eqb_ℤ, sub_ℕ, Bool, true, false, List, [], ◌∷◌, String, if◌then◌else◌,
  ◌&&◌,
}

pub data State : Type 0 where
  state_closed state_open state_half_open : State

pub to_string : State → String
to_string state_closed = "closed"
to_string state_open = "open"
to_string state_half_open = "half_open"

pub record Config : Type 0 where
  pub failure_threshold : ℤ
  pub success_threshold : ℤ
  pub reset_timeout : ℤ  -- nanoseconds

abbrev pub second : ℕ
second = 1000000000

abbrev pub or_default : ℤ → ℕ → ℤ
or_default x d = if eqb_ℤ x (pos 0) then pos d else x

unfoldable pub with_defaults : Config → Config
with_defaults c = record {
  failure_threshold = or_default c.failure_threshold 5;
  success_threshold = or_default c.success_threshold 2;
  reset_timeout = or_default c.reset_timeout 30000000000;
}

pub record CircuitBreaker : Type 0 where
  pub cfg : Config
  pub state : State
  pub consecutive_fails : ℤ
  pub consecutive_oks : ℤ
  pub opened_at : ℕ
  pub on_transition : Bool  -- `onTransition != nil`
  pub fired : List (State × State)  -- the calls of `onTransition`, latest first

-- `New`: the zero time stands for `openedAt`, which is read in the open state only.
unfoldable pub new : Config → Bool → CircuitBreaker
unfolding with_defaults
new c callback = record {
  cfg = with_defaults c;
  state = state_closed;
  consecutive_fails = pos 0;
  consecutive_oks = pos 0;
  opened_at = 0;
  on_transition = callback;
  fired = [];
}

unfoldable pub transition : State → CircuitBreaker → CircuitBreaker
transition to cb = record cb {
  state = to;
  consecutive_fails = pos 0;
  consecutive_oks = pos 0;
  fired = if cb.on_transition then (cb.state, to) ∷ cb.fired else cb.fired;
}

-- `time.Since(cb.openedAt) >= cb.cfg.ResetTimeout`
abbrev pub timed_out : ℕ → CircuitBreaker → Bool
timed_out now cb = leb_ℤ cb.cfg.reset_timeout (sub_ℕ now cb.opened_at)

-- the `switch` of `Allow`
allow_in : State → ℕ → CircuitBreaker → Bool × CircuitBreaker
unfolding transition
allow_in state_closed now cb = (true, cb)
allow_in state_open now cb =
    if timed_out now cb then (true, transition state_half_open cb) else (false, cb)
allow_in state_half_open now cb = (false, cb)

unfoldable pub allow : ℕ → CircuitBreaker → Bool × CircuitBreaker
unfolding allow_in
allow now cb = allow_in cb.state now cb

abbrev is_half_open : State → Bool
is_half_open state_half_open = true
is_half_open _ = false

unfoldable pub record_success : CircuitBreaker → CircuitBreaker
unfolding transition
record_success cb =
    let cb' = record cb {
      consecutive_fails = pos 0;
      consecutive_oks = inc_int cb.consecutive_oks;
    } in
    if is_half_open cb'.state && leb_ℤ cb'.cfg.success_threshold cb'.consecutive_oks
    then transition state_closed cb'
    else cb'

-- the `switch` of `RecordFailure`, after the counters are set
fail_in : State → ℕ → CircuitBreaker → CircuitBreaker
unfolding transition
fail_in state_closed now cb =
    if leb_ℤ cb.cfg.failure_threshold cb.consecutive_fails
    then transition state_open (record cb { opened_at = now })
    else cb
fail_in state_half_open now cb = transition state_open (record cb { opened_at = now })
fail_in state_open now cb = cb

unfoldable pub record_failure : ℕ → CircuitBreaker → CircuitBreaker
unfolding fail_in
record_failure now cb =
    fail_in cb.state now
      (record cb { consecutive_oks = pos 0; consecutive_fails = inc_int cb.consecutive_fails })

-- A call of the public methods, with the reading of the clock that it makes.
pub data Call : Type 0 where
  allow_at : ℕ → Call
  success : Call
  failure_at : ℕ → Call

unfoldable pub call : Call → CircuitBreaker → CircuitBreaker
unfolding allow record_success record_failure
call (allow_at now) cb = (allow now cb).1
call success cb = record_success cb
call (failure_at now) cb = record_failure now cb

-- Any sequence of calls, in the order in which the mutex lets them in.
unfoldable pub run : List Call → CircuitBreaker → CircuitBreaker
unfolding call
run [] cb = cb
run (c ∷ cs) cb = run cs (call c cb)
