-- ===== src/LoadBalancer.antt =====
-- internal/loadbalancer/roundrobin.go, random.go and loadbalancer.go: the filter of eligible
-- instances and the two strategies that keep no telemetry. `isSkipped` may change state: the proxy
-- passes a closure that calls the circuit breaker of the instance. So it is a function of a state
-- `S` that it may change, or `none` for nil. `none` as a result stands for ErrNoHealthyInstances.
pub mod Eligible
pub mod RoundRobin
mod Examples
use go_gateway.Prelude.{
  ℕ, ◌+◌, ◌-◌, ◌%◌, ◌^◌, Bool, true, false, List, [], ◌∷◌, if◌then◌else◌, not, Option, none, some,
  length, get_elem?,
}
use go_gateway.Registry.{Instance, is_healthy}

abbrev pub Skipper : Type 0 → Type 0
Skipper S = Option (Instance → S → Bool × S)

-- `isSkipped == nil || !isSkipped(inst)`
abbrev pub not_skipped : {S : Type 0} → Skipper S → Instance → S → Bool × S
not_skipped none i s = (true, s)
not_skipped (some skip) i s = (not (skip i s).0, (skip i s).1)

-- `inst.IsHealthy() && (isSkipped == nil || !isSkipped(inst))`: an unhealthy instance is not asked.
unfoldable pub is_eligible : {S : Type 0} → Skipper S → Instance → S → Bool × S
is_eligible skip i s = if is_healthy i then not_skipped skip i s else (false, s)

-- `filterEligible`
unfoldable pub filter_eligible : {S : Type 0} → Skipper S → List Instance → S → List Instance × S
unfolding is_eligible
filter_eligible skip [] s = ([], s)
filter_eligible skip (i ∷ is) s =
    let (eligible, s') = is_eligible skip i s in
    let (rest, s'') = filter_eligible skip is s' in (if eligible then i ∷ rest else rest, s'')

-- What `Next` of `RoundRobin` returns: the instance, the counter and the state of the skipper.
pub record Picked (S : Type 0) : Type 0 where
  pub instance_of : Option Instance
  pub counter : ℕ  -- uint64
  pub after : S

-- `atomic.AddUint64(&rr.counter, 1)` gives n, and `(n-1) % uint64(len(eligible))` is the index.
abbrev pub index_of : ℕ → ℕ → ℕ
index_of n len = (n + 18446744073709551615) % 18446744073709551616 % len

abbrev pub add_uint64 : ℕ → ℕ
add_uint64 counter = (counter + 1) % 18446744073709551616

abbrev pick_from : {S : Type 0} → List Instance → ℕ → S → Picked S
pick_from [] counter s = record { instance_of = none; counter = counter; after = s }
pick_from (i ∷ is) counter s =
    let n = add_uint64 counter in
    record {
      instance_of = get_elem? (i ∷ is) (index_of n (length (i ∷ is)));
      counter = n;
      after = s;
    }

-- `Next` of `RoundRobin`
unfoldable pub next_round_robin : {S : Type 0} → Skipper S → List Instance → ℕ → S → Picked S
next_round_robin skip instances counter s =
    pick_from (filter_eligible skip instances s).0 counter (filter_eligible skip instances s).1

-- `Next` of `Random`: `rand.Intn(n)` is a number below n, drawn by the caller of the model as the
-- remainder of any number.
abbrev draw_from : List Instance → ℕ → Option Instance
draw_from [] draw = none
draw_from (i ∷ is) draw = get_elem? (i ∷ is) (draw % length (i ∷ is))

unfoldable pub next_random : {S : Type 0} → Skipper S → List Instance → ℕ → S → Option Instance × S
next_random skip instances draw s =
    (draw_from (filter_eligible skip instances s).0 draw, (filter_eligible skip instances s).1)
