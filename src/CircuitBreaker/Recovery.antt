-- ===== src/CircuitBreaker/Recovery.antt =====
-- The half-open state: one probe, and what comes of it when clients record a result only for a
-- request that was let through.
use go_gateway.Prelude.{
  ℕ, suc, pos, ◌≤ℤ◌, sub_ℕ, ◌≡◌, refl, true, false, List, [], ◌∷◌, map, arith, if◌then◌else◌,
}
use go_gateway.CircuitBreaker.{
  state_closed, state_open, state_half_open, CircuitBreaker, allow, record_success, record_failure,
  allow_at, run,
}

pub half_open-allow :
    (now : ℕ) (cb : CircuitBreaker) → cb.state ≡ state_half_open → allow now cb ≡ (false, cb)
unfolding allow
half_open-allow now cb h = ground arith

half_open-run :
    (times : List ℕ) (cb : CircuitBreaker)
    → cb.state ≡ state_half_open
    → run (map allow_at times) cb ≡ cb
unfolding run
half_open-run [] cb h = refl
half_open-run (t ∷ ts) cb h = ground (arith, half_open-allow t cb h, half_open-run ts cb h)

-- Once the reset timeout has passed an open circuit breaker lets one request through, the probe,
-- and goes to the half-open state; until a result is recorded it rejects every further request,
-- whenever it comes, and stays as it is.
pub one_probe :
    (cb : CircuitBreaker) (now later : ℕ) (times : List ℕ)
    → cb.state ≡ state_open
    → cb.cfg.reset_timeout ≤ℤ sub_ℕ now cb.opened_at
    → ((allow now cb).0 ≡ true)
      × ((allow now cb).1.state ≡ state_half_open)
      × (run (map allow_at times) (allow now cb).1 ≡ (allow now cb).1)
      × (allow later (allow now cb).1 ≡ (false, (allow now cb).1))
unfolding allow
one_probe cb now later times is_open passed =
    (let probed : (allow now cb).1.state ≡ state_half_open = ground arith in
      (
        ground arith,
        probed,
        half_open-run times (allow now cb).1 probed,
        half_open-allow later (allow now cb).1 probed,
      ))

-- A circuit breaker with the number of requests that were let through and have no result yet.
pub record Gate : Type 0 where
  pub breaker : CircuitBreaker
  pub in_flight : ℕ

-- Clients ask, and record one result for each request that was let through.
pub data Step (g : Gate) : Gate → Type 0 where
  ask :
      (now : ℕ)
      → Step g (record {
        breaker = (allow now g.breaker).1;
        in_flight = if (allow now g.breaker).0 then suc g.in_flight else g.in_flight;
      })
  succeed :
      {n : ℕ}
      → g.in_flight ≡ suc n
      → Step g (record { breaker = record_success g.breaker; in_flight = n })
  fail :
      {n : ℕ} (now : ℕ)
      → g.in_flight ≡ suc n
      → Step g (record { breaker = record_failure now g.breaker; in_flight = n })

pub data Reach (g : Gate) : Gate → Type 0 where
  start : Reach g g
  further : {h k : Gate} → Reach g h → Step h k → Reach g k

-- Half-open, with nobody left to record a result.
abbrev pub Locked : Gate → Type 0
Locked g = (g.breaker.state ≡ state_half_open) × (g.in_flight ≡ 0)

Step-Locked : {g h : Gate} → Step g h → Locked g → Locked h
Step-Locked {g} (ask now) l = ground (arith, half_open-allow now g.breaker l.0)
Step-Locked (succeed e) l = ground arith
Step-Locked (fail now e) l = ground arith

Reach-Locked : {g h : Gate} → Reach g h → Locked g → Locked h
Reach-Locked start l = l
Reach-Locked (further r s) l = Step-Locked s (Reach-Locked r l)

-- Where the success threshold is at least 2 (the default is 2), recovery is impossible for clients
-- that record results only for requests that were let through: an open circuit breaker with no
-- request in flight lets the probe through after the reset timeout; when the probe succeeds the
-- breaker stays half-open, and from then on, in every state that such clients can reach, it is
-- half-open and rejects every request.
pub success_locks_out :
    (cb : CircuitBreaker) (now : ℕ) (g : Gate) (next : ℕ)
    → cb.state ≡ state_open
    → cb.cfg.reset_timeout ≤ℤ sub_ℕ now cb.opened_at
    → pos 2 ≤ℤ cb.cfg.success_threshold
    → Reach (record { breaker = record_success (allow now cb).1; in_flight = 0 }) g
    → ((allow now cb).0 ≡ true)
      × (g.breaker.state ≡ state_half_open)
      × ((allow next g.breaker).0 ≡ false)
unfolding allow record_success
success_locks_out cb now g next is_open passed two r =
    let locked = Reach-Locked r (ground arith, refl) in
    (ground arith, locked.0, ground (arith, half_open-allow next g.breaker locked.0))

-- With success threshold 1 the success of the probe closes the circuit again, with both counters
-- at 0, and any request is let through; the failure of the probe opens it again, with its own time
-- as the time of opening.
pub probe_resolves :
    (cb : CircuitBreaker) (now done later : ℕ)
    → cb.state ≡ state_open
    → cb.cfg.reset_timeout ≤ℤ sub_ℕ now cb.opened_at
    → cb.cfg.success_threshold ≡ pos 1
    → let probed = (allow now cb).1 in
      ((record_success probed).state ≡ state_closed)
      × ((record_success probed).consecutive_fails ≡ pos 0)
      × ((record_success probed).consecutive_oks ≡ pos 0)
      × (allow later (record_success probed) ≡ (true, record_success probed))
      × ((record_failure done probed).state ≡ state_open)
      × ((record_failure done probed).opened_at ≡ done)
unfolding allow record_success record_failure
probe_resolves cb now done later is_open passed one = ground arith
