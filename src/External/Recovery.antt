-- ===== src/External/Recovery.antt =====
-- A sidecar that is up again, against the circuit breaker of its plugin.
use go_gateway.Prelude.{ℕ, pos, true, false, ◌≡◌, refl, sym, ◌∙◌, ap, subst, List, arith}
use go_gateway.CircuitBreaker.{
  CircuitBreaker, Config, state_closed, state_half_open, allow, record_success, new, Call, run,
}
use go_gateway.External.Client.{Sent, Answer, Codec, Client, ExternalPlugin}
use go_gateway.External.Load.{load_limits, load_breaker}
use go_gateway.CircuitBreaker.Invariant.{Counts, Fits, run-cfg, run-Counts, new-Counts, new-Fits}
use go_gateway.External.Execute.{check_health, health_tick}

two_successes :
    (now : ℕ) (cb : CircuitBreaker)
    → Counts cb
    → cb.cfg.success_threshold ≡ pos 2
    → cb.state ≡ state_half_open
    → ((record_success (record_success cb)).state ≡ state_closed)
      × ((allow now (record_success (record_success cb))).0 ≡ true)
unfolding record_success allow
two_successes now cb c two half_open = ground (arith, c.half_open_below half_open)

load-Counts : Counts load_breaker
unfolding load_breaker
load-Counts = new-Counts load_limits false

load-Fits : Fits load_breaker
unfolding load_breaker
load-Fits = new-Fits load_limits false (omega arith) (omega arith)

run_load_cfg : (calls : List Call) → (run calls load_breaker).cfg.success_threshold ≡ pos 2
unfolding load_breaker new
run_load_cfg calls = ap (λ (c : Config). c.success_threshold) (run-cfg calls load_breaker)

module _ {J B : Type 0} (codec : Codec J B) (reply : Client → Sent → Answer B) where
  healthy_tick :
      (now : ℕ) (p : ExternalPlugin J)
      → check_health codec reply p.client p.addr "/healthz" ≡ true
      → health_tick codec now reply p ≡ record p { cb = record_success p.cb }
  unfolding health_tick
  healthy_tick now p healthy = rw healthy refl

  -- A sidecar that answers its health check is let back in: after any calls of the circuit breaker
  -- of a plugin as `Load` makes it, where the breaker is half-open, however the request that was let
  -- through has ended or if it never recorded a result, two ticks of the health check that find the
  -- sidecar healthy close it, and the next request is let through.
  pub health_check_closes :
      (calls : List Call) (t₁ t₂ now : ℕ) (p : ExternalPlugin J)
      → p.cb ≡ run calls load_breaker
      → p.cb.state ≡ state_half_open
      → check_health codec reply p.client p.addr "/healthz" ≡ true
      → let q = health_tick codec t₂ reply (health_tick codec t₁ reply p) in
        (q.cb.state ≡ state_closed) × ((allow now q.cb).0 ≡ true)
  health_check_closes calls t₁ t₂ now p e half_open healthy =
      let closed =
        two_successes now p.cb
          (subst Counts (sym e) (run-Counts calls load_breaker load-Fits load-Counts))
          (ap (λ (cb : CircuitBreaker). cb.cfg.success_threshold) e ∙ run_load_cfg calls)
          half_open in
      rw
        (healthy_tick t₁ p healthy, healthy_tick t₂ (record p { cb = record_success p.cb }) healthy)
        closed
