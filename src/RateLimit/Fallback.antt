-- ===== src/RateLimit/Fallback.antt =====
-- The limiter on Redis does not come back from its fallback.
use go_gateway.Prelude.{
  ℕ, ℤ, pos, ◌≤ℤ◌, sub_ℕ, ◌≡◌, refl, ◌∙◌, ap, false, List, [], ◌∷◌, String, Option, some,
  Bool-cases, Option-cases, inl, inr, arith,
}
use go_gateway.CircuitBreaker.{
  CircuitBreaker, allow, record_success, record_failure, state_open, state_half_open, new, allow_at,
  success, failure_at, run,
}
use go_gateway.CircuitBreaker.Invariant.{run-cfg}
use go_gateway.CircuitBreaker.Recovery.{half_open-allow, success_locks_out, start}
use go_gateway.RateLimit.{
  new_redis_limiter, Limiter, RedisLimiter, after_eval, allow_redis, probe_due, read_result,
}

module _ {F L : Type 0} (of_int64 : ℤ → F) (limiter : Limiter F L) where
  -- What happens to the limiter: it is asked, or a goroutine ends the fallback mode.
  pub data Event : Type 0 where
    asked : (at answered : ℕ) (key : String) (result : Option (List ℤ)) → Event
    due : Event

  unfoldable pub event : Event → RedisLimiter L → RedisLimiter L
  unfolding allow_redis probe_due
  event (asked at answered key result) r = (allow_redis of_int64 limiter at answered key result r).1
  event due r = probe_due r

  unfoldable pub events : List Event → RedisLimiter L → RedisLimiter L
  unfolding event
  events [] r = r
  events (e ∷ es) r = events es (event e r)

  allow_redis-half_open :
      (at answered : ℕ) (key : String) (result : Option (List ℤ)) (r : RedisLimiter L)
      → r.cb.state ≡ state_half_open
      → ((allow_redis of_int64 limiter at answered key result r).0 ≡ (limiter.ask key r.fallback).0)
        × ((allow_redis of_int64 limiter at answered key result r).1.cb.state ≡ state_half_open)
  unfolding allow_redis
  allow_redis-half_open at answered key result r h = elim (Bool-cases r.fallback_mode) [
    | inl e ↦ rw (e, allow_redis) (refl, h)
    | inr e ↦
        (let closed = half_open-allow at r.cb h in
          rw (e, ap (λ x. x.0) closed, allow_redis) (refl, ap (λ x. x.1.state) closed ∙ h))
  ]

  event-half_open :
      (e : Event) (r : RedisLimiter L)
      → r.cb.state ≡ state_half_open
      → (event e r).cb.state ≡ state_half_open
  unfolding event probe_due
  event-half_open (asked at answered key result) r h =
      (allow_redis-half_open at answered key result r h).1
  event-half_open due r h = h

  events-half_open :
      (es : List Event) (r : RedisLimiter L)
      → r.cb.state ≡ state_half_open
      → (events es r).cb.state ≡ state_half_open
  unfolding events
  events-half_open [] r h = h
  events-half_open (e ∷ es) r h = events-half_open es (event e r) (event-half_open e r h)

  probe_answered :
      (r : RedisLimiter L) (at answered : ℕ) (key : String) (result : List ℤ)
      → r.cb.state ≡ state_open
      → r.cb.cfg.reset_timeout ≤ℤ sub_ℕ at r.cb.opened_at
      → pos 2 ≤ℤ r.cb.cfg.success_threshold
      → r.fallback_mode ≡ false
      → ((allow_redis of_int64 limiter at answered key (some result) r).0
          ≡ read_result of_int64 limiter result)
        × ((allow_redis of_int64 limiter at answered key (some result) r).1.cb.state
            ≡ state_half_open)
  unfolding allow_redis after_eval
  probe_answered r at answered key result is_open passed two off =
      let (ok, stuck, _) =
        success_locks_out r.cb at
          (record { breaker = record_success (allow at r.cb).1; in_flight = 0 }) 0 is_open passed
          two start in
      rw (off, ok, allow_redis, after_eval) (refl, stuck)

cb_cfg :
    (now : ℕ) (cb : CircuitBreaker)
    → ((allow now cb).1.cfg ≡ cb.cfg)
      × ((record_success cb).cfg ≡ cb.cfg)
      × ((record_failure now cb).cfg ≡ cb.cfg)
unfolding allow run record_success record_failure
cb_cfg now cb =
    (run-cfg (allow_at now ∷ []) cb, run-cfg (success ∷ []) cb, run-cfg (failure_at now ∷ []) cb)

module _ {F L : Type 0} (of_int64 : ℤ → F) (limiter : Limiter F L) where
  allow_redis-cfg :
      (at answered : ℕ) (key : String) (result : Option (List ℤ)) (r : RedisLimiter L)
      → (allow_redis of_int64 limiter at answered key result r).1.cb.cfg ≡ r.cb.cfg
  unfolding allow_redis after_eval
  allow_redis-cfg at answered key result r = elim (Bool-cases r.fallback_mode) [
    | inl e ↦ rw (e, allow_redis) refl
    | inr e ↦ elim (Bool-cases (allow at r.cb).0) [
      | inr shut ↦ rw (e, shut, allow_redis) (cb_cfg at r.cb).0
      | inl through ↦ elim (Option-cases result) [
        | inl failed ↦
            rw (e, through, failed, allow_redis, after_eval)
              ((cb_cfg answered (allow at r.cb).1).2 ∙ (cb_cfg at r.cb).0)
        | inr (told, e') ↦
            rw (e, through, e', allow_redis, after_eval)
              ((cb_cfg answered (allow at r.cb).1).1 ∙ (cb_cfg at r.cb).0)
      ]
    ]
  ]

  events-cfg :
      (es : List (Event of_int64 limiter)) (r : RedisLimiter L)
      → (events of_int64 limiter es r).cb.cfg ≡ r.cb.cfg
  unfolding events event probe_due
  events-cfg [] r = refl
  events-cfg (asked at answered key result ∷ es) r =
      events-cfg es (allow_redis of_int64 limiter at answered key result r).1
      ∙ allow_redis-cfg at answered key result r
  events-cfg (due ∷ es) r = events-cfg es (probe_due r)

  new-success_threshold :
      (es : List (Event of_int64 limiter)) (fallback : L)
      → (events of_int64 limiter es (new_redis_limiter fallback)).cb.cfg.success_threshold ≡ pos 2
  unfolding new_redis_limiter new
  new-success_threshold es fallback =
      ap (λ c. c.success_threshold) (events-cfg es (new_redis_limiter fallback))

-- A limiter that `newRedisLimiter` made does not come back to Redis once a probe was answered, where
-- requests come one after another: if after any history its circuit breaker is open and its fallback
-- mode off, and the script answers a request at which the reset timeout has passed, then this request
-- is told the answer of the script, and after any further requests and ends of fallback modes every
-- request is decided by the fallback, whatever the script would answer.
pub answered_probe_strands :
    {F L : Type 0} (of_int64 : ℤ → F) (limiter : Limiter F L)
    (history : List (Event of_int64 limiter)) (fallback : L) (at answered : ℕ) (key : String)
    (result : List ℤ) (es : List (Event of_int64 limiter)) (at' answered' : ℕ) (key' : String)
    (result' : Option (List ℤ))
    → let r = events of_int64 limiter history (new_redis_limiter fallback) in
      r.cb.state ≡ state_open
      → r.cb.cfg.reset_timeout ≤ℤ sub_ℕ at r.cb.opened_at
      → r.fallback_mode ≡ false
      → let (v, r₁) = allow_redis of_int64 limiter at answered key (some result) r in
        let r₂ = events of_int64 limiter es r₁ in
        (v ≡ read_result of_int64 limiter result)
        × ((allow_redis of_int64 limiter at' answered' key' result' r₂).0
            ≡ (limiter.ask key' r₂.fallback).0)
answered_probe_strands of_int64 limiter history fallback at answered key result es at' answered'
      key' result' is_open passed off =
    let r = events of_int64 limiter history (new_redis_limiter fallback) in
    let two : pos 2 ≤ℤ r.cb.cfg.success_threshold =
      ground (arith, new-success_threshold of_int64 limiter history fallback) in
    let (first, stuck) =
      probe_answered of_int64 limiter r at answered key result is_open passed two off in
    let r₁ = (allow_redis of_int64 limiter at answered key (some result) r).1 in
    (
      first,
      (allow_redis-half_open of_int64 limiter at' answered' key' result'
          (events of_int64 limiter es r₁) (events-half_open of_int64 limiter es r₁ stuck)).0,
    )
