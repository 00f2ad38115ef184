-- ===== src/Proxy/Client.antt =====
-- What a call of `ProxyRequest` comes to: the number of calls of upstreams, the meaning of nil, the
-- status that the client sees, and what a deadline does to the circuit breaker of the service.
use go_gateway.Prelude.{
  ℕ, zero, suc, ◌+◌, ◌≤◌, ◌≡◌, refl, ◌∙◌, ap, sub_ℕ, ◌≤ℤ◌, Bool, true, false, [], ◌∷◌, String, none,
  some, arith, Bool-cases, Option-cases, inl, inr, length, if◌then◌else◌, not, ◌||◌, leb,
}
use go_gateway.CircuitBreaker.{CircuitBreaker, allow, state_open, state_half_open}
use go_gateway.CircuitBreaker.Recovery.{one_probe}
use go_gateway.Registry.{Instance}
use go_gateway.Proxy.{
  Balancer, Moment, Answer, answered, connection_failed, Writer, deadline_exceeded, Result,
  delivered, proxy_error, Proxy, is_success, do_request, is_skipped, after_pick, call_instance,
  after_failure, out_of_time, one_attempt, attempts, proxy_request, max_retries,
}
use go_gateway.Proxy.Headers.{Header}
use go_gateway.Proxy.Retries.{Ends, Delivery, one_attempt-Ends, attempts-calls, attempts-Delivery}

-- One request makes at most three calls of `client.Do`, and at most one if it is not idempotent,
-- whatever the balancer picks and the upstreams answer; a redirect that the client follows within a
-- call is not counted.
pub proxy_request-calls :
    {B : Type 0} (lb : Balancer B) (idempotent : Bool) (now : ℕ) (env : ℕ → Moment) (p : Proxy B)
    → length (proxy_request lb idempotent now env p).1.calls
      ≤ length p.calls + (if idempotent then 3 else 1)
unfolding proxy_request
proxy_request-calls lb idempotent now env p = elim (Option-cases p.service_cb) [
  | inl e ↦ rw (e, proxy_request) (ground (arith, attempts-calls lb idempotent 3 0 env p))
  | inr (cb, e) ↦ elim (Bool-cases (allow now cb).0) [
    | inl ok ↦
        rw (e, ok, proxy_request)
          (ground (
            arith,
            attempts-calls lb idempotent 3 0 env (record p { service_cb = some (allow now cb).1 }),
          ))
    | inr no_call ↦ rw (e, no_call, proxy_request) (omega arith)
  ]
]

-- When the proxy returns nil, it made a call; and what the instance that it called last answered in
-- that round, of which the number is the number of calls before it, was a response with a status
-- other than 502, 503 and 504.
pub proxy_request-Delivery :
    {B : Type 0} (lb : Balancer B) (idempotent : Bool) (now : ℕ) (env : ℕ → Moment) (p : Proxy B)
    → (proxy_request lb idempotent now env p).0 ≡ delivered
    → Delivery lb idempotent env 0 (length p.calls) (proxy_request lb idempotent now env p).1
unfolding proxy_request
proxy_request-Delivery lb idempotent now env p h = elim (Option-cases p.service_cb) [
  | inl e ↦
      rw (e, proxy_request) (attempts-Delivery lb idempotent 3 0 env p (rw (e, proxy_request) at h))
  | inr (cb, e) ↦ elim (Bool-cases (allow now cb).0) [
    | inl ok ↦
        rw (e, ok, proxy_request)
          (attempts-Delivery lb idempotent 3 0 env (record p { service_cb = some (allow now cb).1 })
            (rw (e, ok, proxy_request) at h))
    | inr no_call ↦ absurd (ground (arith, rw (e, no_call, proxy_request) at h))
  ]
]

module _ {B : Type 0} (lb : Balancer B) (idempotent : Bool) where
  do_request-status :
      (ans : Answer) (w : Writer) (c : ℕ) → w.status ≡ some c → (do_request ans w).status ≡ some c
  unfolding do_request
  do_request-status connection_failed w c e = e
  do_request-status (answered status headers body) w c e = ground (arith, e)

  Ends-status :
      (rest : Proxy B → Result × Proxy B) (attempt : ℕ) (m : Moment) (p : Proxy B) (c : ℕ)
      {r : Result × Proxy B}
      → ((q : Proxy B) → q.writer.status ≡ some c → (rest q).1.writer.status ≡ some c)
      → Ends lb idempotent rest attempt m p r
      → p.writer.status ≡ some c
      → r.1.writer.status ≡ some c
  Ends-status rest attempt m p c h (Ends.uncalled w n) e = ap (λ v. v.status) w ∙ e
  Ends-status rest attempt m p c h (Ends.succeeded {inst = inst} good called) e =
      ap (λ v. v.status) called.written ∙ do_request-status (m.answer inst) p.writer c e
  Ends-status rest attempt m p c h (Ends.gave_up {inst = inst} bad called) e =
      ap (λ v. v.status) called.written ∙ do_request-status (m.answer inst) p.writer c e
  Ends-status rest attempt m p c h (Ends.again {inst = inst} {q = q} bad idem lt called) e =
      h q (ap (λ v. v.status) called.written ∙ do_request-status (m.answer inst) p.writer c e)

  -- Once a status is written, no later round changes it.
  attempts-status :
      (left attempt : ℕ) (env : ℕ → Moment) (p : Proxy B) (c : ℕ)
      → p.writer.status ≡ some c
      → (attempts lb idempotent left attempt env p).1.writer.status ≡ some c
  unfolding attempts
  attempts-status zero attempt env p c e = e
  attempts-status (suc left) attempt env p c e =
      Ends-status (attempts lb idempotent left (attempt + 1) env) attempt (env attempt) p c
        (λ q. attempts-status left (attempt + 1) env q c)
        (one_attempt-Ends lb idempotent _ attempt (env attempt) p) e

  after_failure-status :
      (rest : Proxy B → Result × Proxy B) (attempt : ℕ) (m : Moment) (inst : Instance)
      (ans : Answer) (q : Proxy B) (c : ℕ)
      → ((r : Proxy B) → r.writer.status ≡ some c → (rest r).1.writer.status ≡ some c)
      → q.writer.status ≡ some c
      → (after_failure lb idempotent rest attempt m inst ans q).1.writer.status ≡ some c
  unfolding after_failure
  after_failure-status rest attempt m inst ans q c h e =
      elim (Bool-cases (not idempotent || leb max_retries attempt)) [
        | inl stop ↦ rw (stop, after_failure) e
        | inr go ↦ elim (Bool-cases m.cancelled) [
          | inl off ↦ rw (go, off, after_failure) e
          | inr on ↦ rw (go, on, after_failure) (h _ e)
        ]
      ]

  call_instance-status :
      (rest : Proxy B → Result × Proxy B) (attempt : ℕ) (m : Moment) (inst : Instance) (q : Proxy B)
      (c : ℕ)
      → ((r : Proxy B) → r.writer.status ≡ some c → (rest r).1.writer.status ≡ some c)
      → (do_request (m.answer inst) q.writer).status ≡ some c
      → (call_instance lb idempotent rest attempt m inst q).1.writer.status ≡ some c
  unfolding call_instance
  call_instance-status rest attempt m inst q c h e =
      elim (Bool-cases (is_success (m.answer inst))) [
        | inl good ↦ rw (good, call_instance) e
        | inr bad ↦
            rw (bad, call_instance)
              (after_failure-status rest attempt m inst (m.answer inst)
                (record q { writer = do_request (m.answer inst) q.writer; calls = inst ∷ q.calls })
                c h e)
      ]

  do_request-first :
      (status : ℕ) (headers : Header) (body : String) (w : Writer)
      → w.status ≡ none
      → (do_request (answered status headers body) w).status ≡ some status
  unfolding do_request
  do_request-first status headers body w e = ground (arith, e)

-- The client sees the status of the first answer: when no status is written yet, there is time left,
-- and the instance that the balancer picks answers with a status, that is the status of the response
-- when the loop ends, whatever the rounds after it do. So a retry after 502, 503 or 504 does not
-- change the status that the client sees.
pub first_answer_sticks :
    {B : Type 0} (lb : Balancer B) (idempotent : Bool) (left attempt : ℕ) (env : ℕ → Moment)
    (p : Proxy B) (inst : Instance) (status : ℕ) (headers : Header) (body : String)
    → p.writer.status ≡ none
    → out_of_time lb idempotent (env attempt).remaining ≡ false
    → (lb.next
        (is_skipped (env attempt).picked_at)
        (env attempt).healthy
        p.balancer
        p.instance_cbs).0
      ≡ some inst
    → (env attempt).answer inst ≡ answered status headers body
    → (attempts lb idempotent (suc left) attempt env p).1.writer.status ≡ some status
unfolding attempts one_attempt after_pick
first_answer_sticks lb idempotent left attempt env p inst status headers body blank in_time picked
      ans =
    let (i, balancer, cbs) =
      lb.next (is_skipped (env attempt).picked_at) (env attempt).healthy p.balancer
        p.instance_cbs in
    rw (in_time, picked, attempts, one_attempt, after_pick)
      (call_instance-status lb idempotent (attempts lb idempotent left (attempt + 1) env) attempt
        (env attempt) inst (record p { balancer = balancer; instance_cbs = cbs }) status
        (λ r. attempts-status lb idempotent left (attempt + 1) env r status)
        (rw ans (do_request-first lb idempotent status headers body p.writer blank)))

-- When the reset timeout of the open circuit breaker of the service has passed, but the request has
-- less than 200 ms left, the request ends with status 504 and no upstream is called; the circuit
-- breaker took the request for its probe, is half-open, and rejects every further request, as no
-- result is recorded.
pub deadline_strands_probe :
    {B : Type 0} (lb : Balancer B) (idempotent : Bool) (now : ℕ) (env : ℕ → Moment) (p : Proxy B)
    (cb : CircuitBreaker) (later : ℕ)
    → p.service_cb ≡ some cb
    → cb.state ≡ state_open
    → cb.cfg.reset_timeout ≤ℤ sub_ℕ now cb.opened_at
    → out_of_time lb idempotent (env 0).remaining ≡ true
    → let (result, q) = proxy_request lb idempotent now env p in
      (result ≡ proxy_error 504 deadline_exceeded)
      × (q.calls ≡ p.calls)
      × (after : CircuitBreaker) × (q.service_cb ≡ some after)
      × (after.state ≡ state_half_open)
      × (allow later after ≡ (false, after))
unfolding proxy_request attempts one_attempt
deadline_strands_probe lb idempotent now env p cb later e is_open passed late =
    let (allowed, half, _, rejects) = one_probe cb now later [] is_open passed in
    rw (e, allowed, late, proxy_request, attempts, one_attempt)
      (refl, refl, (allow now cb).1, refl, half, rejects)
