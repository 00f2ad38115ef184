-- ===== src/Proxy.antt =====
-- internal/proxy/proxy.go: a request is forwarded to an instance of its service, with retries, under
-- the circuit breakers of the service and of the instances. What the proxy meets at one attempt is an
-- argument: the instances that are healthy then, the clock, the time left, the answer of the upstream
-- that it calls, and whether the context ends during the backoff. Logging, the latency that `done`
-- reports, and the bodies of requests are left out; no other request uses the circuit breakers in
-- between.
pub mod Headers
pub mod Retries
mod Rounds
mod Transport
pub mod Client
pub mod Forwarded
mod Examples
use go_gateway.Prelude.{
  ℕ, zero, suc, ◌+◌, ℤ, pos, ltb_ℤ, leb, eqb, Bool, true, false, List, [], ◌∷◌, ◌++◌, String,
  Option, none, some, Map, lookup, insert, ◌==◌, if◌then◌else◌, ◌||◌, not,
}
use go_gateway.CircuitBreaker.{CircuitBreaker, allow, record_success, record_failure}
use go_gateway.Registry.{Instance}
use go_gateway.LoadBalancer.{Skipper}
use go_gateway.Proxy.Headers.{Header, strip_hop_by_hop}

-- `minRemainingForRetry`, in nanoseconds.
abbrev pub min_remaining_for_retry : ℕ
min_remaining_for_retry = 200000000

abbrev pub max_retries : ℕ
max_retries = 2

-- `retryableStatusCodes[status]`
abbrev pub retryable : ℕ → Bool
retryable status = eqb status 502 || eqb status 503 || eqb status 504

-- The `LoadBalancer` interface: `none` is ErrNoHealthyInstances; `done` says whether it was an error.
pub record Balancer (B : Type 0) : Type 1 where
  pub next : {S : Type 0} → Skipper S → List Instance → B → S → Option Instance × B × S
  pub done : Instance → Bool → B → B

-- The answer to a call of an upstream: an error of the connection, or a response.
pub data Answer : Type 0 where
  connection_failed : Answer
  answered : (status : ℕ) (headers : Header) (body : String) → Answer

-- What the proxy meets at one attempt.
pub record Moment : Type 0 where
  pub remaining : Option ℤ  -- `time.Until(deadline)`, if there is a deadline
  pub healthy : List Instance
  pub picked_at : ℕ
  pub answer : Instance → Answer
  pub answered_at : ℕ
  pub cancelled : Bool

-- The response writer: headers to be sent, the status and the headers once sent, and the body.
pub record Writer : Type 0 where
  pub headers : Header
  pub status : Option ℕ
  pub sent : Header
  pub body : List String

-- `failure_reason` and the message of the error.
pub data Failure : Type 0 where
  circuit_open deadline_exceeded no_healthy_instances connection_error : Failure
  upstream_status : (status : ℕ) → Failure
  context_cancelled retries_exhausted : Failure

-- nil, or a `*ProxyError`.
pub data Result : Type 0 where
  delivered : Result
  proxy_error : (status_code : ℕ) (message : Failure) → Result

pub record Proxy (B : Type 0) : Type 0 where
  pub writer : Writer
  pub service_cb : Option CircuitBreaker
  pub instance_cbs : Map CircuitBreaker
  pub balancer : B
  pub retry_count : ℕ
  pub calls : List Instance  -- the instances called, latest first

-- `isSkipped`
unfoldable pub is_skipped : ℕ → Skipper (Map CircuitBreaker)
is_skipped now = some (λ inst cbs. elim (lookup inst.id cbs) [
  | none ↦ (false, cbs)
  | some cb ↦ (not (allow now cb).0, insert inst.id (allow now cb).1 cbs)
])

-- `if serviceCB != nil { … }`
abbrev pub on_service :
    (CircuitBreaker → CircuitBreaker) → Option CircuitBreaker → Option CircuitBreaker
on_service f none = none
on_service f (some cb) = some (f cb)

-- `if cb, ok := instanceCBs[inst.ID]; ok { … }`
unfoldable pub on_instance :
    (CircuitBreaker → CircuitBreaker) → String → Map CircuitBreaker → Map CircuitBreaker
on_instance f id cbs = elim (lookup id cbs) [ none ↦ cbs | some cb ↦ insert id (f cb) cbs ]

abbrev pub write_status : ℕ → Writer → Writer
write_status code w = elim w.status [
  | none ↦ record w { status = some code; sent = w.headers }
  | some c ↦ w
]

-- `doRequest`, from the answer on.
unfoldable pub do_request : Answer → Writer → Writer
do_request connection_failed w = w
do_request (answered status headers body) w =
    let w' = write_status status (record w { headers = w.headers ++ strip_hop_by_hop headers }) in
    record w' { body = w'.body ++ body ∷ [] }

-- `err == nil && !retryableStatusCodes[status]`
abbrev pub is_success : Answer → Bool
is_success connection_failed = false
is_success (answered status headers body) = not (retryable status)

abbrev pub error_of_answer : Answer → Result
error_of_answer connection_failed = proxy_error 502 connection_error
error_of_answer (answered status headers body) =
    proxy_error (if eqb status 0 then 502 else status) (upstream_status status)

module _ {B : Type 0} (lb : Balancer B) (idempotent : Bool) where
  -- What follows the failure of a call; `rest` is the next round.
  unfoldable pub after_failure :
      (Proxy B → Result × Proxy B) → ℕ → Moment → Instance → Answer → Proxy B → Result × Proxy B
  unfolding on_instance
  after_failure rest attempt m inst ans p =
      let p' = record p {
        balancer = lb.done inst true p.balancer;
        instance_cbs = on_instance (record_failure m.answered_at) inst.id p.instance_cbs;
      } in
      elim (not idempotent || leb max_retries attempt) [
        | true ↦ (
          error_of_answer ans,
          record p' { service_cb = on_service (record_failure m.answered_at) p'.service_cb },
        )
        | false ↦ elim m.cancelled [
          | true ↦
              (proxy_error 504 context_cancelled, record p' { retry_count = p'.retry_count + 1 })
          | false ↦ rest (record p' { retry_count = p'.retry_count + 1 })
        ]
      ]

  abbrev pub after_success : Instance → Proxy B → Result × Proxy B
  after_success inst p = (
    delivered,
    record p {
      balancer = lb.done inst false p.balancer;
      instance_cbs = on_instance record_success inst.id p.instance_cbs;
      service_cb = on_service record_success p.service_cb;
    },
  )

  -- The call of the instance picked: one call of `client.Do`, with its answer after the redirects
  -- that the client follows.
  unfoldable pub call_instance :
      (Proxy B → Result × Proxy B) → ℕ → Moment → Instance → Proxy B → Result × Proxy B
  unfolding do_request after_failure
  call_instance rest attempt m inst p =
      let ans = m.answer inst in
      let p' = record p { writer = do_request ans p.writer; calls = inst ∷ p.calls } in
      elim (is_success ans) [
        | true ↦ after_success inst p'
        | false ↦ after_failure rest attempt m inst ans p'
      ]

  -- What follows `lb.Next`.
  unfoldable pub after_pick :
      (Proxy B → Result × Proxy B) → ℕ → Moment → Option Instance → Proxy B → Result × Proxy B
  unfolding call_instance
  after_pick rest attempt m none p = (
    proxy_error 503 no_healthy_instances,
    record p { service_cb = on_service (record_failure m.picked_at) p.service_cb },
  )
  after_pick rest attempt m (some inst) p = call_instance rest attempt m inst p

  abbrev pub out_of_time : Option ℤ → Bool
  out_of_time none = false
  out_of_time (some left) = ltb_ℤ left (pos min_remaining_for_retry)

  -- One round of the loop.
  unfoldable pub one_attempt :
      (Proxy B → Result × Proxy B) → ℕ → Moment → Proxy B → Result × Proxy B
  unfolding is_skipped after_pick
  one_attempt rest attempt m p = elim (out_of_time m.remaining) [
    | true ↦ (proxy_error 504 deadline_exceeded, p)
    | false ↦
        (let (inst, balancer, cbs) =
            lb.next (is_skipped m.picked_at) m.healthy p.balancer p.instance_cbs in
          after_pick rest attempt m inst (record p { balancer = balancer; instance_cbs = cbs }))
  ]

  -- The loop, with the number of rounds left.
  unfoldable pub attempts : ℕ → ℕ → (ℕ → Moment) → Proxy B → Result × Proxy B
  unfolding one_attempt
  attempts zero attempt env p = (proxy_error 502 retries_exhausted, p)
  attempts (suc left) attempt env p =
      one_attempt (attempts left (attempt + 1) env) attempt (env attempt) p

  -- `ProxyRequest`, called at a time `now`.
  unfoldable pub proxy_request : ℕ → (ℕ → Moment) → Proxy B → Result × Proxy B
  unfolding attempts
  proxy_request now env p = elim p.service_cb [
    | none ↦ attempts (max_retries + 1) 0 env p
    | some cb ↦ elim (allow now cb).0 [
      | false ↦ (proxy_error 503 circuit_open, record p { service_cb = some (allow now cb).1 })
      | true ↦ attempts (max_retries + 1) 0 env (record p { service_cb = some (allow now cb).1 })
    ]
  ]

-- `isIdempotentRequest`, of the method and of the header `X-Idempotency-Key`.
unfoldable pub is_idempotent_request : String → String → Bool
is_idempotent_request method key =
    if method == "GET"
      || method == "HEAD"
      || method == "OPTIONS"
      || method == "PUT"
      || method == "DELETE"
    then true
    else if method == "POST" || method == "PATCH"
    then not (key == "")
    else false
