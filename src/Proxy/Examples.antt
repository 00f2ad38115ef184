-- ===== src/Proxy/Examples.antt =====
-- The theorems on the proxy at concrete runs, with a balancer that takes the first healthy instance.
use go_gateway.Prelude.{
  ℕ, zero, suc, ◌+◌, ◌≤◌, pos, ◌≡◌, refl, true, false, List, [], ◌∷◌, Option, none, some, length,
  arith, In, ◌↔◌,
}
use go_gateway.CircuitBreaker.{CircuitBreaker, allow, new, run, failure_at, state_half_open}
use go_gateway.Registry.{Instance, status_healthy}
use go_gateway.Proxy.Headers.{Header, Inbound, outbound_headers}
use go_gateway.Proxy.Retries.{Delivery}
use go_gateway.Proxy.Rounds.{loop_ends}
use go_gateway.Proxy.{
  Balancer, Moment, Answer, answered, Writer, deadline_exceeded, delivered, proxy_error, Proxy,
  do_request, proxy_request, attempts, one_attempt, after_pick, call_instance, after_failure,
  on_instance, max_retries,
}
use go_gateway.Proxy.Client.{
  proxy_request-calls, proxy_request-Delivery, first_answer_sticks, deadline_strands_probe,
}
use go_gateway.Proxy.Forwarded.{Reaches, outbound_iff}

abbrev head_of : List Instance → Option Instance
head_of [] = none
head_of (i ∷ is) = some i

abbrev first_healthy : Balancer (Unit {0})
first_healthy = record { next = λ skip is b s. (head_of is, b, s); done = λ inst failed b. b }

abbrev upstream : Instance
upstream = record {
  id = "u1";
  address = "10.0.0.1:80";
  weight = pos 1;
  status = status_healthy;
  consecutive_fails = pos 0;
  consecutive_oks = pos 0;
}

-- The first attempt is answered with 503, the later ones with 200.
abbrev answer_at : ℕ → Instance → Answer
answer_at zero inst = answered 503 [] "busy"
answer_at (suc n) inst = answered 200 [] "hello"

abbrev sample_moments : ℕ → Moment
sample_moments n = record {
  remaining = none;
  healthy = upstream ∷ [];
  picked_at = n;
  answer = answer_at n;
  answered_at = n;
  cancelled = false;
}

abbrev blank_writer : Writer
blank_writer = record { headers = []; status = none; sent = []; body = [] }

abbrev sample_proxy : Proxy (Unit {0})
sample_proxy = record {
  writer = blank_writer;
  service_cb = none;
  instance_cbs = [];
  balancer = tt;
  retry_count = 0;
  calls = [];
}

-- The retry succeeds, and the client sees the status of the failed attempt and both bodies.
retried_client :
    let (result, q) = proxy_request first_healthy true 0 sample_moments sample_proxy in
    (result ≡ delivered) × (q.writer.status ≡ some 503) × (q.writer.body ≡ "busy" ∷ "hello" ∷ [])
unfolding proxy_request attempts one_attempt after_pick call_instance after_failure do_request
    on_instance
retried_client = (refl, refl, refl)

proxy_request-calls_example :
    length (proxy_request first_healthy true 0 sample_moments sample_proxy).1.calls ≤ 0 + 3
proxy_request-calls_example = proxy_request-calls first_healthy true 0 sample_moments sample_proxy

proxy_request-Delivery_example :
    Delivery first_healthy true sample_moments 0 0
      (proxy_request first_healthy true 0 sample_moments sample_proxy).1
unfolding retried_client
proxy_request-Delivery_example =
    proxy_request-Delivery first_healthy true 0 sample_moments sample_proxy retried_client.0

first_answer_sticks_example :
    (attempts first_healthy true 3 0 sample_moments sample_proxy).1.writer.status ≡ some 503
first_answer_sticks_example =
    first_answer_sticks first_healthy true 2 0 sample_moments sample_proxy upstream 503 [] "busy"
      refl refl refl refl

-- Two failures trip the circuit breaker of the service.
abbrev tripped_cb : CircuitBreaker
tripped_cb = run (failure_at 3 ∷ failure_at 4 ∷ []) (
    new (record { failure_threshold = pos 2; success_threshold = pos 0; reset_timeout = pos 10 })
      true)

abbrev late_moments : ℕ → Moment
late_moments n = record (sample_moments n) { remaining = some (pos 5) }

abbrev guarded_proxy : Proxy (Unit {0})
guarded_proxy = record sample_proxy { service_cb = some tripped_cb }

deadline_strands_probe_example :
    let (result, q) = proxy_request first_healthy true 20 late_moments guarded_proxy in
    (result ≡ proxy_error 504 deadline_exceeded)
    × (q.calls ≡ [])
    × (after : CircuitBreaker) × (q.service_cb ≡ some after)
    × (after.state ≡ state_half_open)
    × (allow 900 after ≡ (false, after))
unfolding run new
deadline_strands_probe_example =
    deadline_strands_probe first_healthy true 20 late_moments guarded_proxy tripped_cb 900 refl refl
      (omega arith) refl

abbrev client : Inbound
client = record { client_ip = "10.1.1.1"; host = "api"; tls = true }

abbrev spoofed : Header
spoofed = ("X-Forwarded-For", "1.2.3.4") ∷ ("Te", "gzip") ∷ ("Accept", "json") ∷ []

outbound_iff_example :
    In ("Accept", "json") (outbound_headers client spoofed) ↔ Reaches client spoofed "Accept" "json"
outbound_iff_example = outbound_iff client spoofed "Accept" "json"

loop_ends_example :
    attempts first_healthy true (max_retries + 1 + 4) 0 sample_moments sample_proxy
    ≡ attempts first_healthy true (max_retries + 1) 0 sample_moments sample_proxy
loop_ends_example = loop_ends first_healthy true 4 sample_moments sample_proxy
