-- ===== src/External/Examples.antt =====
-- External plugins with concrete sidecars. A JSON value is a number, and the body of an answer is the
-- number of a decision.
use go_gateway.Prelude.{
  ℕ, ◌≤◌, pos, eqb, ◌≡◌, refl, true, List, [], ◌∷◌, String, none, some, Option, arith, length,
  if◌then◌else◌, ◌==◌,
}
use go_gateway.CircuitBreaker.{
  allow, allow_at, failure_at, run, new, state_closed, record_success, record_failure,
}
use go_gateway.Plugin.{abort_error}
use go_gateway.External.Client.{
  Request, Sent, Answer, http_answer, Codec, Client, ExternalPlugin, PluginResponse, Manifest,
  build_payload, build_client, first_values,
}
use go_gateway.External.Execute.{
  execute, after_allow, send, after_call, after_decode, decision, inject, apply_on_error,
  check_health, health_tick,
}
use go_gateway.External.Load.{
  ExternalPluginConfig, load_breaker, load, loaded, load_with, with_defaults, http_addr,
  fetch_manifest,
}
use go_gateway.External.Outage.{Event, request, checked, sends, outage_sends}
use go_gateway.External.Recovery.{health_check_closes}
use go_gateway.External.Policy.{Decided, Returned, Injected, fail_open, fail_closed}
use go_gateway.External.Startup.{plugin_of}

-- The decisions 0 and 1.
abbrev decode : ℕ → Option PluginResponse
decode n =
    if eqb n 0
    then some (record {
      action = "continue";
      status_code = 0;
      message = "";
      add_headers = ("x-plan", "gold") ∷ [];
    })
    else if eqb n 1
    then some (record { action = "abort"; status_code = 0; message = "blocked"; add_headers = [] })
    else none

abbrev manifest : Manifest
manifest = record { name = "geo"; version = "2.1.0"; sdk_major_version = pos 1 }

abbrev codec : Codec ℕ ℕ
codec = record {
  marshal = λ payload. some payload.path;
  decode_response = decode;
  decode_manifest = λ n. some manifest;
  request_ok = λ url. true;
  canonical = λ k. if k == "x-plan" then "X-Plan" else k;
  unavailable = λ name. name;
}

-- A sidecar whose answers all have one status and one body.
abbrev answers : ℕ → ℕ → Client → Sent → Answer ℕ
answers status body client call = http_answer status body

abbrev geo : String → ExternalPluginConfig
geo policy = record {
  name = "geo";
  address = "http://localhost:8082";
  timeout = pos 0;
  on_error = policy;
  health_path = "";
}

abbrev plugin : String → ExternalPlugin ℕ
plugin policy = plugin_of codec (answers 200 0) (geo policy) 7 manifest

abbrev incoming : Request
incoming = record {
  method = "GET";
  path = "/orders";
  raw_query = "";
  headers = [];
  remote_addr = "10.0.0.9:5123";
  gateway_context = none;
}

reject-loads : load codec (answers 200 0) (geo "reject") 7 ≡ loaded (plugin "reject")
unfolding load load_with with_defaults http_addr fetch_manifest build_client check_health plugin_of
    load_breaker new
reject-loads = refl

-- Failing requests, a failing check, and one more request.
abbrev outage : List Event
outage =
    request 10 12 "/execute/request" incoming
    ∷ request 20 22 "/execute/request" incoming
    ∷ checked 25
    ∷ request 30 32 "/execute/request" incoming
    ∷ request 29000000000 29000000001 "/execute/response" incoming
    ∷ []

outage-sends : length (sends codec (answers 503 0) outage (plugin "pass")) ≡ 2
unfolding sends execute after_allow send after_call apply_on_error check_health health_tick
    plugin_of load_breaker new allow record_failure build_payload first_values with_defaults
    http_addr build_client
outage-sends = refl

outage_sends_example : length (sends codec (answers 503 0) outage (plugin "pass")) ≤ 3
unfolding plugin_of
outage_sends_example =
    outage_sends codec (answers 503 0) 10 outage (plugin "pass") refl (λ c s. refl) (omega arith)

-- Three failures, a probe after half a minute that never records a result, and two checks.
health_check_closes_example :
    let tripped =
      run (failure_at 1 ∷ failure_at 2 ∷ failure_at 3 ∷ allow_at 30000000003 ∷ []) load_breaker in
    let p = record (plugin "pass") { cb = tripped } in
    let q =
      health_tick codec 60000000000
        (answers 200 0)
        (health_tick codec 50000000000 (answers 200 0) p) in
    (q.cb.state ≡ state_closed) × ((allow 70000000000 q.cb).0 ≡ true)
unfolding load_breaker new run check_health plugin_of
health_check_closes_example =
    let tripped =
      run (failure_at 1 ∷ failure_at 2 ∷ failure_at 3 ∷ allow_at 30000000003 ∷ []) load_breaker in
    health_check_closes codec (answers 200 0)
      (failure_at 1 ∷ failure_at 2 ∷ failure_at 3 ∷ allow_at 30000000003 ∷ []) 50000000000
      60000000000 70000000000 (record (plugin "pass") { cb = tripped }) refl refl refl

fail_open_example :
    (a : PluginResponse) × Decided codec 10
      (answers 200 1)
      "/execute/request"
      (plugin "pass")
      incoming
      a
    × (a.action ≡ "abort")
    × ((execute codec 10 12 (answers 200 1) "/execute/request" (plugin "pass") incoming).outcome
        ≡ abort_error (if eqb a.status_code 0 then 403 else a.status_code) a.message)
unfolding execute after_allow send after_call after_decode decision apply_on_error plugin_of
    load_breaker new allow record_success build_payload first_values with_defaults http_addr
    build_client inject
fail_open_example =
    fail_open codec 10 12 (answers 200 1) "/execute/request" (plugin "pass") incoming refl
      (λ e. ground (arith, e))

fail_closed_example :
    (a : PluginResponse) × Decided codec 10
      (answers 200 0)
      "/execute/request"
      (plugin "reject")
      incoming
      a
    × Returned a
        (execute codec 10 12 (answers 200 0) "/execute/request" (plugin "reject") incoming).outcome
    × Injected codec.canonical a.add_headers incoming
        (execute codec 10 12 (answers 200 0) "/execute/request" (plugin "reject") incoming).request
unfolding execute after_allow send after_call after_decode decision apply_on_error plugin_of
    load_breaker new allow record_success build_payload first_values with_defaults http_addr
    build_client inject
fail_closed_example =
    fail_closed codec 10 12 (answers 200 0) "/execute/request" (plugin "reject") incoming refl
      (λ e. ground (arith, e))
