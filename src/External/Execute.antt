-- ===== src/External/Execute.antt =====
-- internal/plugin/external/client.go, `execute`, and the ticks of internal/plugin/external/healthchecker.go.
use Prim.Native.String.{◌++◌}
use go_gateway.Prelude.{
  ℕ, eqb, Bool, false, List, [], ◌∷◌, String, Option, none, some, Map, insert, if◌then◌else◌, ◌==◌,
  ◌||◌,
}
use go_gateway.CircuitBreaker.{allow, record_success, record_failure}
use go_gateway.Plugin.{Outcome, passed, abort_error}
use go_gateway.External.Client.{
  Request, PluginResponse, Sent, Answer, call_error, http_answer, Codec, Client, ExternalPlugin,
  build_payload,
}

-- What a call of the plugin returns and leaves: the plugin, the request, and what was sent to the
-- sidecar.
pub record Done (J : Type 0) : Type 0 where
  pub outcome : Outcome
  pub plugin : ExternalPlugin J
  pub request : Request
  pub sent : List Sent

-- `r.Header.Set(k, v)` for each header of the plugin.
unfoldable pub inject : (String → String) → Map String → Request → Request
inject canonical [] r = r
inject canonical ((k, v) ∷ h) r =
    inject canonical h (record r { headers = insert (canonical k) (v ∷ []) r.headers })

-- The decision of the plugin.
unfoldable pub decision : PluginResponse → Outcome
decision a =
    if a.action == "abort"
    then abort_error (if eqb a.status_code 0 then 403 else a.status_code) a.message
    else passed

module _ {J B : Type 0} (codec : Codec J B) where
  unfoldable pub apply_on_error : ExternalPlugin J → Outcome
  apply_on_error p =
      if p.on_error == "pass"
      then passed
      else if p.on_error == "reject" || p.on_error == "circuit-break"
      then abort_error 502 (codec.unavailable p.manifest.name)
      else passed

  -- `return p.applyOnError(err)`
  abbrev pub give_up : ExternalPlugin J → Request → List Sent → Done J
  give_up p r sent = record { outcome = apply_on_error p; plugin = p; request = r; sent = sent }

  unfoldable pub after_decode :
      Option PluginResponse → ExternalPlugin J → Request → List Sent → Done J
  unfolding decision inject
  after_decode none p r sent = give_up p r sent
  after_decode (some a) p r sent = record {
    outcome = decision a;
    plugin = p;
    request = inject codec.canonical a.add_headers r;
    sent = sent;
  }

  -- What follows the call, which ended at the time `now`.
  unfoldable pub after_call : ℕ → Answer B → ExternalPlugin J → Request → List Sent → Done J
  after_call now call_error p r sent = give_up (record p { cb = record_failure now p.cb }) r sent
  after_call now (http_answer status body) p r sent =
      if eqb status 200
      then after_decode (codec.decode_response body) (record p { cb = record_success p.cb }) r sent
      else give_up (record p { cb = record_failure now p.cb }) r sent

  -- `client.Do` of the request with this body, if the URL makes one: the answer is the one after the
  -- redirects that the client follows.
  unfoldable pub send :
      ℕ → (Client → Sent → Answer B) → String → ExternalPlugin J → Request → String → Done J
  unfolding after_call
  send now reply path p r body =
      let call : Sent = record { method = "POST"; url = p.addr ++ path; body = body } in
      if codec.request_ok (p.addr ++ path)
      then after_call now (reply p.client call) p r (call ∷ [])
      else give_up p r []

  -- What follows a call of `Allow` that returned true.
  unfoldable pub after_allow :
      ℕ → (Client → Sent → Answer B) → String → ExternalPlugin J → Request → Done J
  unfolding send build_payload
  after_allow now reply path p r = elim (codec.marshal (build_payload p r)) [
    | none ↦ give_up p r []
    | some body ↦ send now reply path p r body
  ]

  -- `execute`: `asked` and `answered` are the times of the two calls of the circuit breaker.
  unfoldable pub execute :
      ℕ → ℕ → (Client → Sent → Answer B) → String → ExternalPlugin J → Request → Done J
  execute asked answered reply path p r =
      let (may_call, cb) = allow asked p.cb in
      let p' = record p { cb = cb } in
      if may_call then after_allow answered reply path p' r else give_up p' r []

  unfoldable pub execute_request :
      ℕ → ℕ → (Client → Sent → Answer B) → ExternalPlugin J → Request → Done J
  unfolding execute
  execute_request asked answered reply p r = execute asked answered reply "/execute/request" p r

  unfoldable pub execute_response :
      ℕ → ℕ → (Client → Sent → Answer B) → ExternalPlugin J → Request → Done J
  unfolding execute
  execute_response asked answered reply p r = execute asked answered reply "/execute/response" p r

abbrev pub is_ok : {B : Type 0} → Answer B → Bool
is_ok call_error = false
is_ok (http_answer status body) = eqb status 200

-- `checkHealth`: it returns nil.
unfoldable pub check_health :
    {J B : Type 0} → Codec J B → (Client → Sent → Answer B) → Client → String → String → Bool
check_health codec reply client addr path =
    if codec.request_ok (addr ++ path)
    then is_ok (reply client (record { method = "GET"; url = addr ++ path; body = "" }))
    else false

-- One tick of the loop of `runFor`.
unfoldable pub health_tick :
    {J B : Type 0}
    → Codec J B
    → ℕ
    → (Client → Sent → Answer B)
    → ExternalPlugin J
    → ExternalPlugin J
unfolding check_health
health_tick codec now reply p =
    if check_health codec reply p.client p.addr "/healthz"
    then record p { cb = record_success p.cb }
    else record p { cb = record_failure now p.cb }
