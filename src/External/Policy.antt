-- ===== src/External/Policy.antt =====
-- What a call of an external plugin comes to, by its `on_error` policy.
use Prim.Native.String.{◌++◌}
use go_gateway.Prelude.{
  ℕ, eqb, Bool, true, false, ◌≡◌, ◌≢◌, refl, ◌∙◌, ap, subst, List, [], ◌∷◌, String, Option, none,
  some, Map, lookup, insert, lookup-insert, sym, arith, eq_iff, Bool-cases, Option-cases, ◌⊎◌, inl,
  inr, if◌then◌else◌, ◌==◌, ◌||◌,
}
use go_gateway.CircuitBreaker.{allow}
use go_gateway.Plugin.{Outcome, passed, abort_error}
use go_gateway.External.Client.{
  Request, PluginResponse, Sent, Answer, call_error, http_answer, Codec, Client, ExternalPlugin,
  build_payload,
}
use go_gateway.External.Execute.{
  Done, inject, decision, apply_on_error, after_decode, after_call, send, after_allow, execute,
}

-- The policies that refuse a request.
abbrev pub refuses : String → Bool
refuses policy = policy == "reject" || policy == "circuit-break"

-- The last value that a plugin gives for a header, if any.
abbrev pub last_given : (String → String) → String → Map String → Option String
last_given canonical k [] = none
last_given canonical k ((name, v) ∷ h) =
    let later = last_given canonical k h in
    elim later [ some w ↦ some w | none ↦ if canonical name == k then some v else none ]

abbrev pub replacing : Option String → Option (List String) → Option (List String)
replacing none old = old
replacing (some v) old = some (v ∷ [])

-- Of a request, only the headers change: one that the plugin gives has that value alone, and the
-- others are as they were.
pub record Injected (canonical : String → String) (given : Map String) (r r' : Request)
    : Type 0 where
  pub rest : r' ≡ record r { headers = r'.headers }
  pub header :
      (k : String)
      → lookup k r'.headers ≡ replacing (last_given canonical k given) (lookup k r.headers)

inject-rest :
    (canonical : String → String) (h : Map String) (r : Request)
    → inject canonical h r ≡ record r { headers = (inject canonical h r).headers }
unfolding inject
inject-rest canonical [] r = refl
inject-rest canonical ((name, v) ∷ h) r =
    inject-rest canonical h (record r { headers = insert (canonical name) (v ∷ []) r.headers })

inject-header :
    (canonical : String → String) (h : Map String) (r : Request) (k : String)
    → lookup k (inject canonical h r).headers
      ≡ replacing (last_given canonical k h) (lookup k r.headers)
unfolding inject
inject-header canonical [] r k = refl
inject-header canonical ((name, v) ∷ h) r k =
    inject-header canonical h (record r { headers = insert (canonical name) (v ∷ []) r.headers }) k
    ∙ ap (replacing (last_given canonical k h))
        (lookup-insert (canonical name) k (v ∷ []) r.headers)
    ∙ elim (Option-cases (last_given canonical k h)) [
      | inr (w, e) ↦ rw e refl
      | inl e ↦ elim (Bool-cases (canonical name == k)) [
        | inl f ↦ rw (e, f) refl
        | inr f ↦ rw (e, f) refl
      ]
    ]

inject-Injected :
    (canonical : String → String) (h : Map String) (r : Request)
    → Injected canonical h r (inject canonical h r)
inject-Injected canonical h r = record {
  rest = inject-rest canonical h r;
  header = inject-header canonical h r;
}

-- What the code returns for a decision: an abort with the message and the status of the decision, or
-- 403 where that is 0, for the action "abort", and nil for any other.
abbrev pub Returned : PluginResponse → Outcome → Type 0
Returned a o =
    ((a.action ≢ "abort") × (o ≡ passed))
    ⊎ ((a.action ≡ "abort")
        × (o ≡ abort_error (if eqb a.status_code 0 then 403 else a.status_code) a.message))

decision-Returned : (a : PluginResponse) → Returned a (decision a)
unfolding decision
decision-Returned a = elim (Bool-cases (a.action == "abort")) [
  | inl e ↦ inr ((eq_iff a.action "abort").0 e, rw e refl)
  | inr e ↦ inl (λ f. ground (arith, e, (eq_iff a.action "abort").1 f), rw e refl)
]

module _ {J B : Type 0} (codec : Codec J B) where
  -- The circuit breaker let the call through, and the sidecar answered it with status 200 and the
  -- decision `a`.
  pub record Decided (asked : ℕ) (reply : Client → Sent → Answer B) (path : String)
      (p : ExternalPlugin J) (r : Request) (a : PluginResponse) : Type 0 where
    pub let_through : (allow asked p.cb).0 ≡ true
    pub call : Sent
    pub to_sidecar : call.url ≡ p.addr ++ path
    pub body : B
    pub answered : reply p.client call ≡ http_answer 200 body
    pub decoded : codec.decode_response body ≡ some a

  -- A call ends in the decision of the sidecar, or by the policy.
  Ends :
      (asked : ℕ) (reply : Client → Sent → Answer B) (path : String) (p : ExternalPlugin J)
      (r : Request) (d : Done J)
      → Type 0
  Ends asked reply path p r d =
      ((a : PluginResponse) × Decided asked reply path p r a
        × (d.outcome ≡ decision a)
        × (d.request ≡ inject codec.canonical a.add_headers r))
      ⊎ ((d.outcome ≡ apply_on_error codec p) × (d.request ≡ r))

  Ends-after_call :
      (asked answered : ℕ) (reply : Client → Sent → Answer B) (path : String) (p : ExternalPlugin J)
      (r : Request) (call : Sent) (answer : Answer B)
      → (allow asked p.cb).0 ≡ true
      → reply p.client call ≡ answer
      → call.url ≡ p.addr ++ path
      → Ends asked reply path p r
          (after_call codec answered answer (record p { cb = (allow asked p.cb).1 }) r (call ∷ []))
  unfolding Ends after_call after_decode apply_on_error
  Ends-after_call asked answered reply path p r call call_error h e u = inr (refl, refl)
  Ends-after_call asked answered reply path p r call (http_answer status body) h e u =
      elim (Bool-cases (eqb status 200)) [
        | inr no_200 ↦ rw no_200 (inr (refl, refl))
        | inl yes_200 ↦ elim (Option-cases (codec.decode_response body)) [
          | inl none_decoded ↦ rw (yes_200, none_decoded) (inr (refl, refl))
          | inr (a, decoded) ↦
              rw (yes_200, decoded)
                (inl (
                  a,
                  record {
                    let_through = h;
                    call = call;
                    to_sidecar = u;
                    body = body;
                    answered = e ∙ ap (λ s. http_answer s body) (ground (arith, yes_200));
                    decoded = decoded;
                  },
                  refl,
                  refl,
                ))
        ]
      ]

  Ends-send :
      (asked answered : ℕ) (reply : Client → Sent → Answer B) (path : String) (p : ExternalPlugin J)
      (r : Request) (body : String)
      → (allow asked p.cb).0 ≡ true
      → Ends asked reply path p r
          (send codec answered reply path (record p { cb = (allow asked p.cb).1 }) r body)
  unfolding send
  Ends-send asked answered reply path p r body h =
      elim (Bool-cases (codec.request_ok (p.addr ++ path))) [
        | inl yes_ok ↦ rw yes_ok (
            Ends-after_call asked answered reply path p r
              (record { method = "POST"; url = p.addr ++ path; body = body }) _ h refl refl)
        | inr no_ok ↦ rw no_ok (unfold Ends apply_on_error in inr (refl, refl))
      ]

  Ends-after_allow :
      (asked answered : ℕ) (reply : Client → Sent → Answer B) (path : String) (p : ExternalPlugin J)
      (r : Request)
      → (allow asked p.cb).0 ≡ true
      → Ends asked reply path p r
          (after_allow codec answered reply path (record p { cb = (allow asked p.cb).1 }) r)
  unfolding after_allow build_payload
  Ends-after_allow asked answered reply path p r h =
      elim (Option-cases (codec.marshal (build_payload p r))) [
        | inl none_made ↦
            rw (none_made, after_allow) (unfold Ends apply_on_error in inr (refl, refl))
        | inr (body, made) ↦ rw (made, after_allow) (Ends-send asked answered reply path p r body h)
      ]

  execute-Ends :
      (asked answered : ℕ) (reply : Client → Sent → Answer B) (path : String) (p : ExternalPlugin J)
      (r : Request)
      → Ends asked reply path p r (execute codec asked answered reply path p r)
  unfolding execute
  execute-Ends asked answered reply path p r = elim (Bool-cases (allow asked p.cb).0) [
    | inr no_call ↦ rw no_call (unfold Ends apply_on_error in inr (refl, refl))
    | inl yes_call ↦ rw yes_call (Ends-after_allow asked answered reply path p r yes_call)
  ]

  abort_decision :
      (a : PluginResponse)
      → decision a ≢ passed
      → (a.action ≡ "abort")
        × (decision a ≡ abort_error (if eqb a.status_code 0 then 403 else a.status_code) a.message)
  unfolding decision
  abort_decision a h = elim (Bool-cases (a.action == "abort")) [
    | inl e ↦ ((eq_iff a.action "abort").0 e, rw e refl)
    | inr e ↦ absurd (h (rw e refl))
  ]

  on_error_open :
      (p : ExternalPlugin J) → refuses p.on_error ≡ false → apply_on_error codec p ≡ passed
  unfolding apply_on_error
  on_error_open p h = elim (Bool-cases (p.on_error == "pass")) [
    | inl e ↦ rw e refl
    | inr e ↦ rw (e, h) refl
  ]

  on_error_closed :
      (p : ExternalPlugin J)
      → refuses p.on_error ≡ true
      → apply_on_error codec p ≡ abort_error 502 (codec.unavailable p.manifest.name)
  unfolding apply_on_error
  on_error_closed p h = elim (Bool-cases (p.on_error == "pass")) [
    | inl e ↦ absurd (
        let e' = (eq_iff p.on_error "pass").0 e in
        let h' : refuses "pass" ≡ true = subst (λ s. refuses s ≡ true) e' h in ground (arith, h'))
    | inr e ↦ rw (e, h) refl
  ]

  -- A plugin whose policy is neither "reject" nor "circuit-break" never stops a request because it is
  -- unavailable: where `execute` does not return nil, the circuit breaker let the call through, the
  -- sidecar answered it with status 200 and a body that decodes to the action "abort", and the error
  -- is an abort with its message and its status, or 403 where that is 0.
  pub fail_open :
      (asked answered : ℕ) (reply : Client → Sent → Answer B) (path : String) (p : ExternalPlugin J)
      (r : Request)
      → refuses p.on_error ≡ false
      → (execute codec asked answered reply path p r).outcome ≢ passed
      → (a : PluginResponse) × Decided asked reply path p r a
        × (a.action ≡ "abort")
        × ((execute codec asked answered reply path p r).outcome
            ≡ abort_error (if eqb a.status_code 0 then 403 else a.status_code) a.message)
  unfolding Ends
  fail_open asked answered reply path p r policy h =
      elim (execute-Ends asked answered reply path p r) [
        | inl (a, decided, e, f) ↦
            (let (act, g) = abort_decision a (λ k. h (e ∙ k)) in (a, decided, act, e ∙ g))
        | inr (e, f) ↦ absurd (h (e ∙ on_error_open p policy))
      ]

  -- A plugin whose policy is "reject" or "circuit-break" lets a request through only by a decision of
  -- the sidecar: where `execute` does not abort with status 502 and the text that the plugin is
  -- unavailable, the circuit breaker let the call through, and the sidecar answered it with status
  -- 200 and a body that decodes. The outcome is then an abort with the message of that response and
  -- its status, or 403 where that is 0, if its action is "abort", and nil otherwise; and whatever the
  -- action is, the request has the headers that the response gives, and is otherwise unchanged.
  pub fail_closed :
      (asked answered : ℕ) (reply : Client → Sent → Answer B) (path : String) (p : ExternalPlugin J)
      (r : Request)
      → refuses p.on_error ≡ true
      → (execute codec asked answered reply path p r).outcome
        ≢ abort_error 502 (codec.unavailable p.manifest.name)
      → (a : PluginResponse) × Decided asked reply path p r a
        × Returned a (execute codec asked answered reply path p r).outcome
        × Injected codec.canonical a.add_headers r
            (execute codec asked answered reply path p r).request
  unfolding Ends
  fail_closed asked answered reply path p r policy h =
      elim (execute-Ends asked answered reply path p r) [
        | inl (a, decided, e, f) ↦ (
          a,
          decided,
          subst (Returned a) (sym e) (decision-Returned a),
          subst (Injected codec.canonical a.add_headers r) (sym f)
              (inject-Injected codec.canonical a.add_headers r),
        )
        | inr (e, f) ↦ absurd (h (e ∙ on_error_closed p policy))
      ]
