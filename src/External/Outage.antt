-- ===== src/External/Outage.antt =====
-- A sidecar that is down, against the circuit breaker of its plugin.
use Prim.Native.String.{◌++◌ as cat}
use go_gateway.Prelude.{
  ℕ, ◌+◌, ◌-◌, ◌≤◌, ◌<◌, pos, false, ◌≡◌, refl, subst, All, List, [], ◌∷◌, ◌++◌, length,
  length-append, String, arith, Bool-cases, Option-cases, ◌⊎◌, inl, inr,
}
use go_gateway.CircuitBreaker.{CircuitBreaker, state_closed, state_open, allow, record_failure, new}
use go_gateway.External.Client.{
  Request, Sent, Answer, call_error, http_answer, Codec, Client, ExternalPlugin, build_payload,
}
use go_gateway.External.Load.{load_breaker}
use go_gateway.External.Execute.{
  Done, is_ok, check_health, health_tick, after_call, send, after_allow, execute,
}

-- What happens to a plugin: a request, of the chain or of the response, or a tick of the health check.
pub data Event : Type 0 where
  request : (asked answered : ℕ) (path : String) (r : Request) → Event
  checked : (now : ℕ) → Event

-- All times of an event lie in the `d` nanoseconds from `t` on.
abbrev pub Within : ℕ → ℕ → Event → Type 0
Within t d (request asked answered path r) = (t ≤ asked) × (asked ≤ answered) × (asked < t + d)
Within t d (checked now) = t ≤ now

abbrev pub thirty_seconds : ℕ
thirty_seconds = 30000000000

-- The circuit breaker may let `room` more calls fail before it opens.
abbrev Phase : ℕ → CircuitBreaker → ℕ → Type 0
Phase t cb room =
    ((cb.state ≡ state_closed) × (cb.consecutive_fails ≡ pos (3 - room)) × (0 < room) × (room ≤ 3))
    ⊎ ((cb.state ≡ state_open) × (t ≤ cb.opened_at) × (room ≡ 0))

abbrev Limits : CircuitBreaker → Type 0
Limits cb = (cb.cfg.failure_threshold ≡ pos 3) × (cb.cfg.reset_timeout ≡ pos thirty_seconds)

failure-Phase :
    (t now room : ℕ) (cb : CircuitBreaker)
    → Limits cb
    → t ≤ now
    → Phase t cb room
    → Phase t (record_failure now cb) (room - 1) × Limits (record_failure now cb)
unfolding record_failure
failure-Phase t now room cb l le h = ground arith

allow-Phase :
    (t now room : ℕ) (cb : CircuitBreaker)
    → Limits cb
    → now < t + thirty_seconds
    → Phase t cb room
    → ((allow now cb).1 ≡ cb) × (room ≡ 0 → (allow now cb).0 ≡ false)
unfolding allow
allow-Phase t now room cb l le h = ground arith

module _ {J B : Type 0} (codec : Codec J B) (reply : Client → Sent → Answer B) where
  -- The calls of `client.Do` that `execute` makes in a history, in order.
  unfoldable pub sends : List Event → ExternalPlugin J → List Sent
  sends [] p = []
  sends (request asked answered path r ∷ events) p =
      let d = execute codec asked answered reply path p r in d.sent ++ sends events d.plugin
  sends (checked now ∷ events) p = sends events (health_tick codec now reply p)

  -- The sidecar answers nothing with status 200.
  abbrev pub Down : Type 0
  Down = (c : Client) (s : Sent) → is_ok (reply c s) ≡ false

  -- Where a call of `execute` was sent, its failure was recorded.
  Failed : ℕ → CircuitBreaker → Done J → Type 0
  Failed now cb d =
      ((d.plugin.cb ≡ cb) × (d.sent ≡ []))
      ⊎ ((d.plugin.cb ≡ record_failure now cb) × (length d.sent ≡ 1))

  Failed-after_call :
      (now : ℕ) (answer : Answer B) (p : ExternalPlugin J) (r : Request) (call : Sent)
      → is_ok answer ≡ false
      → Failed now p.cb (after_call codec now answer p r (call ∷ []))
  unfolding Failed after_call
  Failed-after_call now call_error p r call h = inr (refl, refl)
  Failed-after_call now (http_answer status body) p r call h = rw h (inr (refl, refl))

  Failed-send :
      (now : ℕ) (path : String) (p : ExternalPlugin J) (r : Request) (body : String)
      → Down
      → Failed now p.cb (send codec now reply path p r body)
  unfolding send
  Failed-send now path p r body down = elim (Bool-cases (codec.request_ok (cat p.addr path))) [
    | inl yes_ok ↦ rw yes_ok (
        let call : Sent = record { method = "POST"; url = cat p.addr path; body = body } in
        Failed-after_call now (reply p.client call) p r call (down p.client call))
    | inr no_ok ↦ rw no_ok (unfold Failed in inl (refl, refl))
  ]

  Failed-after_allow :
      (now : ℕ) (path : String) (p : ExternalPlugin J) (r : Request)
      → Down
      → Failed now p.cb (after_allow codec now reply path p r)
  unfolding after_allow build_payload
  Failed-after_allow now path p r down = elim (Option-cases (codec.marshal (build_payload p r))) [
    | inl none_made ↦ rw (none_made, after_allow) (unfold Failed in inl (refl, refl))
    | inr (body, made) ↦ rw (made, after_allow) (Failed-send now path p r body down)
  ]

  abbrev Room : ℕ → ℕ → Done J → Type 0
  Room t room d =
      (length d.sent ≤ room) × Phase t d.plugin.cb (room - length d.sent) × Limits d.plugin.cb

  Room-Failed :
      (t now room : ℕ) (cb : CircuitBreaker) (d : Done J)
      → Failed now cb d
      → Limits cb
      → t ≤ now
      → 0 < room
      → Phase t cb room
      → Room t room d
  unfolding Failed
  Room-Failed t now room cb d (inl (e, f)) l le some_room h =
      rw (e, f) (omega arith, subst (Phase t cb) (omega arith) h, l)
  Room-Failed t now room cb d (inr (e, f)) l le some_room h =
      let (h', l') = failure-Phase t now room cb l le h in rw (e, f) (omega arith, h', l')

  Room-execute :
      (t asked answered room : ℕ) (path : String) (p : ExternalPlugin J) (r : Request)
      → Down
      → Limits p.cb
      → t ≤ answered
      → asked < t + thirty_seconds
      → Phase t p.cb room
      → Room t room (execute codec asked answered reply path p r)
  unfolding execute
  Room-execute t asked answered room path p r down l le early h =
      let (same, shut) = allow-Phase t asked room p.cb l early h in
      elim (Bool-cases (allow asked p.cb).0) [
        | inl yes_call ↦
            rw (yes_call, same)
              (Room-Failed t answered room p.cb _ (Failed-after_allow answered path p r down) l le
                (ground (arith, shut, yes_call)) h)
        | inr no_call ↦ rw (no_call, same) ((omega arith, subst (Phase t p.cb) (omega arith) h, l))
      ]

  tick-Phase :
      (t now room : ℕ) (p : ExternalPlugin J)
      → Down
      → Limits p.cb
      → t ≤ now
      → Phase t p.cb room
      → Phase t (health_tick codec now reply p).cb (room - 1)
        × Limits (health_tick codec now reply p).cb
  unfolding health_tick check_health
  tick-Phase t now room p down l le h =
      elim (Bool-cases (codec.request_ok (cat p.addr "/healthz"))) [
        | inl yes_ok ↦
            rw
              (
                yes_ok,
                down p.client (record { method = "GET"; url = cat p.addr "/healthz"; body = "" }),
              )
              (failure-Phase t now room p.cb l le h)
        | inr no_ok ↦ rw no_ok (failure-Phase t now room p.cb l le h)
      ]

  sends-Phase :
      (t room : ℕ) (events : List Event) (p : ExternalPlugin J)
      → Down
      → Limits p.cb
      → All (Within t thirty_seconds) events
      → Phase t p.cb room
      → length (sends events p) ≤ room
  unfolding sends
  sends-Phase t room [] p down l w h = omega arith
  sends-Phase t room (request asked answered path r ∷ events) p down l ((a, b, c), w) h =
      let (few, h', l') = Room-execute t asked answered room path p r down l (omega arith) c h in
      let d = execute codec asked answered reply path p r in
      omega (
        arith,
        few,
        length-append {0} d.sent (sends events d.plugin),
        sends-Phase t (room - length d.sent) events d.plugin down l' w h',
      )
  sends-Phase t room (checked now ∷ events) p down l (a, w) h =
      let (h', l') = tick-Phase t now room p down l a h in
      omega (arith, sends-Phase t (room - 1) events (health_tick codec now reply p) down l' w h')

  -- A sidecar that is down is left alone by the requests: in a history of requests and health checks,
  -- one after another, whose calls of `Allow` fall in thirty seconds and in which no answer has status
  -- 200, `execute` makes at most three calls of `client.Do` for a plugin as `Load` makes it. The
  -- requests that the health checks themselves send are not counted.
  pub outage_sends :
      (t : ℕ) (events : List Event) (p : ExternalPlugin J)
      → p.cb ≡ load_breaker
      → Down
      → All (Within t thirty_seconds) events
      → length (sends events p) ≤ 3
  unfolding load_breaker new
  outage_sends t events p e down w =
      sends-Phase t 3 events p down (rw e (refl, refl)) w
        (inl (rw e refl, rw e refl, omega arith, omega arith))
