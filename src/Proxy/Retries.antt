-- ===== src/Proxy/Retries.antt =====
-- The ends that one round of the proxy's loop can have, and what follows for the whole loop: how often
-- an upstream is called, what a nil result means, and what the client sees.
use go_gateway.Prelude.{
  ℕ, zero, suc, ◌≢◌, String, ◌+◌, ◌≤◌, ◌<◌, ◌≡◌, refl, ap, Bool, true, false, List, ◌∷◌, Option,
  none, some, arith, Bool-cases, inl, inr, length, not, ◌||◌, leb, if◌then◌else◌,
}
use go_gateway.Proxy.Headers.{Header}
use go_gateway.Registry.{Instance}
use go_gateway.Proxy.{
  Balancer, Moment, Answer, connection_failed, answered, Failure, Result, delivered, proxy_error,
  Proxy, max_retries, is_success, error_of_answer, is_skipped, do_request, after_failure,
  call_instance, after_pick, out_of_time, one_attempt, attempts,
}

module _ {B : Type 0} (lb : Balancer B) (idempotent : Bool) where
  -- The proxy after a call of an instance.
  pub record Called (m : Moment) (inst : Instance) (p q : Proxy B) : Type 0 where
    pub written : q.writer ≡ do_request (m.answer inst) p.writer
    pub counted : q.calls ≡ inst ∷ p.calls

  -- The ends of one round; `again` is followed by the next rounds.
  pub data Ends (rest : Proxy B → Result × Proxy B) (attempt : ℕ) (m : Moment) (p : Proxy B)
      : Result × Proxy B → Type 0 where
    uncalled :
        {code : ℕ} {why : Failure} {q : Proxy B}
        → q.writer ≡ p.writer
        → q.calls ≡ p.calls
        → Ends rest attempt m p (proxy_error code why, q)
    succeeded :
        {inst : Instance} {q : Proxy B}
        → is_success (m.answer inst) ≡ true
        → Called m inst p q
        → Ends rest attempt m p (delivered, q)
    gave_up :
        {inst : Instance} {code : ℕ} {why : Failure} {q : Proxy B}
        → is_success (m.answer inst) ≡ false
        → Called m inst p q
        → Ends rest attempt m p (proxy_error code why, q)
    again :
        {inst : Instance} {q : Proxy B}
        → is_success (m.answer inst) ≡ false
        → idempotent ≡ true
        → attempt < max_retries
        → Called m inst p q
        → Ends rest attempt m p (rest q)

  error_of_answer-error :
      (ans : Answer) → (code : ℕ) × (why : Failure) × (error_of_answer ans ≡ proxy_error code why)
  error_of_answer-error connection_failed = (_, _, refl)
  error_of_answer-error (answered s h b) = (_, _, refl)

  retries_left :
      (attempt : ℕ)
      → (not idempotent || leb max_retries attempt) ≡ false
      → (idempotent ≡ true) × (attempt < max_retries)
  retries_left attempt h = ground (arith, h)

  after_failure-Ends :
      (rest : Proxy B → Result × Proxy B) (attempt : ℕ) (m : Moment) (inst : Instance)
      (p q : Proxy B)
      → is_success (m.answer inst) ≡ false
      → Called m inst p q
      → Ends rest attempt m p (after_failure lb idempotent rest attempt m inst (m.answer inst) q)
  unfolding after_failure
  after_failure-Ends rest attempt m inst p q failed called =
      elim (Bool-cases (not idempotent || leb max_retries attempt)) [
        | inl e ↦
            (let (code, why, same) = error_of_answer-error (m.answer inst) in
              rw (e, after_failure, same)
                (Ends.gave_up failed
                  (record { written = called.written; counted = called.counted })))
        | inr e ↦
            (let (idem, left) = retries_left attempt e in
              elim (Bool-cases m.cancelled) [
                | inl c ↦
                    rw (e, c, after_failure)
                      (Ends.gave_up failed
                        (record { written = called.written; counted = called.counted }))
                | inr c ↦
                    rw (e, c, after_failure)
                      (Ends.again failed idem left
                        (record { written = called.written; counted = called.counted }))
              ])
      ]

  call_instance-Ends :
      (rest : Proxy B → Result × Proxy B) (attempt : ℕ) (m : Moment) (inst : Instance)
      (p q : Proxy B)
      → q.writer ≡ p.writer
      → q.calls ≡ p.calls
      → Ends rest attempt m p (call_instance lb idempotent rest attempt m inst q)
  unfolding call_instance
  call_instance-Ends rest attempt m inst p q w c = elim (Bool-cases (is_success (m.answer inst))) [
    | inl e ↦
        rw (e, call_instance)
          (Ends.succeeded e (record {
            written = ap (do_request (m.answer inst)) w;
            counted = ap (λ cs. inst ∷ cs) c;
          }))
    | inr e ↦
        rw (e, call_instance)
          (after_failure-Ends rest attempt m inst p
            (record q { writer = do_request (m.answer inst) q.writer; calls = inst ∷ q.calls }) e
            (record {
              written = ap (do_request (m.answer inst)) w;
              counted = ap (λ cs. inst ∷ cs) c;
            }))
  ]

  after_pick-Ends :
      (rest : Proxy B → Result × Proxy B) (attempt : ℕ) (m : Moment) (i : Option Instance)
      (p q : Proxy B)
      → q.writer ≡ p.writer
      → q.calls ≡ p.calls
      → Ends rest attempt m p (after_pick lb idempotent rest attempt m i q)
  unfolding after_pick
  after_pick-Ends rest attempt m none p q w c = Ends.uncalled w c
  after_pick-Ends rest attempt m (some inst) p q w c =
      call_instance-Ends rest attempt m inst p q w c

  pub one_attempt-Ends :
      (rest : Proxy B → Result × Proxy B) (attempt : ℕ) (m : Moment) (p : Proxy B)
      → Ends rest attempt m p (one_attempt lb idempotent rest attempt m p)
  unfolding one_attempt
  one_attempt-Ends rest attempt m p = elim (Bool-cases (out_of_time lb idempotent m.remaining)) [
    | inl e ↦ rw (e, one_attempt) (Ends.uncalled refl refl)
    | inr e ↦
        rw (e, one_attempt)
          (let (i, balancer, cbs) =
              lb.next (is_skipped m.picked_at) m.healthy p.balancer p.instance_cbs in
            after_pick-Ends rest attempt m i p
              (record p { balancer = balancer; instance_cbs = cbs }) refl refl)
  ]

  -- The calls that `left` rounds may make.
  abbrev pub call_limit : ℕ → ℕ
  call_limit left = if idempotent then left else if leb left 1 then left else 1

  Ends-calls :
      (rest : Proxy B → Result × Proxy B) (left attempt : ℕ) (m : Moment) (p : Proxy B)
      {r : Result × Proxy B}
      → ((q : Proxy B) → length (rest q).1.calls ≤ length q.calls + call_limit left)
      → Ends rest attempt m p r
      → length r.1.calls ≤ length p.calls + call_limit (suc left)
  Ends-calls rest left attempt m p h (Ends.uncalled w c) = rw c (omega arith)
  Ends-calls rest left attempt m p h (Ends.succeeded e called) = rw called.counted (ground arith)
  Ends-calls rest left attempt m p h (Ends.gave_up e called) = rw called.counted (ground arith)
  Ends-calls rest left attempt m p h (Ends.again {q = q} e idem lt called) =
      ground (arith, h q, ap length called.counted, idem)

  pub attempts-calls :
      (left attempt : ℕ) (env : ℕ → Moment) (p : Proxy B)
      → length (attempts lb idempotent left attempt env p).1.calls
        ≤ length p.calls + call_limit left
  unfolding attempts
  attempts-calls zero attempt env p = omega arith
  attempts-calls (suc left) attempt env p =
      Ends-calls (attempts lb idempotent left (attempt + 1) env) left attempt (env attempt) p
        (attempts-calls left (attempt + 1) env) (one_attempt-Ends _ attempt (env attempt) p)

  -- What is delivered is the answer of the last call, which was an answer with a status other than
  -- 502, 503 and 504. Each round from `start` on, before which `made` calls were made, made one call, so
  -- `attempt` is the round of the last one.
  pub record Delivery (env : ℕ → Moment) (start made : ℕ) (q : Proxy B) : Type 0 where
    pub attempt : ℕ
    pub inst : Instance
    pub before : List Instance
    pub last_call : q.calls ≡ inst ∷ before
    pub calls_before : length before + start ≡ made + attempt
    pub status : ℕ
    pub headers : Header
    pub body : String
    pub its_answer : (env attempt).answer inst ≡ answered status headers body
    pub not_502 : status ≢ 502
    pub not_503 : status ≢ 503
    pub not_504 : status ≢ 504

  -- An answer that the code takes for a success.
  success-answered :
      (ans : Answer)
      → is_success ans ≡ true
      → (status : ℕ) × (headers : Header) × (body : String) × (ans ≡ answered status headers body)
        × (status ≢ 502)
        × (status ≢ 503)
        × (status ≢ 504)
  success-answered connection_failed h = absurd (ground (arith, h))
  success-answered (answered status headers body) h = (
    status,
    headers,
    body,
    refl,
    λ e. ground (arith, h, e),
    λ e. ground (arith, h, e),
    λ e. ground (arith, h, e),
  )

  Ends-Delivery :
      (rest : Proxy B → Result × Proxy B) (attempt : ℕ) (env : ℕ → Moment) (p : Proxy B)
      {r : Result × Proxy B}
      → ((q : Proxy B)
          → (rest q).0 ≡ delivered
          → Delivery env (attempt + 1) (length q.calls) (rest q).1)
      → Ends rest attempt (env attempt) p r
      → r.0 ≡ delivered
      → Delivery env attempt (length p.calls) r.1
  Ends-Delivery rest attempt env p h (Ends.uncalled w c) e = absurd (ground (arith, e))
  Ends-Delivery rest attempt env p h (Ends.succeeded {inst = inst} good called) e =
      let (status, headers, body, same, a, b, c) =
        success-answered ((env attempt).answer inst) good in
      record {
        attempt = attempt;
        inst = inst;
        before = p.calls;
        last_call = called.counted;
        calls_before = refl;
        status = status;
        headers = headers;
        body = body;
        its_answer = same;
        not_502 = a;
        not_503 = b;
        not_504 = c;
      }
  Ends-Delivery rest attempt env p h (Ends.gave_up bad called) e = absurd (ground (arith, e))
  Ends-Delivery rest attempt env p h (Ends.again {inst = inst} {q = q} bad idem lt called) e =
      let d = h q e in
      let one_more : length q.calls ≡ suc (length p.calls) = ap length called.counted in
      record {
        attempt = d.attempt;
        inst = d.inst;
        before = d.before;
        last_call = d.last_call;
        calls_before = omega (arith, d.calls_before, one_more);
        status = d.status;
        headers = d.headers;
        body = d.body;
        its_answer = d.its_answer;
        not_502 = d.not_502;
        not_503 = d.not_503;
        not_504 = d.not_504;
      }

  pub attempts-Delivery :
      (left attempt : ℕ) (env : ℕ → Moment) (p : Proxy B)
      → (attempts lb idempotent left attempt env p).0 ≡ delivered
      → Delivery env attempt (length p.calls) (attempts lb idempotent left attempt env p).1
  unfolding attempts
  attempts-Delivery zero attempt env p e = absurd (ground (arith, e))
  attempts-Delivery (suc left) attempt env p e =
      Ends-Delivery (attempts lb idempotent left (attempt + 1) env) attempt env p
        (attempts-Delivery left (attempt + 1) env) (one_attempt-Ends _ attempt (env attempt) p) e
