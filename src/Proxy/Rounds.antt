-- ===== src/Proxy/Rounds.antt =====
-- The bound of the proxy's loop.
use mathlib.Core.Path.{fun_ext}
use go_gateway.Prelude.{
  ℕ, zero, suc, ◌+◌, ◌<◌, ◌≡◌, refl, ap, ◌∙◌, ◌∷◌, Bool, true, Option, none, some, arith,
  Bool-cases, inl, inr, not, ◌||◌, leb,
}
use go_gateway.Registry.{Instance}
use go_gateway.Proxy.{
  Balancer, Moment, Answer, Result, Proxy, max_retries, is_success, is_skipped, do_request,
  after_failure, call_instance, after_pick, out_of_time, one_attempt, attempts,
}

module _ {B : Type 0} (lb : Balancer B) (idempotent : Bool) where
  -- The last round does not look at the next one.
  after_failure_last :
      (rest rest' : Proxy B → Result × Proxy B) (attempt : ℕ) (m : Moment) (inst : Instance)
      (ans : Answer) (p : Proxy B)
      → leb max_retries attempt ≡ true
      → after_failure lb idempotent rest attempt m inst ans p
        ≡ after_failure lb idempotent rest' attempt m inst ans p
  unfolding after_failure
  after_failure_last rest rest' attempt m inst ans p h =
      let over : (not idempotent || leb max_retries attempt) ≡ true = ground (arith, h) in
      rw (over, after_failure) refl

  call_instance_last :
      (rest rest' : Proxy B → Result × Proxy B) (attempt : ℕ) (m : Moment) (inst : Instance)
      (p : Proxy B)
      → leb max_retries attempt ≡ true
      → call_instance lb idempotent rest attempt m inst p
        ≡ call_instance lb idempotent rest' attempt m inst p
  unfolding call_instance
  call_instance_last rest rest' attempt m inst p h =
      elim (Bool-cases (is_success (m.answer inst))) [
        | inl e ↦ rw (e, call_instance) refl
        | inr e ↦
            rw (e, call_instance)
              (after_failure_last rest rest' attempt m inst (m.answer inst)
                (record p { writer = do_request (m.answer inst) p.writer; calls = inst ∷ p.calls })
                h)
      ]

  after_pick_last :
      (rest rest' : Proxy B → Result × Proxy B) (attempt : ℕ) (m : Moment) (i : Option Instance)
      (p : Proxy B)
      → leb max_retries attempt ≡ true
      → after_pick lb idempotent rest attempt m i p ≡ after_pick lb idempotent rest' attempt m i p
  unfolding after_pick
  after_pick_last rest rest' attempt m none p h = refl
  after_pick_last rest rest' attempt m (some inst) p h =
      call_instance_last rest rest' attempt m inst p h

  one_attempt_last :
      (rest rest' : Proxy B → Result × Proxy B) (attempt : ℕ) (m : Moment) (p : Proxy B)
      → leb max_retries attempt ≡ true
      → one_attempt lb idempotent rest attempt m p ≡ one_attempt lb idempotent rest' attempt m p
  unfolding one_attempt
  one_attempt_last rest rest' attempt m p h =
      elim (Bool-cases (out_of_time lb idempotent m.remaining)) [
        | inl e ↦ rw (e, one_attempt) refl
        | inr e ↦
            rw (e, one_attempt)
              (let (i, balancer, cbs) =
                  lb.next (is_skipped m.picked_at) m.healthy p.balancer p.instance_cbs in
                after_pick_last rest rest' attempt m i
                  (record p { balancer = balancer; instance_cbs = cbs }) h)
      ]

  rounds_settle :
      (left extra attempt : ℕ) (env : ℕ → Moment) (p : Proxy B)
      → max_retries < left + attempt
      → 0 < left
      → attempts lb idempotent (left + extra) attempt env p
        ≡ attempts lb idempotent left attempt env p
  unfolding attempts
  rounds_settle zero extra attempt env p h positive = absurd (omega (arith, positive))
  rounds_settle (suc left) extra attempt env p h positive =
      let one_more : suc left + extra ≡ suc (left + extra) = omega arith in
      ap (λ n. attempts lb idempotent n attempt env p) one_more
      ∙ elim (Bool-cases (leb max_retries attempt)) [
        | inl e ↦
            one_attempt_last (attempts lb idempotent (left + extra) (attempt + 1) env)
              (attempts lb idempotent left (attempt + 1) env) attempt (env attempt) p e
        | inr e ↦
            ap (λ rest. one_attempt lb idempotent rest attempt (env attempt) p)
              (fun_ext (λ q.
                rounds_settle left extra (attempt + 1) env q (omega (arith, h))
                  (ground (arith, h, e))))
      ]

  -- The loop ends by itself: with any number of further rounds it does what it does with the rounds
  -- that its bound gives, whatever the upstreams answer. So neither the bound nor the return after
  -- the loop ever decides the result.
  pub loop_ends :
      (extra : ℕ) (env : ℕ → Moment) (p : Proxy B)
      → attempts lb idempotent (max_retries + 1 + extra) 0 env p
        ≡ attempts lb idempotent (max_retries + 1) 0 env p
  loop_ends extra env p = rounds_settle (max_retries + 1) extra 0 env p (omega arith) (omega arith)
