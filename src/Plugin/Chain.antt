-- ===== src/Plugin/Chain.antt =====
-- What a chain of plugins does with a request and with a response.
use go_gateway.Prelude.{
  ℕ, ◌≡◌, ◌≢◌, refl, sym, ◌∙◌, ap, subst, ◌⊎◌, inl, inr, ◌↔◌, Bool, true, false, List, [], ◌∷◌,
  ◌++◌, String, none, some, arith, Option-cases, insert,
}
use go_gateway.Plugin.{
  Response, World, Outcome, passed, abort_error, other_error, panicked, Plugin, after_request,
  with_error, execute_request, execute_response, write_json_error, write_header, set_header,
}

-- Every plugin of a list is called in order and returns nil.
pub data Passes {Q : Type 0} : List (Plugin Q) → World Q → World Q → Type 0 where
  finished : {w : World Q} → Passes [] w w
  passing :
      {p : Plugin Q} {ps : List (Plugin Q)} {w v : World Q}
      → (p.execute_request w).0 ≡ passed
      → Passes ps (p.execute_request w).1 v
      → Passes (p ∷ ps) w v

-- The status and the message of the error response for what a call comes to.
abbrev pub error_of : Outcome → ℕ × String
error_of (abort_error code message) = (code, message)
error_of passed = (500, "internal server error")
error_of other_error = (500, "internal server error")
error_of panicked = (500, "internal server error")

abbrev pub rejected : {Q : Type 0} → Outcome × World Q → World Q
rejected (o, w) = with_error (error_of o).0 (error_of o).1 w

after_request-failed :
    {Q : Type 0} (rest : World Q → Bool × World Q) (o : Outcome) (w : World Q)
    → o ≢ passed
    → after_request rest o w ≡ (true, rejected (o, w))
unfolding after_request
after_request-failed rest passed w h = absurd (h refl)
after_request-failed rest (abort_error c m) w h = refl
after_request-failed rest other_error w h = refl
after_request-failed rest panicked w h = refl

after_request-passed :
    {Q : Type 0} (rest : World Q → Bool × World Q) (o : Outcome) (w : World Q)
    → o ≡ passed
    → after_request rest o w ≡ rest w
unfolding after_request
after_request-passed rest o w h = rw h refl

-- The first plugin that does not return nil ends the chain, whatever plugins come after it: the
-- chain reports that it aborted, and the last change of the response is the error response, with the
-- status and the message of an `*AbortError`, and with status 500 for another error and for a panic.
pub fail_fast :
    {Q : Type 0} (before after : List (Plugin Q)) (p : Plugin Q) (w v : World Q)
    → Passes before w v
    → (p.execute_request v).0 ≢ passed
    → execute_request (before ++ p ∷ after) w ≡ (true, rejected (p.execute_request v))
unfolding execute_request
fail_fast [] after p w v (Passes.finished) h = after_request-failed _ _ _ h
fail_fast (q ∷ qs) after p w v (Passes.passing e rest) h =
    after_request-passed _ _ _ e ∙ fail_fast qs after p _ v rest h

passed_cases : (o : Outcome) → (o ≡ passed) ⊎ (o ≢ passed)
passed_cases passed = inl refl
passed_cases (abort_error c m) = inr (ground arith)
passed_cases other_error = inr (ground arith)
passed_cases panicked = inr (ground arith)

not_aborted-Passes :
    {Q : Type 0} (ps : List (Plugin Q)) (w : World Q)
    → (execute_request ps w).0 ≡ false
    → Passes ps w (execute_request ps w).1
unfolding execute_request
not_aborted-Passes [] w h = Passes.finished
not_aborted-Passes (p ∷ ps) w h = elim (passed_cases (p.execute_request w).0) [
  | inl e ↦
      (let same = after_request-passed (execute_request ps) _ (p.execute_request w).1 e in
        let rest = not_aborted-Passes ps (p.execute_request w).1 (sym (ap (λ r. r.0) same) ∙ h) in
        rw same (Passes.passing e rest))
  | inr ne ↦
      (let failed = after_request-failed (execute_request ps) _ (p.execute_request w).1 ne in
        absurd (ground (arith, sym (ap (λ r. r.0) failed) ∙ h)))
]

Passes-not_aborted :
    {Q : Type 0} (ps : List (Plugin Q)) (w v : World Q)
    → Passes ps w v
    → execute_request ps w ≡ (false, v)
unfolding execute_request
Passes-not_aborted [] w v (Passes.finished) = refl
Passes-not_aborted (p ∷ ps) w v (Passes.passing e rest) =
    after_request-passed _ _ _ e ∙ Passes-not_aborted ps _ v rest

-- A chain goes on to the upstream exactly when every one of its plugins was called, in order, each
-- in the world that the one before it left, and returned nil; the world is then what they made of it.
pub continues_iff :
    {Q : Type 0} (ps : List (Plugin Q)) (w v : World Q)
    → (execute_request ps w ≡ (false, v)) ↔ Passes ps w v
continues_iff ps w v = (
  λ e. subst (λ u. Passes ps w u) (ap (λ r. r.1) e) (not_aborted-Passes ps w (ap (λ r. r.0) e)),
  Passes-not_aborted ps w v,
)

write_json_error-body :
    (code : ℕ) (message : String) (r : Response)
    → (write_json_error code message r).body ≡ r.body ++ (code, message) ∷ []
unfolding write_json_error write_header set_header
write_json_error-body code message r = elim (Option-cases r.status) [
  | inl e ↦ rw e refl
  | inr (c, e) ↦ rw e refl
]

-- When the first plugin that does not return nil leaves a response whose header is not written, the
-- client gets the status of the error and the JSON content type, with the headers set so far; when
-- the header was written before, the status and the headers stay as they were sent. Either way the
-- error is added to the body.
pub abort_response :
    {Q : Type 0} (before after : List (Plugin Q)) (p : Plugin Q) (w v : World Q)
    → Passes before w v
    → (p.execute_request v).0 ≢ passed
    → let result = (execute_request (before ++ p ∷ after) w).1.response in
      let left = (p.execute_request v).1.response in
      let (code, message) = error_of (p.execute_request v).0 in
      (left.status ≡ none
        → (result.status ≡ some code)
          × (result.sent ≡ insert "Content-Type" "application/json" left.headers))
      × ((c : ℕ) → left.status ≡ some c → (result.status ≡ some c) × (result.sent ≡ left.sent))
      × (result.body ≡ left.body ++ (code, message) ∷ [])
unfolding write_json_error write_header set_header
abort_response before after p w v h ne = rw (fail_fast before after p w v h ne) (
  (λ e. ground (arith, e)),
  (λ c e. ground (arith, e)),
  write_json_error-body _ _ (p.execute_request v).1.response,
)

-- In the response phase a plugin's error or panic changes nothing: every plugin runs, in order, in
-- the world that the one before it left, as if each of them had returned nil.
pub response_continues :
    {Q : Type 0} (before after : List (Plugin Q)) (p : Plugin Q) (o : Outcome) (w : World Q)
    → execute_response
        (before ++ record p { execute_response = λ v. (o, (p.execute_response v).1) } ∷ after)
        w
      ≡ execute_response after (p.execute_response (execute_response before w)).1
unfolding execute_response
response_continues [] after p o w = refl
response_continues (q ∷ qs) after p o w = response_continues qs after p o (q.execute_response w).1
