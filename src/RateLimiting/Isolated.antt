-- ===== src/RateLimiting/Isolated.antt =====
-- Clients of one route have buckets of their own.
use Prim.Native.Char.{Char, code}
use Prim.Native.String.{◌++◌ as ◌+s+◌}
use text.Mathlib.TextLemmas.{
  cons-append as cons-append_s, append_cancel_left as append_cancel_left_s, head-eq_of_cons-eq,
  tail-eq_of_cons-eq,
}
use go_gateway.Prelude.{
  ℕ, ◌≡◌, ◌≢◌, All, refl, sym, ap, ◌∙◌, Bool, true, false, List, [], ◌∷◌, String, arith, Bool-cases,
  inl, inr, eq_iff, if◌then◌else◌, ◌==◌, ◌&&◌, not,
}
use go_gateway.Go.Float.{Float}
use go_gateway.Plugin.{World}
use go_gateway.RateLimit.{limit_request}
use go_gateway.RateLimiting.{
  RateLimitPlugin, Call, Caller, bucket_key, route_of, user_of, ip_of, allow_any,
  execute_rate_limit,
}
use go_gateway.RateLimiting.Factory.{memory}
use go_gateway.TokenBucket.{
  TokenBucket, Bucket, put, allow_bucket, allow_key, at_request, take_token,
}

-- Whom a plugin takes a request to come from: a user, where it limits users and the request has one,
-- or else an address.
pub data Client : Type 0 where
  user : (id : String) → Client
  ip : (addr : String) → Client

unfoldable pub client_of : String → Caller → Client
client_of strategy r =
    if strategy == "per-user" && not (user_of r == "") then user (user_of r) else ip (ip_of r)

unfoldable label : Client → String
label (user id) = ":user:" +s+ id
label (ip addr) = ":ip:" +s+ addr

bucket_key-label :
    (strategy : String) (r : Caller)
    → bucket_key strategy r ≡ route_of r +s+ label (client_of strategy r)
unfolding bucket_key client_of label
bucket_key-label strategy r = elim (Bool-cases (strategy == "per-user" && not (user_of r == ""))) [
  | inl e ↦ rw e refl
  | inr e ↦ rw e refl
]

abbrev colon : Char
colon = ":"

abbrev letter_u : Char
letter_u = "u"

abbrev letter_i : Char
letter_i = "i"

labels_apart : (id addr : String) → ":user:" +s+ id ≢ ":ip:" +s+ addr
labels_apart id addr e =
    let tails =
      tail-eq_of_cons-eq
        (sym (cons-append_s colon "user:" id) ∙ e ∙ cons-append_s colon "ip:" addr) in
    let heads =
      head-eq_of_cons-eq
        (sym (cons-append_s letter_u "ser:" id) ∙ tails ∙ cons-append_s letter_i "p:" addr) in
    ground (arith, ap code heads)

label_inj : (a b : Client) → label a ≡ label b → a ≡ b
unfolding label
label_inj (user x) (user y) e = ap user (append_cancel_left_s ":user:" x y e)
label_inj (user x) (ip y) e = absurd (labels_apart x y e)
label_inj (ip x) (user y) e = absurd (labels_apart y x (sym e))
label_inj (ip x) (ip y) e = ap ip (append_cancel_left_s ":ip:" x y e)

-- On one route, two requests with the same key come from the same client.
key-client :
    (strategy : String) (r r' : Caller)
    → route_of r ≡ route_of r'
    → bucket_key strategy r ≡ bucket_key strategy r'
    → client_of strategy r ≡ client_of strategy r'
key-client strategy r r' same_route e = label_inj _ _ (
    append_cancel_left_s (route_of r') _ _ (
      ap (λ route. route +s+ label (client_of strategy r)) (sym same_route)
      ∙ sym (bucket_key-label strategy r)
      ∙ e
      ∙ bucket_key-label strategy r'))

keys_apart :
    (strategy : String) (r r' : Caller)
    → route_of r ≡ route_of r'
    → client_of strategy r ≢ client_of strategy r'
    → (bucket_key strategy r == bucket_key strategy r') ≡ false
keys_apart strategy r r' same_route other =
    elim (Bool-cases (bucket_key strategy r == bucket_key strategy r')) [
      | inl e ↦ absurd (other (key-client strategy r r' same_route ((eq_iff _ _).0 e)))
      | inr e ↦ e
    ]

module _ {F : Type 0} ⦃fl : Float F⦄ where
  abbrev pub in_memory : String → TokenBucket F → RateLimitPlugin F
  in_memory strategy tb = record { strategy = strategy; limiter = memory tb }

  other_bucket :
      (key key' : String) (b : Bucket F) (tb : TokenBucket F) (done : Bool) (now : ℕ)
      → (key == key') ≡ false
      → (allow_bucket done now key' (put key b tb)).0 ≡ (allow_bucket done now key' tb).0
  unfolding allow_bucket allow_key at_request
  other_bucket key key' b tb true now apart = refl
  other_bucket key key' b tb false now apart = rw apart refl

  after_other :
      (key key' : String) (tb : TokenBucket F) (done done' : Bool) (now now' : ℕ)
      → (key == key') ≡ false
      → (allow_bucket done' now' key' (allow_bucket done now key tb).1).0
        ≡ (allow_bucket done' now' key' tb).0
  unfolding allow_bucket allow_key
  after_other key key' tb true done' now now' apart = refl
  after_other key key' tb false done' now now' apart =
      other_bucket key key' (take_token (at_request now key tb)).1 tb done' now' apart

  module _ {Q : Type 0} (print : F → String) where
    -- The plugin after a sequence of requests.
    unfoldable pub after_requests :
        List (Call × Caller × World Q) → RateLimitPlugin F → RateLimitPlugin F
    unfolding execute_rate_limit
    after_requests [] p = p
    after_requests ((c, r, w) ∷ requests) p =
        after_requests requests (execute_rate_limit print c r w p).1

    -- Each request is one of the same route, from another client.
    abbrev pub OfOthers : String → Caller → List (Call × Caller × World Q) → Type 0
    OfOthers strategy r requests =
        All (λ e. (route_of e.1 ≡ route_of r) × (client_of strategy e.1 ≢ client_of strategy r))
          requests

    execute-outcome :
        (strategy : String) (c : Call) (r : Caller) (w : World Q) (tb tb' : TokenBucket F)
        → (allow_bucket c.done c.asked (bucket_key strategy r) tb').0
          ≡ (allow_bucket c.done c.asked (bucket_key strategy r) tb).0
        → (execute_rate_limit print c r w (in_memory strategy tb')).0
          ≡ (execute_rate_limit print c r w (in_memory strategy tb)).0
    unfolding execute_rate_limit allow_any
    execute-outcome strategy c r w tb tb' e = ap (λ v. limit_request print fl.zero_f v w) e

    after_requests-cons :
        (strategy : String) (c : Call) (r : Caller) (w : World Q)
        (requests : List (Call × Caller × World Q)) (tb : TokenBucket F)
        → after_requests ((c, r, w) ∷ requests) (in_memory strategy tb)
          ≡ after_requests requests
              (in_memory strategy (allow_bucket c.done c.asked (bucket_key strategy r) tb).1)
    unfolding after_requests execute_rate_limit allow_any
    after_requests-cons strategy c r w requests tb = refl

    -- Where the plugin limits in memory, what a request is told does not depend on the requests of
    -- other clients on its route: after any sequence of them, the outcome and the headers are those
    -- that it had without them.
    pub clients_isolated :
        (strategy : String) (c : Call) (r : Caller) (w : World Q)
        (requests : List (Call × Caller × World Q)) (tb : TokenBucket F)
        → OfOthers strategy r requests
        → (execute_rate_limit print c r w (after_requests requests (in_memory strategy tb))).0
          ≡ (execute_rate_limit print c r w (in_memory strategy tb)).0
    clients_isolated strategy c r w [] tb others = unfold after_requests in refl
    clients_isolated strategy c r w ((c', r', w') ∷ requests) tb ((same_route, other), others) =
        ap (λ p. (execute_rate_limit print c r w p).0)
          (after_requests-cons strategy c' r' w' requests tb)
        ∙ clients_isolated strategy c r w requests
            (allow_bucket c'.done c'.asked (bucket_key strategy r') tb).1 others
        ∙ execute-outcome strategy c r w tb _ (
            after_other _ _ tb c'.done c.done c'.asked c.asked
              (keys_apart strategy r' r same_route other))
