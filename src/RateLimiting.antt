-- ===== src/RateLimiting.antt =====
-- internal/plugin/builtin/ratelimit.go: the plugin that limits rates, its construction, and what it
-- asks of its limiter. Numbers are a parameter, as in the token bucket, and so is their conversion to
-- `int64`. What the script of Redis answers is an argument of a request. A header is the list of its
-- values under canonical names.
pub mod Factory
pub mod Isolated
mod Examples
use Prim.Native.Char.{code}
use Prim.Native.String.{[] as empty, ◌∷◌ as ◌&◌, ◌++◌ as ◌+s+◌}
use go_gateway.Prelude.{
  ℕ, ◌*◌, ◌%◌, eqb, ltb, ℤ, pos, sub_ℕ, pos_part, leb_ℤ, Bool, true, false, List, String, Option,
  none, some, Map, lookup, if◌then◌else◌, ◌==◌, ◌&&◌, not,
}
use go_gateway.Go.Float.{Float}
use go_gateway.Go.Value.{Value}
use go_gateway.Jwt.{get}
use go_gateway.Plugin.{World, Outcome}
use go_gateway.Proxy.Headers.{Header}
use go_gateway.RateLimit.{
  Verdict, Limiter, RedisLimiter, new_redis_limiter, allow_redis, limit_request,
}
use go_gateway.TokenBucket.{TokenBucket, new_token_bucket, allow_bucket, close_sweep}
use go_gateway.RateLimiting.Factory.{
  RedisConfig, LimiterConfig, no_redis, AnyLimiter, memory, redis, Built, built, failed, or_default,
  new_from_config,
}

pub record RateLimitPlugin (F : Type 0) : Type 0 where
  pub strategy : String
  pub limiter : AnyLimiter F

module _ {F V : Type 0} ⦃fl : Float F⦄ (value : Value V) (as_float : V → Option F) where
  abbrev pub asserted : {A : Type 0} → (V → Option A) → String → Map V → Option A
  asserted as_type key cfg = elim (lookup key cfg) [ none ↦ none | some v ↦ as_type v ]

  abbrev pub given : {A : Type 0} → A → Option A → A
  given a none = a
  given a (some b) = b

  -- `requests_per_minute` may be an int or a float.
  abbrev pub rpm_of : Map V → F
  rpm_of cfg = elim (asserted value.as_int "requests_per_minute" cfg) [
    | some n ↦ fl.of_int n
    | none ↦ given (fl.of_int (pos 60)) (asserted as_float "requests_per_minute" cfg)
  ]

  abbrev pub plugin_burst : Map V → F
  plugin_burst cfg = elim (asserted value.as_int "burst" cfg) [
    | some n ↦ fl.of_int n
    | none ↦ fl.of_int (pos 10)
  ]

  unfoldable pub limiter_config : Map V → LimiterConfig F
  limiter_config cfg = record {
    backend = given "memory" (asserted value.as_string "backend" cfg);
    redis = record no_redis {
      addr = given "" (asserted value.as_string "redis_addr" cfg);
      password = given "" (asserted value.as_string "redis_password" cfg);
      pool_size = given (pos 0) (asserted value.as_int "redis_pool_size" cfg);
    };
    requests_per_min = rpm_of cfg;
    burst = plugin_burst cfg;
    window_seconds = given (pos 60) (asserted value.as_int "window_seconds" cfg);
    fallback_policy = given "pass" (asserted value.as_string "fallback_policy" cfg);
  }

  -- `NewRateLimitPlugin`
  unfoldable pub new_rate_limit : (F → ℤ) → Map V → Built (RateLimitPlugin F)
  unfolding limiter_config new_from_config
  new_rate_limit to_int64 cfg = elim (new_from_config to_int64 (limiter_config cfg)) [
    | failed e ↦ failed e
    | built limiter ↦ built (record {
      strategy = given "per-ip" (asserted value.as_string "strategy" cfg);
      limiter = limiter;
    })
  ]

-- What the plugin reads of a request: the route and the user are those of its gateway context, if it
-- has one.
pub record Caller : Type 0 where
  pub headers : Header
  pub remote_addr : String
  pub context : Option (String × String)

-- The text before the last colon, if there is a colon.
unfoldable pub before_last_colon : String → Option String
before_last_colon empty = none
before_last_colon (c & s) =
    let rest = before_last_colon s in
    elim rest [ some p ↦ some (c & p) | none ↦ if eqb (code c) 58 then some empty else none ]

abbrev pub strip_port : String → String
strip_port addr = elim (before_last_colon addr) [ some host ↦ host | none ↦ addr ]

abbrev pub ip_of : Caller → String
ip_of r =
    if get "X-Real-Ip" r.headers == "" then strip_port r.remote_addr else get "X-Real-Ip" r.headers

abbrev pub route_of : Caller → String
route_of r = elim r.context [ none ↦ "unknown" | some c ↦ or_default "unknown" c.0 ]

abbrev pub user_of : Caller → String
user_of r = elim r.context [ none ↦ "" | some c ↦ c.1 ]

-- `bucketKey`: without a user, the strategy `per-user` falls through to `per-ip`.
unfoldable pub bucket_key : String → Caller → String
bucket_key strategy r =
    if strategy == "per-user" && not (user_of r == "")
    then route_of r +s+ (":user:" +s+ user_of r)
    else route_of r +s+ (":ip:" +s+ ip_of r)

-- What a call of the limiter meets: whether the context is done, the times, and what the script
-- answers if it is run.
pub record Call : Type 0 where
  pub done : Bool
  pub asked : ℕ
  pub answered : ℕ
  pub result : Option (List ℤ)

module _ {F : Type 0} ⦃fl : Float F⦄ where
  abbrev pub fallback_limiter : Call → Limiter F (TokenBucket F)
  fallback_limiter c = record { ask = λ key tb. allow_bucket c.done c.asked key tb }

  -- `Allow` of the limiter that the factory made.
  unfoldable pub allow_any : Call → String → AnyLimiter F → Verdict F × AnyLimiter F
  allow_any c key (memory tb) = let (v, tb') = allow_bucket c.done c.asked key tb in (v, memory tb')
  allow_any c key (redis options window limit r) =
      let (v, r') = allow_redis fl.of_int (fallback_limiter c) c.asked c.answered key c.result r in
      (v, redis options window limit r')

  -- `ExecuteRequest`
  unfoldable pub execute_rate_limit :
      {Q : Type 0}
      → (F → String)
      → Call
      → Caller
      → World Q
      → RateLimitPlugin F
      → (Outcome × World Q) × RateLimitPlugin F
  unfolding allow_any bucket_key
  execute_rate_limit print c r w p =
      let (v, limiter) = allow_any c (bucket_key p.strategy r) p.limiter in
      (limit_request print fl.zero_f v w, record p { limiter = limiter })

-- `(*RedisLimiter).Close`, with whether it returns nil: an error of the client leaves the fallback as
-- it is.
unfoldable pub close_redis :
    {F : Type 0} → Bool → RedisLimiter (TokenBucket F) → Bool × RedisLimiter (TokenBucket F)
close_redis false r = (false, r)
close_redis true r = (true, record r { fallback = close_sweep r.fallback })

-- `Close` of the plugin: `closed` tells whether the client of Redis closes.
unfoldable pub close_plugin : {F : Type 0} → Bool → RateLimitPlugin F → Bool × RateLimitPlugin F
unfolding close_redis close_sweep
close_plugin closed p = elim p.limiter [
  | memory tb ↦ (true, record p { limiter = memory (close_sweep tb) })
  | redis options window limit r ↦ (
    (close_redis closed r).0,
    record p { limiter = redis options window limit (close_redis closed r).1 },
  )
]
