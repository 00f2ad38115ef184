-- ===== src/RateLimiting/Factory.antt =====
-- pkg/ratelimit/factory.go and pkg/ratelimit/redis_client.go: the choice of a limiter from its
-- configuration. Numbers and their conversion to `int64` are parameters; package go-redis is left out.
use go_gateway.Prelude.{◌*◌, ◌%◌, ltb, ℤ, pos, sub_ℕ, pos_part, leb_ℤ, String, if◌then◌else◌, ◌==◌}
use go_gateway.Go.Float.{Float}
use go_gateway.RateLimit.{RedisLimiter, new_redis_limiter}
use go_gateway.TokenBucket.{TokenBucket, new_token_bucket}

-- Durations are in nanoseconds.
pub record RedisConfig : Type 0 where
  pub addr : String
  pub password : String
  pub db : ℤ
  pub dial_timeout : ℤ
  pub read_timeout : ℤ
  pub write_timeout : ℤ
  pub pool_size : ℤ
  pub min_idle_conns : ℤ

pub record LimiterConfig (F : Type 0) : Type 0 where
  pub backend : String
  pub redis : RedisConfig
  pub requests_per_min : F
  pub burst : F
  pub window_seconds : ℤ
  pub fallback_policy : String

abbrev pub no_redis : RedisConfig
no_redis = record {
  addr = "";
  password = "";
  db = pos 0;
  dial_timeout = pos 0;
  read_timeout = pos 0;
  write_timeout = pos 0;
  pool_size = pos 0;
  min_idle_conns = pos 0;
}

-- The options of the client of Redis: 0 is what a field that is not set holds.
abbrev pub if_positive : ℤ → ℤ
if_positive d = if leb_ℤ d (pos 0) then pos 0 else d

unfoldable pub client_options : RedisConfig → RedisConfig
client_options cfg = record cfg {
  dial_timeout = if_positive cfg.dial_timeout;
  read_timeout = if_positive cfg.read_timeout;
  write_timeout = if_positive cfg.write_timeout;
}

-- A limiter of the factory: the one on Redis has the options of its client, its window and its limit.
pub data AnyLimiter (F : Type 0) : Type 0 where
  memory : TokenBucket F → AnyLimiter F
  redis :
      (options : RedisConfig) (window_ms limit : ℤ) → RedisLimiter (TokenBucket F) → AnyLimiter F

pub data FactoryError : Type 0 where
  no_limit : FactoryError
  unknown_backend : (name : String) → FactoryError

pub data Built (A : Type 0) : Type 0 where
  built : A → Built A
  failed : FactoryError → Built A

-- `buildRedisLimiter`
unfoldable pub build_redis_limiter :
    {F : Type 0} → RedisConfig → ℤ → ℤ → TokenBucket F → AnyLimiter F
unfolding client_options
build_redis_limiter cfg window_ms limit fallback =
    redis (client_options cfg) window_ms limit (new_redis_limiter fallback)

-- `int64(n) * 1000` of a positive number.
unfoldable pub milliseconds : ℤ → ℤ
milliseconds n =
    let m = pos_part n * 1000 % 18446744073709551616 in
    if ltb m 9223372036854775808 then pos m else sub_ℕ m 18446744073709551616

abbrev pub or_default : String → String → String
or_default d s = if s == "" then d else s

module _ {F : Type 0} ⦃fl : Float F⦄ (to_int64 : F → ℤ) where
  abbrev pub per_second : F → F
  per_second rpm = fl.div_f rpm (fl.of_int (pos 60))

  abbrev pub burst_of : F → F
  burst_of b = if fl.leq_f b fl.zero_f then fl.of_int (pos 10) else b

  abbrev pub window_of : ℤ → ℤ
  window_of n = if leb_ℤ n (pos 0) then pos 60 else n

  abbrev pub limit_of : F → ℤ → ℤ
  limit_of rpm window = to_int64 (fl.mul_f (per_second rpm) (fl.of_int window))

  -- The backend `redis`, with the limiter in memory as its fallback.
  unfoldable pub on_redis : LimiterConfig F → TokenBucket F → Built (AnyLimiter F)
  unfolding build_redis_limiter milliseconds
  on_redis cfg bucket =
      let cfg' = record cfg.redis { addr = or_default "localhost:6379" cfg.redis.addr } in
      let window = window_of cfg.window_seconds in
      let limit = limit_of cfg.requests_per_min window in
      if leb_ℤ limit (pos 0)
      then failed no_limit
      else built (build_redis_limiter cfg' (milliseconds window) limit bucket)

  -- `NewFromConfig`
  unfoldable pub new_from_config : LimiterConfig F → Built (AnyLimiter F)
  unfolding on_redis new_token_bucket
  new_from_config cfg =
      let bucket = new_token_bucket (per_second cfg.requests_per_min) (burst_of cfg.burst) in
      if cfg.backend == "redis"
      then on_redis cfg bucket
      else if cfg.backend == "memory"
      then built (memory bucket)
      else if cfg.backend == ""
      then built (memory bucket)
      else failed (unknown_backend cfg.backend)
