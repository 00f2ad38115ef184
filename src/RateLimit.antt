-- ===== src/RateLimit.antt =====
-- pkg/ratelimit/redis.go and internal/plugin/builtin/ratelimit.go: the limiter on Redis with its
-- fallback, and the plugin that asks a limiter. The number of tokens that remain is of a type `F` of
-- floating-point numbers, which the code only converts and prints: the conversion and the printing
-- are parameters. The fallback is a parameter, and so is the answer of the Lua script.
pub mod Fallback
pub mod Window
mod Sliding
mod Examples
use go_gateway.Prelude.{
  ℕ, zero, suc, ◌+◌, ℤ, pos, eqb_ℤ, Bool, true, false, List, [], ◌∷◌, String, Option, none, some,
  if◌then◌else◌, ◌==◌, not,
}
use Prim.Native.String
use go_gateway.CircuitBreaker.{
  CircuitBreaker, Config, new, allow, record_success, record_failure, second,
}
use go_gateway.Plugin.{World, Outcome, passed, abort_error, set_header}

-- What a limiter returns.
pub data Verdict (F : Type 0) : Type 0 where
  verdict : (allowed : Bool) (remaining : F) → Verdict F
  limiter_error : Verdict F

-- The interface `Limiter`, with its state.
pub record Limiter (F L : Type 0) : Type 0 where
  pub ask : String → L → Verdict F × L

pub record RedisLimiter (L : Type 0) : Type 0 where
  pub cb : CircuitBreaker
  pub fallback_mode : Bool
  pub probes : ℕ  -- the goroutines that will set `fallback_mode` to false
  pub fallback : L

-- `newRedisLimiter`
unfoldable pub new_redis_limiter : {L : Type 0} → L → RedisLimiter L
unfolding new
new_redis_limiter fallback = record {
  cb =
      new
        (record {
          failure_threshold = pos 5;
          success_threshold = pos 2;
          reset_timeout = pos 30000000000;
        })
        false;
  fallback_mode = false;
  probes = 0;
  fallback = fallback;
}

module _ {F L : Type 0} (of_int64 : ℤ → F) (limiter : Limiter F L) where
  abbrev pub ask_fallback : String → RedisLimiter L → Verdict F × RedisLimiter L
  ask_fallback key r =
      let (v, fallback) = limiter.ask key r.fallback in (v, record r { fallback = fallback })

  -- The result of the script: whether it allows the request, and what remains.
  abbrev pub read_result : List ℤ → Verdict F
  read_result [] = limiter_error
  read_result (a ∷ []) = limiter_error
  read_result (a ∷ b ∷ rest) = verdict (eqb_ℤ a (pos 1)) (of_int64 b)

  -- What follows `evalFn`; `none` is an error.
  unfoldable pub after_eval :
      ℕ → String → Option (List ℤ) → RedisLimiter L → Verdict F × RedisLimiter L
  after_eval now key none r = ask_fallback key (record r { cb = record_failure now r.cb })
  after_eval now key (some result) r = (read_result result, record r { cb = record_success r.cb })

  -- `(*RedisLimiter).Allow`: `asked` and `answered` are the times of the two calls of the circuit
  -- breaker. Where the fallback mode is on, the circuit breaker is not asked.
  unfoldable pub allow_redis :
      ℕ → ℕ → String → Option (List ℤ) → RedisLimiter L → Verdict F × RedisLimiter L
  unfolding after_eval
  allow_redis asked answered key result r = elim r.fallback_mode [
    | true ↦ ask_fallback key r
    | false ↦ elim (allow asked r.cb).0 [
      | false ↦
          ask_fallback key
            (record r { cb = (allow asked r.cb).1; fallback_mode = true; probes = r.probes + 1 })
      | true ↦ after_eval answered key result (record r { cb = (allow asked r.cb).1 })
    ]
  ]

-- The end of the goroutine that `Allow` starts.
unfoldable pub probe_due : {L : Type 0} → RedisLimiter L → RedisLimiter L
probe_due r = record r { fallback_mode = false }

-- `ExecuteRequest` of the plugin, after the key is made; `print` is `fmt.Sprintf("%.0f", …)`, and the
-- number that goes with an error is 0.
unfoldable pub limit_request :
    {F Q : Type 0} → (F → String) → F → Verdict F → World Q → Outcome × World Q
limit_request print no_tokens (verdict allowed remaining) w =
    let w' = record w {
      response = set_header "X-RateLimit-Remaining" (print remaining) w.response;
    } in
    if allowed then (passed, w') else (
      abort_error 429 "rate limit exceeded",
      record w' { response = set_header "Retry-After" "60" w'.response },
    )
limit_request print no_tokens limiter_error w = (
  passed,
  record w { response = set_header "X-RateLimit-Remaining" (print no_tokens) w.response },
)
