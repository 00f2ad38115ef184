-- ===== src/TokenBucket.antt =====
-- pkg/ratelimit/tokenbucket.go: the token buckets in memory. The `sync.Map` is a function from a key
-- to its bucket, `none` where there is none. The clock is an argument, as in the circuit breaker, and
-- a method is one step: the lock of a bucket makes it one, but for a bucket that a sweep deletes
-- while a request holds it. `Seconds`, `*`, `+`, `-` and `<` are those of the floating-point numbers.
mod Sweep
mod Bounds
mod Examples
use go_gateway.Prelude.{
  ℕ, ℤ, pos, sub_ℕ, ltb_ℤ, Bool, true, false, List, [], ◌∷◌, String, Option, none, some,
  if◌then◌else◌, ◌==◌, ◌||◌,
}
use go_gateway.Go.Float.{Float}
use go_gateway.RateLimit.{Verdict, verdict, limiter_error}

pub record Bucket (F : Type 0) : Type 0 where
  pub tokens : F
  pub last_refill : ℕ

pub record TokenBucket (F : Type 0) : Type 0 where
  pub rate : F
  pub burst_size : F
  pub eviction_ttl : ℕ
  pub store : String → Option (Bucket F)
  pub stopped : Bool  -- `stopCh` is closed

-- `New`, with ten minutes before a bucket is evicted.
unfoldable pub new_token_bucket : {F : Type 0} → F → F → TokenBucket F
new_token_bucket rate burst = record {
  rate = rate;
  burst_size = burst;
  eviction_ttl = 600000000000;
  store = λ key. none;
  stopped = false;
}

-- `store` with `b` at `key`.
abbrev pub put : {F : Type 0} → String → Bucket F → TokenBucket F → TokenBucket F
put key b tb = record tb { store = λ k. if key == k then some b else tb.store k }

module _ {F : Type 0} ⦃fl : Float F⦄ where
  abbrev pub cap : F → F → F
  cap x most = if fl.less_f most x then most else x

  -- `LoadOrStore` of a new bucket: the one in the store, if any.
  abbrev pub load_or_store : Bucket F → Option (Bucket F) → Bucket F
  load_or_store new none = new
  load_or_store new (some b) = b

  abbrev pub full_bucket : ℕ → TokenBucket F → Bucket F
  full_bucket now tb = record { tokens = tb.burst_size; last_refill = now }

  -- A bucket that was not touched for longer than `evictionTTL` is full.
  abbrev pub evict : ℕ → TokenBucket F → Bucket F → Bucket F
  evict now tb b =
      if ltb_ℤ (pos tb.eviction_ttl) (sub_ℕ now b.last_refill) then full_bucket now tb else b

  -- The tokens of the elapsed time, up to the size of the bucket.
  abbrev pub refill : ℕ → TokenBucket F → Bucket F → Bucket F
  refill now tb b = record {
    tokens =
        cap (fl.add_f b.tokens (fl.mul_f (fl.in_seconds (sub_ℕ now b.last_refill)) tb.rate))
          tb.burst_size;
    last_refill = now;
  }

  -- The bucket of a key as a request finds it.
  unfoldable pub at_request : ℕ → String → TokenBucket F → Bucket F
  at_request now key tb =
      refill now tb (evict now tb (load_or_store (full_bucket now tb) (tb.store key)))

  -- One token is taken, where there is one.
  unfoldable pub take_token : Bucket F → Verdict F × Bucket F
  take_token b =
      if fl.less_f b.tokens fl.one_f
      then (verdict false fl.zero_f, b)
      else (let left = fl.sub_f b.tokens fl.one_f in
          (verdict true left, record b { tokens = left }))

  -- `allow`
  unfoldable pub allow_key : ℕ → String → TokenBucket F → Verdict F × TokenBucket F
  allow_key now key tb = let (v, b) = take_token (at_request now key tb) in (v, put key b tb)

  -- `(*TokenBucket).Allow`: `done` tells whether the context of the request is.
  unfoldable pub allow_bucket : Bool → ℕ → String → TokenBucket F → Verdict F × TokenBucket F
  allow_bucket true now key tb = (limiter_error, tb)
  allow_bucket false now key tb = allow_key now key tb

-- What a sweep at the time `now` leaves of one entry.
unfoldable pub swept : {F : Type 0} → ℕ → ℕ → Option (Bucket F) → Option (Bucket F)
swept now ttl none = none
swept now ttl (some b) = if ltb_ℤ (pos b.last_refill) (sub_ℕ now ttl) then none else some b

-- `sweep`
unfoldable pub sweep : {F : Type 0} → ℕ → TokenBucket F → TokenBucket F
sweep now tb = record tb { store = λ key. swept now tb.eviction_ttl (tb.store key) }

-- `Close`: the channel is closed once.
unfoldable pub close_sweep : {F : Type 0} → TokenBucket F → TokenBucket F
close_sweep tb = record tb { stopped = true }

-- A round of the loop of `StartSweep`: it has returned where its context is done or the channel
-- closed.
unfoldable pub tick : {F : Type 0} → Bool → ℕ → TokenBucket F → TokenBucket F
unfolding sweep
tick done now tb = if done || tb.stopped then tb else sweep now tb

-- What happens to a limiter: a request, the ticker, `Close`.
pub data Event : Type 0 where
  request : (done : Bool) (now : ℕ) (key : String) → Event
  ticked : (done : Bool) (now : ℕ) → Event
  closed : (now : ℕ) → Event

-- What the requests of a history are told, in order.
unfoldable pub verdicts :
    {F : Type 0} ⦃fl : Float F⦄ → List Event → TokenBucket F → List (Verdict F)
verdicts [] tb = []
verdicts (request done now key ∷ events) tb =
    let (v, tb') = allow_bucket done now key tb in v ∷ verdicts events tb'
verdicts (ticked done now ∷ events) tb = verdicts events (tick done now tb)
verdicts (closed now ∷ events) tb = verdicts events (close_sweep tb)
