-- ===== src/TokenBucket/Bounds.antt =====
-- How many requests of one instant the token bucket of a key grants.
use go_gateway.Prelude.{
  ℕ, ◌+◌, ◌≤◌, pos, sub_ℕ, ltb_ℤ, ◌≡◌, refl, sym, ap, subst, ◌∙◌, inl, inr, Bool, true, false, List,
  [], ◌∷◌, String, arith, Bool-cases, if◌then◌else◌, ◌==◌, ◌||◌, eq_refl, eq_iff,
}
use go_gateway.Go.Float.{Float}
use go_gateway.RateLimit.{Verdict, verdict, limiter_error}
use go_gateway.TokenBucket.{
  Bucket, TokenBucket, Event, request, ticked, closed, put, cap, at_request, take_token, allow_key,
  allow_bucket, evict, refill, load_or_store, full_bucket, swept, sweep, tick, close_sweep,
}
use go_gateway.TokenBucket.Sweep.{at_time, Kept, Kept-swept, at_request-Kept}

-- Arithmetic on the numbers that a bucket of the size `burst` holds: `F` stands for the values other
-- than NaN. `whole x` is the integer part of `x`, and 0 for a negative `x`. Below 2 ^ 53, taking 1
-- from a `float64` that is 1 or more is exact. The product of 0 and a finite rate is 0.
pub record IsCounting {F : Type 0} ⦃fl : Float F⦄ (whole : F → ℕ) (rate burst : F) : Type 0 where
  pub burst_irrefl : fl.less_f burst burst ≡ false
  pub whole_mono : (x : F) → fl.less_f burst x ≡ false → whole x ≤ whole burst
  pub sub_one :
      (x : F)
      → fl.less_f x fl.one_f ≡ false
      → fl.less_f burst x ≡ false
      → (whole (fl.sub_f x fl.one_f) + 1 ≡ whole x)
        × (fl.less_f burst (fl.sub_f x fl.one_f) ≡ false)
  pub no_time : (x : F) → fl.add_f x (fl.mul_f (fl.in_seconds (pos 0)) rate) ≡ x

-- All events fall on one instant.
abbrev pub AtOnce : ℕ → List Event → Type 0
AtOnce now [] = Unit
AtOnce now (e ∷ events) = (at_time e ≡ now) × AtOnce now events

same_time : (now : ℕ) → sub_ℕ now now ≡ pos 0
same_time now = ground arith

not_late : (ttl now : ℕ) → ltb_ℤ (pos ttl) (sub_ℕ now now) ≡ false
not_late ttl now = ground arith

module _ {F : Type 0} ⦃fl : Float F⦄ where
  abbrev pub granted : Verdict F → ℕ
  granted (verdict true remaining) = 1
  granted (verdict false remaining) = 0
  granted limiter_error = 0

  -- How many requests of the key a history grants.
  unfoldable pub grants : String → List Event → TokenBucket F → ℕ
  grants key [] tb = 0
  grants key (request done now at ∷ events) tb =
      let (v, tb') = allow_bucket done now at tb in
      (if at == key then granted v else 0) + grants key events tb'
  grants key (ticked done now ∷ events) tb = grants key events (tick done now tb)
  grants key (closed now ∷ events) tb = grants key events (close_sweep tb)

  tokens_at : ℕ → String → TokenBucket F → F
  tokens_at now key tb = (at_request now key tb).tokens

  cap_below : (x most : F) → fl.less_f most most ≡ false → fl.less_f most (cap x most) ≡ false
  cap_below x most h = elim (Bool-cases (fl.less_f most x)) [ inl e ↦ rw e h | inr e ↦ rw e e ]

  cap_same : (x most : F) → fl.less_f most x ≡ false → cap x most ≡ x
  cap_same x most e = rw e refl

  not_evicted :
      (now : ℕ) (x : F) (tb : TokenBucket F)
      → evict now tb (record { tokens = x; last_refill = now })
        ≡ record { tokens = x; last_refill = now }
  not_evicted now x tb = rw (not_late tb.eviction_ttl now) refl

  not_refilled :
      (whole : F → ℕ) (now : ℕ) (x : F) (tb : TokenBucket F)
      → IsCounting whole tb.rate tb.burst_size
      → fl.less_f tb.burst_size x ≡ false
      → refill now tb (record { tokens = x; last_refill = now })
        ≡ record { tokens = x; last_refill = now }
  not_refilled whole now x tb laws h =
      ap (λ (t : F). record { tokens = t; last_refill = now })
        (rw (same_time now, laws.no_time x) (cap_same x tb.burst_size h))

  -- A bucket that was refilled at this instant is found as it was left.
  found_again :
      (whole : F → ℕ) (now : ℕ) (key : String) (x : F) (tb : TokenBucket F)
      → IsCounting whole tb.rate tb.burst_size
      → fl.less_f tb.burst_size x ≡ false
      → tokens_at now key (put key (record { tokens = x; last_refill = now }) tb) ≡ x
  unfolding tokens_at at_request
  found_again whole now key x tb laws h =
      let open_it : load_or_store (full_bucket now tb)
            ((put key (record { tokens = x; last_refill = now }) tb).store key)
          ≡ record { tokens = x; last_refill = now } =
        rw (eq_refl key) refl in
      ap (λ (b : Bucket F). b.tokens)
        (ap (λ b. refill now tb (evict now tb b)) open_it
          ∙ ap (refill now tb) (not_evicted now x tb)
          ∙ not_refilled whole now x tb laws h)

  -- The request of another key, or the ticker, leaves what a request of the key finds.
  other_key :
      (now : ℕ) (key at : String) (b : Bucket F) (tb : TokenBucket F)
      → (at == key) ≡ false
      → tokens_at now key (put at b tb) ≡ tokens_at now key tb
  unfolding tokens_at at_request
  other_key now key at b tb e = rw e refl

  over_tick :
      (now : ℕ) (done : Bool) (key : String) (tb : TokenBucket F)
      → tokens_at now key (tick done now tb) ≡ tokens_at now key tb
  unfolding tokens_at tick sweep
  over_tick now done key tb = elim (Bool-cases (done || tb.stopped)) [
    | inl e ↦ rw e refl
    | inr e ↦ rw e (
        ap (λ (b : Bucket F). b.tokens)
          (sym (
            at_request-Kept now now key tb (λ k. swept now tb.eviction_ttl (tb.store k))
              (Kept-swept now now tb.eviction_ttl (tb.store key) (tb.store key) (Kept.same refl)
                (omega arith))
              (omega arith))))
  ]

  below_burst :
      (now : ℕ) (key : String) (tb : TokenBucket F)
      → fl.less_f tb.burst_size tb.burst_size ≡ false
      → fl.less_f tb.burst_size (tokens_at now key tb) ≡ false
  unfolding tokens_at at_request
  below_burst now key tb h = cap_below _ tb.burst_size h

  same_laws :
      (whole : F → ℕ) (now : ℕ) (done : Bool) (tb : TokenBucket F)
      → IsCounting whole tb.rate tb.burst_size
      → IsCounting whole (tick done now tb).rate (tick done now tb).burst_size
  unfolding tick sweep
  same_laws whole now done tb laws = elim (Bool-cases (done || tb.stopped)) [
    | inl e ↦ rw e laws
    | inr e ↦ rw e laws
  ]

  left_of : ℕ → F → F
  left_of now x = (take_token (record { tokens = x; last_refill = now })).1.tokens

  told : ℕ → F → Verdict F
  told now x = (take_token (record { tokens = x; last_refill = now })).0

  -- A grant costs one token.
  one_token :
      (whole : F → ℕ) (now : ℕ) (x rate burst : F)
      → IsCounting whole rate burst
      → fl.less_f burst x ≡ false
      → (granted (told now x) + whole (left_of now x) ≡ whole x)
        × (fl.less_f burst (left_of now x) ≡ false)
  unfolding left_of told take_token
  one_token whole now x rate burst laws h = elim (Bool-cases (fl.less_f x fl.one_f)) [
    | inl e ↦ rw (e, left_of, told) (omega arith, h)
    | inr e ↦ let (f, below) = laws.sub_one x e h in rw (e, left_of, told) (omega (arith, f), below)
  ]

  left_bucket :
      (now : ℕ) (x : F)
      → (take_token (record { tokens = x; last_refill = now })).1
        ≡ record { tokens = left_of now x; last_refill = now }
  unfolding left_of take_token
  left_bucket now x = elim (Bool-cases (fl.less_f x fl.one_f)) [
    | inl e ↦ rw (e, left_of) refl
    | inr e ↦ rw (e, left_of) refl
  ]

  own_request :
      (whole : F → ℕ) (now : ℕ) (key : String) (n : ℕ) (tb : TokenBucket F)
      → IsCounting whole tb.rate tb.burst_size
      → n ≤ whole (tokens_at now key (allow_key now key tb).1)
      → granted (allow_key now key tb).0 + n ≤ whole (tokens_at now key tb)
  unfolding allow_key told tokens_at at_request
  own_request whole now key n tb laws h =
      let x = tokens_at now key tb in
      let (f, below) =
        one_token whole now x tb.rate tb.burst_size laws
          (below_burst now key tb laws.burst_irrefl) in
      let again =
        ap (λ b. tokens_at now key (put key b tb)) (left_bucket now x)
        ∙ found_again whole now key (left_of now x) tb laws below in
      omega (arith, h, f, ap whole again)

  after_request :
      (whole : F → ℕ) (now : ℕ) (key at : String) (n : ℕ) (tb : TokenBucket F)
      → IsCounting whole tb.rate tb.burst_size
      → n ≤ whole (tokens_at now key (allow_key now at tb).1)
      → (if at == key then granted (allow_key now at tb).0 else 0) + n
        ≤ whole (tokens_at now key tb)
  unfolding allow_key
  after_request whole now key at n tb laws h = elim (Bool-cases (at == key)) [
    | inl e ↦ rw e (
        subst
          (λ k.
            n ≤ whole (tokens_at now k (allow_key now at tb).1)
            → granted (allow_key now at tb).0 + n ≤ whole (tokens_at now k tb))
          ((eq_iff at key).0 e) (own_request whole now at n tb laws) h)
    | inr e ↦ rw e (
        omega
          (arith, h, ap whole (other_key now key at (take_token (at_request now at tb)).1 tb e)))
  ]

  grants_tokens :
      (whole : F → ℕ) (now : ℕ) (key : String) (events : List Event) (tb : TokenBucket F)
      → IsCounting whole tb.rate tb.burst_size
      → AtOnce now events
      → grants key events tb ≤ whole (tokens_at now key tb)
  unfolding grants allow_bucket allow_key close_sweep tokens_at at_request
  grants_tokens whole now key [] tb laws h = omega arith
  grants_tokens whole now key (request true t at ∷ events) tb laws (e, h) =
      ground (arith, grants_tokens whole now key events tb laws h)
  grants_tokens whole now key (request false t at ∷ events) tb laws (e, h) = rw e (
      after_request whole now key at _ tb laws
        (grants_tokens whole now key events (allow_key now at tb).1 laws h))
  grants_tokens whole now key (ticked done t ∷ events) tb laws (e, h) = rw e (
      subst (λ x. grants key events (tick done now tb) ≤ whole x) (over_tick now done key tb)
        (grants_tokens whole now key events (tick done now tb) (same_laws whole now done tb laws)
          h))
  grants_tokens whole now key (closed t ∷ events) tb laws (e, h) =
      grants_tokens whole now key events (close_sweep tb) laws h

  -- In one instant, whatever the state of the limiter, and with any requests of other keys, sweeps
  -- and calls of `Close` in between, the limiter grants a key at most as many requests as the whole
  -- tokens that its buckets hold. The arithmetic has the laws of a counter up to that size.
  pub grants_burst :
      (whole : F → ℕ) (now : ℕ) (key : String) (events : List Event) (tb : TokenBucket F)
      → IsCounting whole tb.rate tb.burst_size
      → AtOnce now events
      → grants key events tb ≤ whole tb.burst_size
  grants_burst whole now key events tb laws h = omega (
    arith,
    grants_tokens whole now key events tb laws h,
    laws.whole_mono (tokens_at now key tb) (below_burst now key tb laws.burst_irrefl),
  )
