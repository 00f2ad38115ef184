-- ===== src/TokenBucket/Sweep.antt =====
-- The sweep of the token buckets against the eviction that a request does for itself.
use go_gateway.Prelude.{
  ℕ, ◌+◌, ◌≤◌, ◌<◌, pos, sub_ℕ, ltb_ℤ, ◌≡◌, refl, sym, ap, inl, inr, Bool, true, false, List, [],
  ◌∷◌, String, Option, none, some, arith, Bool-cases, ◌==◌, ◌||◌,
}
use go_gateway.Go.Float.{Float}
use go_gateway.RateLimit.{limiter_error}
use go_gateway.TokenBucket.{
  Bucket, TokenBucket, Event, request, ticked, closed, put, evict, load_or_store, full_bucket,
  at_request, refill, take_token, allow_key, allow_bucket, swept, sweep, tick, close_sweep,
  verdicts,
}

-- The time of an event.
abbrev pub at_time : Event → ℕ
at_time (request done now key) = now
at_time (ticked done now) = now
at_time (closed now) = now

-- The clock never goes back, from the time `t` on.
abbrev pub InTime : ℕ → List Event → Type 0
InTime t [] = Unit
InTime t (e ∷ events) = (t ≤ at_time e) × InTime (at_time e) events

-- The history with no ticker.
unfoldable pub without_ticks : List Event → List Event
without_ticks [] = []
without_ticks (request done now key ∷ events) = request done now key ∷ without_ticks events
without_ticks (ticked done now ∷ events) = without_ticks events
without_ticks (closed now ∷ events) = closed now ∷ without_ticks events

module _ {F : Type 0} ⦃fl : Float F⦄ where
  -- An entry, and the entry that sweeps up to the time `t` left of it.
  pub data Kept (ttl t : ℕ) (o o' : Option (Bucket F)) : Type 0 where
    same : o ≡ o' → Kept ttl t o o'
    gone : (b : Bucket F) → o ≡ some b → o' ≡ none → b.last_refill + ttl < t → Kept ttl t o o'

  abbrev pub with_store : TokenBucket F → (String → Option (Bucket F)) → TokenBucket F
  with_store tb entries = record tb { store = entries }

  abbrev bucket_at : ℕ → Option (Bucket F) → TokenBucket F → Bucket F
  bucket_at now o tb = evict now tb (load_or_store (full_bucket now tb) o)

  Kept-bucket :
      (t now : ℕ) (tb : TokenBucket F) (o o' : Option (Bucket F))
      → Kept tb.eviction_ttl t o o'
      → t ≤ now
      → bucket_at now o tb ≡ bucket_at now o' tb
  Kept-bucket t now tb o o' (Kept.same e) le = ap (λ x. bucket_at now x tb) e
  Kept-bucket t now tb o o' (Kept.gone b e e' late) le = rw (e, e') (ground arith)

  -- A request finds the bucket that it would find without the sweeps.
  pub at_request-Kept :
      (t now : ℕ) (key : String) (tb : TokenBucket F) (entries : String → Option (Bucket F))
      → Kept tb.eviction_ttl t (tb.store key) (entries key)
      → t ≤ now
      → at_request now key tb ≡ at_request now key (with_store tb entries)
  unfolding at_request
  at_request-Kept t now key tb entries k le =
      ap (refill now tb) (Kept-bucket t now tb (tb.store key) (entries key) k le)

  pub Kept-swept :
      (t now ttl : ℕ) (o o' : Option (Bucket F))
      → Kept ttl t o o'
      → t ≤ now
      → Kept ttl now o (swept now ttl o')
  unfolding swept
  Kept-swept t now ttl o o' (Kept.gone b e e' late) le = Kept.gone b e (rw e' refl) (omega arith)
  Kept-swept t now ttl none o' (Kept.same e) le = Kept.same (rw (sym e) refl)
  Kept-swept t now ttl (some b) o' (Kept.same e) le =
      elim (Bool-cases (ltb_ℤ (pos b.last_refill) (sub_ℕ now ttl))) [
        | inl yes_b ↦ Kept.gone b refl (rw (sym e, swept, yes_b) refl) (ground arith)
        | inr no_b ↦ Kept.same (rw (sym e, swept, no_b) refl)
      ]

  Kept-later :
      (t now ttl : ℕ) (o o' : Option (Bucket F)) → Kept ttl t o o' → t ≤ now → Kept ttl now o o'
  Kept-later t now ttl o o' (Kept.same e) le = Kept.same e
  Kept-later t now ttl o o' (Kept.gone b e e' late) le = Kept.gone b e e' (omega arith)

  KeptAll : ℕ → TokenBucket F → (String → Option (Bucket F)) → Type 0
  KeptAll t tb entries = (key : String) → Kept tb.eviction_ttl t (tb.store key) (entries key)

  later_all :
      (t now : ℕ) (tb : TokenBucket F) (entries : String → Option (Bucket F))
      → KeptAll t tb entries
      → t ≤ now
      → KeptAll now tb entries
  unfolding KeptAll
  later_all t now tb entries k le key = Kept-later t now tb.eviction_ttl _ _ (k key) le

  -- The ticker removes nothing that a request could tell from a full bucket.
  tick-KeptAll :
      (t now : ℕ) (done : Bool) (tb : TokenBucket F) (entries : String → Option (Bucket F))
      → KeptAll t tb entries
      → t ≤ now
      → (entries' : String → Option (Bucket F)) × (tick done now (with_store tb entries)
          ≡ with_store tb entries')
        × KeptAll now tb entries'
  unfolding tick sweep KeptAll
  tick-KeptAll t now done tb entries k le = elim (Bool-cases (done || tb.stopped)) [
    | inl yes_done ↦
        (entries, rw yes_done refl, λ key. Kept-later t now tb.eviction_ttl _ _ (k key) le)
    | inr no_done ↦ (
      λ key. swept now tb.eviction_ttl (entries key),
      rw no_done refl,
      λ key. Kept-swept t now tb.eviction_ttl _ _ (k key) le,
    )
  ]

  put-KeptAll :
      (t now : ℕ) (at : String) (b : Bucket F) (tb : TokenBucket F)
      (entries : String → Option (Bucket F))
      → KeptAll t tb entries
      → t ≤ now
      → KeptAll now (put at b tb) ((put at b (with_store tb entries)).store)
  unfolding KeptAll
  put-KeptAll t now at b tb entries k le key = elim (Bool-cases (at == key)) [
    | inl e ↦ rw e (Kept.same refl)
    | inr e ↦ rw e (Kept-later t now tb.eviction_ttl _ _ (k key) le)
  ]

  verdicts_Kept :
      (t : ℕ) (events : List Event) (tb : TokenBucket F) (entries : String → Option (Bucket F))
      → InTime t events
      → KeptAll t tb entries
      → verdicts events (with_store tb entries) ≡ verdicts (without_ticks events) tb
  unfolding verdicts without_ticks allow_bucket allow_key close_sweep KeptAll
  verdicts_Kept t [] tb entries h k = refl
  verdicts_Kept t (request true now key ∷ events) tb entries (le, h) k =
      ap (λ vs. limiter_error ∷ vs)
        (verdicts_Kept now events tb entries h (later_all t now tb entries k le))
  verdicts_Kept t (request false now key ∷ events) tb entries (le, h) k =
      rw (sym (at_request-Kept t now key tb entries (k key) le)) (
        ap (λ vs. (take_token (at_request now key tb)).0 ∷ vs)
          (verdicts_Kept now events (put key (take_token (at_request now key tb)).1 tb)
            ((put key (take_token (at_request now key tb)).1 (with_store tb entries)).store) h
            (put-KeptAll t now key (take_token (at_request now key tb)).1 tb entries k le)))
  verdicts_Kept t (ticked done now ∷ events) tb entries (le, h) k =
      let (entries', e, k') = tick-KeptAll t now done tb entries k le in
      rw e (verdicts_Kept now events tb entries' h k')
  verdicts_Kept t (closed now ∷ events) tb entries (le, h) k =
      verdicts_Kept now events (close_sweep tb) entries h
        (later_all t now (close_sweep tb) entries k le)

  -- In every history in which the clock does not go back, the requests are told what they would be
  -- told if the ticker had never swept: a sweep frees memory and changes no verdict.
  pub sweeps_unobservable :
      (t : ℕ) (events : List Event) (tb : TokenBucket F)
      → InTime t events
      → verdicts events tb ≡ verdicts (without_ticks events) tb
  unfolding KeptAll
  sweeps_unobservable t events tb h = verdicts_Kept t events tb tb.store h (λ key. Kept.same refl)
