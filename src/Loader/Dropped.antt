-- ===== src/Loader/Dropped.antt =====
-- What a subscriber misses while a configuration waits in its channel.
use go_gateway.Prelude.{
  ℕ, zero, suc, ◌≡◌, ◌≢◌, refl, ap, ◌∙◌, false, List, [], ◌∷◌, ◌++◌, map, String, Option, some,
  arith, Bool-cases, inl, inr, All, length, ltb, get_elem?, some_inj,
}
use go_gateway.Config.{Config}
use go_gateway.Loader.{
  Loaded, loaded, refused, Channel, System, Event, written, fires, forced, subscribed, received,
  offer, fan_out, receive_at, subscribe, load_and_validate, after_load, force_reload, step, run,
}

-- The event is no receive of the subscriber at the position.
abbrev pub NotBy : ℕ → Event → Type 0
NotBy i (written content) = Unit
NotBy i fires = Unit
NotBy i forced = Unit
NotBy i (subscribed capacity) = Unit
NotBy i (received j) = j ≢ i

module _ {V : Type 0} where
  -- The channel at a position is full, and is this one.
  abbrev pub Full : ℕ → Channel V → List (Channel V) → Type 0
  Full i ch chs = (get_elem? chs i ≡ some ch) × (ltb (length ch.queue) ch.capacity ≡ false)

  offer_full :
      (cfg : Config V) (ch : Channel V)
      → ltb (length ch.queue) ch.capacity ≡ false
      → offer cfg ch ≡ ch
  offer_full cfg ch f = rw f refl

  Full-offers :
      (cfg : Config V) (i : ℕ) (ch : Channel V) (chs : List (Channel V))
      → Full i ch chs
      → Full i ch (map (offer cfg) chs)
  Full-offers cfg i ch [] h = h
  Full-offers cfg zero ch (c ∷ chs) (e, f) =
      (ap (λ c. some (offer cfg c)) (some_inj e) ∙ ap some (offer_full cfg ch f), f)
  Full-offers cfg (suc i) ch (c ∷ chs) h = Full-offers cfg i ch chs h

  Full-receives :
      (i j : ℕ) (ch : Channel V) (chs : List (Channel V))
      → j ≢ i
      → Full i ch chs
      → Full i ch (receive_at j chs)
  unfolding receive_at
  Full-receives i j ch [] ne h = h
  Full-receives zero zero ch (c ∷ chs) ne h = absurd (ne refl)
  Full-receives (suc i) zero ch (c ∷ chs) ne h = h
  Full-receives zero (suc j) ch (c ∷ chs) ne h = h
  Full-receives (suc i) (suc j) ch (c ∷ chs) ne h = Full-receives i j ch chs (λ e. ne (ap suc e)) h

  Full-subscribes :
      (i : ℕ) (ch new : Channel V) (chs : List (Channel V))
      → Full i ch chs
      → Full i ch (chs ++ new ∷ [])
  Full-subscribes i ch new [] (e, f) = absurd (ground (arith, e))
  Full-subscribes zero ch new (c ∷ chs) h = h
  Full-subscribes (suc i) ch new (c ∷ chs) h = Full-subscribes i ch new chs h

module _ {R V : Type 0} (unmarshal : String → Option (Config V)) (compile : String → Option R) where
  Full-after_load :
      (x : Loaded V) (i : ℕ) (ch : Channel V) (s : System V)
      → Full i ch s.loader.subscribers
      → Full i ch (after_load unmarshal compile x s).loader.subscribers
  unfolding after_load fan_out
  Full-after_load (refused e) i ch s h = h
  Full-after_load (loaded cfg) i ch s h = Full-offers cfg i ch s.loader.subscribers h

  Full-step :
      (e : Event) (i : ℕ) (ch : Channel V) (s : System V)
      → NotBy i e
      → Full i ch s.loader.subscribers
      → Full i ch (step unmarshal compile e s).loader.subscribers
  unfolding step force_reload subscribe
  Full-step (written content) i ch s n h = h
  Full-step fires i ch s n h = elim (Bool-cases s.debounce_timer) [
    | inl e ↦ rw e (Full-after_load _ i ch (record s { debounce_timer = false }) h)
    | inr e ↦ rw e h
  ]
  Full-step forced i ch s n h = Full-after_load _ i ch s h
  Full-step (subscribed capacity) i ch s n h =
      Full-subscribes i ch (record { capacity = capacity; queue = [] }) s.loader.subscribers h
  Full-step (received j) i ch s n h = Full-receives i j ch s.loader.subscribers n h

  Full-run :
      (events : List Event) (i : ℕ) (ch : Channel V) (s : System V)
      → All (NotBy i) events
      → Full i ch s.loader.subscribers
      → Full i ch (run unmarshal compile events s).loader.subscribers
  unfolding run
  Full-run [] i ch s n h = h
  Full-run (e ∷ events) i ch s (n, ns) h =
      Full-run events i ch (step unmarshal compile e s) ns (Full-step e i ch s n h)

  -- A reload that finds the channel of a subscriber full is lost on this subscriber: after any history
  -- in which it does not receive, a forced reload of an accepted file makes the new configuration the
  -- current one, and the channel still holds only what it held before the history.
  pub reload_lost :
      (events : List Event) (i : ℕ) (ch : Channel V) (s : System V) (cfg : Config V)
      → Full i ch s.loader.subscribers
      → All (NotBy i) events
      → load_and_validate unmarshal compile (run unmarshal compile events s).file ≡ loaded cfg
      → let u = (force_reload unmarshal compile (run unmarshal compile events s)).1 in
        (u.loader.current ≡ cfg) × (get_elem? u.loader.subscribers i ≡ some ch)
  unfolding force_reload
  reload_lost events i ch s cfg full n e =
      let t = run unmarshal compile events s in
      (
        rw (e, after_load) refl,
        (Full-after_load (load_and_validate unmarshal compile t.file) i ch t
            (Full-run events i ch s n full)).0,
      )
