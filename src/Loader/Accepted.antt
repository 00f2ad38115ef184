-- ===== src/Loader/Accepted.antt =====
-- The loader hands out valid configurations only.
use go_gateway.Prelude.{
  ℕ, zero, suc, ◌≡◌, refl, sym, inl, inr, false, List, [], ◌∷◌, ◌++◌, map, String, Option, none,
  some, arith, Bool-cases, All, subst, some_inj, length, ltb,
}
use go_gateway.Config.{Config}
use go_gateway.Validator.{validate, Problem}
use go_gateway.Validator.Sound.{Valid, validate-nil_iff}
use go_gateway.Loader.{
  LoadError, Loaded, loaded, refused, Channel, Loader, System, Event, written, fires, forced,
  subscribed, received, offer, fan_out, receive_at, take_first, subscribe, after_validate,
  after_unmarshal, load_and_validate, new_loader, after_load, force_reload, step, run,
}

loaded_inj : {V : Type 0} {c d : Config V} → loaded c ≡ loaded d → c ≡ d
loaded_inj e = cc

never_refused : {V : Type 0} {x : LoadError} {c : Config V} → refused x ≡ loaded c → ⊥
never_refused e = cc

module _ {R V : Type 0} (unmarshal : String → Option (Config V)) (compile : String → Option R) where
  -- A configuration that a text decodes to and that is valid, with the defaults that `Validate` sets.
  pub record Accepted (cfg : Config V) : Type 0 where
    pub content : String
    pub decoded : Config V
    pub parsed : unmarshal content ≡ some decoded
    pub valid : Valid compile decoded
    pub with_defaults : cfg ≡ (validate compile decoded).0

  after_validate-loaded :
      (x : Config V × List Problem) (cfg : Config V)
      → after_validate unmarshal compile x ≡ loaded cfg
      → (x.1 ≡ []) × (cfg ≡ x.0)
  unfolding after_validate
  after_validate-loaded (d, []) cfg e = (refl, sym (loaded_inj e))
  after_validate-loaded (d, p ∷ ps) cfg e = absurd (never_refused e)

  after_unmarshal-loaded :
      (content : String) (x : Option (Config V)) (cfg : Config V)
      → unmarshal content ≡ x
      → after_unmarshal unmarshal compile x ≡ loaded cfg
      → Accepted cfg
  unfolding after_unmarshal
  after_unmarshal-loaded content none cfg u e = absurd (never_refused e)
  after_unmarshal-loaded content (some decoded) cfg u e =
      let (none_wrong, same) = after_validate-loaded (validate compile decoded) cfg e in
      record {
        content = content;
        decoded = decoded;
        parsed = u;
        valid = (validate-nil_iff compile decoded).0 none_wrong;
        with_defaults = same;
      }

  pub load_and_validate-Accepted :
      (file : Option String) (cfg : Config V)
      → load_and_validate unmarshal compile file ≡ loaded cfg
      → Accepted cfg
  unfolding load_and_validate
  load_and_validate-Accepted none cfg e = absurd (never_refused e)
  load_and_validate-Accepted (some content) cfg e =
      after_unmarshal-loaded content (unmarshal content) cfg refl e

  -- The configuration of the loader, and those that wait in the channels.
  abbrev pub AllAccepted : Loader V → Type 0
  AllAccepted l = Accepted l.current × All (λ (ch : Channel V). All Accepted ch.queue) l.subscribers

  All-append_one :
      (cfg : Config V) (queue : List (Config V))
      → All Accepted queue
      → Accepted cfg
      → All Accepted (queue ++ cfg ∷ [])
  All-append_one cfg [] h a = (a, h)
  All-append_one cfg (c ∷ queue) (b, h) a = (b, All-append_one cfg queue h a)

  offer-Accepted :
      (cfg : Config V) (ch : Channel V)
      → Accepted cfg
      → All Accepted ch.queue
      → All Accepted (offer cfg ch).queue
  offer-Accepted cfg ch a h = elim (Bool-cases (ltb (length ch.queue) ch.capacity)) [
    | inl e ↦ rw e (All-append_one cfg ch.queue h a)
    | inr e ↦ rw e h
  ]

  offers-Accepted :
      (cfg : Config V) (chs : List (Channel V))
      → Accepted cfg
      → All (λ (ch : Channel V). All Accepted ch.queue) chs
      → All (λ (ch : Channel V). All Accepted ch.queue) (map (offer cfg) chs)
  offers-Accepted cfg [] a h = h
  offers-Accepted cfg (ch ∷ chs) a (h, hs) =
      (offer-Accepted cfg ch a h, offers-Accepted cfg chs a hs)

  receive-Accepted :
      (queue : List (Config V)) → All Accepted queue → All Accepted (take_first queue).1
  receive-Accepted [] h = h
  receive-Accepted (c ∷ queue) (a, h) = h

  receives-Accepted :
      (i : ℕ) (chs : List (Channel V))
      → All (λ (ch : Channel V). All Accepted ch.queue) chs
      → All (λ (ch : Channel V). All Accepted ch.queue) (receive_at i chs)
  unfolding receive_at
  receives-Accepted i [] h = h
  receives-Accepted zero (ch ∷ chs) (h, hs) = (receive-Accepted ch.queue h, hs)
  receives-Accepted (suc i) (ch ∷ chs) (h, hs) = (h, receives-Accepted i chs hs)

  subscribes-Accepted :
      (capacity : ℕ) (chs : List (Channel V))
      → All (λ (ch : Channel V). All Accepted ch.queue) chs
      → All
          (λ (ch : Channel V). All Accepted ch.queue)
          (chs ++ record { capacity = capacity; queue = [] } ∷ [])
  subscribes-Accepted capacity [] h = (tt, h)
  subscribes-Accepted capacity (ch ∷ chs) (h, hs) = (h, subscribes-Accepted capacity chs hs)

  reload-AllAccepted :
      (s : System V)
      → AllAccepted s.loader
      → AllAccepted (force_reload unmarshal compile s).1.loader
  unfolding force_reload
  reload-AllAccepted s h = go (load_and_validate unmarshal compile s.file) refl
    where
      go :
          (x : Loaded V)
          → load_and_validate unmarshal compile s.file ≡ x
          → AllAccepted (after_load unmarshal compile x s).loader
      go (refused e) l = unfold after_load in h
      go (loaded cfg) l =
          unfold after_load fan_out in
          (
            load_and_validate-Accepted s.file cfg l,
            offers-Accepted cfg s.loader.subscribers (load_and_validate-Accepted s.file cfg l) h.1,
          )

  step-AllAccepted :
      (e : Event) (s : System V)
      → AllAccepted s.loader
      → AllAccepted (step unmarshal compile e s).loader
  unfolding step subscribe
  step-AllAccepted (written content) s h = h
  step-AllAccepted fires s h = elim (Bool-cases s.debounce_timer) [
    | inl e ↦ rw e (reload-AllAccepted (record s { debounce_timer = false }) h)
    | inr e ↦ rw e h
  ]
  step-AllAccepted forced s h = reload-AllAccepted s h
  step-AllAccepted (subscribed capacity) s h =
      (h.0, subscribes-Accepted capacity s.loader.subscribers h.1)
  step-AllAccepted (received i) s h = (h.0, receives-Accepted i s.loader.subscribers h.1)

  run-AllAccepted :
      (events : List Event) (s : System V)
      → AllAccepted s.loader
      → AllAccepted (run unmarshal compile events s).loader
  unfolding run
  run-AllAccepted [] s h = h
  run-AllAccepted (e ∷ events) s h =
      run-AllAccepted events (step unmarshal compile e s) (step-AllAccepted e s h)

  new_loader-AllAccepted :
      (file : Option String) (s : System V)
      → new_loader unmarshal compile file ≡ some s
      → AllAccepted s.loader
  unfolding new_loader
  new_loader-AllAccepted file s e = go (load_and_validate unmarshal compile file) refl
    where
      go : (x : Loaded V) → load_and_validate unmarshal compile file ≡ x → AllAccepted s.loader
      go (refused r) l = absurd (ground (arith, rw (l, new_loader) at e))
      go (loaded cfg) l =
          subst (λ (t : System V). AllAccepted t.loader) (some_inj (rw (l, new_loader) at e))
            (load_and_validate-Accepted file cfg l, tt)

  -- After any history of writes to the file, valid or not, of the timer of the watcher, of forced
  -- reloads, and of subscribers that come and receive, the configuration of a loader that was made,
  -- and each configuration that waits in a channel of a subscriber, is one that a text decodes to and
  -- that is valid, with the defaults filled in.
  pub loader_accepts :
      (file : Option String) (s : System V) (events : List Event)
      → new_loader unmarshal compile file ≡ some s
      → AllAccepted (run unmarshal compile events s).loader
  loader_accepts file s events e = run-AllAccepted events s (new_loader-AllAccepted file s e)
