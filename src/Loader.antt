-- ===== src/Loader.antt =====
-- internal/config/loader.go and internal/admin/reload.go: the loader of the configuration file, which
-- hands each new configuration to its subscribers. The decoding of YAML is a parameter, and so is the
-- compilation of patterns. A reload is one step: the model leaves out that the callback of the timer
-- and `ForceReload` can overlap. Logging is left out.
pub mod Accepted
mod Dropped
mod Examples
use go_gateway.Prelude.{
  ℕ, zero, suc, Bool, true, false, List, [], ◌∷◌, ◌++◌, map, length, ltb, String, Option, none,
  some, if◌then◌else◌, ◌==◌, not,
}
use go_gateway.Config.{Config}
use go_gateway.Validator.{Problem, validate}

pub data LoadError : Type 0 where
  read_error parse_error : LoadError
  invalid : List Problem → LoadError

pub data Loaded (V : Type 0) : Type 0 where
  loaded : Config V → Loaded V
  refused : LoadError → Loaded V

-- A buffered channel, the oldest message first. A channel with no buffer is left out.
pub record Channel (V : Type 0) : Type 0 where
  pub capacity : ℕ
  pub queue : List (Config V)

pub record Loader (V : Type 0) : Type 0 where
  pub current : Config V
  pub subscribers : List (Channel V)

-- A send in a `select` with a `default`.
abbrev pub offer : {V : Type 0} → Config V → Channel V → Channel V
offer cfg ch =
    if ltb (length ch.queue) ch.capacity then record ch { queue = ch.queue ++ cfg ∷ [] } else ch

-- `fanOut`
unfoldable pub fan_out : {V : Type 0} → Config V → Loader V → Loader V
fan_out cfg l = record l { subscribers = map (offer cfg) l.subscribers }

-- `Subscribe`
unfoldable pub subscribe : {V : Type 0} → ℕ → Loader V → Loader V
subscribe capacity l = record l {
  subscribers = l.subscribers ++ record { capacity = capacity; queue = [] } ∷ [];
}

-- A receive from a channel: the message, if there is one.
abbrev pub take_first : {V : Type 0} → List (Config V) → Option (Config V) × List (Config V)
take_first [] = (none, [])
take_first (cfg ∷ rest) = (some cfg, rest)

abbrev pub receive : {V : Type 0} → Channel V → Channel V
receive ch = record ch { queue = (take_first ch.queue).1 }

-- The subscriber at a position receives.
unfoldable pub receive_at : {V : Type 0} → ℕ → List (Channel V) → List (Channel V)
receive_at i [] = []
receive_at zero (ch ∷ chs) = receive ch ∷ chs
receive_at (suc i) (ch ∷ chs) = ch ∷ receive_at i chs

-- The loader with the file, none where it cannot be read, and the timer of the watcher.
pub record System (V : Type 0) : Type 0 where
  pub file : Option String
  pub debounce_timer : Bool
  pub loader : Loader V

pub data Event : Type 0 where
  written : (content : Option String) → Event  -- a write that the watcher sees
  fires : Event  -- the timer, after the last write
  forced : Event
  subscribed : (capacity : ℕ) → Event
  received : (subscriber : ℕ) → Event

module _ {R V : Type 0} (unmarshal : String → Option (Config V)) (compile : String → Option R) where
  unfoldable pub after_validate : Config V × List Problem → Loaded V
  after_validate (cfg, []) = loaded cfg
  after_validate (cfg, p ∷ ps) = refused (invalid (p ∷ ps))

  unfoldable pub after_unmarshal : Option (Config V) → Loaded V
  unfolding after_validate validate
  after_unmarshal none = refused parse_error
  after_unmarshal (some cfg) = after_validate (validate compile cfg)

  -- `loadAndValidate`
  unfoldable pub load_and_validate : Option String → Loaded V
  unfolding after_unmarshal
  load_and_validate none = refused read_error
  load_and_validate (some content) = after_unmarshal (unmarshal content)

  abbrev pub store_loaded : Config V → Loader V → Loader V
  store_loaded cfg l = record l { current = cfg }

  -- `NewLoader`: the loader, if the file is accepted.
  unfoldable pub new_loader : Option String → Option (System V)
  unfolding load_and_validate
  new_loader file = elim (load_and_validate file) [
    | refused e ↦ none
    | loaded cfg ↦ some (record {
      file = file;
      debounce_timer = false;
      loader = record { current = cfg; subscribers = [] };
    })
  ]

  -- `ForceReload`; the callback of the timer does the same.
  unfoldable pub after_load : Loaded V → System V → System V
  unfolding fan_out
  after_load (refused e) s = s
  after_load (loaded cfg) s = record s { loader = fan_out cfg (store_loaded cfg s.loader) }

  unfoldable pub force_reload : System V → Loaded V × System V
  unfolding load_and_validate after_load
  force_reload s = (load_and_validate s.file, after_load (load_and_validate s.file) s)

  -- One event. A timer that is not armed does not fire.
  unfoldable pub step : Event → System V → System V
  unfolding force_reload subscribe receive_at
  step (written content) s = record s { file = content; debounce_timer = true }
  step fires s =
      if s.debounce_timer then (force_reload (record s { debounce_timer = false })).1 else s
  step forced s = (force_reload s).1
  step (subscribed capacity) s = record s { loader = subscribe capacity s.loader }
  step (received i) s = record s {
    loader = record s.loader { subscribers = receive_at i s.loader.subscribers };
  }

  unfoldable pub run : List Event → System V → System V
  run [] s = s
  run (e ∷ events) s = run events (step e s)

  abbrev pub status_of : Loaded V → ℕ
  status_of (loaded cfg) = 200
  status_of (refused e) = 500

  -- `ServeHTTP` of the handler of POST /admin/reload: the status of its answer.
  unfoldable pub serve_reload : String → System V → ℕ × System V
  unfolding force_reload
  serve_reload method s =
      if not (method == "POST")
      then (405, s)
      else (status_of (force_reload s).0, (force_reload s).1)
