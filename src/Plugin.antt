-- ===== src/Plugin.antt =====
-- internal/plugin: the plugin interface, the chain that runs plugins, and the registry that builds
-- them. A plugin is a parameter: functions that change the response writer and a request of any type
-- `Q`. Logging is left out.
pub mod Chain
pub mod Order
mod Examples
use go_gateway.Prelude.{
  ℕ, Bool, true, false, List, [], ◌∷◌, ◌++◌, String, Option, none, some, Map, lookup, insert,
  if◌then◌else◌,
}
use go_gateway.Config.{PluginDef, PluginRef}
use go_gateway.Go.{Sorting}
use go_gateway.Router.{earlier}

-- Go's `http.ResponseWriter`: the headers set so far, the status once the header is written, with the
-- headers sent with it, and the pieces of the body.
pub record Response : Type 0 where
  pub headers : Map String
  pub status : Option ℕ
  pub sent : Map String
  pub body : List (ℕ × String)

unfoldable pub set_header : String → String → Response → Response
set_header k v r = record r { headers = insert k v r.headers }

-- `WriteHeader`: a second call is superfluous and has no effect.
unfoldable pub write_header : ℕ → Response → Response
write_header code r = elim r.status [
  | none ↦ record r { status = some code; sent = r.headers }
  | some c ↦ r
]

-- `writeJSONError`: the piece of the body is the code and the message that its text quotes.
unfoldable pub write_json_error : ℕ → String → Response → Response
unfolding set_header write_header
write_json_error code message r =
    let r' = write_header code (set_header "Content-Type" "application/json" r) in
    record r' { body = r'.body ++ (code, message) ∷ [] }

pub record World (Q : Type 0) : Type 0 where
  pub response : Response
  pub request : Q

-- What a call of a plugin comes to: nil, an `*AbortError`, another error, or a panic.
pub data Outcome : Type 0 where
  passed : Outcome
  abort_error : (status_code : ℕ) (message : String) → Outcome
  other_error : Outcome
  panicked : Outcome

-- A plugin with no `Close` method has none for `close`; the Boolean says whether it returned an error.
pub record Plugin (Q : Type 0) : Type 0 where
  pub name : String
  pub execute_request : World Q → Outcome × World Q
  pub execute_response : World Q → Outcome × World Q
  pub close : Option (World Q → Bool × World Q)

-- `IsAbort`
unfoldable pub is_abort : Outcome → Bool
is_abort (abort_error c m) = true
is_abort _ = false

abbrev pub with_error : {Q : Type 0} → ℕ → String → World Q → World Q
with_error code message w = record w { response = write_json_error code message w.response }

-- What the loop does after one plugin, `rest` being the remaining rounds.
unfoldable pub after_request :
    {Q : Type 0} → (World Q → Bool × World Q) → Outcome → World Q → Bool × World Q
after_request rest passed w = rest w
after_request rest (abort_error code message) w = (true, with_error code message w)
after_request rest other_error w = (true, with_error 500 "internal server error" w)
after_request rest panicked w = (true, with_error 500 "internal server error" w)

-- `(*Chain).ExecuteRequest`
unfoldable pub execute_request : {Q : Type 0} → List (Plugin Q) → World Q → Bool × World Q
unfolding after_request
execute_request [] w = (false, w)
execute_request (p ∷ ps) w =
    after_request (execute_request ps) (p.execute_request w).0 (p.execute_request w).1

-- `(*Chain).ExecuteResponse`: the outcome is only logged.
unfoldable pub execute_response : {Q : Type 0} → List (Plugin Q) → World Q → World Q
execute_response [] w = w
execute_response (p ∷ ps) w = execute_response ps (p.execute_response w).1

abbrev close_one : {Q : Type 0} → Option (World Q → Bool × World Q) → World Q → World Q
close_one none w = w
close_one (some close) w = (close w).1

-- `(*Chain).Close`: an error is only logged.
unfoldable pub close_all : {Q : Type 0} → List (Plugin Q) → World Q → World Q
close_all [] w = w
close_all (p ∷ ps) w = close_all ps (close_one p.close w)

-- A factory returns none for an error.
abbrev pub Factory : Type 0 → Type 0 → Type 0
Factory Q V = V → Option (Plugin Q)

abbrev pub Registry : Type 0 → Type 0 → Type 0
Registry Q V = Map (Factory Q V)

-- `Register`: `none` is the panic on a second registration of a type.
unfoldable pub register :
    {Q V : Type 0} → String → Factory Q V → Registry Q V → Option (Registry Q V)
register type_name f r = elim (lookup type_name r) [
  | none ↦ some (insert type_name f r)
  | some g ↦ none
]

pub data BuildError : Type 0 where
  no_mapping : (name : String) → BuildError
  not_registered : (type : String) → BuildError
  factory_error : (name type : String) → BuildError

pub data Result {ℓ} (A : Type ℓ) : Type ℓ where
  ok : A → Result A
  err : BuildError → Result A

infixl 5 ◌>>=◌
abbrev pub ◌>>=◌ {ℓ κ} : {A : Type ℓ} {B : Type κ} → Result A → (A → Result B) → Result B
ok a >>= f = f a
err e >>= f = err e

abbrev pub or_error {ℓ} : {A : Type ℓ} → BuildError → Option A → Result A
or_error e none = err e
or_error e (some a) = ok a

-- The loop over the definitions: a later one of a name replaces an earlier one.
unfoldable pub name_to_type : List PluginDef → Map String → Map String
name_to_type [] m = m
name_to_type (d ∷ ds) m = name_to_type ds (insert d.name d.type m)

-- One round of the loop over the sorted references.
unfoldable pub build_one :
    {Q V : Type 0} → Registry Q V → Map String → PluginRef V → Result (Plugin Q)
build_one r types ref = do
  type_name ← or_error (no_mapping ref.name) (lookup ref.name types)
  factory ← or_error (not_registered type_name) (lookup type_name r)
  or_error (factory_error ref.name type_name) (factory ref.config)

unfoldable pub build_each :
    {Q V : Type 0} → Registry Q V → Map String → List (PluginRef V) → Result (List (Plugin Q))
build_each r types [] = ok []
build_each r types (ref ∷ refs) = do
  p ← build_one r types ref
  ps ← build_each r types refs
  ok (p ∷ ps)

-- `(*Registry).Build`
unfoldable pub build :
    {Q V : Type 0}
    → Sorting
    → Registry Q V
    → List PluginDef
    → List (PluginRef V)
    → Result (List (Plugin Q))
build sorting r defs refs = build_each r (name_to_type defs []) (sorting.sort_slice earlier refs)
