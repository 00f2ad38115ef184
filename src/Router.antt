-- ===== src/Router.antt =====
-- internal/router/router.go: the routes built from the configuration, and the match of a request.
-- The parameters are Go's sorting, its regular expressions and `strings.ToUpper`. A nil `*Route` is
-- `none`; the error of `New` is that of `regexp.Compile`, and `none` stands for it.
pub mod Index
pub mod Keyed
pub mod Build
pub mod Held
pub mod Spec
pub mod Places
pub mod Match
mod Examples
use Prim.Native.String
use text.Mathlib.Text.{starts_with}
use go_gateway.Prelude.{
  ℕ, ℤ, Bool, true, false, List, [], ◌∷◌, ◌++◌, String, Option, none, some, Map, lookup, insert,
  is_nil, ltb, ltb_ℤ, ◌==◌, if◌then◌else◌, ◌&&◌, find?,
}
use go_gateway.Config.{RouteConfig, PluginRef}
use go_gateway.Go.{Sorting, Regexps}

pub data MatchType : Type 0 where
  match_exact match_prefix match_regex : MatchType

-- A Go map to `struct{}` is a set.
abbrev pub Set : Type 0
Set = Map (Unit {0})

pub record Route (R V : Type 0) : Type 0 where
  pub id : String
  pub methods : Set
  pub match_type : MatchType
  pub path : String
  pub pattern : Option R
  pub strip_prefix : Bool
  pub service_name : String
  pub timeout : ℤ
  pub max_body_bytes : ℤ
  pub plugins : List (PluginRef V)
  pub path_len : ℕ

pub record Router (R V : Type 0) : Type 0 where
  pub exact : Map (Route R V)
  pub prefix : List (Route R V)
  pub regexes : List (Route R V)

-- `":" + path`
abbrev pub any_key : String → String
any_key path = String.◌++◌ ":" path

-- `method + ":" + path`
abbrev pub key : String → String → String
key method path = String.◌++◌ method (any_key path)

-- `methodAllowed`
unfoldable pub method_allowed : {R V : Type 0} → Route R V → String → Bool
method_allowed r method = elim r.methods [
  | [] ↦ true
  | x ∷ xs ↦ elim (lookup method (x ∷ xs)) [ none ↦ false | some u ↦ true ]
]

-- The loop over `rc.Methods`.
unfoldable pub method_set : (String → String) → List String → Set → Set
method_set to_upper [] set = set
method_set to_upper (m ∷ ms) set = method_set to_upper ms (insert (to_upper m) tt set)

-- The loop over `route.Methods` for an exact route.
unfoldable pub add_keys : {R V : Type 0} → Set → Route R V → Map (Route R V) → Map (Route R V)
add_keys [] route exact = exact
add_keys ((method, _) ∷ ms) route exact =
    add_keys ms route (insert (key method route.path) route exact)

-- The `switch` on `route.MatchType` in `New`.
add_as : {R V : Type 0} → MatchType → Route R V → Router R V → Router R V
unfolding add_keys
add_as match_exact route r =
    let exact = add_keys route.methods route r.exact in
    record r {
      exact = if is_nil route.methods then insert (any_key route.path) route exact else exact;
    }
add_as match_prefix route r = record r { prefix = r.prefix ++ route ∷ [] }
add_as match_regex route r = record r { regexes = r.regexes ++ route ∷ [] }

unfoldable pub add_route : {R V : Type 0} → Route R V → Router R V → Router R V
unfolding add_as
add_route route r = add_as route.match_type route r

-- `r.prefix[i].pathLen > r.prefix[j].pathLen`
abbrev pub longer : {R V : Type 0} → Route R V → Route R V → Bool
longer x y = ltb y.path_len x.path_len

abbrev pub earlier : {V : Type 0} → PluginRef V → PluginRef V → Bool
earlier x y = ltb_ℤ x.order y.order

module _ (sorting : Sorting) (regexps : Regexps) (to_upper : String → String) {V : Type 0} where
  open sorting use {sort_slice}
  open regexps use {Regexp, compile}

  -- The `switch` on `rc.MatchType`: the match type, and the pattern; `none` if it does not compile.
  unfoldable pub match_type_of : RouteConfig V → Option (MatchType × Option Regexp)
  match_type_of rc =
      if rc.match_type == "exact"
      then some (match_exact, none)
      else if rc.match_type == "regex"
      then elim (compile rc.path) [ none ↦ none | some p ↦ some (match_regex, some p) ]
      else some (match_prefix, none)

  abbrev route_of : RouteConfig V → MatchType × Option Regexp → Route Regexp V
  route_of rc m = record {
    id = rc.id;
    methods = method_set to_upper rc.methods [];
    match_type = m.0;
    path = rc.path;
    pattern = m.1;
    strip_prefix = rc.strip_prefix;
    service_name = rc.service;
    timeout = rc.timeout;
    max_body_bytes = rc.max_body_bytes;
    plugins = sort_slice earlier rc.plugins;
    path_len = String.len rc.path;
  }

  -- `buildRoute`
  unfoldable pub build_route : RouteConfig V → Option (Route Regexp V)
  unfolding match_type_of
  build_route rc = elim (match_type_of rc) [ none ↦ none | some m ↦ some (route_of rc m) ]

  -- The loop of `New`.
  unfoldable pub new_from : List (RouteConfig V) → Router Regexp V → Option (Router Regexp V)
  new_from [] r = some r
  new_from (rc ∷ rcs) r = elim (build_route rc) [
    | none ↦ none
    | some route ↦ new_from rcs (add_route route r)
  ]

  abbrev pub empty_router : Router Regexp V
  empty_router = record { exact = []; prefix = []; regexes = [] }

  abbrev pub sort_prefixes : Router Regexp V → Router Regexp V
  sort_prefixes r = record r { prefix = sort_slice longer r.prefix }

  -- `New`
  unfoldable pub new : List (RouteConfig V) → Option (Router Regexp V)
  unfolding new_from
  new rcs = elim (new_from rcs empty_router) [ none ↦ none | some r ↦ some (sort_prefixes r) ]

abbrev or_else {ℓ} : {A : Type ℓ} → Option A → Option A → Option A
or_else none b = b
or_else (some a) b = some a

-- A regex route has a pattern: `buildRoute` sets it.
abbrev pub pattern_matches : (regexps : Regexps) → Option regexps.Regexp → String → Bool
pattern_matches regexps none path = false
pattern_matches regexps (some p) path = regexps.match_string p path

-- The lookup of one exact key: the route is returned if it allows the method.
unfoldable pub match_key : {R V : Type 0} → String → String → Router R V → Option (Route R V)
match_key k method r = elim (lookup k r.exact) [
  | none ↦ none
  | some route ↦ if method_allowed route method then some route else none
]

module _ (regexps : Regexps) {V : Type 0} where
  abbrev pub prefix_accepts : String → String → Route regexps.Regexp V → Bool
  prefix_accepts method path route = starts_with path route.path && method_allowed route method

  abbrev pub regex_accepts : String → String → Route regexps.Regexp V → Bool
  regex_accepts method path route =
      pattern_matches regexps route.pattern path && method_allowed route method

  -- `Match`
  unfoldable pub match_request :
      String → String → Router regexps.Regexp V → Option (Route regexps.Regexp V)
  unfolding match_key
  match_request method path r = or_else (match_key (key method path) method r) (
      or_else (match_key (any_key path) method r) (
        or_else (find? (prefix_accepts method path) r.prefix)
          (find? (regex_accepts method path) r.regexes)))
