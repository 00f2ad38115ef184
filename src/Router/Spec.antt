-- ===== src/Router/Spec.antt =====
-- Which routes take a request, and which of them is the best: the documented priority of the
-- router, stated of the list of routes of the configuration.
use text.Mathlib.Text.{starts_with}
use Prim.Native.String
use go_gateway.Prelude.{ℕ, ◌≤◌, ◌≡◌, String, true, List, In}
use go_gateway.Go.{Regexps}
use go_gateway.Router.{
  MatchType, match_exact, match_prefix, match_regex, Route, method_allowed, pattern_matches,
}
use go_gateway.Router.Index.{IsToken}

abbrev pub PathAccepts :
    (regexps : Regexps) {V : Type 0} → MatchType → String → Route regexps.Regexp V → Type 0
PathAccepts regexps match_exact path x = path ≡ x.path
PathAccepts regexps match_prefix path x = starts_with path x.path ≡ true
PathAccepts regexps match_regex path x = pattern_matches regexps x.pattern path ≡ true

-- The route takes a request with this method and this path.
abbrev pub Accepts :
    (regexps : Regexps) {V : Type 0} → String → String → Route regexps.Regexp V → Type 0
Accepts regexps method path x =
    (method_allowed x method ≡ true) × PathAccepts regexps x.match_type path x

abbrev pub rank : MatchType → ℕ
rank match_exact = 0
rank match_prefix = 1
rank match_regex = 2

-- Exact routes come first, then prefix routes by the length of their path, then regex routes.
abbrev pub Outranks : {R V : Type 0} → Route R V → Route R V → Type 0
Outranks x y =
    (rank x.match_type ≤ rank y.match_type)
    × (x.match_type ≡ match_prefix
        → y.match_type ≡ match_prefix
        → String.len y.path ≤ String.len x.path)

-- The methods of every route are tokens.
abbrev pub TokenMethods : {R V : Type 0} → List (Route R V) → Type 0
TokenMethods {R} {V} xs =
    (x : Route R V) → In x xs → (m : String) → In (m, tt) x.methods → IsToken m

-- A route of the configuration, of a given match type, that takes the request.
abbrev pub Found :
    (regexps : Regexps) {V : Type 0}
    → String
    → String
    → List (Route regexps.Regexp V)
    → Route regexps.Regexp V
    → MatchType
    → Type 0
Found regexps method path bs x t = In x bs × (x.match_type ≡ t) × Accepts regexps method path x
