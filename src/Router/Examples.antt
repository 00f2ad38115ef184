-- ===== src/Router/Examples.antt =====
-- The router at a concrete configuration.
use go_gateway.Prelude.{
  ℕ, pos, ◌≡◌, refl, ◌↔◌, false, List, [], ◌∷◌, String, Option, none, some, In, All, All-In, arith,
  eq_iff,
}
use go_gateway.Config.{RouteConfig}
use go_gateway.Go.Sample.{sorting, regexps}
use go_gateway.Router.{
  match_prefix, Route, Router, new, match_request, build_route, method_allowed, add_route,
  method_set,
}
use go_gateway.Router.Index.{IsToken}
use go_gateway.Router.Build.{routes_of}
use go_gateway.Router.Spec.{Accepts, Outranks, TokenMethods}
use go_gateway.Router.Match.{match-none_iff, match-best}

abbrev upper : String → String
upper m = m

abbrev sample_route : String → String → String → List String → RouteConfig ℕ
sample_route id path match_type methods = record {
  id = id;
  methods = methods;
  path = path;
  match_type = match_type;
  strip_prefix = false;
  service = "users";
  timeout = pos 0;
  max_body_bytes = pos 0;
  plugins = [];
}

abbrev sample_routes : List (RouteConfig ℕ)
sample_routes =
    sample_route "any" "/" "regex" []
    ∷ sample_route "api" "/api" "" []
    ∷ sample_route "users" "/api/users" "prefix" ("GET" ∷ [])
    ∷ sample_route "me" "/api/users/me" "exact" ("GET" ∷ "PUT" ∷ [])
    ∷ []

abbrev no_route : Router String ℕ
no_route = record { exact = []; prefix = []; regexes = [] }

or_empty : Option (Router String ℕ) → Router String ℕ
or_empty none = no_route
or_empty (some r) = r

abbrev sample_router : Router String ℕ
sample_router = or_empty (new sorting regexps upper sample_routes)

abbrev id_of : Option (Route String ℕ) → String
id_of none = ""
id_of (some x) = x.id

running : Unit {0}
unfolding new build_route method_allowed add_route method_set sorting or_empty match_request
running = tt

sample_matches :
    (id_of (match_request regexps "GET" "/api/users/me" sample_router) ≡ "me")
    × (id_of (match_request regexps "GET" "/api/users/7" sample_router) ≡ "users")
    × (id_of (match_request regexps "POST" "/api/users/7" sample_router) ≡ "api")
    × (id_of (match_request regexps "POST" "/other" sample_router) ≡ "any")
    × (match_request regexps "GET" "other" sample_router ≡ none)
unfolding running
sample_matches = (refl, refl, refl, refl, refl)

sample_built : new sorting regexps upper sample_routes ≡ some sample_router
unfolding running
sample_built = refl

get-IsToken : IsToken "GET"
get-IsToken = (ground (arith, eq_iff "GET" ""), omega arith)

put-IsToken : IsToken "PUT"
put-IsToken = (ground (arith, eq_iff "PUT" ""), omega arith)

-- The methods of one route, and of all.
AllTokens : List (Route String ℕ) → Type 0
AllTokens xs = All (λ x. All (λ p. IsToken p.0) x.methods) xs

TokenMethods-of_all : (xs : List (Route String ℕ)) → AllTokens xs → TokenMethods xs
unfolding AllTokens
TokenMethods-of_all xs h x i m m_in =
    All-In (λ p. IsToken p.0) x.methods (All-In (λ y. All (λ p. IsToken p.0) y.methods) xs h i) m_in

sample_tokens : TokenMethods (routes_of sorting regexps upper sample_routes)
unfolding running AllTokens
sample_tokens =
    TokenMethods-of_all (routes_of sorting regexps upper sample_routes)
      (tt, (tt, ((get-IsToken, tt), ((get-IsToken, (put-IsToken, tt)), tt))))

match-none_iff_example : (match_request regexps "GET" "other" sample_router ≡ none) ↔ (
    (y : Route String ℕ)
    → In y (routes_of sorting regexps upper sample_routes)
    → ¬ Accepts regexps "GET" "other" y)
match-none_iff_example =
    match-none_iff sorting regexps upper sample_routes sample_router "GET" "other" sample_built
      get-IsToken sample_tokens

abbrev users_route : Route String ℕ
users_route = record {
  id = "users";
  methods = ("GET", tt) ∷ [];
  match_type = match_prefix;
  path = "/api/users";
  pattern = none;
  strip_prefix = false;
  service_name = "users";
  timeout = pos 0;
  max_body_bytes = pos 0;
  plugins = [];
  path_len = 10;
}

match-best_example :
    In users_route (routes_of sorting regexps upper sample_routes)
    × Accepts regexps "GET" "/api/users/7" users_route
    × ((y : Route String ℕ)
        → In y (routes_of sorting regexps upper sample_routes)
        → Accepts regexps "GET" "/api/users/7" y
        → Outranks users_route y)
unfolding running
match-best_example =
    match-best sorting regexps upper sample_routes sample_router "GET" "/api/users/7" users_route
      sample_built get-IsToken sample_tokens refl
