-- ===== src/Runtime/Examples.antt =====
-- The theorems on the runtime at a concrete configuration.
use go_gateway.Prelude.{
  ℕ, pos, false, sym, subst, All-In, ◌≡◌, ◌≢◌, refl, [], ◌∷◌, String, none, some, In, All, lookup,
  arith, eq_iff,
}
use go_gateway.Config.{Config, ServiceConfig, RouteConfig, PluginRef}
use go_gateway.Go.Sample.{sorting, regexps}
use go_gateway.Router.{Route, Router, match_prefix}
use go_gateway.Router.Index.{IsToken}
use go_gateway.Router.Build.{routes_of}
use go_gateway.Router.Spec.{TokenMethods}
use go_gateway.Router
use go_gateway.Validator.{
  validate, check_services, check_plugins, check_routes, service_problems, route_problems,
  check_refs, default_matches,
}
use go_gateway.Registry.Store.{Pointer}
use go_gateway.Plugin
use go_gateway.Plugin.{Plugin, passed}
use go_gateway.Plugin.Order.{MakesOf}
use go_gateway.Runtime.{
  GatewayRuntime, built, build_chains, Services, new_reloader, round_robin, entry_of,
  apply_service_diff, build,
}
use go_gateway.Runtime.Chains.{Guarded, matched-Guarded}
use go_gateway.Runtime.Valid.{AllMakeable, validated_builds}
use go_gateway.Runtime.Rounds.{names_of}
use go_gateway.Runtime.Reload.{diff-strands_check}
use go_gateway.Runtime.Versions.{Versions, builds_onto, reload_all, reload_all-Versions}

abbrev idle : Plugin ℕ
idle = record {
  name = "idle";
  execute_request = λ w. (passed, w);
  execute_response = λ w. (passed, w);
  close = none;
}

abbrev idle_registry : Plugin.Registry ℕ ℕ
idle_registry = ("builtin.idle", λ c. some idle) ∷ []

abbrev users : ServiceConfig
users = record {
  name = "users";
  lb_strategy = "random";
  health_check = record {
    path = "/health";
    interval = pos 0;
    timeout = pos 0;
    failure_threshold = pos 0;
    success_threshold = pos 0;
  };
  instances = record { id = "u1"; address = "10.0.0.1:80"; weight = pos 1 } ∷ [];
}

abbrev idle_ref : PluginRef ℕ
idle_ref = record { name = "idle"; order = pos 1; config = 0 }

abbrev api_config : RouteConfig ℕ
api_config = record {
  id = "api";
  methods = "GET" ∷ [];
  path = "/api";
  match_type = "";
  strip_prefix = false;
  service = "users";
  timeout = pos 0;
  max_body_bytes = pos 0;
  plugins = idle_ref ∷ [];
}

abbrev sample_config : Config ℕ
sample_config = record {
  gateway = record { port = pos 8080; max_concurrent = pos 0 };
  services = users ∷ [];
  routes = api_config ∷ [];
  plugins = record { name = "idle"; type = "builtin.idle" } ∷ [];
}

abbrev same_case : String → String
same_case m = m

abbrev api_route : Route String ℕ
api_route = record {
  id = "api";
  methods = ("GET", tt) ∷ [];
  match_type = match_prefix;
  path = "/api";
  pattern = none;
  strip_prefix = false;
  service_name = "users";
  timeout = pos 0;
  max_body_bytes = pos 0;
  plugins = idle_ref ∷ [];
  path_len = 4;
}

abbrev sample_runtime : GatewayRuntime String ℕ ℕ
sample_runtime = record {
  version = 1;
  router = record { exact = []; prefix = api_route ∷ []; regexes = [] };
  plugin_chains = ("api", idle ∷ []) ∷ [];
}

sample_builds : build sorting regexps same_case sample_config idle_registry 1 ≡ built sample_runtime
unfolding build build_chains sorting Router.new Router.new_from Router.build_route
    Router.match_type_of Router.method_set Router.add_route Plugin.build Plugin.build_each
    Plugin.build_one Plugin.name_to_type
sample_builds = refl

get-IsToken : IsToken "GET"
get-IsToken = (ground (arith, eq_iff "GET" ""), omega arith)

api-TokenMethods : TokenMethods (routes_of sorting regexps same_case sample_config.routes)
unfolding Router.build_route Router.match_type_of Router.method_set sorting
api-TokenMethods x i m j =
    All-In (λ p. IsToken p.0) x.methods
      (All-In (λ y. All (λ p. IsToken p.0) y.methods)
        (routes_of sorting regexps same_case sample_config.routes) (((get-IsToken, tt)), tt) i)
      j

matched-Guarded_example :
    Guarded sorting regexps same_case idle_registry sample_config sample_runtime api_route
unfolding Router.match_request Router.match_key Router.method_allowed
matched-Guarded_example =
    matched-Guarded sorting regexps same_case idle_registry sample_config 1 sample_runtime "GET"
      "/api/7" api_route (tt, tt) sample_builds get-IsToken api-TokenMethods refl

sample_validates : (validate regexps.compile sample_config).1 ≡ []
unfolding validate check_services check_plugins check_routes service_problems route_problems
    check_refs default_matches
sample_validates = refl

idle-makes : AllMakeable sorting idle_registry sample_config api_config
idle-makes ref (In.here e) =
    subst (λ r. (p : Plugin ℕ) × MakesOf idle_registry sample_config.plugins r p) (sym e)
      (
        idle,
        record {
          type_name = "builtin.idle";
          defined = refl;
          factory = λ c. some idle;
          registered = refl;
          made = refl;
        },
      )
idle-makes ref (In.there i) = elim i [ ]

idle-AllMakeable : All (AllMakeable sorting idle_registry sample_config) sample_config.routes
idle-AllMakeable = (idle-makes, tt)

validated_builds_example :
    (rt : GatewayRuntime String ℕ ℕ) × (build sorting regexps same_case
        (validate regexps.compile sample_config).0
        idle_registry
        7
      ≡ built rt)
    × (rt.version ≡ 7)
validated_builds_example =
    validated_builds sorting regexps same_case idle_registry sample_config 7 sample_validates
      idle-AllMakeable

-- Two services are served; the check of the first is running.
abbrev sample_services : Services
sample_services = record {
  store = record {
    entries = entry_of users ∷ entry_of (record users { name = "orders" }) ∷ [];
    services = ("users", 0) ∷ ("orders", 1) ∷ [];
    cancels = ("users", 0) ∷ [];
  };
  lbs = ("users", round_robin 3) ∷ [];
}

diff-strands_check_example :
    let t = (apply_service_diff sample_config sample_services).store in
    (lookup "users" t.cancels ≡ some 0)
    × (p : Pointer) × (lookup "users" t.services ≡ some p)
    × (p ≢ 0)
diff-strands_check_example =
    diff-strands_check sample_config sample_services users 0 (tt, tt) (In.here refl) refl
      (omega arith)

orders-removed : All (λ j. "orders" ≢ j) (names_of sample_config.services)
orders-removed = ((ground (arith, eq_iff "orders" "users")), tt)

reload_all-Versions_example :
    let after =
      reload_all sorting regexps same_case idle_registry
        (sample_config ∷ sample_config ∷ [])
        (new_reloader sample_services sample_runtime) in
    Versions sample_runtime after
    × (after.version_count ≡ 2)
    × (after.current ∷ after.retired
        ≡ builds_onto sorting regexps same_case idle_registry 0
            (sample_config ∷ sample_config ∷ [])
            (sample_runtime ∷ []))
reload_all-Versions_example =
    reload_all-Versions sorting regexps same_case idle_registry sample_services sample_runtime
      (sample_config ∷ sample_config ∷ []) (omega arith)
