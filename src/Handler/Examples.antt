-- ===== src/Handler/Examples.antt =====
-- The pipeline at a gateway with one route, whose chain is one plugin.
use go_gateway.Prelude.{
  ℕ, pos, false, ◌≡◌, refl, [], ◌∷◌, String, none, some, In, arith, eq_iff, subst,
}
use go_gateway.Config.{Config, RouteConfig, PluginRef}
use go_gateway.Go.Sample.{sorting, regexps}
use go_gateway.Plugin.{
  World, Response, Plugin, passed, set_header, execute_request, execute_response,
}
use go_gateway.Router
use go_gateway.Router.{Route, match_exact}
use go_gateway.Router.Index.{IsToken}
use go_gateway.Router.Build.{routes_of}
use go_gateway.Router.Spec.{TokenMethods}
use go_gateway.Runtime.{GatewayRuntime, built, build, build_chains}
use go_gateway.Runtime.Chains.{Guarded}
use go_gateway.Plugin
use go_gateway.Handler.{Request, serve_http}
use go_gateway.Handler.Pipeline.{Seen, serve_http-Guarded}

-- A plugin that tells the client the route of its request.
abbrev tag : Plugin Request
tag = record {
  name = "tag";
  execute_request =
      λ w. (passed, record w { response = set_header "X-Route" w.request.route_id w.response });
  execute_response = λ w. (passed, w);
  close = none;
}

abbrev tags : Plugin.Registry Request ℕ
tags = ("builtin.tag", λ c. some tag) ∷ []

abbrev tag_ref : PluginRef ℕ
tag_ref = record { name = "tag"; order = pos 1; config = 0 }

abbrev ping_config : RouteConfig ℕ
ping_config = record {
  id = "ping";
  methods = [];
  path = "/ping";
  match_type = "exact";
  strip_prefix = false;
  service = "users";
  timeout = pos 0;
  max_body_bytes = pos 100;
  plugins = tag_ref ∷ [];
}

abbrev one_route : Config ℕ
one_route = record {
  gateway = record { port = pos 80; max_concurrent = pos 1 };
  services = [];
  routes = ping_config ∷ [];
  plugins = record { name = "tag"; type = "builtin.tag" } ∷ [];
}

abbrev ping_route : Route String ℕ
ping_route = record {
  id = "ping";
  methods = [];
  match_type = match_exact;
  path = "/ping";
  pattern = none;
  strip_prefix = false;
  service_name = "users";
  timeout = pos 0;
  max_body_bytes = pos 100;
  plugins = tag_ref ∷ [];
  path_len = 5;
}

abbrev one_runtime : GatewayRuntime String Request ℕ
one_runtime = record {
  version = 1;
  router = record { exact = (":/ping", ping_route) ∷ []; prefix = []; regexes = [] };
  plugin_chains = ("ping", tag ∷ []) ∷ [];
}

abbrev unchanged : String → String
unchanged m = m

abbrev ping : World Request
ping = record {
  response = record { headers = []; status = none; sent = []; body = [] };
  request = record {
    method = "GET";
    path = "/ping";
    headers = ("Te", "gzip") ∷ [];
    too_large = false;
    limit = none;
    route_id = "";
  };
}

one_builds : build sorting regexps unchanged one_route tags 1 ≡ built one_runtime
unfolding build build_chains sorting Router.new Router.new_from Router.build_route
    Router.match_type_of Router.method_set Router.add_route Plugin.build Plugin.build_each
    Plugin.build_one Plugin.name_to_type
one_builds = refl

ping-IsToken : IsToken "GET"
ping-IsToken = (ground (arith, eq_iff "GET" ""), omega arith)

no_methods :
    (x : Route String ℕ) → In x (ping_route ∷ []) → (m : String) → In (m, tt) x.methods → IsToken m
no_methods x (In.here e) m j = elim (subst (λ y. In (m, tt) y.methods) e j) [ ]
no_methods x (In.there i) m j = elim i [ ]

ping-TokenMethods : TokenMethods (routes_of sorting regexps unchanged one_route.routes)
unfolding Router.build_route Router.match_type_of Router.method_set sorting
ping-TokenMethods = no_methods

serve_http-Guarded_example :
    (g : Guarded sorting regexps unchanged tags one_route one_runtime ping_route) × (w' : World
      Request)
    × Seen ping_route ping w'
    × (serve_http regexps one_runtime ping
        ≡ execute_response g.chain (execute_request g.chain w').1)
unfolding Router.match_request Router.match_key Router.method_allowed
serve_http-Guarded_example =
    serve_http-Guarded sorting regexps unchanged tags one_route 1 one_runtime ping_route ping
      (tt, tt) one_builds ping-IsToken ping-TokenMethods refl refl
