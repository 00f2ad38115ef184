-- ===== src/Handler/Pipeline.antt =====
-- What the pipeline lets through to the plugins.
use go_gateway.Prelude.{
  ℕ, ℤ, pos, ltb_ℤ, ◌<ℤ◌, ◌≤ℤ◌, ◌↔◌, In, ◌∷◌, arith, ◌≡◌, refl, ◌∙◌, ap, true, false, List, map,
  String, Option, some, lookup, Bool-cases, inl, inr,
}
use go_gateway.Go.{Sorting, Regexps}
use go_gateway.Config.{Config}
use go_gateway.Plugin
use go_gateway.Plugin.{World, Plugin, execute_request, execute_response}
use go_gateway.Router.{Route, match_request}
use go_gateway.Router.Index.{IsToken}
use go_gateway.Router.Build.{routes_of}
use go_gateway.Router.Spec.{TokenMethods}
use go_gateway.Validator.Names.{Distinct}
use go_gateway.Runtime.{GatewayRuntime, built, build}
use go_gateway.Runtime.Chains.{Guarded, matched-Guarded}
use go_gateway.Proxy.Headers.{Header, strip_inbound}
use go_gateway.Proxy.Forwarded.{hop_by_hop_names, NoneOf, strip_inbound_iff}
use go_gateway.Handler.{Request, run_chain, with_route, strip_request, matched, serve_http}

-- The request that the plugins of a route see: stripped, with the id of the route, and with the body
-- limit of the route if it has one.

abbrev seen : {R V : Type 0} → Route R V → World Request → World Request
seen route w =
    let w₁ = strip_request w in
    record w₁ {
      request = record w₁.request {
        route_id = route.id;
        limit = elim (ltb_ℤ (pos 0) route.max_body_bytes) [
          | true ↦ some route.max_body_bytes
          | false ↦ w₁.request.limit
        ];
      };
    }

positive : (n : ℤ) → pos 0 <ℤ n → ltb_ℤ (pos 0) n ≡ true
positive n h = ground (arith, h)

not_positive : (n : ℤ) → n ≤ℤ pos 0 → ltb_ℤ (pos 0) n ≡ false
not_positive n h = ground (arith, h)

with_route-fits :
    {R V : Type 0} (chain : Option (List (Plugin Request))) (route : Route R V) (w : World Request)
    → w.request.too_large ≡ false
    → with_route chain route (strip_request w) ≡ run_chain chain (seen route w)
unfolding with_route
with_route-fits chain route w fits = elim (Bool-cases (ltb_ℤ (pos 0) route.max_body_bytes)) [
  | inl e ↦
      rw (e, fits, with_route)
        (ap
          (λ b. run_chain chain (record (strip_request w) {
            request = record (strip_request w).request {
              route_id = route.id;
              limit = some route.max_body_bytes;
              too_large = b;
            };
          }))
          fits)
  | inr e ↦ rw (e, with_route) refl
]

-- The headers of a client that no plugin sees.
abbrev pub stripped_names : List String
stripped_names =
    "X-Forwarded-For" ∷ "X-Forwarded-Host" ∷ "X-Forwarded-Proto" ∷ "X-Real-Ip" ∷ hop_by_hop_names

-- What the plugins of a route see of a request `w`: all of it, with the id of the route, with the
-- body limit of the route if it has one, and with exactly those of its headers that are not among the
-- stripped ones.
pub record Seen {R V : Type 0} (route : Route R V) (w w' : World Request) : Type 0 where
  pub same_response : w'.response ≡ w.response
  pub same_method : w'.request.method ≡ w.request.method
  pub same_path : w'.request.path ≡ w.request.path
  pub matched_id : w'.request.route_id ≡ route.id
  pub limited : pos 0 <ℤ route.max_body_bytes → w'.request.limit ≡ some route.max_body_bytes
  pub unlimited : route.max_body_bytes ≤ℤ pos 0 → w'.request.limit ≡ w.request.limit
  pub header_iff :
      (k v : String)
      → In (k, v) w'.request.headers ↔ (In (k, v) w.request.headers × NoneOf stripped_names k)

stripped_iff :
    (h : Header) (k v : String)
    → In (k, v) (strip_inbound h) ↔ (In (k, v) h × NoneOf stripped_names k)
stripped_iff h k v =
    let (to, from) = strip_inbound_iff h k v in
    (
      λ m.
          (let (held, hop, not_for, not_host, not_proto, not_real) = to m in
            (held, (not_for, (not_host, (not_proto, (not_real, hop)))))),
      λ (held, (not_for, (not_host, (not_proto, (not_real, hop))))).
          from (held, hop, not_for, not_host, not_proto, not_real),
    )

seen-Seen : {R V : Type 0} (route : Route R V) (w : World Request) → Seen route w (seen route w)
seen-Seen route w = record {
  same_response = refl;
  same_method = refl;
  same_path = refl;
  matched_id = refl;
  limited = λ h. rw (positive route.max_body_bytes h, seen) refl;
  unlimited = λ h. rw (not_positive route.max_body_bytes h, seen) refl;
  header_iff = stripped_iff w.request.headers;
}

-- A request whose method is a token and whose body is not too large, to a gateway whose runtime was
-- built from a configuration with distinct route ids (the methods of its routes being tokens) and
-- matches it to a route, is answered by the plugins of that very route: the response is what its
-- chain, made of the references of that route of the configuration in ascending order, makes of the
-- request with the id and the body limit of the route, and with exactly those of its headers that are
-- none of Connection, Keep-Alive, Proxy-Authenticate, Proxy-Authorization, Te, Trailers,
-- Transfer-Encoding, Upgrade, X-Forwarded-For, X-Forwarded-Host, X-Forwarded-Proto and X-Real-Ip; the
-- response phase runs whether the chain aborted or not.
pub serve_http-Guarded :
    (sorting : Sorting) (regexps : Regexps) (to_upper : String → String) {V : Type 0}
    (reg : Plugin.Registry Request V) (cfg : Config V) (version : ℕ)
    (rt : GatewayRuntime regexps.Regexp Request V) (route : Route regexps.Regexp V)
    (w : World Request)
    → Distinct (map (λ r. r.id) cfg.routes)
    → build sorting regexps to_upper cfg reg version ≡ built rt
    → IsToken w.request.method
    → TokenMethods (routes_of sorting regexps to_upper cfg.routes)
    → match_request regexps w.request.method w.request.path rt.router ≡ some route
    → w.request.too_large ≡ false
    → (g : Guarded sorting regexps to_upper reg cfg rt route) × (w' : World Request) × Seen route w
        w'
      × (serve_http regexps rt w ≡ execute_response g.chain (execute_request g.chain w').1)
unfolding serve_http matched run_chain
serve_http-Guarded sorting regexps to_upper reg cfg version rt route w distinct e token tokens m
      fits =
    let g =
      matched-Guarded sorting regexps to_upper reg cfg version rt w.request.method w.request.path
        route distinct e token tokens m in
    (
      g,
      seen route w,
      seen-Seen route w,
      rw (m, serve_http, matched)
          (with_route-fits (lookup route.id rt.plugin_chains) route w fits
            ∙ ap (λ c. run_chain c (seen route w)) g.held),
    )
