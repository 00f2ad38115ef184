-- ===== src/Handler.antt =====
-- internal/server/handler.go: the pipeline of one request. A request is its method, its path, its
-- headers and whether the probe of its body reports that it is too large; `readable` bytes are what
-- the limited reader of the body lets through. The step that proxies to the upstream is not wired in
-- `ServeHTTP` and is the identity here.
pub mod Pipeline
mod Examples
use go_gateway.Prelude.{
  ℕ, ◌+◌, ℤ, pos, ltb_ℤ, ltb, leb, Bool, true, false, List, [], ◌∷◌, ◌++◌, String, Option, none,
  some, lookup, if◌then◌else◌, ◌&&◌,
}
use go_gateway.Go.{Regexps}
use go_gateway.Router
use go_gateway.Router.{Route, Router, match_request}
use go_gateway.Plugin.{World, Plugin, Response, write_header, execute_request, execute_response}
use go_gateway.Runtime.{GatewayRuntime}
use go_gateway.Proxy.Headers.{Header, strip_inbound}

pub record Request : Type 0 where
  pub method : String
  pub path : String
  pub headers : Header
  pub too_large : Bool  -- the zero-byte read of the body reports "http: request body too large"
  pub limit : Option ℤ  -- of `limitedBodyReader`
  pub route_id : String  -- of the gateway context

-- `http.Error`
unfoldable pub http_error : ℕ → String → World Request → World Request
unfolding write_header
http_error code message w =
    let r = write_header code w.response in
    record w { response = record r { body = r.body ++ (code, message) ∷ [] } }

-- The chain of a route: none is a nil chain.
unfoldable pub run_chain : Option (List (Plugin Request)) → World Request → World Request
run_chain none w = w
run_chain (some ps) w = execute_response ps (execute_request ps w).1

-- Body limit, then the chain.
unfoldable pub with_route :
    {R V : Type 0} → Option (List (Plugin Request)) → Route R V → World Request → World Request
unfolding run_chain http_error
with_route chain route w =
    let w₁ = record w { request = record w.request { route_id = route.id } } in
    elim (ltb_ℤ (pos 0) route.max_body_bytes) [
      | false ↦ run_chain chain w₁
      | true ↦ elim w₁.request.too_large [
        | true ↦ http_error 413 "request body too large" w₁
        | false ↦
            run_chain chain
              (record w₁ { request = record w₁.request { limit = some route.max_body_bytes } })
      ]
    ]

abbrev pub strip_request : World Request → World Request
strip_request w = record w {
  request = record w.request { headers = strip_inbound w.request.headers };
}

abbrev pub chain_of :
    {R V : Type 0}
    → GatewayRuntime R Request V
    → Option (Route R V)
    → Option (List (Plugin Request))
chain_of rt none = none
chain_of rt (some route) = lookup route.id rt.plugin_chains

-- What follows the match.
unfoldable pub matched :
    {R V : Type 0} → GatewayRuntime R Request V → Option (Route R V) → World Request → World Request
unfolding with_route
matched rt none w = http_error 404 "not found" w
matched rt (some route) w = with_route (lookup route.id rt.plugin_chains) route w

-- `ServeHTTP`, with the runtime that the holder holds.
unfoldable pub serve_http :
    (regexps : Regexps) {V : Type 0}
    → GatewayRuntime regexps.Regexp Request V
    → World Request
    → World Request
unfolding matched
serve_http regexps rt w =
    let w₁ = strip_request w in
    matched rt (match_request regexps w₁.request.method w₁.request.path rt.router) w₁

-- `limitedBodyReader`: the bytes read so far, and a read that returns `n` bytes.
pub record LimitedBodyReader : Type 0 where
  pub limit : ℕ
  pub read : ℕ

unfoldable pub read_body : ℕ → LimitedBodyReader → Option ℕ × LimitedBodyReader
read_body n l = if leb l.limit l.read then (none, l) else (some n, record l { read = l.read + n })
