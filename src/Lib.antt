-- ===== src/Lib.antt =====
-- go-gateway: an API gateway in Go. A configuration is validated and made into a runtime, that is a
-- router and a plugin chain for each route; a request is matched to a route, goes through the chain
-- of the route, and an instance of the service of the route is picked by a load balancer under
-- circuit breakers and health checks. A reload applies a new configuration to a running gateway.
--
-- The parts, and the files that model them:
-- - CircuitBreaker.antt: pkg/circuitbreaker/circuitbreaker.go. Allow, RecordSuccess, RecordFailure are
--   allow, record_success, record_failure on a record; a run is a list of calls in the order of the
--   mutex, each with its reading of the clock.
-- - Registry.antt, Registry/Store.antt, Registry/HealthCheck.antt: internal/registry. Instances and
--   their counters; the registry and the running health checks as maps of pointers into a store of
--   entries, since a reload depends on which entry is shared; the verdict on one response.
-- - LoadBalancer.antt: internal/loadbalancer (roundrobin.go, random.go). The skipper may change a
--   state, as the proxy's does; the counter wraps around at 2^64.
-- - Config.antt, Validator.antt: internal/config (config.go, validator.go). Problems are values.
-- - Router.antt: internal/router/router.go. New builds the router, Match is match_request.
-- - Plugin.antt: internal/plugin (plugin.go, chain.go, registry.go). A plugin is a function on the
--   response writer and the request; Build makes the chain of a route.
-- - Runtime.antt: internal/runtime. Build joins the router with the chains, apply_service_diff and
--   apply_reload are the reloader's methods.
-- - Proxy.antt, Proxy/Headers.antt, Proxy/Transport.antt: internal/proxy (proxy.go, headers.go,
--   transport.go). ProxyRequest is proxy_request: at most maxRetries + 1 rounds, each of which meets
--   an environment given as an argument; isIdempotentRequest gives the argument that allows retries.
-- - RateLimit.antt: pkg/ratelimit/redis.go and what internal/plugin/builtin/ratelimit.go does with a
--   verdict. RateLimit/Window.antt is the Lua script of redis.go.
-- - RateLimiting.antt: internal/plugin/builtin/ratelimit.go. RateLimiting/Factory.antt is
--   pkg/ratelimit/factory.go with pkg/ratelimit/redis_client.go. The limiter of a plugin is AnyLimiter, and ExecuteRequest is
--   execute_rate_limit.
-- - TokenBucket.antt: pkg/ratelimit/tokenbucket.go. The store is a function of the key.
-- - External.antt, External/Client.antt, External/Execute.antt, External/Load.antt:
--   internal/plugin/external (client.go, loader.go, healthchecker.go) with the types of
--   sdk/plugin/v1/contract.go. What is sent to the sidecar is part of the result of a call.
-- - Jwt.antt: internal/plugin/builtin/jwt.go. ExecuteRequest is authenticate.
-- - Middleware.antt: internal/middleware/context.go.
-- - SmartBalancer.antt: internal/loadbalancer/smart. A call of Next is next with its random draws.
-- - Loader.antt: internal/config/loader.go and internal/admin/reload.go, with the file, the timer of the
--   watcher and the channels of the subscribers as one state that events change.
-- - Server.antt: the load shedder of internal/server/server.go.
-- - Cors.antt: internal/plugin/builtin/cors.go.
-- - Handler.antt: internal/server/handler.go. ServeHTTP runs the chain that the runtime has for the
--   route that the router returns.
-- - Go.antt: what the code takes from Go's library, as records of operations with the documented
--   laws: sort.Slice and regexp. strings.ToUpper is a function argument. Go/Float.antt has the operations
--   of float64, and Go/Value.antt the type assertions of any. For the theorems at
--   concrete inputs, Go/Sample.antt has functions that meet these laws, and Go/Whole.antt has whole
--   numbers in place of float64.
-- - Prelude.antt: lists, maps, integers and tests that the parts share.
-- - The Examples modules apply each theorem at a concrete input.
--
-- Integers: an int is an integer whose increment is written with its bounds (inc_int); a uint64 is a
-- natural number with its wrap-around written out; a duration is a number of nanoseconds. No
-- definition takes fuel: a loop of the source is over a list, or has a fixed number of rounds.
--
-- Not modelled: the logger plugin, the listing of plugins, metrics, logging, the listener of the server
-- and the server of the plugin SDK are I/O. One call of an HTTP client is one answer: the redirects
-- that net/http follows within it are not modelled. Goroutines are modelled by the state they share, one step for each critical section.
mod Prelude
pub mod CircuitBreaker
pub mod Registry
pub mod LoadBalancer
pub mod Config
pub mod Go
pub mod Router
pub mod Validator
pub mod Plugin
pub mod Runtime
pub mod Proxy
pub mod RateLimit
pub mod RateLimiting
pub mod Handler
pub mod Cors
pub mod TokenBucket
pub mod External
pub mod Jwt
pub mod Loader
pub mod Middleware
pub mod SmartBalancer
pub mod Server
