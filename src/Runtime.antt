-- ===== src/Runtime.antt =====
-- internal/runtime: `Build` makes the router and the plugin chains of a configuration, the holder
-- keeps the current runtime, and the reloader applies a new configuration to the services and then
-- to the runtime. Metrics, logging and the drain window before a runtime is closed are left out: a
-- replaced runtime is added to `retired`.
pub mod Chains
pub mod Valid
pub mod Rounds
pub mod Reload
pub mod Versions
mod Examples
use go_gateway.Prelude.{
  ℕ, ◌+◌, Bool, true, false, List, [], ◌∷◌, String, Option, none, some, Map, lookup, insert, map,
  pos, ◌==◌, if◌then◌else◌,
}
use go_gateway.Config.{Config, ServiceConfig, InstanceConfig, RouteConfig, HealthCheckConfig}
use go_gateway.Go.{Sorting, Regexps}
use go_gateway.Router.{Router, new, earlier}
use go_gateway.Registry.{ServiceEntry, Instance, HealthCheckCfg, status_healthy}
use go_gateway.Registry.Store.{
  Registry, allocate, register, service_names, start_for_service, stop_for_service,
}
use go_gateway.Plugin
use go_gateway.LoadBalancer.{add_uint64}
use go_gateway.Plugin.{BuildError, Result, ok, err, ◌>>=◌}

abbrev pub Chains : Type 0 → Type 0
Chains Q = Map (List (Plugin.Plugin Q))

pub record GatewayRuntime (R Q V : Type 0) : Type 0 where
  pub version : ℕ
  pub router : Router R V
  pub plugin_chains : Chains Q

pub data RuntimeError : Type 0 where
  router_failed : RuntimeError
  chain_failed : (route_id : String) (why : BuildError) → RuntimeError

pub data Built {ℓ} (A : Type ℓ) : Type ℓ where
  built : A → Built A
  failed : RuntimeError → Built A

infixl 5 ◌>=>◌
abbrev ◌>=>◌ {ℓ κ} : {A : Type ℓ} {B : Type κ} → Built A → (A → Built B) → Built B
built a >=> f = f a
failed e >=> f = failed e

abbrev of_router {ℓ} : {A : Type ℓ} → Option A → Built A
of_router none = failed router_failed
of_router (some r) = built r

abbrev of_chain {ℓ} : {A : Type ℓ} → String → Result A → Built A
of_chain id (ok ps) = built ps
of_chain id (err e) = failed (chain_failed id e)

module _ (sorting : Sorting) {Q V : Type 0} where
  -- The loop over the routes: the references are sorted here and again in `(*Registry).Build`.
  unfoldable pub build_chains :
      Plugin.Registry Q V → Config V → List (RouteConfig V) → Chains Q → Built (Chains Q)
  build_chains reg cfg [] chains = built chains
  build_chains reg cfg (route ∷ routes) chains =
      of_chain route.id
        (Plugin.build sorting reg cfg.plugins (sorting.sort_slice earlier route.plugins))
      >=> λ ps. build_chains reg cfg routes (insert route.id ps chains)

  module _ (regexps : Regexps) (to_upper : String → String) where
    -- `Build`
    unfoldable pub build :
        Config V → Plugin.Registry Q V → ℕ → Built (GatewayRuntime regexps.Regexp Q V)
    unfolding build_chains
    build cfg reg version = of_router (new sorting regexps to_upper cfg.routes) >=> λ r.
        build_chains reg cfg cfg.routes [] >=> λ chains.
        built (record { version = version; router = r; plugin_chains = chains })

-- The strategies that a reload makes; another one, such as the smart balancer, is never made by it.
pub data LoadBalancer : Type 0 where
  random : LoadBalancer
  round_robin : (counter : ℕ) → LoadBalancer
  other : LoadBalancer

pub record Services : Type 0 where
  pub store : Registry
  pub lbs : Map LoadBalancer

-- `&registry.Instance{ID: …, Address: …, Weight: …}`: the other fields are zero.
abbrev pub fresh_instance : InstanceConfig → Instance
fresh_instance c = record {
  id = c.id;
  address = c.address;
  weight = c.weight;
  status = status_healthy;
  consecutive_fails = pos 0;
  consecutive_oks = pos 0;
}

abbrev pub entry_of : ServiceConfig → ServiceEntry
entry_of c = record {
  name = c.name;
  lb_strategy = c.lb_strategy;
  health_check = record {
    path = c.health_check.path;
    interval = c.health_check.interval;
    timeout = c.health_check.timeout;
    failure_threshold = c.health_check.failure_threshold;
    success_threshold = c.health_check.success_threshold;
  };
  instances = map fresh_instance c.instances;
}

-- The `switch` on the strategy.
unfoldable pub update_lb : String → String → Map LoadBalancer → Map LoadBalancer
update_lb strategy name lbs =
    if strategy == "random"
    then insert name random lbs
    else elim (lookup name lbs) [ none ↦ insert name (round_robin 0) lbs | some lb ↦ lbs ]

-- One round of the loop over the services.
unfoldable pub apply_service : ServiceConfig → Services → Services
unfolding update_lb allocate register start_for_service
apply_service c s =
    let entry = entry_of c in
    let (p, store) = allocate entry s.store in
    record {
      store = start_for_service p entry (register p entry store);
      lbs = update_lb c.lb_strategy c.name s.lbs;
    }

unfoldable pub apply_services : List ServiceConfig → Services → Services
apply_services [] s = s
apply_services (c ∷ cs) s = apply_services cs (apply_service c s)

-- `newNames[name]`
abbrev pub still_exists : String → List ServiceConfig → Bool
still_exists name [] = false
still_exists name (c ∷ cs) = if c.name == name then true else still_exists name cs

-- The loop over the names in the registry.
unfoldable pub stop_removed : List ServiceConfig → List String → Registry → Registry
unfolding stop_for_service
stop_removed cs [] r = r
stop_removed cs (name ∷ names) r =
    stop_removed cs names (if still_exists name cs then r else stop_for_service name r)

-- `applyServiceDiff`
unfoldable pub apply_service_diff : {V : Type 0} → Config V → Services → Services
unfolding apply_services stop_removed service_names
apply_service_diff cfg s =
    let s' = apply_services cfg.services s in
    record s' { store = stop_removed cfg.services (service_names s'.store) s'.store }

-- The reloader, with the runtime that the holder holds and those replaced so far.
pub record Reloader (R Q V : Type 0) : Type 0 where
  pub version_count : ℕ
  pub services : Services
  pub current : GatewayRuntime R Q V
  pub retired : List (GatewayRuntime R Q V)

-- `NewReloader`, with the runtime that the holder holds then: the reloads are counted from 0.
abbrev pub new_reloader : {R Q V : Type 0} → Services → GatewayRuntime R Q V → Reloader R Q V
new_reloader services initial = record {
  version_count = 0;
  services = services;
  current = initial;
  retired = [];
}

-- `RuntimeHolder.Swap`
abbrev pub swap : {R Q V : Type 0} → GatewayRuntime R Q V → Reloader R Q V → Reloader R Q V
swap rt rl = record rl { current = rt; retired = rl.current ∷ rl.retired }

abbrev pub finish :
    {R Q V : Type 0} → Built (GatewayRuntime R Q V) → Reloader R Q V → Reloader R Q V
finish (failed e) rl = rl
finish (built rt) rl = swap rt rl

module _ (sorting : Sorting) (regexps : Regexps) (to_upper : String → String) {Q V : Type 0}
    (reg : Plugin.Registry Q V) where
  -- `applyReload`
  unfoldable pub apply_reload : Config V → Reloader regexps.Regexp Q V → Reloader regexps.Regexp Q V
  unfolding build apply_service_diff
  apply_reload cfg rl =
      let version = add_uint64 rl.version_count in
      let rl' = record rl {
        version_count = version;
        services = apply_service_diff cfg rl.services;
      } in
      finish (build sorting regexps to_upper cfg reg version) rl'
