-- ===== src/Validator.antt =====
-- internal/config/validator.go: the validation of a configuration. `Validate` writes two defaults
-- into the configuration and collects every problem. A problem is a value that holds what its message
-- names; the texts of the messages are left out. `regexp.Compile` is a parameter.
pub mod Names
pub mod Services
pub mod Routes
pub mod Sound
mod Examples
use go_gateway.Prelude.{
  ℕ, ◌+◌, ℤ, pos, eqb_ℤ, ltb, Bool, true, false, List, [], ◌∷◌, ◌++◌, String, Option, none, some,
  Map, lookup, insert, is_nil, ◌==◌, if◌then◌else◌, ◌&&◌, ◌||◌, not,
}
use go_gateway.Config.{ServiceConfig, PluginRef, PluginDef, RouteConfig, GatewayConfig, Config}

pub data Problem : Type 0 where
  port_required : Problem
  service_name_required : (index : ℕ) → Problem
  duplicate_service : (name : String) → Problem
  unsupported_lb_strategy : (name strategy : String) → Problem
  no_instance : (name : String) → Problem
  plugin_name_required : (index : ℕ) → Problem
  route_id_required : (index : ℕ) → Problem
  duplicate_route : (id : String) → Problem
  path_required : (index : ℕ) (id : String) → Problem
  invalid_match_type : (index : ℕ) (id match_type : String) → Problem
  invalid_regex : (index : ℕ) (id : String) → Problem
  unknown_service : (index : ℕ) (id service : String) → Problem
  empty_plugin_ref : (index : ℕ) (id : String) → Problem
  unknown_plugin : (index : ℕ) (id name : String) → Problem
  same_order : (index : ℕ) (id first second : String) (order : ℤ) → Problem
  too_many_regexes : (count : ℕ) → Problem

abbrev pub Names : Type 0
Names = Map (Unit {0})

abbrev pub has {ℓ} : {V : Type ℓ} → String → Map V → Bool
has k m = elim (lookup k m) [ none ↦ false | some v ↦ true ]

-- `if test { errs = append(errs, p) }`
abbrev pub when : Bool → Problem → List Problem
when b p = if b then p ∷ [] else []

-- `validLB`
abbrev pub valid_lb : String → Bool
valid_lb s = s == "round-robin" || s == "random" || s == "smart" || s == ""

-- What the loop over the services adds for one with a name.
unfoldable pub service_problems : Names → ServiceConfig → List Problem
service_problems seen svc =
    when (has svc.name seen) (duplicate_service svc.name)
    ++ (when (not (valid_lb svc.lb_strategy)) (unsupported_lb_strategy svc.name svc.lb_strategy)
        ++ when (is_nil svc.instances) (no_instance svc.name))

-- The loop over the services, from an index and the names seen so far.
unfoldable pub check_services : ℕ → Names → List ServiceConfig → List Problem × Names
unfolding service_problems
check_services i seen [] = ([], seen)
check_services i seen (svc ∷ svcs) =
    let named = svc.name == "" in
    let (rest, names) =
      check_services (i + 1) (if named then seen else insert svc.name tt seen) svcs in
    (if named then service_name_required i ∷ rest else service_problems seen svc ++ rest, names)

-- The loop over the plugins.
unfoldable pub check_plugins : ℕ → Names → List PluginDef → List Problem × Names
check_plugins i seen [] = ([], seen)
check_plugins i seen (p ∷ ps) =
    let unnamed = p.name == "" in
    let (rest, names) =
      check_plugins (i + 1) (if unnamed then seen else insert p.name tt seen) ps in
    (if unnamed then plugin_name_required i ∷ rest else rest, names)

-- `ordersSeen[order]`
abbrev pub order_seen : ℤ → List (ℤ × String) → Option String
order_seen o [] = none
order_seen o ((p, name) ∷ m) = if eqb_ℤ p o then some name else order_seen o m

abbrev pub clash : ℕ → String → ℤ → String → Option String → List Problem
clash i id order name none = []
clash i id order name (some first) = same_order i id first name order ∷ []

-- The loop over the plugin references of a route. `ordersSeen[pr.Order] = pr.Name` overwrites: the
-- latest pair stands first.
unfoldable pub check_refs :
    {V : Type 0} → ℕ → String → Names → List (ℤ × String) → List (PluginRef V) → List Problem
check_refs i id known seen [] = []
check_refs i id known seen (pr ∷ prs) =
    let unnamed = pr.name == "" in
    let rest = check_refs i id known (if unnamed then seen else (pr.order, pr.name) ∷ seen) prs in
    if unnamed
    then empty_plugin_ref i id ∷ rest
    else when (not (has pr.name known)) (unknown_plugin i id pr.name)
      ++ (clash i id pr.order pr.name (order_seen pr.order seen) ++ rest)

-- `validMatch`
abbrev pub valid_match : String → Bool
valid_match s = s == "exact" || s == "prefix" || s == "regex"

-- The id of a route, and the ids seen after it.
abbrev pub id_problems : ℕ → Names → String → List Problem
id_problems i seen id =
    if id == "" then route_id_required i ∷ [] else when (has id seen) (duplicate_route id)

abbrev pub ids_after : Names → String → Names
ids_after seen id = if id == "" || has id seen then seen else insert id tt seen

abbrev pub fails {ℓ} : {R : Type ℓ} → Option R → Bool
fails none = true
fails (some r) = false

-- `cfg.Routes[i].MatchType = "prefix"` where it is empty.
unfoldable pub default_matches : {V : Type 0} → List (RouteConfig V) → List (RouteConfig V)
default_matches [] = []
default_matches (r ∷ rs) =
    (if r.match_type == "" then record r { match_type = "prefix" } else r) ∷ default_matches rs

abbrev pub max_regex_routes : ℕ
max_regex_routes = 20

module _ {R V : Type 0} (compile : String → Option R) where
  -- What the loop over the routes adds for one route.
  unfoldable pub route_problems : ℕ → Names → Names → Names → RouteConfig V → List Problem
  unfolding check_refs
  route_problems i services plugins seen r =
      id_problems i seen r.id
      ++ (when (r.path == "") (path_required i r.id)
          ++ (when (not (r.match_type == "") && not (valid_match r.match_type))
                (invalid_match_type i r.id r.match_type)
              ++ (when (r.match_type == "regex" && fails (compile r.path)) (invalid_regex i r.id)
                  ++ (when (not (has r.service services)) (unknown_service i r.id r.service)
                      ++ check_refs i r.id plugins [] r.plugins))))

  -- The loop over the routes: the problems, and the regex routes counted.
  unfoldable pub check_routes : ℕ → Names → Names → Names → List (RouteConfig V) → List Problem × ℕ
  unfolding route_problems
  check_routes i services plugins seen [] = ([], 0)
  check_routes i services plugins seen (r ∷ rs) =
      let (rest, count) = check_routes (i + 1) services plugins (ids_after seen r.id) rs in
      (
        route_problems i services plugins seen r ++ rest,
        (if r.match_type == "regex" then count + 1 else count),
      )

  -- `Validate`: the configuration after it, and the problems; the result is nil if there are none.
  unfoldable pub validate : Config V → Config V × List Problem
  unfolding check_services check_plugins check_routes default_matches
  validate cfg =
      let (service_errs, services) = check_services 0 [] cfg.services in
      let (plugin_errs, plugins) = check_plugins 0 [] cfg.plugins in
      let (route_errs, regex_count) = check_routes 0 services plugins [] cfg.routes in
      (
        record cfg {
          gateway =
              if eqb_ℤ cfg.gateway.max_concurrent (pos 0)
              then record cfg.gateway { max_concurrent = pos 1000 }
              else cfg.gateway;
          routes = default_matches cfg.routes;
        },
        when (eqb_ℤ cfg.gateway.port (pos 0)) port_required
            ++ (service_errs
                ++ (plugin_errs
                    ++ (route_errs
                        ++ when (ltb max_regex_routes regex_count)
                            (too_many_regexes regex_count)))),
      )
