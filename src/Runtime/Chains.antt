-- ===== src/Runtime/Chains.antt =====
-- The plugin chains of a runtime against its router and its configuration.
use mathlib.Core.List.{Permᴰ}
use go_gateway.Prelude.{
  ℕ, ◌≡◌, ◌≢◌, refl, sym, ◌∙◌, ap, List, [], ◌∷◌, map, String, some, lookup, insert, lookup-insert,
  arith, eq_iff, All, In, InOrder, Option-cases, inl, inr,
}
use go_gateway.Config.{Config, RouteConfig, PluginRef}
use go_gateway.Go.{Sorting, Regexps}
use go_gateway.Router.{Route, Router, new, build_route, match_type_of, match_request, earlier}
use go_gateway.Router.Index.{IsToken}
use go_gateway.Router.Build.{routes_of}
use go_gateway.Router.Spec.{TokenMethods}
use go_gateway.Router.Match.{match-best}
use go_gateway.Validator.Names.{Distinct}
use go_gateway.Plugin
use go_gateway.Plugin.{Plugin, ok, err, Result}
use go_gateway.Plugin.Order.{MakesAll, build-ascending, Result-cases}
use go_gateway.Runtime.{Chains, GatewayRuntime, Built, built, failed, ◌>=>◌, build_chains, build}

abbrev of_built {ℓ} : {A : Type ℓ} → A → Built A → A
of_built a (built b) = b
of_built a (failed e) = a

pub built_inj {ℓ} : {A : Type ℓ} {a b : A} → Path (Built A) (built a) (built b) → a ≡ b
built_inj {A} {a} e = ap (of_built a) e

module _ (sorting : Sorting) {Q V : Type 0} (reg : Plugin.Registry Q V) (cfg : Config V) where
  abbrev chain_for : RouteConfig V → Result (List (Plugin Q))
  chain_for rc = Plugin.build sorting reg cfg.plugins (sorting.sort_slice earlier rc.plugins)

  -- A chain for each route, and the chains of other ids as before.
  build_chains-other :
      (id : String) (rcs : List (RouteConfig V)) (chains out : Chains Q)
      → All (λ j. id ≢ j) (map (λ r. r.id) rcs)
      → build_chains sorting reg cfg rcs chains ≡ built out
      → lookup id out ≡ lookup id chains
  unfolding build_chains
  build_chains-other id [] chains out _ e = ap (lookup id) (sym (built_inj e))
  build_chains-other id (rc ∷ rcs) chains out (ne, nes) e = elim (Result-cases (chain_for rc)) [
    | inl (why, n) ↦ absurd (ground (arith, rw n at e))
    | inr (ps, made) ↦
        build_chains-other id rcs (insert rc.id ps chains) out nes (rw made at e)
        ∙ ground (arith, lookup-insert rc.id id ps chains, eq_iff rc.id id)
  ]

  build_chains-In :
      (rc : RouteConfig V) (rcs : List (RouteConfig V)) (chains out : Chains Q)
      → Distinct (map (λ r. r.id) rcs)
      → In rc rcs
      → build_chains sorting reg cfg rcs chains ≡ built out
      → (ps : List (Plugin Q)) × (lookup rc.id out ≡ some ps) × (chain_for rc ≡ ok ps)
  unfolding build_chains
  build_chains-In rc [] chains out _ m e = elim m [ ]
  build_chains-In rc (r ∷ rcs) chains out (others, distinct) m e =
      elim (Result-cases (chain_for r)) [
        | inl (why, n) ↦ absurd (ground (arith, rw n at e))
        | inr (ps, made) ↦
            found m ps made (rw made at e)
              (λ i. build_chains-In rc rcs _ out distinct i (rw made at e))
      ]
    where
      found :
          In rc (r ∷ rcs)
          → (ps : List (Plugin Q)) → chain_for r ≡ ok ps
          → build_chains sorting reg cfg rcs (insert r.id ps chains) ≡ built out
          → (In rc rcs
              → (qs : List (Plugin Q)) × (lookup rc.id out ≡ some qs) × (chain_for rc ≡ ok qs))
          → (qs : List (Plugin Q)) × (lookup rc.id out ≡ some qs) × (chain_for rc ≡ ok qs)
      found (In.here same) ps made e' rest = (
        ps,
        ap (λ q. lookup q.id out) same
            ∙ build_chains-other r.id rcs (insert r.id ps chains) out others e'
            ∙ ground (arith, lookup-insert r.id r.id ps chains, eq_iff r.id r.id),
        ap chain_for same ∙ made,
      )
      found (In.there m') ps made e' rest = rest m'

module _ (sorting : Sorting) (regexps : Regexps) (to_upper : String → String) {V : Type 0} where
  build_route-id :
      (rc : RouteConfig V) (x : Route regexps.Regexp V)
      → build_route sorting regexps to_upper rc ≡ some x
      → rc.id ≡ x.id
  unfolding build_route match_type_of
  build_route-id rc x e = ground (arith, Option-cases (regexps.compile rc.path))

  routes_of-In :
      (rcs : List (RouteConfig V)) (x : Route regexps.Regexp V)
      → In x (routes_of sorting regexps to_upper rcs)
      → (rc : RouteConfig V) × In rc rcs × (build_route sorting regexps to_upper rc ≡ some x)
  routes_of-In [] x m = elim m [ ]
  routes_of-In (rc ∷ rcs) x m = elim (Option-cases (build_route sorting regexps to_upper rc)) [
    | inl n ↦ (let (c, i, e) = routes_of-In rcs x (rw (n, routes_of) at m) in (c, In.there i, e))
    | inr (y, made) ↦ found y made (rw (made, routes_of) at m) (routes_of-In rcs x)
  ]
    where
      found :
          (y : Route regexps.Regexp V)
          → build_route sorting regexps to_upper rc ≡ some y
          → In x (y ∷ routes_of sorting regexps to_upper rcs)
          → (In x (routes_of sorting regexps to_upper rcs)
              → (c : RouteConfig V) × In c rcs × (build_route sorting regexps to_upper c ≡ some x))
          → (c : RouteConfig V) × In c (rc ∷ rcs)
            × (build_route sorting regexps to_upper c ≡ some x)
      found y made (In.here same) rest = (rc, In.here refl, made ∙ ap some (sym same))
      found y made (In.there m') rest = let (c, i, e) = rest m' in (c, In.there i, e)

module _ (sorting : Sorting) (regexps : Regexps) (to_upper : String → String) {Q V : Type 0}
    (reg : Plugin.Registry Q V) (cfg : Config V) where
  -- The chain that a runtime runs for a route: its plugins are made from the references of a route of
  -- the configuration, each once, in ascending order.
  pub record Guarded (rt : GatewayRuntime regexps.Regexp Q V) (x : Route regexps.Regexp V)
      : Type 0 where
    pub route_config : RouteConfig V
    pub configured : In route_config cfg.routes
    pub built_from : build_route sorting regexps to_upper route_config ≡ some x
    pub chain : List (Plugin Q)
    pub held : lookup x.id rt.plugin_chains ≡ some chain
    pub refs : List (PluginRef V)
    pub each_once : Permᴰ refs route_config.plugins
    pub ascending : InOrder earlier refs
    pub makes : MakesAll reg cfg.plugins refs chain

  build-parts :
      (version : ℕ) (rt : GatewayRuntime regexps.Regexp Q V)
      → build sorting regexps to_upper cfg reg version ≡ built rt
      → (new sorting regexps to_upper cfg.routes ≡ some rt.router)
        × (build_chains sorting reg cfg cfg.routes [] ≡ built rt.plugin_chains)
  unfolding build
  build-parts version rt e = elim (Option-cases (new sorting regexps to_upper cfg.routes)) [
    | inl n ↦ absurd (ground (arith, rw n at e))
    | inr (r, n) ↦
        (let e₁ = rw n at e in chains_of r n (build_chains sorting reg cfg cfg.routes []) e₁)
  ]
    where
      chains_of :
          (r : Router regexps.Regexp V)
          → new sorting regexps to_upper cfg.routes ≡ some r
          → (b : Built (Chains Q))
          → Path
              (Built (GatewayRuntime regexps.Regexp Q V))
              (b >=> λ chains.
                built (record { version = version; router = r; plugin_chains = chains }))
              (built rt)
          → (new sorting regexps to_upper cfg.routes ≡ some rt.router)
            × (b ≡ built rt.plugin_chains)
      chains_of r n (failed why) e₁ = absurd (ground (arith, e₁))
      chains_of r n (built chains) e₁ =
          let same = built_inj e₁ in
          (n ∙ ap (λ t. some t.router) same, ap (λ t. built t.plugin_chains) same)

-- No request gets around the plugins of its route: when `Build` succeeds for a configuration whose
-- routes have distinct ids, each route that the router returns for a request whose method is a token
-- (the methods of the routes being tokens too) has a chain under its id, and the chain consists of
-- the plugins that the references of that same route of the configuration stand for, each reference
-- once, none before one of lower order.
pub matched-Guarded :
    (sorting : Sorting) (regexps : Regexps) (to_upper : String → String) {Q V : Type 0}
    (reg : Plugin.Registry Q V) (cfg : Config V) (version : ℕ)
    (rt : GatewayRuntime regexps.Regexp Q V) (method path : String) (x : Route regexps.Regexp V)
    → Distinct (map (λ r. r.id) cfg.routes)
    → build sorting regexps to_upper cfg reg version ≡ built rt
    → IsToken method
    → TokenMethods (routes_of sorting regexps to_upper cfg.routes)
    → match_request regexps method path rt.router ≡ some x
    → Guarded sorting regexps to_upper reg cfg rt x
matched-Guarded sorting regexps to_upper {Q} {V} reg cfg version rt method path x distinct e token
      tokens m =
    let (routes, chains) = build-parts sorting regexps to_upper reg cfg version rt e in
    let (x_in, _, _) =
      match-best sorting regexps to_upper cfg.routes rt.router method path x routes token tokens
        m in
    let (rc, rc_in, made) = routes_of-In sorting regexps to_upper cfg.routes x x_in in
    let (ps, held, chain) =
      build_chains-In sorting reg cfg rc cfg.routes [] rt.plugin_chains distinct rc_in chains in
    let (refs, perm, order, makes) =
      build-ascending sorting reg cfg.plugins (sorting.sort_slice earlier rc.plugins) ps chain in
    record {
      route_config = rc;
      configured = rc_in;
      built_from = made;
      chain = ps;
      held =
          ap (λ k. lookup k rt.plugin_chains)
            (sym (build_route-id sorting regexps to_upper rc x made))
          ∙ held;
      refs = refs;
      each_once = Permᴰ.trans perm (sorting.sort_slice-perm (PluginRef V) earlier rc.plugins);
      ascending = order;
      makes = makes;
    }
