-- ===== src/Runtime/Valid.antt =====
-- A configuration that `Validate` accepts has a runtime.
use go_gateway.Prelude.{
  ℕ, ◌≡◌, ◌≢◌, refl, Bool, true, false, List, [], ◌∷◌, String, Option, none, some, ◌==◌, arith,
  eq_iff, All, In, In-permᴰ, Option-cases, inl, inr, if◌then◌else◌,
}
use go_gateway.Config.{Config, RouteConfig, PluginRef}
use go_gateway.Go.{Sorting, Regexps}
use go_gateway.Router.{
  Route, Router, new, new_from, add_route, build_route, match_type_of, earlier, empty_router,
  sort_prefixes,
}
use go_gateway.Validator.{validate, default_matches}
use go_gateway.Validator.Routes.{RouteOk}
use go_gateway.Validator.Sound.{validate-nil_iff}
use go_gateway.Plugin
use go_gateway.Plugin.{Plugin, ok}
use go_gateway.Plugin.Order.{MakesOf, MakesAll, build-ok_iff}
use go_gateway.Runtime.{Chains, GatewayRuntime, built, build_chains, build, insert}

module _ (sorting : Sorting) (regexps : Regexps) (to_upper : String → String) {V : Type 0} where
  -- A regex route has a pattern that compiles.
  abbrev Compiles : RouteConfig V → Type 0
  Compiles rc = rc.match_type ≡ "regex" → regexps.compile rc.path ≢ none

  build_route_total :
      (rc : RouteConfig V)
      → Compiles rc
      → (x : Route regexps.Regexp V) × (build_route sorting regexps to_upper rc ≡ some x)
  build_route_total rc h = elim (Option-cases (build_route sorting regexps to_upper rc)) [
    | inl n ↦ absurd (
        unfold build_route in
        unfold match_type_of in
        ground (arith, n, h, Option-cases (regexps.compile rc.path), eq_iff rc.match_type "regex"))
    | inr found ↦ found
  ]

  new_from_total :
      (rcs : List (RouteConfig V)) (r : Router regexps.Regexp V)
      → All Compiles rcs
      → (r' : Router regexps.Regexp V) × (new_from sorting regexps to_upper rcs r ≡ some r')
  unfolding new_from
  new_from_total [] r _ = (r, refl)
  new_from_total (rc ∷ rcs) r (h, hs) =
      let (x, made) = build_route_total rc h in
      let (r', rest) = new_from_total rcs (add_route x r) hs in (r', rw (made, new_from) rest)

  All-default_matches :
      (P : RouteConfig V → Type 0) (rcs : List (RouteConfig V))
      → ((rc : RouteConfig V) → rc.match_type ≡ "" → P rc → P (record rc { match_type = "prefix" }))
      → All P rcs
      → All P (default_matches rcs)
  unfolding default_matches
  All-default_matches P [] f _ = tt
  All-default_matches P (rc ∷ rcs) f (h, hs) =
      (one (rc.match_type == "") ((eq_iff rc.match_type "").0), All-default_matches P rcs f hs)
    where
      one :
          (b : Bool)
          → (b ≡ true → rc.match_type ≡ "")
          → P (if b then record rc { match_type = "prefix" } else rc)
      one true e = f rc (e refl) h
      one false e = h

module _ (sorting : Sorting) {Q V : Type 0} (reg : Plugin.Registry Q V) (cfg : Config V) where
  -- The factory for a reference is registered and makes a plugin.
  abbrev pub Makeable : PluginRef V → Type 0
  Makeable ref = (p : Plugin Q) × MakesOf reg cfg.plugins ref p

  abbrev pub AllMakeable : RouteConfig V → Type 0
  AllMakeable rc = (ref : PluginRef V) → In ref rc.plugins → Makeable ref

  MakesAll-total :
      (refs : List (PluginRef V))
      → ((ref : PluginRef V) → In ref refs → Makeable ref)
      → (ps : List (Plugin Q)) × MakesAll reg cfg.plugins refs ps
  MakesAll-total [] h = ([], MakesAll.made_none)
  MakesAll-total (ref ∷ refs) h =
      let (p, m) = h ref (In.here refl) in
      let (ps, ms) = MakesAll-total refs (λ q i. h q (In.there i)) in
      (p ∷ ps, MakesAll.made_more m ms)

  chain_total :
      (rc : RouteConfig V)
      → AllMakeable rc
      → (ps : List (Plugin Q)) × (Plugin.build sorting reg cfg.plugins
            (sorting.sort_slice earlier rc.plugins)
          ≡ ok ps)
  chain_total rc h =
      let once = sorting.sort_slice earlier rc.plugins in
      let (ps, ms) = MakesAll-total (sorting.sort_slice earlier once) (λ ref i. h ref (
        In-permᴰ (sorting.sort_slice-perm (PluginRef V) earlier rc.plugins)
          (In-permᴰ (sorting.sort_slice-perm (PluginRef V) earlier once) i))) in
      (ps, (build-ok_iff sorting reg cfg.plugins once ps).1 ms)

  build_chains_total :
      (rcs : List (RouteConfig V)) (chains : Chains Q)
      → All AllMakeable rcs
      → (out : Chains Q) × (build_chains sorting reg cfg rcs chains ≡ built out)
  unfolding build_chains
  build_chains_total [] chains _ = (chains, refl)
  build_chains_total (rc ∷ rcs) chains (h, hs) =
      let (ps, made) = chain_total rc h in
      let (out, rest) = build_chains_total rcs (insert rc.id ps chains) hs in (out, rw made rest)

prefix-ne-regex : Path String "prefix" "regex" → ⊥
prefix-ne-regex e = ground (arith, (eq_iff "prefix" "regex").1 e)

All-compiles :
    {R V : Type 0} (compile : String → Option R) (S P : String → Type 0)
    (rcs : List (RouteConfig V))
    → All (RouteOk compile S P) rcs
    → All (λ rc. rc.match_type ≡ "regex" → compile rc.path ≢ none) rcs
All-compiles compile S P [] _ = tt
All-compiles compile S P (rc ∷ rcs) (h, hs) = (h.compiles, All-compiles compile S P rcs hs)

module _ (sorting : Sorting) (regexps : Regexps) (to_upper : String → String) {Q V : Type 0}
    (reg : Plugin.Registry Q V) (cfg : Config V) where
  build-built :
      (version : ℕ) (r : Router regexps.Regexp V) (chains : Chains Q)
      → new_from sorting regexps to_upper cfg.routes (empty_router sorting regexps to_upper)
        ≡ some r
      → build_chains sorting reg cfg cfg.routes [] ≡ built chains
      → build sorting regexps to_upper cfg reg version
        ≡ built (record {
          version = version;
          router = sort_prefixes sorting regexps to_upper r;
          plugin_chains = chains;
        })
  unfolding build new
  build-built version r chains e f = rw (build, new, e, f) refl

-- When `Validate` accepts a configuration, and for each plugin reference of its routes the factory is
-- registered for the type of its last definition and makes a plugin, `Build` makes a runtime of the
-- configuration that `Validate` leaves, with the version that it is given.
pub validated_builds :
    (sorting : Sorting) (regexps : Regexps) (to_upper : String → String) {Q V : Type 0}
    (reg : Plugin.Registry Q V) (cfg : Config V) (version : ℕ)
    → (validate regexps.compile cfg).1 ≡ []
    → All (AllMakeable sorting reg cfg) cfg.routes
    → (rt : GatewayRuntime regexps.Regexp Q V) × (build sorting regexps to_upper
          (validate regexps.compile cfg).0
          reg
          version
        ≡ built rt)
      × (rt.version ≡ version)
unfolding validate
validated_builds sorting regexps to_upper {Q} {V} reg cfg version e h =
    let valid = (validate-nil_iff regexps.compile cfg).0 e in
    let (r, routes) =
      new_from_total sorting regexps to_upper (default_matches cfg.routes)
        (empty_router sorting regexps to_upper)
        (All-default_matches sorting regexps to_upper (Compiles sorting regexps to_upper) cfg.routes
          (λ rc _ _ is_regex. absurd (prefix-ne-regex is_regex))
          (All-compiles regexps.compile _ _ cfg.routes valid.routes_ok)) in
    let (chains, made) =
      build_chains_total sorting reg (validate regexps.compile cfg).0 (default_matches cfg.routes)
        []
        (All-default_matches sorting regexps to_upper (AllMakeable sorting reg cfg) cfg.routes
          (λ rc _ makes. makes) h) in
    (
      record {
        version = version;
        router = sort_prefixes sorting regexps to_upper r;
        plugin_chains = chains;
      },
      build-built sorting regexps to_upper reg (validate regexps.compile cfg).0 version r chains
          routes made,
      refl,
    )
