-- ===== src/Validator/Sound.antt =====
-- `Validate` decides what a valid configuration is.
use go_gateway.Prelude.{
  ℕ, ◌+◌, ◌≤◌, ℤ, pos, eqb_ℤ, ltb, ◌≡◌, ◌≢◌, refl, sym, ◌∙◌, subst, ◌↔◌, inl, inr, true, List, [],
  ◌∷◌, String, Option, ◌==◌, All, arith, In, length, filter,
}
use go_gateway.Config.{ServiceConfig, RouteConfig, PluginRef, Config}
use go_gateway.Validator.{
  Names, has, when, check_routes, validate, ids_after, max_regex_routes, too_many_regexes,
  port_required,
}
use go_gateway.Validator.Names.{Distinct, Fresh, append-eq-nil}
use go_gateway.Validator.Services.{
  ServiceOk, service_names, HoldsNames, plugin_names, check_services-nil_iff,
  check_services-HoldsNames, check_plugins-nil_iff, check_plugins-HoldsNames,
}
use go_gateway.Validator.Routes.{RefOk, RouteOk, route_ids, check_routes-nil_iff}

port-nil_iff : (port : ℤ) → (when (eqb_ℤ port (pos 0)) port_required ≡ []) ↔ (port ≢ pos 0)
port-nil_iff port = ground arith

few-nil_iff : (n : ℕ) → (when (ltb max_regex_routes n) (too_many_regexes n) ≡ []) ↔ (n ≤ 20)
few-nil_iff n = ground arith

Fresh-nil : (xs : List String) → Fresh [] xs
Fresh-nil [] = tt
Fresh-nil (x ∷ xs) = (refl, Fresh-nil xs)

abbrev pub regex_routes : {V : Type 0} → List (RouteConfig V) → List (RouteConfig V)
regex_routes rs = filter (λ r. r.match_type == "regex") rs

held_In :
    (names : Names) (xs : List String) (k : String)
    → HoldsNames names [] xs
    → has k names ≡ true
    → In k xs
held_In names xs k h e = elim ((h k).0 e) [
  | inl old ↦ absurd (ground (arith, old))
  | inr (ne, m) ↦ m
]

service_named :
    (svcs : List ServiceConfig) (k : String)
    → All ServiceOk svcs
    → In k (service_names svcs)
    → k ≢ ""
service_named (svc ∷ svcs) k (ok, oks) (In.here e) = λ same. ok.has_name (sym e ∙ same)
service_named (svc ∷ svcs) k (ok, oks) (In.there m) = service_named svcs k oks m
service_named [] k oks m = elim m [ ]

module _ {R V : Type 0} (compile : String → Option R) where
  -- A valid configuration: what the gateway needs to serve it.
  pub record Valid (cfg : Config V) : Type 0 where
    pub has_port : cfg.gateway.port ≢ pos 0
    pub services_ok : All ServiceOk cfg.services
    pub services_distinct : Distinct (service_names cfg.services)
    pub plugins_named : All (λ x. x ≢ "") (plugin_names cfg.plugins)
    pub routes_ok :
        All
          (RouteOk compile
            (λ k. In k (service_names cfg.services))
            (λ k. In k (plugin_names cfg.plugins)))
          cfg.routes
    pub routes_distinct : Distinct (route_ids compile cfg.routes)
    pub few_regexes : length (regex_routes cfg.routes) ≤ 20

  count_lem :
      (i : ℕ) (services plugins seen : Names) (rs : List (RouteConfig V))
      → (check_routes compile i services plugins seen rs).1 ≡ length (regex_routes rs)
  unfolding check_routes
  count_lem i services plugins seen [] = refl
  count_lem i services plugins seen (r ∷ rs) =
      ground (arith, count_lem (i + 1) services plugins (ids_after seen r.id) rs)

  All-RefOk_map :
      (P Q : String → Type 0) (prs : List (PluginRef V))
      → ((k : String) → k ≢ "" → P k → Q k)
      → All (RefOk P) prs
      → All (RefOk Q) prs
  All-RefOk_map P Q [] f _ = tt
  All-RefOk_map P Q (pr ∷ prs) f ((ne, p), ps) = ((ne, f pr.name ne p), All-RefOk_map P Q prs f ps)

  All-RouteOk_map :
      (P Q P' Q' : String → Type 0) (rs : List (RouteConfig V))
      → ((k : String) → P k → P' k)
      → ((k : String) → k ≢ "" → Q k → Q' k)
      → All (RouteOk compile P Q) rs
      → All (RouteOk compile P' Q') rs
  All-RouteOk_map P Q P' Q' [] f g _ = tt
  All-RouteOk_map P Q P' Q' (r ∷ rs) f g (ok, oks) = (
    record {
      has_id = ok.has_id;
      has_path = ok.has_path;
      known_match = ok.known_match;
      compiles = ok.compiles;
      known_service = f r.service ok.known_service;
      known_plugins = All-RefOk_map Q Q' r.plugins g ok.known_plugins;
      distinct_orders = ok.distinct_orders;
    },
    All-RouteOk_map P Q P' Q' rs f g oks,
  )

  -- `Validate` reports no problem exactly when the configuration is valid: the port is not 0; every
  -- service has a name of its own, an instance and a strategy, which is round-robin, random, smart or
  -- empty; every plugin has a name; every
  -- route has an id of its own, a path, a match type, which is exact, prefix, regex or empty, and, if it is a regex route, a
  -- pattern that compiles, refers to a service of the configuration and, in distinct orders, to named
  -- plugins of the configuration; and there are at most 20 regex routes.
  pub validate-nil_iff : (cfg : Config V) → ((validate compile cfg).1 ≡ []) ↔ Valid cfg
  unfolding validate
  validate-nil_iff cfg = (
    λ e.
        (let (e₁, rest₁) = (append-eq-nil _ _).0 e in
          let (e₂, rest₂) = (append-eq-nil _ _).0 rest₁ in
          let (e₃, rest₃) = (append-eq-nil _ _).0 rest₂ in
          let (e₄, e₅) = (append-eq-nil _ _).0 rest₃ in
          let (services, _, distinct) = (check_services-nil_iff 0 [] cfg.services).0 e₂ in
          let (routes, _, ids) = (check_routes-nil_iff compile 0 _ _ [] cfg.routes).0 e₄ in
          record {
            has_port = (port-nil_iff cfg.gateway.port).0 e₁;
            services_ok = services;
            services_distinct = distinct;
            plugins_named = (check_plugins-nil_iff 0 [] cfg.plugins).0 e₃;
            routes_ok =
                All-RouteOk_map _ _ _ _ cfg.routes
                  (λ k. held_In _ _ k (check_services-HoldsNames 0 [] cfg.services))
                  (λ k _. held_In _ _ k (check_plugins-HoldsNames 0 [] cfg.plugins)) routes;
            routes_distinct = ids;
            few_regexes =
                subst (λ n. n ≤ 20) (count_lem 0 _ _ [] cfg.routes) ((few-nil_iff _).0 e₅);
          }),
    λ v. (append-eq-nil _ _).1 (
      (port-nil_iff cfg.gateway.port).1 v.has_port,
      (append-eq-nil _ _).1 (
        (check_services-nil_iff 0 [] cfg.services).1
            (v.services_ok, Fresh-nil _, v.services_distinct),
        (append-eq-nil _ _).1 (
          (check_plugins-nil_iff 0 [] cfg.plugins).1 v.plugins_named,
          (append-eq-nil _ _).1 (
            (check_routes-nil_iff compile 0 _ _ [] cfg.routes).1 (
              All-RouteOk_map _ _ _ _ cfg.routes
                  (λ k m.
                    (check_services-HoldsNames 0 [] cfg.services k).1
                      (inr (service_named cfg.services k v.services_ok m, m)))
                  (λ k ne m. (check_plugins-HoldsNames 0 [] cfg.plugins k).1 (inr (ne, m)))
                  v.routes_ok,
              Fresh-nil _,
              v.routes_distinct,
            ),
            (few-nil_iff _).1
                (subst (λ n. n ≤ 20) (sym (count_lem 0 _ _ [] cfg.routes)) v.few_regexes),
          ),
        ),
      ),
    ),
  )
