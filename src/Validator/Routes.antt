-- ===== src/Validator/Routes.antt =====
-- The loop over the routes and that over their plugin references, against what they require.
use go_gateway.Prelude.{
  ℕ, ◌+◌, ℤ, eqb_ℤ, ◌≡◌, ◌≢◌, refl, ◌↔◌, ◌⊎◌, true, false, List, [], ◌∷◌, map, String, Option, none,
  some, insert, ◌==◌, ◌&&◌, All, arith, eq_iff, not,
}
use go_gateway.Config.{RouteConfig, PluginRef}
use go_gateway.Validator.{
  Names, has, Problem, when, clash, order_seen, check_refs, valid_match, id_problems, ids_after,
  fails, route_problems, check_routes,
}
use go_gateway.Validator.Names.{Distinct, Fresh, Fresh-insert, append-eq-nil}

-- Membership in a set of names.
abbrev pub InSet : Names → String → Type 0
InSet names k = has k names ≡ true

eqb_ℤ_iff : (a b : ℤ) → (eqb_ℤ a b ≡ true) ↔ (a ≡ b)
eqb_ℤ_iff a b = ground arith

clash-nil_iff :
    (i : ℕ) (id : String) (o : ℤ) (name : String) (seen : Option String)
    → (clash i id o name seen ≡ []) ↔ (seen ≡ none)
clash-nil_iff i id o name none = ground arith
clash-nil_iff i id o name (some first) = ground arith

ids_after_new :
    (seen : Names) (id : String)
    → id ≢ ""
    → has id seen ≡ false
    → ids_after seen id ≡ insert id tt seen
ids_after_new seen id some_id new_id = ground (arith, eq_iff id "")

module _ {V : Type 0} where
  -- No two references have the same order.
  abbrev pub DistinctOrders : List (PluginRef V) → Type 0
  DistinctOrders [] = Unit
  DistinctOrders (x ∷ xs) = All (λ y. x.order ≢ y.order) xs × DistinctOrders xs

  -- A reference by name to a plugin that is defined.
  abbrev pub RefOk : (String → Type 0) → PluginRef V → Type 0
  RefOk Known pr = (pr.name ≢ "") × Known pr.name

  abbrev NewOrders : List (ℤ × String) → List (PluginRef V) → Type 0
  NewOrders seen prs = All (λ pr. order_seen pr.order seen ≡ none) prs

  NewOrders-cons :
      (o : ℤ) (name : String) (seen : List (ℤ × String)) (prs : List (PluginRef V))
      → NewOrders ((o, name) ∷ seen) prs ↔ (All (λ y. o ≢ y.order) prs × NewOrders seen prs)
  NewOrders-cons o name seen [] = ((λ _. (tt, tt)), (λ _. tt))
  NewOrders-cons o name seen (pr ∷ prs) =
      ground (arith, eqb_ℤ_iff o pr.order, NewOrders-cons o name seen prs)

  abbrev RefsOk : Names → List (ℤ × String) → List (PluginRef V) → Type 0
  RefsOk known seen prs = All (RefOk (InSet known)) prs × NewOrders seen prs × DistinctOrders prs

  check_refs-nil_iff :
      (i : ℕ) (id : String) (known : Names) (seen : List (ℤ × String)) (prs : List (PluginRef V))
      → (check_refs i id known seen prs ≡ []) ↔ RefsOk known seen prs
  unfolding check_refs
  check_refs-nil_iff i id known seen [] = ((λ _. (tt, tt, tt)), (λ _. refl))
  check_refs-nil_iff i id known seen (pr ∷ prs) = ground (
    arith,
    eq_iff pr.name "",
    clash-nil_iff i id pr.order pr.name (order_seen pr.order seen),
    NewOrders-cons pr.order pr.name seen prs,
    check_refs-nil_iff i id known seen prs,
    check_refs-nil_iff i id known ((pr.order, pr.name) ∷ seen) prs,
  )

-- The types of a match that a route may name.
abbrev pub KnownMatch : String → Type 0
KnownMatch s = (s ≡ "") ⊎ ((s ≡ "exact") ⊎ ((s ≡ "prefix") ⊎ (s ≡ "regex")))

valid_match_iff : (s : String) → ((s ≡ "") ⊎ (valid_match s ≡ true)) ↔ KnownMatch s
valid_match_iff s = ground (arith, eq_iff s "exact", eq_iff s "prefix", eq_iff s "regex")

module _ {R V : Type 0} (compile : String → Option R) where
  -- A route that can be served.
  pub record RouteOk (Service Plugin : String → Type 0) (r : RouteConfig V) : Type 0 where
    pub has_id : r.id ≢ ""
    pub has_path : r.path ≢ ""
    pub known_match : KnownMatch r.match_type
    pub compiles : r.match_type ≡ "regex" → compile r.path ≢ none
    pub known_service : Service r.service
    pub known_plugins : All (RefOk Plugin) r.plugins
    pub distinct_orders : DistinctOrders r.plugins

  new_orders : (prs : List (PluginRef V)) → NewOrders [] prs
  new_orders [] = tt
  new_orders (pr ∷ prs) = (refl, new_orders prs)

  id_problems-nil_iff :
      (i : ℕ) (seen : Names) (r : RouteConfig V)
      → (id_problems i seen r.id ≡ []) ↔ ((r.id ≢ "") × (has r.id seen ≡ false))
  id_problems-nil_iff i seen r = ground (arith, eq_iff r.id "")

  path-nil_iff : (p : Problem) (r : RouteConfig V) → (when (r.path == "") p ≡ []) ↔ (r.path ≢ "")
  path-nil_iff p r = ground (arith, eq_iff r.path "")

  match-nil_iff :
      (p : Problem) (r : RouteConfig V)
      → (when (not (r.match_type == "") && not (valid_match r.match_type)) p ≡ [])
        ↔ ((r.match_type ≡ "") ⊎ (valid_match r.match_type ≡ true))
  match-nil_iff p r = ground (arith, eq_iff r.match_type "")

  regex-nil_iff :
      (p : Problem) (r : RouteConfig V)
      → (when (r.match_type == "regex" && fails (compile r.path)) p ≡ [])
        ↔ (r.match_type ≡ "regex" → compile r.path ≢ none)
  regex-nil_iff p r = ground (arith, eq_iff r.match_type "regex")

  service-nil_iff :
      (p : Problem) (services : Names) (r : RouteConfig V)
      → (when (not (has r.service services)) p ≡ []) ↔ (has r.service services ≡ true)
  service-nil_iff p services r = ground arith

  refs-nil_iff :
      (i : ℕ) (plugins : Names) (r : RouteConfig V)
      → (check_refs i r.id plugins [] r.plugins ≡ [])
        ↔ (All (RefOk (InSet plugins)) r.plugins × DistinctOrders r.plugins)
  refs-nil_iff i plugins r = (
    (λ e. let (a, _, c) = (check_refs-nil_iff i r.id plugins [] r.plugins).0 e in (a, c)),
    (λ h. (check_refs-nil_iff i r.id plugins [] r.plugins).1 (h.0, new_orders r.plugins, h.1)),
  )

  route_problems-nil_iff :
      (i : ℕ) (services plugins seen : Names) (r : RouteConfig V)
      → (route_problems compile i services plugins seen r ≡ [])
        ↔ (RouteOk (InSet services) (InSet plugins) r × (has r.id seen ≡ false))
  unfolding route_problems
  route_problems-nil_iff i services plugins seen r = (
    λ e.
        (let (e₁, rest₁) = (append-eq-nil _ _).0 e in
          let (e₂, rest₂) = (append-eq-nil _ _).0 rest₁ in
          let (e₃, rest₃) = (append-eq-nil _ _).0 rest₂ in
          let (e₄, rest₄) = (append-eq-nil _ _).0 rest₃ in
          let (e₅, e₆) = (append-eq-nil _ _).0 rest₄ in
          let (some_id, new_id) = (id_problems-nil_iff i seen r).0 e₁ in
          let (refs, orders) = (refs-nil_iff i plugins r).0 e₆ in
          (
            record {
              has_id = some_id;
              has_path = (path-nil_iff _ r).0 e₂;
              known_match = (valid_match_iff r.match_type).0 ((match-nil_iff _ r).0 e₃);
              compiles = (regex-nil_iff _ r).0 e₄;
              known_service = (service-nil_iff _ services r).0 e₅;
              known_plugins = refs;
              distinct_orders = orders;
            },
            new_id,
          )),
    λ h.
        (let ok = h.0 in
          (append-eq-nil _ _).1 (
            (id_problems-nil_iff i seen r).1 (ok.has_id, h.1),
            (append-eq-nil _ _).1 (
              (path-nil_iff _ r).1 ok.has_path,
              (append-eq-nil _ _).1 (
                (match-nil_iff _ r).1 ((valid_match_iff r.match_type).1 ok.known_match),
                (append-eq-nil _ _).1 (
                  (regex-nil_iff _ r).1 ok.compiles,
                  (append-eq-nil _ _).1 (
                    (service-nil_iff _ services r).1 ok.known_service,
                    (refs-nil_iff i plugins r).1 (ok.known_plugins, ok.distinct_orders),
                  ),
                ),
              ),
            ),
          )),
  )

  abbrev pub route_ids : List (RouteConfig V) → List String
  route_ids rs = map (λ r. r.id) rs

  abbrev pub RoutesOk : Names → Names → Names → List (RouteConfig V) → Type 0
  RoutesOk services plugins seen rs =
      All (RouteOk (InSet services) (InSet plugins)) rs
      × Fresh seen (route_ids rs)
      × Distinct (route_ids rs)

  pub check_routes-nil_iff :
      (i : ℕ) (services plugins seen : Names) (rs : List (RouteConfig V))
      → ((check_routes compile i services plugins seen rs).0 ≡ [])
        ↔ RoutesOk services plugins seen rs
  unfolding check_routes
  check_routes-nil_iff i services plugins seen [] = ((λ _. (tt, tt, tt)), (λ _. refl))
  check_routes-nil_iff i services plugins seen (r ∷ rs) = (
    λ e.
        (let (first, rest) = (append-eq-nil _ _).0 e in
          let (ok, new_id) = (route_problems-nil_iff i services plugins seen r).0 first in
          let (oks, fresh, distinct) =
            (check_routes-nil_iff (i + 1) services plugins (insert r.id tt seen) rs).0
              (rw (ids_after_new seen r.id ok.has_id new_id) at rest) in
          let (others, fresh') = (Fresh-insert r.id seen (route_ids rs)).0 fresh in
          ((ok, oks), (new_id, fresh'), (others, distinct))),
    λ h.
        (let ((ok, oks), (new_id, fresh), (others, distinct)) = h in
          (append-eq-nil _ _).1 (
            (route_problems-nil_iff i services plugins seen r).1 (ok, new_id),
            rw (ids_after_new seen r.id ok.has_id new_id) (
                (check_routes-nil_iff (i + 1) services plugins (insert r.id tt seen) rs).1
                  (oks, (Fresh-insert r.id seen (route_ids rs)).1 (others, fresh), distinct)),
          )),
  )
