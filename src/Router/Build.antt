-- ===== src/Router/Build.antt =====
-- What `New` builds: which routes stand where in the router.
use Prim.Native.String
use go_gateway.Prelude.{
  ◌≡◌, refl, sym, ◌∙◌, ap, subst, String, arith, List, [], ◌∷◌, ◌++◌, Option, none, some, lookup,
  In, In-append_left, In-append_right, inl, inr, Option-cases, some_inj,
}
use mathlib.Core.List.{append_assoc, append-nil}
use go_gateway.Config.{RouteConfig}
use go_gateway.Go.{Sorting, Regexps}
use go_gateway.Router.{
  MatchType, match_exact, match_prefix, match_regex, Route, Router, add_as, add_route, build_route,
  match_type_of, new_from, empty_router, sort_prefixes, new,
}
use go_gateway.Router.Keyed.{
  Keyed, KeyOf, Represents, is_prefix, is_regex, prefix_route, regex_route, exact_after,
  exact_after_sound, exact_after-kept, exact_after_complete, filter-append_drop, filter-append_keep,
  In-append_last,
}

module _ {R V : Type 0} where
  -- The router gains one route.
  add_as_exact :
      (route : Route R V) (r : Router R V) (bs : List (Route R V))
      → route.match_type ≡ match_exact
      → Represents r bs
      → Represents (record r { exact = exact_after route r.exact }) (bs ++ route ∷ [])
  add_as_exact route r bs t h = record {
    prefixes = h.prefixes ∙ sym (filter-append_drop prefix_route bs route (ap is_prefix t));
    regexes = h.regexes ∙ sym (filter-append_drop regex_route bs route (ap is_regex t));
    sound = λ k x e. elim (exact_after_sound route x r.exact k e) [
      | inl (same, keyed) ↦
          (In-append_right bs (In.here (sym same)), (ap (λ y. y.match_type) (sym same) ∙ t, keyed))
      | inr old ↦ (let (m, keyed) = h.sound k x old in (In-append_left (route ∷ []) m, keyed))
    ];
    complete = λ k x i keyed. elim (In-append_last bs i) [
      | inl old ↦ (let (y, e) = h.complete k x old keyed in exact_after-kept route y r.exact k e)
      | inr same ↦ exact_after_complete route r.exact k (subst (λ y. KeyOf k y) (sym same) keyed.1)
    ];
  }

  -- A route of another kind leaves the exact routes alone.
  sound_more :
      (route : Route R V) (r : Router R V) (bs : List (Route R V))
      → Represents r bs
      → (k : String) (x : Route R V) → lookup k r.exact ≡ some x
      → In x (bs ++ route ∷ []) × Keyed k x
  sound_more route r bs h k x e =
      let (m, keyed) = h.sound k x e in (In-append_left (route ∷ []) m, keyed)

  complete_more :
      (route : Route R V) (r : Router R V) (bs : List (Route R V))
      → (route.match_type ≡ match_exact → ⊥)
      → Represents r bs
      → (k : String) (x : Route R V) → In x (bs ++ route ∷ [])
      → Keyed k x
      → (y : Route R V) × (lookup k r.exact ≡ some y)
  complete_more route r bs t h k x i keyed = elim (In-append_last bs i) [
    | inl old ↦ h.complete k x old keyed
    | inr same ↦ absurd (t (ap (λ y. y.match_type) same ∙ keyed.0))
  ]

  add_as-Represents :
      (t : MatchType) (route : Route R V) (r : Router R V) (bs : List (Route R V))
      → route.match_type ≡ t
      → Represents r bs
      → Represents (add_as t route r) (bs ++ route ∷ [])
  unfolding add_as
  add_as-Represents match_exact route r bs t h = add_as_exact route r bs t h
  add_as-Represents match_prefix route r bs t h = record {
    prefixes =
        ap (λ l. l ++ route ∷ []) h.prefixes
        ∙ sym (filter-append_keep prefix_route bs route (ap is_prefix t));
    regexes = h.regexes ∙ sym (filter-append_drop regex_route bs route (ap is_regex t));
    sound = sound_more route r bs h;
    complete = complete_more route r bs (λ e. cc) h;
  }
  add_as-Represents match_regex route r bs t h = record {
    prefixes = h.prefixes ∙ sym (filter-append_drop prefix_route bs route (ap is_prefix t));
    regexes =
        ap (λ l. l ++ route ∷ []) h.regexes
        ∙ sym (filter-append_keep regex_route bs route (ap is_regex t));
    sound = sound_more route r bs h;
    complete = complete_more route r bs (λ e. cc) h;
  }

module _ (sorting : Sorting) (regexps : Regexps) (to_upper : String → String) {V : Type 0} where
  abbrev built : RouteConfig V → Option (Route regexps.Regexp V)
  built = build_route sorting regexps to_upper

  -- The routes of the configuration, in its order: each route that can be built.
  abbrev pub routes_of : List (RouteConfig V) → List (Route regexps.Regexp V)
  routes_of [] = []
  routes_of (rc ∷ rcs) = elim (built rc) [ none ↦ routes_of rcs | some x ↦ x ∷ routes_of rcs ]

  build_route-len :
      (rc : RouteConfig V) (x : Route regexps.Regexp V)
      → built rc ≡ some x
      → x.path_len ≡ String.len x.path
  unfolding build_route
  build_route-len rc x e = elim (Option-cases (match_type_of sorting regexps to_upper rc)) [
    | inl failed ↦ absurd (ground (arith, rw (failed, build_route) at e))
    | inr (m, ok) ↦
        subst (λ y. y.path_len ≡ String.len y.path) (some_inj (rw (ok, build_route) at e)) refl
  ]

  first_or_later :
      (rc : RouteConfig V) (x y : Route regexps.Regexp V) (rest : List (Route regexps.Regexp V))
      → built rc ≡ some y
      → (In x rest → x.path_len ≡ String.len x.path)
      → In x (y ∷ rest)
      → x.path_len ≡ String.len x.path
  first_or_later rc x y rest ok later (In.here e) = build_route-len rc x (ok ∙ ap some (sym e))
  first_or_later rc x y rest ok later (In.there j) = later j

  -- The length that a route keeps is that of its path.
  pub routes_of-len :
      (rcs : List (RouteConfig V)) (x : Route regexps.Regexp V)
      → In x (routes_of rcs)
      → x.path_len ≡ String.len x.path
  routes_of-len [] x i = elim i [ ]
  routes_of-len (rc ∷ rcs) x i = elim (Option-cases (built rc)) [
    | inl failed ↦ routes_of-len rcs x (rw (failed, routes_of) at i)
    | inr (y, ok) ↦
        first_or_later rc x y (routes_of rcs) ok (routes_of-len rcs x) (rw (ok, routes_of) at i)
  ]

  new_from-Represents :
      (rcs : List (RouteConfig V)) (r r' : Router regexps.Regexp V)
      (bs : List (Route regexps.Regexp V))
      → Represents r bs
      → new_from sorting regexps to_upper rcs r ≡ some r'
      → Represents r' (bs ++ routes_of rcs)
  unfolding new_from
  new_from-Represents [] r r' bs h e =
      rw (append-nil bs) (subst (λ q. Represents q bs) (some_inj e) h)
  new_from-Represents (rc ∷ rcs) r r' bs h e = elim (Option-cases (built rc)) [
    | inl failed ↦ absurd (ground (arith, e, failed))
    | inr (x, ok) ↦
        (let e' : new_from sorting regexps to_upper rcs (add_route x r) ≡ some r' =
            rw (ok, new_from) at e in
          let ih =
            new_from-Represents rcs (add_route x r) r' (bs ++ x ∷ [])
              (unfold add_route in add_as-Represents x.match_type x r bs refl h) e' in
          rw (ok, routes_of) (rw (append_assoc bs (x ∷ []) (routes_of rcs)) at ih))
  ]

  empty-Represents :
      Represents {R = regexps.Regexp} {V = V} (empty_router sorting regexps to_upper) []
  empty-Represents = record {
    prefixes = refl;
    regexes = refl;
    sound = λ k x e. absurd (ground (arith, e));
    complete = λ k x i keyed. elim i [ ];
  }

  -- Before its prefix routes are sorted, the router holds the routes of the configuration.
  pub new_lem :
      (rcs : List (RouteConfig V)) (r : Router regexps.Regexp V)
      → new sorting regexps to_upper rcs ≡ some r
      → (r₀ : Router regexps.Regexp V) × Represents r₀ (routes_of rcs)
        × (r ≡ sort_prefixes sorting regexps to_upper r₀)
  unfolding new
  new_lem rcs r e =
      elim (Option-cases
        (new_from sorting regexps to_upper rcs (empty_router sorting regexps to_upper))) [
          | inl failed ↦ absurd (ground (arith, e, failed))
          | inr (r₀, ok) ↦ (
            r₀,
            new_from-Represents rcs _ r₀ [] empty-Represents ok,
            sym (some_inj (rw (ok, new) at e)),
          )
        ]
