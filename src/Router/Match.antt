-- ===== src/Router/Match.antt =====
-- `Match` against the list of routes of the configuration.
use go_gateway.Prelude.{
  ◌≤◌, ◌≡◌, refl, sym, subst, String, arith, List, Option, none, some, In, ◌↔◌, inl, inr,
  Option-cases, some_inj, find?, find?-none, find?-first,
}
use go_gateway.Config.{RouteConfig}
use go_gateway.Go.{Sorting, Regexps}
use go_gateway.Router.{
  MatchType, match_exact, match_prefix, match_regex, Route, Router, key, any_key, new, match_key,
  match_request, prefix_accepts, regex_accepts, longer,
}
use go_gateway.Router.Index.{IsToken}
use go_gateway.Router.Build.{routes_of, routes_of-len, new_lem}
use go_gateway.Router.Held.{Holds, sorted-Holds}
use go_gateway.Router.Spec.{Found, Accepts, rank, Outranks, TokenMethods}
use go_gateway.Router.Places.{
  key-Found, any_key-Found, prefix-Found, regex-Found, exact_hit, prefix_hit, regex_hit,
}

-- The order of the routes by the length that each keeps.
abbrev Precedes : {R V : Type 0} → Route R V → Route R V → Type 0
Precedes x y =
    (rank x.match_type ≤ rank y.match_type)
    × (x.match_type ≡ match_prefix → y.match_type ≡ match_prefix → y.path_len ≤ x.path_len)

module _ (regexps : Regexps) {V : Type 0} where
  -- What the four places of a router hold for one request.
  module _ (method path : String) (r : Router regexps.Regexp V) (bs : List (Route regexps.Regexp V))
      (h : Holds r bs) (token : IsToken method) (tokens : TokenMethods bs) where
    -- Where a match comes from: the four places in the order in which `Match` looks.
    data Source (x : Route regexps.Regexp V) : Type 0 where
      from_exact : Found regexps method path bs x match_exact → Source x
      from_prefix :
          Found regexps method path bs x match_prefix
          → ((y : Route regexps.Regexp V) → Found regexps method path bs y match_exact → ⊥)
          → find? (prefix_accepts regexps method path) r.prefix ≡ some x
          → Source x
      from_regex :
          Found regexps method path bs x match_regex
          → ((y : Route regexps.Regexp V) → Found regexps method path bs y match_exact → ⊥)
          → ((y : Route regexps.Regexp V) → Found regexps method path bs y match_prefix → ⊥)
          → Source x

    no_exact :
        match_key (key method path) method r ≡ none
        → match_key (any_key path) method r ≡ none
        → (y : Route regexps.Regexp V) → Found regexps method path bs y match_exact
        → ⊥
    no_exact n₁ n₂ y f =
        let (z, hit) = exact_hit regexps method path r bs h token tokens y f in
        elim hit [ inl e ↦ absurd (ground (arith, e, n₁)) | inr e ↦ absurd (ground (arith, e, n₂)) ]

    no_prefix :
        find? (prefix_accepts regexps method path) r.prefix ≡ none
        → (y : Route regexps.Regexp V) → Found regexps method path bs y match_prefix
        → ⊥
    no_prefix n y f =
        let (m, ok) = prefix_hit regexps method path r bs h token tokens y f in
        find?-none (prefix_accepts regexps method path) r.prefix n m ok

    no_regex :
        find? (regex_accepts regexps method path) r.regexes ≡ none
        → (y : Route regexps.Regexp V) → Found regexps method path bs y match_regex
        → ⊥
    no_regex n y f =
        let (m, ok) = regex_hit regexps method path r bs h token tokens y f in
        find?-none (regex_accepts regexps method path) r.regexes n m ok

    -- What `Match` returns is found in the first place that has one.
    data Outcome : Option (Route regexps.Regexp V) → Type 0 where
      matched : {x : Route regexps.Regexp V} → Source x → Outcome (some x)
      missed :
          ((y : Route regexps.Regexp V) → In y bs → Accepts regexps method path y → ⊥)
          → Outcome none

    accepted_nowhere :
        (y : Route regexps.Regexp V)
        → ((t : MatchType) → Found regexps method path bs y t → ⊥)
        → In y bs
        → Accepts regexps method path y
        → ⊥
    accepted_nowhere y none_of i a = none_of y.match_type (i, refl, a)

    nowhere :
        match_key (key method path) method r ≡ none
        → match_key (any_key path) method r ≡ none
        → find? (prefix_accepts regexps method path) r.prefix ≡ none
        → find? (regex_accepts regexps method path) r.regexes ≡ none
        → (y : Route regexps.Regexp V) (t : MatchType) → Found regexps method path bs y t
        → ⊥
    nowhere n₁ n₂ n₃ n₄ y match_exact f = no_exact n₁ n₂ y f
    nowhere n₁ n₂ n₃ n₄ y match_prefix f = no_prefix n₃ y f
    nowhere n₁ n₂ n₃ n₄ y match_regex f = no_regex n₄ y f

    match-Outcome : Outcome (match_request regexps method path r)
    unfolding match_request
    match-Outcome = elim (Option-cases (match_key (key method path) method r)) [
      | inr (x, e) ↦
          rw e (matched (from_exact (key-Found regexps method path r bs h token tokens e)))
      | inl n₁ ↦ rw n₁ (elim (Option-cases (match_key (any_key path) method r)) [
        | inr (x, e) ↦
            rw e (matched (from_exact (any_key-Found regexps method path r bs h token tokens e)))
        | inl n₂ ↦
            rw n₂ (elim (Option-cases (find? (prefix_accepts regexps method path) r.prefix)) [
              | inr (x, e) ↦ rw e (
                  matched (
                    from_prefix (prefix-Found regexps method path r bs h token tokens e)
                      (no_exact n₁ n₂) e))
              | inl n₃ ↦
                  rw n₃ (elim (Option-cases (find? (regex_accepts regexps method path) r.regexes)) [
                    | inr (x, e) ↦ rw e (
                        matched (
                          from_regex (regex-Found regexps method path r bs h token tokens e)
                            (no_exact n₁ n₂) (no_prefix n₃)))
                    | inl n₄ ↦ rw n₄ (missed (λ y. accepted_nowhere y (nowhere n₁ n₂ n₃ n₄ y)))
                  ])
            ])
      ])
    ]

    not_shorter :
        (x y : Route regexps.Regexp V)
        → find? (prefix_accepts regexps method path) r.prefix ≡ some x
        → Found regexps method path bs y match_prefix
        → y.path_len ≤ x.path_len
    not_shorter x y e f =
        let (m, ok) = prefix_hit regexps method path r bs h token tokens y f in
        let first =
          find?-first longer (prefix_accepts regexps method path) r.prefix x y (λ z. ground arith)
            h.prefix_order e m ok in
        ground (arith, first)

    outranked :
        (x y : Route regexps.Regexp V) (t : MatchType)
        → Source x
        → Found regexps method path bs y t
        → Precedes x y
    outranked x y t (from_exact (_, e, _)) f = ground arith
    outranked x y match_exact (from_prefix (_, e, _) no_e found) f = absurd (no_e y f)
    outranked x y match_prefix (from_prefix (_, e, _) no_e found) (i, u, a) =
        (ground (arith, e, u), λ _ _. not_shorter x y found (i, u, a))
    outranked x y match_regex (from_prefix (_, e, _) no_e found) (i, u, a) = ground (arith, e, u)
    outranked x y match_exact (from_regex (_, e, _) no_e no_p) f = absurd (no_e y f)
    outranked x y match_prefix (from_regex (_, e, _) no_e no_p) f = absurd (no_p y f)
    outranked x y match_regex (from_regex (_, e, _) no_e no_p) (i, u, a) = ground (arith, e, u)

    Source-Accepts :
        {x : Route regexps.Regexp V} → Source x → In x bs × Accepts regexps method path x
    Source-Accepts (from_exact (i, _, a)) = (i, a)
    Source-Accepts (from_prefix (i, _, a) _ _) = (i, a)
    Source-Accepts (from_regex (i, _, a) _ _) = (i, a)

    Outcome-none :
        {o : Option (Route regexps.Regexp V)}
        → Outcome o
        → (o ≡ none) ↔ ((y : Route regexps.Regexp V) → In y bs → ¬ Accepts regexps method path y)
    Outcome-none (missed nothing) = ((λ _. nothing), (λ _. refl))
    Outcome-none (matched {x} s) = (
      (λ e. absurd (ground (arith, e))),
      (λ nothing. let (i, a) = Source-Accepts s in absurd (nothing x i a)),
    )

    Outcome-some :
        {o : Option (Route regexps.Regexp V)} (x : Route regexps.Regexp V)
        → Outcome o
        → o ≡ some x
        → Source x
    Outcome-some x (missed nothing) e = absurd (ground (arith, e))
    Outcome-some x (matched s) e = subst Source (some_inj e) s

-- A request whose method is a token, to a router that `New` built from routes whose methods are
-- tokens, matches no route exactly when no route of the configuration takes it.
pub match-none_iff :
    (sorting : Sorting) (regexps : Regexps) (to_upper : String → String) {V : Type 0}
    (rcs : List (RouteConfig V)) (r : Router regexps.Regexp V) (method path : String)
    → new sorting regexps to_upper rcs ≡ some r
    → IsToken method
    → TokenMethods (routes_of sorting regexps to_upper rcs)
    → (match_request regexps method path r ≡ none) ↔ (
        (y : Route regexps.Regexp V)
        → In y (routes_of sorting regexps to_upper rcs)
        → ¬ Accepts regexps method path y)
match-none_iff sorting regexps to_upper rcs r method path built token tokens =
    let (r₀, represents, same) = new_lem sorting regexps to_upper rcs r built in
    let h =
      subst (λ q. Holds q (routes_of sorting regexps to_upper rcs)) (sym same)
        (sorted-Holds sorting regexps to_upper r₀ _ represents) in
    Outcome-none regexps method path r _ h token tokens
      (match-Outcome regexps method path r _ h token tokens)

-- What a router that `New` built returns for a request whose method is a token, the methods of the
-- routes being tokens, is a route of the configuration that takes the request, and no route of the
-- configuration that takes the request outranks it: exact routes come before prefix routes, prefix
-- routes before regex routes, and of two prefix routes the one with the longer path.
pub match-best :
    (sorting : Sorting) (regexps : Regexps) (to_upper : String → String) {V : Type 0}
    (rcs : List (RouteConfig V)) (r : Router regexps.Regexp V) (method path : String)
    (x : Route regexps.Regexp V)
    → new sorting regexps to_upper rcs ≡ some r
    → IsToken method
    → TokenMethods (routes_of sorting regexps to_upper rcs)
    → match_request regexps method path r ≡ some x
    → In x (routes_of sorting regexps to_upper rcs)
      × Accepts regexps method path x
      × ((y : Route regexps.Regexp V)
          → In y (routes_of sorting regexps to_upper rcs)
          → Accepts regexps method path y
          → Outranks x y)
match-best sorting regexps to_upper rcs r method path x built token tokens e =
    let (r₀, represents, same) = new_lem sorting regexps to_upper rcs r built in
    let h =
      subst (λ q. Holds q (routes_of sorting regexps to_upper rcs)) (sym same)
        (sorted-Holds sorting regexps to_upper r₀ _ represents) in
    let s =
      Outcome-some regexps method path r _ h token tokens x
        (match-Outcome regexps method path r _ h token tokens) e in
    let (i, a) = Source-Accepts regexps method path r _ h token tokens s in
    (
      i,
      a,
      λ y j b.
          (let (ranked, longest) =
              outranked regexps method path r _ h token tokens x y y.match_type s (j, refl, b) in
            (
              ranked,
              λ p q. omega (
                arith,
                longest p q,
                routes_of-len sorting regexps to_upper rcs x i,
                routes_of-len sorting regexps to_upper rcs y j,
              ),
            )),
    )
