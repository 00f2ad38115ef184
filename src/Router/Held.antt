-- ===== src/Router/Held.antt =====
-- What the router holds for the routes of the configuration, as `Match` reads it.
use mathlib.Core.List.Permᴰ
use go_gateway.Prelude.{
  ◌≡◌, refl, sym, ap, subst, String, arith, true, false, List, [], ◌∷◌, none, some, lookup, ◌==◌,
  In, In-filter, filter-In, ◌⊎◌, inl, inr, eq_iff, Bool-cases, Option-cases, In-permᴰ, InOrder,
  sub_ℕ,
}
use go_gateway.Go.{Sorting, Regexps, ByKey}
use go_gateway.Router.{
  match_prefix, match_regex, Set, Route, Router, method_allowed, sort_prefixes, match_key, longer,
}
use go_gateway.Router.Keyed.{Keyed, Represents, is_prefix, is_regex, prefix_route, regex_route}

lookup-In : (m : String) (ms : Set) → lookup m ms ≡ some tt → In (m, tt) ms
lookup-In m [] e = absurd (ground (arith, e))
lookup-In m ((j, _) ∷ ms) e = elim (Bool-cases (j == m)) [
  | inl same ↦ In.here (λ i. (sym ((eq_iff j m).0 same) i, tt))
  | inr other ↦ In.there (lookup-In m ms (rw other at e))
]

In-lookup : (m : String) (ms : Set) → In (m, tt) ms → lookup m ms ≡ some tt
In-lookup m [] i = elim i [ ]
In-lookup m ((j, _) ∷ ms) (In.here e) = rw ((eq_iff j m).1 (sym (ap (λ p. p.0) e)))
In-lookup m ((j, _) ∷ ms) (In.there i) = ground (arith, In-lookup m ms i)

module _ {R V : Type 0} where
  not_allowed :
      (x : Route R V) (m : String) (p : String × Unit {0}) (ms : Set)
      → x.methods ≡ p ∷ ms
      → lookup m x.methods ≡ none
      → method_allowed x m ≡ false
  unfolding method_allowed
  not_allowed x m p ms some_method missing = ground (arith, some_method, missing)

  pub allowed_cases :
      (x : Route R V) (m : String)
      → method_allowed x m ≡ true
      → (x.methods ≡ []) ⊎ In (m, tt) x.methods
  allowed_cases x m e = elim (Option-cases (lookup m x.methods)) [
    | inr (u, found) ↦ inr (lookup-In m x.methods found)
    | inl missing ↦ go x.methods refl missing
  ]
    where
      go :
          (ms : Set)
          → x.methods ≡ ms
          → lookup m x.methods ≡ none
          → (x.methods ≡ []) ⊎ In (m, tt) x.methods
      go [] same _ = inl same
      go (p ∷ ms) same missing = absurd (ground (arith, e, not_allowed x m p ms same missing))

  pub allowed_of_nil : (x : Route R V) (m : String) → x.methods ≡ [] → method_allowed x m ≡ true
  unfolding method_allowed
  allowed_of_nil x m e = ground arith

  pub allowed_of_In :
      (x : Route R V) (m : String) → In (m, tt) x.methods → method_allowed x m ≡ true
  unfolding method_allowed
  allowed_of_In x m i = ground (arith, In-lookup m x.methods i)

  pub match_key-some :
      (k m : String) (r : Router R V) {x : Route R V}
      → match_key k m r ≡ some x
      → (lookup k r.exact ≡ some x) × (method_allowed x m ≡ true)
  unfolding match_key
  match_key-some k m r e = ground arith

  pub match_key-hit :
      (k m : String) (r : Router R V) (x : Route R V)
      → lookup k r.exact ≡ some x
      → method_allowed x m ≡ true
      → match_key k m r ≡ some x
  unfolding match_key
  match_key-hit k m r x e a = ground arith

-- What `New` guarantees of the router that it returns, for the routes `bs` of the configuration.
pub record Holds {R V : Type 0} (r : Router R V) (bs : List (Route R V)) : Type 0 where
  pub sound : (k : String) (x : Route R V) → lookup k r.exact ≡ some x → In x bs × Keyed k x
  pub complete :
      (k : String) (x : Route R V)
      → In x bs
      → Keyed k x
      → (y : Route R V) × (lookup k r.exact ≡ some y)
  pub prefix_sound : {x : Route R V} → In x r.prefix → (x.match_type ≡ match_prefix) × In x bs
  pub prefix_complete : {x : Route R V} → x.match_type ≡ match_prefix → In x bs → In x r.prefix
  pub prefix_order : InOrder longer r.prefix
  pub regex_sound : {x : Route R V} → In x r.regexes → (x.match_type ≡ match_regex) × In x bs
  pub regex_complete : {x : Route R V} → x.match_type ≡ match_regex → In x bs → In x r.regexes

prefix_of : {R V : Type 0} (x : Route R V) → prefix_route x ≡ true → x.match_type ≡ match_prefix
prefix_of x e = ground arith

regex_of : {R V : Type 0} (x : Route R V) → regex_route x ≡ true → x.match_type ≡ match_regex
regex_of x e = ground arith

-- The router keeps its prefix routes by descending length of the path.
longer-ByKey : {R V : Type 0} → ByKey (longer {R = R} {V = V})
longer-ByKey = record { key = λ x. sub_ℕ 0 x.path_len; compares = λ x y. ground arith }

pub sorted-Holds :
    (sorting : Sorting) (regexps : Regexps) (to_upper : String → String) {V : Type 0}
    (r : Router regexps.Regexp V) (bs : List (Route regexps.Regexp V))
    → Represents r bs
    → Holds (sort_prefixes sorting regexps to_upper r) bs
sorted-Holds sorting regexps to_upper r bs h = record {
  sound = h.sound;
  complete = h.complete;
  prefix_sound = λ {x} m.
      (let (e, i) =
          In-filter prefix_route bs
            (subst (In x) h.prefixes (In-permᴰ (sorting.sort_slice-perm _ longer r.prefix) m)) in
        (prefix_of x e, i));
  prefix_complete = λ {x} t i.
      In-permᴰ (Permᴰ.symm (sorting.sort_slice-perm _ longer r.prefix))
        (subst (In x) (sym h.prefixes) (filter-In prefix_route bs (ap is_prefix t) i));
  prefix_order = sorting.sort_slice-InOrder _ longer longer-ByKey r.prefix;
  regex_sound = λ {x} m.
      (let (e, i) = In-filter regex_route bs (subst (In x) h.regexes m) in (regex_of x e, i));
  regex_complete =
      λ {x} t i. subst (In x) (sym h.regexes) (filter-In regex_route bs (ap is_regex t) i);
}
