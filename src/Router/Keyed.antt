-- ===== src/Router/Keyed.antt =====
-- The keys under which `New` stores the exact routes, and what the router holds.
use go_gateway.Prelude.{
  ◌≡◌, refl, sym, ◌∙◌, ap, subst, String, arith, Bool, true, false, List, [], ◌∷◌, ◌++◌, some,
  lookup, insert, lookup-insert, ◌==◌, if◌then◌else◌, In, filter, ◌⊎◌, inl, inr, eq_iff, Map,
  Bool-cases, is_nil,
}
use go_gateway.Router.{
  MatchType, match_exact, match_prefix, match_regex, Set, Route, Router, key, any_key, add_keys,
}

-- A key under which an exact route is stored.
abbrev pub KeyOf : {R V : Type 0} → String → Route R V → Type 0
KeyOf k x =
    ((m : String) × In (m, tt) x.methods × (k ≡ key m x.path))
    ⊎ (x.methods ≡ []) × (k ≡ any_key x.path)

abbrev pub Keyed : {R V : Type 0} → String → Route R V → Type 0
Keyed k x = (x.match_type ≡ match_exact) × KeyOf k x

abbrev pub is_prefix : MatchType → Bool
is_prefix match_prefix = true
is_prefix _ = false

abbrev pub is_regex : MatchType → Bool
is_regex match_regex = true
is_regex _ = false

abbrev pub prefix_route : {R V : Type 0} → Route R V → Bool
prefix_route x = is_prefix x.match_type

abbrev pub regex_route : {R V : Type 0} → Route R V → Bool
regex_route x = is_regex x.match_type

-- The router `r` holds the routes of the list `bs`.
pub record Represents {R V : Type 0} (r : Router R V) (bs : List (Route R V)) : Type 0 where
  pub prefixes : r.prefix ≡ filter prefix_route bs
  pub regexes : r.regexes ≡ filter regex_route bs
  pub sound : (k : String) (x : Route R V) → lookup k r.exact ≡ some x → In x bs × Keyed k x
  pub complete :
      (k : String) (x : Route R V)
      → In x bs
      → Keyed k x
      → (y : Route R V) × (lookup k r.exact ≡ some y)

nil_of_is_nil : (ms : Set) → is_nil ms ≡ true → ms ≡ []
nil_of_is_nil [] e = refl
nil_of_is_nil (x ∷ xs) e = ground (arith, e)

module _ {R V : Type 0} where
  lookup-insert_cases :
      (k j : String) (v x : Route R V) (m : Map (Route R V))
      → lookup j (insert k v m) ≡ some x
      → (k ≡ j) × (v ≡ x) ⊎ (lookup j m ≡ some x)
  lookup-insert_cases k j v x m e =
      let l = sym (lookup-insert k j v m) ∙ e in
      elim (Bool-cases (k == j)) [
        | inl same ↦ inl ((eq_iff k j).0 same, ground (arith, l, same))
        | inr other ↦ inr (ground (arith, l, other))
      ]

  lookup-insert_kept :
      (k j : String) (v y : Route R V) (m : Map (Route R V))
      → lookup j m ≡ some y
      → (z : Route R V) × (lookup j (insert k v m) ≡ some z)
  lookup-insert_kept k j v y m e = elim (Bool-cases (k == j)) [
    | inl same ↦ (v, rw (lookup-insert k j v m) (rw same))
    | inr other ↦ (y, rw (lookup-insert k j v m) (rw other e))
  ]

  lookup-insert_new :
      (k : String) (v : Route R V) (m : Map (Route R V)) → lookup k (insert k v m) ≡ some v
  lookup-insert_new k v m = rw (lookup-insert k k v m) (rw ((eq_iff k k).1 refl))

  add_keys_sound :
      (ms : Set) (route x : Route R V) (m : Map (Route R V)) (k : String)
      → lookup k (add_keys ms route m) ≡ some x
      → (route ≡ x) × ((j : String) × In (j, tt) ms × (k ≡ key j route.path))
        ⊎ (lookup k m ≡ some x)
  unfolding add_keys
  add_keys_sound [] route x m k e = inr e
  add_keys_sound ((j, _) ∷ ms) route x m k e =
      elim (add_keys_sound ms route x (insert (key j route.path) route m) k e) [
        | inl (same, (i, deeper, is_key)) ↦ inl (same, (i, In.there deeper, is_key))
        | inr e' ↦ elim (lookup-insert_cases (key j route.path) k route x m e') [
          | inl (is_key, same) ↦ inl (same, (j, In.here refl, sym is_key))
          | inr old ↦ inr old
        ]
      ]

  add_keys-kept :
      (ms : Set) (route y : Route R V) (m : Map (Route R V)) (k : String)
      → lookup k m ≡ some y
      → (z : Route R V) × (lookup k (add_keys ms route m) ≡ some z)
  unfolding add_keys
  add_keys-kept [] route y m k e = (y, e)
  add_keys-kept ((j, _) ∷ ms) route y m k e =
      let (z, e') = lookup-insert_kept (key j route.path) k route y m e in
      add_keys-kept ms route z (insert (key j route.path) route m) k e'

  add_keys_complete :
      (ms : Set) (route : Route R V) (m : Map (Route R V)) (j : String)
      → In (j, tt) ms
      → (z : Route R V) × (lookup (key j route.path) (add_keys ms route m) ≡ some z)
  unfolding add_keys
  add_keys_complete [] route m j i = elim i [ ]
  add_keys_complete ((k, _) ∷ ms) route m j (In.here e) =
      add_keys-kept ms route route (insert (key k route.path) route m) (key j route.path)
        (rw (ap (λ p. p.0) e) (lookup-insert_new (key k route.path) route m))
  add_keys_complete ((k, _) ∷ ms) route m j (In.there i) =
      add_keys_complete ms route (insert (key k route.path) route m) j i

  pub filter-append_drop :
      (p : Route R V → Bool) (xs : List (Route R V)) (y : Route R V)
      → p y ≡ false
      → filter p (xs ++ y ∷ []) ≡ filter p xs
  filter-append_drop p [] y e = ground arith
  filter-append_drop p (x ∷ xs) y e = ground (arith, filter-append_drop p xs y e)

  pub filter-append_keep :
      (p : Route R V → Bool) (xs : List (Route R V)) (y : Route R V)
      → p y ≡ true
      → filter p (xs ++ y ∷ []) ≡ filter p xs ++ y ∷ []
  filter-append_keep p [] y e = ground arith
  filter-append_keep p (x ∷ xs) y e = ground (arith, filter-append_keep p xs y e)

  pub In-append_last :
      (xs : List (Route R V)) {x y : Route R V} → In x (xs ++ y ∷ []) → In x xs ⊎ (y ≡ x)
  In-append_last [] (In.here e) = inr (sym e)
  In-append_last [] (In.there m) = elim m [ ]
  In-append_last (z ∷ xs) (In.here e) = inl (In.here e)
  In-append_last (z ∷ xs) (In.there m) = elim (In-append_last xs m) [
    | inl old ↦ inl (In.there old)
    | inr new_one ↦ inr new_one
  ]

  abbrev pub exact_after : Route R V → Map (Route R V) → Map (Route R V)
  exact_after route m =
      if is_nil route.methods
      then insert (any_key route.path) route (add_keys route.methods route m)
      else add_keys route.methods route m

  keyed_by_methods :
      (route x : Route R V) (k : String)
      → route ≡ x
      → (j : String) × In (j, tt) route.methods × (k ≡ key j route.path)
      → KeyOf k x
  keyed_by_methods route x k same found = subst (λ r. KeyOf k r) same (inl found)

  pub exact_after_sound :
      (route x : Route R V) (m : Map (Route R V)) (k : String)
      → lookup k (exact_after route m) ≡ some x
      → (route ≡ x) × KeyOf k x ⊎ (lookup k m ≡ some x)
  exact_after_sound route x m k e = elim (Bool-cases (is_nil route.methods)) [
    | inl empty ↦
        elim (lookup-insert_cases (any_key route.path) k route x (add_keys route.methods route m)
          (rw empty at e)) [
            | inl (is_key, same) ↦
                inl (same, subst (λ r. KeyOf k r) same (inr (nil_of_is_nil _ empty, sym is_key)))
            | inr old ↦ before (add_keys_sound route.methods route x m k old)
          ]
    | inr some_method ↦ before (add_keys_sound route.methods route x m k (rw some_method at e))
  ]
    where
      before :
          (route ≡ x) × ((j : String) × In (j, tt) route.methods × (k ≡ key j route.path))
            ⊎ (lookup k m ≡ some x)
          → (route ≡ x) × KeyOf k x ⊎ (lookup k m ≡ some x)
      before (inl (same, found)) = inl (same, keyed_by_methods route x k same found)
      before (inr old) = inr old

  pub exact_after-kept :
      (route y : Route R V) (m : Map (Route R V)) (k : String)
      → lookup k m ≡ some y
      → (z : Route R V) × (lookup k (exact_after route m) ≡ some z)
  exact_after-kept route y m k e =
      let (z, e') = add_keys-kept route.methods route y m k e in
      elim (Bool-cases (is_nil route.methods)) [
        | inl empty ↦ rw empty (lookup-insert_kept (any_key route.path) k route z _ e')
        | inr some_method ↦ (z, rw some_method e')
      ]

  pub exact_after_complete :
      (route : Route R V) (m : Map (Route R V)) (k : String)
      → KeyOf k route
      → (z : Route R V) × (lookup k (exact_after route m) ≡ some z)
  exact_after_complete route m k (inl (j, i, e)) =
      let (z, e') = add_keys_complete route.methods route m j i in
      elim (Bool-cases (is_nil route.methods)) [
        | inl empty ↦ rw empty (lookup-insert_kept (any_key route.path) k route z _ (rw e e'))
        | inr some_method ↦ (z, rw some_method (rw e e'))
      ]
  exact_after_complete route m k (inr (empty, e)) =
      let nothing : is_nil route.methods ≡ true = ap is_nil empty in
      (route, rw nothing (rw e (lookup-insert_new (any_key route.path) route _)))
