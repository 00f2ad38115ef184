-- ===== src/Plugin/Order.antt =====
-- What `Build` makes of the plugin references of a route.
use mathlib.Core.List.{Permᴰ}
use go_gateway.Prelude.{
  ◌≡◌, refl, ◌∙◌, ap, subst, ◌↔◌, List, [], ◌∷◌, String, Option, none, some, Map, lookup, insert,
  lookup-insert, ◌==◌, arith, InOrder, Option-cases, ◌⊎◌, inl, inr, if◌then◌else◌,
}
use go_gateway.Config.{PluginDef, PluginRef}
use go_gateway.Go.{Sorting}
use go_gateway.Router.{earlier}
use go_gateway.Plugin.{
  Plugin, Factory, Registry, BuildError, Result, ok, err, name_to_type, build_one, build_each,
  build,
}

abbrev or_type : Option String → Option String → Option String
or_type none b = b
or_type (some t) b = some t

-- The type in the last definition of a name.
abbrev pub last_type : String → List PluginDef → Option String
last_type name [] = none
last_type name (d ∷ ds) = or_type (last_type name ds) (if d.name == name then some d.type else none)

lookup-name_to_type_from :
    (name : String) (ds : List PluginDef) (m : Map String)
    → lookup name (name_to_type ds m) ≡ or_type (last_type name ds) (lookup name m)
unfolding name_to_type
lookup-name_to_type_from name [] m = refl
lookup-name_to_type_from name (d ∷ ds) m = ground (
  arith,
  lookup-name_to_type_from name ds (insert d.name d.type m),
  lookup-insert d.name name d.type m,
)

or_type-none : (a : Option String) → or_type a none ≡ a
or_type-none none = refl
or_type-none (some t) = refl

lookup-name_to_type :
    (name : String) (ds : List PluginDef) → lookup name (name_to_type ds []) ≡ last_type name ds
lookup-name_to_type name ds = lookup-name_to_type_from name ds [] ∙ or_type-none (last_type name ds)

abbrev of_result {ℓ} : {A : Type ℓ} → A → Result A → A
of_result a (ok b) = b
of_result a (err e) = a

pub ok_inj {ℓ} : {A : Type ℓ} {a b : A} → Path (Result A) (ok a) (ok b) → a ≡ b
ok_inj {A} {a} e = ap (of_result a) e

pub Result-cases {ℓ} :
    {A : Type ℓ} (x : Result A) → ((e : BuildError) × (x ≡ err e)) ⊎ ((a : A) × (x ≡ ok a))
Result-cases (ok a) = inr (a, refl)
Result-cases (err e) = inl (e, refl)

module _ {Q V : Type 0} (r : Registry Q V) (defs : List PluginDef) where
  -- The plugin that a reference stands for: the factory that is registered for the type of its last
  -- definition makes it from the configuration of the reference.
  pub record MakesOf (ref : PluginRef V) (p : Plugin Q) : Type 0 where
    pub type_name : String
    pub defined : last_type ref.name defs ≡ some type_name
    pub factory : Factory Q V
    pub registered : lookup type_name r ≡ some factory
    pub made : factory ref.config ≡ some p

  pub data MakesAll : List (PluginRef V) → List (Plugin Q) → Type 0 where
    made_none : MakesAll [] []
    made_more :
        {ref : PluginRef V} {refs : List (PluginRef V)} {p : Plugin Q} {ps : List (Plugin Q)}
        → MakesOf ref p
        → MakesAll refs ps
        → MakesAll (ref ∷ refs) (p ∷ ps)

  build_one-MakesOf :
      (ref : PluginRef V) (p : Plugin Q)
      → build_one r (name_to_type defs []) ref ≡ ok p
      → MakesOf ref p
  unfolding build_one
  build_one-MakesOf ref p e = elim (Option-cases (last_type ref.name defs)) [
    | inl n ↦ absurd (ground (arith, rw (lookup-name_to_type ref.name defs, n) at e))
    | inr (t, d) ↦
        (let e₁ = rw (lookup-name_to_type ref.name defs, d) at e in
          elim (Option-cases (lookup t r)) [
            | inl n ↦ absurd (ground (arith, rw n at e₁))
            | inr (f, g) ↦
                (let e₂ = rw g at e₁ in
                  elim (Option-cases (f ref.config)) [
                    | inl n ↦ absurd (ground (arith, rw n at e₂))
                    | inr (q, c) ↦ record {
                      type_name = t;
                      defined = d;
                      factory = f;
                      registered = g;
                      made = c ∙ ap some (ok_inj (rw c at e₂));
                    }
                  ])
          ])
  ]

  MakesOf-build_one :
      (ref : PluginRef V) (p : Plugin Q)
      → MakesOf ref p
      → build_one r (name_to_type defs []) ref ≡ ok p
  unfolding build_one
  MakesOf-build_one ref p m =
      rw (lookup-name_to_type ref.name defs, m.defined, m.registered, m.made) refl

  MakesAll-build_each :
      (refs : List (PluginRef V)) (ps : List (Plugin Q))
      → MakesAll refs ps
      → build_each r (name_to_type defs []) refs ≡ ok ps
  unfolding build_each
  MakesAll-build_each refs ps made_none = refl
  MakesAll-build_each (ref ∷ refs) (p ∷ ps) (made_more m ms) =
      rw (MakesOf-build_one ref p m, MakesAll-build_each refs ps ms) refl

  build_each-MakesAll :
      (refs : List (PluginRef V)) (ps : List (Plugin Q))
      → build_each r (name_to_type defs []) refs ≡ ok ps
      → MakesAll refs ps
  unfolding build_each
  build_each-MakesAll [] ps e = subst (MakesAll []) (ok_inj e) made_none
  build_each-MakesAll (ref ∷ refs) ps e =
      elim (Result-cases (build_one r (name_to_type defs []) ref)) [
        | inl (why, n) ↦ absurd (ground (arith, rw n at e))
        | inr (p, one) ↦
            (let e₁ = rw one at e in
              elim (Result-cases (build_each r (name_to_type defs []) refs)) [
                | inl (why, n) ↦ absurd (ground (arith, rw n at e₁))
                | inr (qs, rest) ↦
                    subst (MakesAll (ref ∷ refs)) (ok_inj (rw rest at e₁))
                      (made_more (build_one-MakesOf ref p one) (build_each-MakesAll refs qs rest))
              ])
      ]

-- `Build` succeeds with a list of plugins exactly when there is one plugin for each reference, in the
-- sorted order, made by the factory that is registered for the type in the last definition of its
-- name; so it fails exactly when some reference has no such plugin.
pub build-ok_iff :
    (sorting : Sorting) {Q V : Type 0} (r : Registry Q V) (defs : List PluginDef)
    (refs : List (PluginRef V)) (ps : List (Plugin Q))
    → (build sorting r defs refs ≡ ok ps) ↔ MakesAll r defs (sorting.sort_slice earlier refs) ps
unfolding build
build-ok_iff sorting r defs refs ps =
    (build_each-MakesAll r defs _ ps, MakesAll-build_each r defs _ ps)

-- When `Build` succeeds, its plugins run in ascending order: they are those of the references of the
-- route, each reference once, in an order in which none comes before one of lower order.
pub build-ascending :
    (sorting : Sorting) {Q V : Type 0} (r : Registry Q V) (defs : List PluginDef)
    (refs : List (PluginRef V)) (ps : List (Plugin Q))
    → build sorting r defs refs ≡ ok ps
    → (sorted : List (PluginRef V)) × Permᴰ sorted refs
      × InOrder earlier sorted
      × MakesAll r defs sorted ps
build-ascending sorting {Q} {V} r defs refs ps e = (
  sorting.sort_slice earlier refs,
  sorting.sort_slice-perm (PluginRef V) earlier refs,
  sorting.sort_slice-InOrder (PluginRef V) earlier
      (record { key = λ x. x.order; compares = λ x y. refl }) refs,
  (build-ok_iff sorting r defs refs ps).0 e,
)
