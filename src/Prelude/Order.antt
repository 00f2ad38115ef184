-- ===== src/Prelude/Order.antt =====
-- The first member that passes a test, in a list that is in order, and members under permutation.
use mathlib.Core.List.{List, [], ◌∷◌, Permᴰ}
use mathlib.Core.Path.{◌≡◌, sym, ap, subst, ◌∙◌}
use mathlib.Core.Bool.{Bool, true, false}
use mathlib.Core.Option.{none, some}
use native.Mathlib.Omega.{arith}
use mathlib.Core.Logic.{inl, inr}
use go_gateway.Prelude.Tests.{Bool-cases, some_inj}
use go_gateway.Prelude.Lists.{In, find?, All}

module _ {ℓ} {A : Type ℓ} where
  pub In-permᴰ : {x : A} {xs ys : List A} → Permᴰ xs ys → In x xs → In x ys
  In-permᴰ Permᴰ.nil m = m
  In-permᴰ (Permᴰ.cons e p) (In.here h) = In.here (h ∙ e)
  In-permᴰ (Permᴰ.cons e p) (In.there m) = In.there (In-permᴰ p m)
  In-permᴰ (Permᴰ.swap e f) (In.here h) = In.there (In.here (h ∙ e))
  In-permᴰ (Permᴰ.swap e f) (In.there (In.here h)) = In.here (h ∙ f)
  In-permᴰ (Permᴰ.swap e f) (In.there (In.there m)) = In.there (In.there m)
  In-permᴰ (Permᴰ.trans p q) m = In-permᴰ q (In-permᴰ p m)

  pub find?-some :
      (p : A → Bool) (xs : List A) {x : A} → find? p xs ≡ some x → In x xs × (p x ≡ true)
  find?-some p [] e = absurd (ground (arith, e))
  find?-some p (y ∷ xs) {x} e = elim (Bool-cases (p y)) [
    | inl yes_y ↦
        (let same : y ≡ x = some_inj (rw yes_y at e) in
          (In.here (sym same), sym (ap p same) ∙ yes_y))
    | inr no_y ↦ (let (m, h) = find?-some p xs (rw no_y at e) in (In.there m, h))
  ]

  pub find?-none :
      (p : A → Bool) (xs : List A) {y : A} → find? p xs ≡ none → In y xs → p y ≡ true → ⊥
  find?-none p [] e m h = elim m [ ]
  find?-none p (x ∷ xs) {y} e m h = elim (Bool-cases (p x)) [
    | inl yes_x ↦ absurd (ground (arith, e, yes_x))
    | inr no_x ↦ later m (rw no_x at e) no_x (λ e' m'. find?-none p xs e' m' h)
  ]
    where
      later :
          In y (x ∷ xs) → find? p xs ≡ none → p x ≡ false → (find? p xs ≡ none → In y xs → ⊥) → ⊥
      later (In.here same) e' no_x rest = absurd (ground (arith, sym (ap p same) ∙ h, no_x))
      later (In.there m') e' no_x rest = rest e' m'

module _ {A : Type 0} where
  -- `less` never puts a later member before an earlier one.
  abbrev pub InOrder : (A → A → Bool) → List A → Type 0
  InOrder less [] = Unit
  InOrder less (x ∷ xs) = All (λ y. less y x ≡ false) xs × InOrder less xs

  pub All-In : (P : A → Type 0) (xs : List A) {x : A} → All P xs → In x xs → P x
  All-In P [] h m = elim m [ ]
  All-In P (y ∷ xs) (h, hs) (In.here e) = subst P (sym e) h
  All-In P (y ∷ xs) (h, hs) (In.there m) = All-In P xs hs m

  -- No member that passes the test comes before the first one that does.
  pub find?-first :
      (less : A → A → Bool) (p : A → Bool) (xs : List A) (x y : A)
      → ((z : A) → less z z ≡ false)
      → InOrder less xs
      → find? p xs ≡ some x
      → In y xs
      → p y ≡ true
      → less y x ≡ false
  find?-first less p [] x y irrefl order e m h = elim m [ ]
  find?-first less p (z ∷ xs) x y irrefl (first, order) e m h = elim (Bool-cases (p z)) [
    | inl yes_z ↦ after m (some_inj (rw yes_z at e))
    | inr no_z ↦ before m no_z (λ m'. find?-first less p xs x y irrefl order (rw no_z at e) m' h)
  ]
    where
      after : In y (z ∷ xs) → z ≡ x → less y x ≡ false
      after (In.here same) found = subst (λ w. less y w ≡ false) (same ∙ found) (irrefl y)
      after (In.there m') found =
          subst (λ w. less y w ≡ false) found (All-In (λ w. less w z ≡ false) xs first m')

      before : In y (z ∷ xs) → p z ≡ false → (In y xs → less y x ≡ false) → less y x ≡ false
      before (In.here same) no_z rest = absurd (ground (arith, sym (ap p same) ∙ h, no_z))
      before (In.there m') no_z rest = rest m'
