-- ===== src/Prelude/Lists.antt =====
-- Lists measured and indexed by native numbers, predicates on their members, and filtering by a
-- Boolean test.
use Prim.Native.Nat.{ℕ, zero, suc, ◌+◌}
use mathlib.Core.Path.{◌≡◌, sym, ap, ◌∙◌}
use mathlib.Core.Logic.{inl, inr}
use mathlib.Core.Bool.{Bool, true, false}
use mathlib.Core.List.{List, [], ◌∷◌, ◌++◌}
use mathlib.Core.Option.{Option, none, some}
use native.Mathlib.Omega.{arith}
use go_gateway.Prelude.Tests.{if◌then◌else◌, Bool-cases}

module _ {ℓ} {A : Type ℓ} where
  abbrev pub length : List A → ℕ
  length [] = 0
  length (x ∷ xs) = suc (length xs)

  abbrev pub get_elem? : List A → ℕ → Option A
  get_elem? [] i = none
  get_elem? (x ∷ xs) zero = some x
  get_elem? (x ∷ xs) (suc i) = get_elem? xs i

  pub length-append : (xs ys : List A) → length (xs ++ ys) ≡ length xs + length ys
  length-append [] ys = omega arith
  length-append (x ∷ xs) ys = omega (arith, length-append xs ys)

  -- The members that pass a test, in order: Go's `for … { if test { out = append(out, x) } }`.
  abbrev pub filter : (A → Bool) → List A → List A
  filter p [] = []
  filter p (x ∷ xs) = if p x then x ∷ filter p xs else filter p xs

  -- The first member that passes a test: Go's `for … { if test { return x } }`.
  abbrev pub find? : (A → Bool) → List A → Option A
  find? p [] = none
  find? p (x ∷ xs) = if p x then some x else find? p xs

  abbrev pub is_nil : List A → Bool
  is_nil [] = true
  is_nil (x ∷ xs) = false

module _ {ℓ κ} {A : Type ℓ} where
  abbrev pub All : (A → Type κ) → List A → Type κ
  All P [] = Unit
  All P (x ∷ xs) = P x × All P xs

module _ {ℓ} {A : Type ℓ} where
  -- `x` stands somewhere in the list.
  pub data In (x : A) : List A → Type ℓ where
    here : {y : A} {xs : List A} → x ≡ y → In x (y ∷ xs)
    there : {y : A} {xs : List A} → In x xs → In x (y ∷ xs)

  pub In-append_left : {x : A} {xs : List A} (ys : List A) → In x xs → In x (xs ++ ys)
  In-append_left ys (here e) = here e
  In-append_left ys (there m) = there (In-append_left ys m)

  pub In-append_right : {x : A} (xs : List A) {ys : List A} → In x ys → In x (xs ++ ys)
  In-append_right [] m = m
  In-append_right (y ∷ xs) m = there (In-append_right xs m)

  In-filter_kept :
      (p : A → Bool) (y : A) {x : A} {xs ys : List A}
      → p y ≡ true
      → (In x ys → (p x ≡ true) × In x xs)
      → In x (y ∷ ys)
      → (p x ≡ true) × In x (y ∷ xs)
  In-filter_kept p y e rest (here h) = (ap p h ∙ e, here h)
  In-filter_kept p y e rest (there k) = let (q, l) = rest k in (q, there l)

  -- What a filter keeps passes the test and was in the list.
  pub In-filter : (p : A → Bool) (xs : List A) {x : A} → In x (filter p xs) → (p x ≡ true) × In x xs
  In-filter p [] m = elim m [ ]
  In-filter p (y ∷ xs) {x} m = elim (Bool-cases (p y)) [
    | inl e ↦ In-filter_kept p y e (In-filter p xs) (rw e at m)
    | inr e ↦ let (q, k) = In-filter p xs (rw e at m) in (q, there k)
  ]

  -- A filter keeps every member that passes the test.
  pub filter-In : (p : A → Bool) (xs : List A) {x : A} → p x ≡ true → In x xs → In x (filter p xs)
  filter-In p [] h m = elim m [ ]
  filter-In p (y ∷ xs) h (here e) = rw (sym (ap p e) ∙ h) (here e)
  filter-In p (y ∷ xs) h (there m) = elim (Bool-cases (p y)) [
    | inl e ↦ rw e (there (filter-In p xs h m))
    | inr e ↦ rw e (filter-In p xs h m)
  ]
