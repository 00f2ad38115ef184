-- ===== src/Go.antt =====
-- What the gateway takes from Go's standard library and has no text of its own for: `sort.Slice`,
-- `regexp`, `strings.ToUpper`, the arithmetic of `float64` and the type assertions of `any`. Each is a parameter of the model with the documented behaviour
-- that the code relies on.
pub mod Float
pub mod Sample
pub mod Value
pub mod Whole
use mathlib.Core.List.{Permᴰ}
use go_gateway.Prelude.{
  ℤ, pos, ltb_ℤ, ◌≡◌, Bool, true, false, List, [], ◌∷◌, String, Option, InOrder,
}

-- A strict weak order, in the form that a comparison by a key has.
pub record ByKey {A : Type 0} (less : A → A → Bool) : Type 0 where
  pub key : A → ℤ
  pub compares : (x y : A) → less x y ≡ ltb_ℤ (key x) (key y)

-- `sort.Slice(x, less)`: "sorts the slice x given the provided less function. The sort is not
-- guaranteed to be stable." Equal members may come out in any order.
pub record Sorting : Type 1 where
  pub sort_slice : {A : Type 0} → (A → A → Bool) → List A → List A
  pub sort_slice-perm :
      (A : Type 0) (less : A → A → Bool) (xs : List A) → Permᴰ (sort_slice less xs) xs
  pub sort_slice-InOrder :
      (A : Type 0) (less : A → A → Bool)
      → ByKey less
      → (xs : List A) → InOrder less (sort_slice less xs)

-- `regexp.Compile` and `(*Regexp).MatchString`; `none` is a pattern that does not compile.
pub record Regexps : Type 1 where
  pub Regexp : Type 0
  pub compile : String → Option Regexp
  pub match_string : Regexp → String → Bool
