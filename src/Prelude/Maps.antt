-- ===== src/Prelude/Maps.antt =====
-- Go maps with text keys, as association lists: `m[k]`, `m[k] = v`, `delete(m, k)`.
use Prim.Native.String.{String}
use mathlib.Core.Path.{◌≡◌, refl}
use mathlib.Core.Bool.{Bool}
use mathlib.Core.Option.{Option, none, some}
use mathlib.Core.List.{List, [], ◌∷◌}
use native.Mathlib.Omega.{arith}
use text.Mathlib.Text.{◌==◌ as str_eq}
use text.Mathlib.TextEquality.{eq_iff}
use go_gateway.Prelude.Tests.{if◌then◌else◌}

infix 50 ◌==◌
abbrev pub ◌==◌ : String → String → Bool
s == t = str_eq s t

abbrev pub Map {ℓ} : Type ℓ → Type ℓ
Map V = List (String × V)

module _ {ℓ} {V : Type ℓ} where
  abbrev pub lookup : String → List (String × V) → Option V
  lookup name [] = none
  lookup name ((key, value) ∷ rest) = if key == name then some value else lookup name rest

  abbrev pub insert : String → V → List (String × V) → List (String × V)
  insert name new [] = (name, new) ∷ []
  insert name new ((key, value) ∷ rest) =
      if key == name then (name, new) ∷ rest else (key, value) ∷ insert name new rest

  abbrev pub delete : String → List (String × V) → List (String × V)
  delete name [] = []
  delete name ((key, value) ∷ rest) =
      if key == name then delete name rest else (key, value) ∷ delete name rest

  pub lookup-insert :
      (at name : String) (new : V) (rest : List (String × V))
      → lookup name (insert at new rest) ≡ (if at == name then some new else lookup name rest)
  lookup-insert at name new [] = refl
  lookup-insert at name new ((key, value) ∷ rest) =
      ground (arith, lookup-insert at name new rest, eq_iff at name, eq_iff key at, eq_iff key name)

  pub lookup-delete :
      (at name : String) (rest : List (String × V))
      → lookup name (delete at rest) ≡ (if at == name then none else lookup name rest)
  lookup-delete at name [] = ground arith
  lookup-delete at name ((key, value) ∷ rest) =
      ground (arith, lookup-delete at name rest, eq_iff at name, eq_iff key at, eq_iff key name)
