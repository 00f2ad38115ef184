-- ===== src/Validator/Names.antt =====
-- Sets of names, and what makes a list of names fit for one.
use go_gateway.Prelude.{
  ◌≡◌, ◌≢◌, refl, ◌↔◌, Bool, false, List, [], ◌∷◌, ◌++◌, String, insert, lookup-insert, ◌==◌, ◌||◌,
  All, arith, eq_iff,
}
use go_gateway.Validator.{Names, has, Problem, when}

pub has-insert : (j k : String) (m : Names) → has j (insert k tt m) ≡ (k == j || has j m)
has-insert j k m = ground (arith, lookup-insert k j (tt {0}) m)

-- No two members are equal.
abbrev pub Distinct : List String → Type 0
Distinct [] = Unit
Distinct (x ∷ xs) = All (λ y. x ≢ y) xs × Distinct xs

-- No member is in the set.
abbrev pub Fresh : Names → List String → Type 0
Fresh seen xs = All (λ x. has x seen ≡ false) xs

pub Fresh-insert :
    (k : String) (seen : Names) (xs : List String)
    → Fresh (insert k tt seen) xs ↔ (All (λ y. k ≢ y) xs × Fresh seen xs)
Fresh-insert k seen [] = ((λ _. (tt, tt)), (λ _. tt))
Fresh-insert k seen (x ∷ xs) =
    ground (arith, has-insert x k seen, eq_iff k x, Fresh-insert k seen xs)

pub append-eq-nil {ℓ} : {A : Type ℓ} (xs ys : List A) → (xs ++ ys ≡ []) ↔ ((xs ≡ []) × (ys ≡ []))
append-eq-nil [] ys = ((λ e. (refl, e)), (λ e. e.1))
append-eq-nil (x ∷ xs) ys = ground arith

pub when-nil_iff : (b : Bool) (p : Problem) → (when b p ≡ []) ↔ (b ≡ false)
when-nil_iff b p = ground arith
