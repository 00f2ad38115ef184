-- ===== src/Go/Sample.antt =====
-- Functions that meet what the model asks of Go's library, for tests and for the theorems at concrete
-- inputs: insertion sort, and patterns that are plain prefixes.
use mathlib.Core.List.{Permᴰ}
use mathlib.Core.List.Permᴰ
use text.Mathlib.Text.{starts_with}
use go_gateway.Prelude.{
  ◌≡◌, refl, Bool, true, false, List, [], ◌∷◌, String, none, some, InOrder, All, if◌then◌else◌,
  arith, Bool-cases, ◌==◌, inl, inr,
}
use go_gateway.Go.{ByKey, Sorting, Regexps}

module _ {A : Type 0} (less : A → A → Bool) where
  insert_sorted : A → List A → List A
  insert_sorted x [] = x ∷ []
  insert_sorted x (y ∷ ys) = if less y x then y ∷ insert_sorted x ys else x ∷ y ∷ ys

  pub insertion_sort : List A → List A
  unfolding insert_sorted
  insertion_sort [] = []
  insertion_sort (x ∷ xs) = insert_sorted x (insertion_sort xs)

  insert_sorted-perm : (x : A) (ys : List A) → Permᴰ (insert_sorted x ys) (x ∷ ys)
  unfolding insert_sorted
  insert_sorted-perm x [] = Permᴰ.refl (x ∷ [])
  insert_sorted-perm x (y ∷ ys) = elim (Bool-cases (less y x)) [
    | inl e ↦ rw e (Permᴰ.trans (Permᴰ.cons refl (insert_sorted-perm x ys)) (Permᴰ.swap refl refl))
    | inr e ↦ rw e (Permᴰ.refl (x ∷ y ∷ ys))
  ]

  pub insertion_sort-perm : (xs : List A) → Permᴰ (insertion_sort xs) xs
  unfolding insertion_sort
  insertion_sort-perm [] = Permᴰ.nil
  insertion_sort-perm (x ∷ xs) =
      Permᴰ.trans (insert_sorted-perm x (insertion_sort xs))
        (Permᴰ.cons refl (insertion_sort-perm xs))

  module _ (by_key : ByKey less) where
    not_after : (x y z : A) → less y x ≡ false → less z y ≡ false → less z x ≡ false
    not_after x y z p q =
        ground (arith, by_key.compares y x, by_key.compares z y, by_key.compares z x)

    All-not_after :
        (x y : A) (zs : List A)
        → less y x ≡ false
        → All (λ z. less z y ≡ false) zs
        → All (λ z. less z x ≡ false) zs
    All-not_after x y [] p _ = tt
    All-not_after x y (z ∷ zs) p (q, qs) = (not_after x y z p q, All-not_after x y zs p qs)

    All-insert_sorted :
        (x y : A) (zs : List A)
        → less y x ≡ true
        → All (λ z. less z y ≡ false) zs
        → All (λ z. less z y ≡ false) (insert_sorted x zs)
    unfolding insert_sorted
    All-insert_sorted x y [] p _ = (ground (arith, by_key.compares y x, by_key.compares x y), tt)
    All-insert_sorted x y (z ∷ zs) p (q, qs) = elim (Bool-cases (less z x)) [
      | inl e ↦ rw e (q, All-insert_sorted x y zs p qs)
      | inr e ↦ rw e (ground (arith, by_key.compares y x, by_key.compares x y), (q, qs))
    ]

    insert_sorted-InOrder :
        (x : A) (ys : List A) → InOrder less ys → InOrder less (insert_sorted x ys)
    unfolding insert_sorted
    insert_sorted-InOrder x [] _ = (tt, tt)
    insert_sorted-InOrder x (y ∷ ys) (p, ps) = elim (Bool-cases (less y x)) [
      | inl e ↦ rw e (All-insert_sorted x y ys e p, insert_sorted-InOrder x ys ps)
      | inr e ↦ rw e ((e, All-not_after x y ys e p), (p, ps))
    ]

    pub insertion_sort-InOrder : (xs : List A) → InOrder less (insertion_sort xs)
    unfolding insertion_sort
    insertion_sort-InOrder [] = tt
    insertion_sort-InOrder (x ∷ xs) =
        insert_sorted-InOrder x (insertion_sort xs) (insertion_sort-InOrder xs)

unfoldable pub sorting : Sorting
unfolding insertion_sort
sorting = record {
  sort_slice = insertion_sort;
  sort_slice-perm = λ A less xs. insertion_sort-perm less xs;
  sort_slice-InOrder = λ A less by_key xs. insertion_sort-InOrder less by_key xs;
}

-- A pattern is a prefix; the one pattern "(" does not compile.
abbrev pub regexps : Regexps
regexps = record {
  Regexp = String;
  compile = λ p. if p == "(" then none else some p;
  match_string = λ p s. starts_with s p;
}
