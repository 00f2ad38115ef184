-- ===== src/Router/Index.antt =====
-- The keys of the exact routes: a method that is a token, a colon and the path can be taken apart.
use Prim.Native.Char.{Char, code}
use Prim.Native.String.{[], ◌∷◌}
use text.Mathlib.TextLemmas.{nil-append, cons-append, cons-eq-cons}
use go_gateway.Prelude.{◌≡◌, ◌≢◌, refl, sym, ◌∙◌, ap, String}
use go_gateway.Router.{key, any_key}

abbrev pub NoColon : String → Type 0
NoColon [] = Unit
NoColon (c ∷ s) = (code c ≢ b':') × NoColon s

-- What HTTP allows as a method is not empty and has no colon.
abbrev pub IsToken : String → Type 0
IsToken s = (s ≢ "") × NoColon s

abbrev colon : Char
colon = ":"

any_key-cons : (p : String) → any_key p ≡ colon ∷ p
any_key-cons p = cons-append colon [] p ∙ ap (λ s. colon ∷ s) (nil-append p)

key-cons : (c : Char) (m p : String) → key (c ∷ m) p ≡ c ∷ key m p
key-cons c m p = cons-append c m (any_key p)

key-nil : (p : String) → key [] p ≡ colon ∷ p
key-nil p = nil-append (any_key p) ∙ any_key-cons p

colon-first : (c : Char) (m p q s : String) → code c ≢ b':' → s ≡ colon ∷ q → key (c ∷ m) p ≡ s → ⊥
colon-first c m p q s h es e = h (ap code (cons-eq-cons.0 (sym (key-cons c m p) ∙ e ∙ es)).0)

pub key_injective :
    (m n p q : String) → NoColon m → NoColon n → key m p ≡ key n q → (m ≡ n) × (p ≡ q)
key_injective [] [] p q _ _ e = (refl, (cons-eq-cons.0 (sym (key-nil p) ∙ e ∙ key-nil q)).1)
key_injective [] (d ∷ n) p q _ (h, _) e =
    absurd (colon-first d n q p (key [] p) h (key-nil p) (sym e))
key_injective (c ∷ m) [] p q (h, _) _ e = absurd (colon-first c m p q (key [] q) h (key-nil q) e)
key_injective (c ∷ m) (d ∷ n) p q (_, hm) (_, hn) e =
    let (head, tail) = cons-eq-cons.0 (sym (key-cons c m p) ∙ e ∙ key-cons d n q) in
    let (methods, paths) = key_injective m n p q hm hn tail in ((λ i. head i ∷ methods i), paths)

pub key-ne-any_key : (m p q : String) → IsToken m → key m p ≡ any_key q → ⊥
key-ne-any_key [] p q (h, _) e = h refl
key-ne-any_key (c ∷ m) p q (_, (h, _)) e = colon-first c m p q (any_key q) h (any_key-cons q) e

pub any_key_injective : (p q : String) → any_key p ≡ any_key q → p ≡ q
any_key_injective p q e = (cons-eq-cons.0 (sym (any_key-cons p) ∙ e ∙ any_key-cons q)).1
