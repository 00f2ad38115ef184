-- ===== src/Middleware/Pieces.antt =====
-- The parts of a text between its dashes, by recursion on the text.
use Prim.Native.String.{[] as empty, ◌∷◌ as ◌&◌, ◌++◌ as ◌+s+◌}
use Prim.Native.Char.{Char}
use text.Mathlib.TextLemmas.{
  nil-append as nil-append_s, cons-append as cons-append_s, append-nil as append-nil_s,
  append_assoc as append_assoc_s,
}
use mathlib.Core.List.{append_assoc}
use go_gateway.Prelude.{
  ◌≡◌, ◌≢◌, All, refl, sym, ap, subst, ◌∙◌, false, List, [], ◌∷◌, ◌++◌, String, arith, Bool-cases,
  inl, inr, eq_iff, if◌then◌else◌,
}
use go_gateway.Middleware.{is_dash, split_from, split_traceparent}

-- The parts joined by dashes.
unfoldable pub join_dashes : List String → String
join_dashes [] = empty
join_dashes (p ∷ []) = p
join_dashes (p ∷ q ∷ ps) = p +s+ ("-" +s+ join_dashes (q ∷ ps))

-- No character of the text is a dash.
abbrev pub Dashless : String → Type 0
Dashless empty = Unit
Dashless (c & s) = (is_dash (c & empty) ≡ false) × Dashless s

abbrev dash : Char
dash = "-"

dash-append : (t : String) → "-" +s+ t ≡ dash & t
dash-append t = cons-append_s dash empty t ∙ ap (λ u. dash & u) (nil-append_s t)

abbrev prepend : String → List String → List String
prepend x [] = x ∷ []
prepend x (p ∷ ps) = (x +s+ p) ∷ ps

-- The parts by recursion on the text.
pub pieces : String → List String
pieces empty = empty ∷ []
pieces (c & s) =
    let rest = pieces s in if is_dash (c & empty) then empty ∷ rest else prepend (c & empty) rest

prepend_made : (x : String) (ps : List String) → prepend x ps ≢ []
prepend_made x [] e = ground (arith, e)
prepend_made x (p ∷ ps) e = ground (arith, e)

pieces_made : (s : String) → pieces s ≢ []
unfolding pieces
pieces_made empty e = ground (arith, e)
pieces_made (c & s) e = elim (Bool-cases (is_dash (c & empty))) [
  | inl d ↦ ground (arith, rw d at e)
  | inr d ↦ prepend_made (c & empty) (pieces s) (rw d at e)
]

empty_prepended : (ps : List String) → ps ≢ [] → prepend empty ps ≡ ps
empty_prepended [] h = absurd (h refl)
empty_prepended (p ∷ ps) h = ap (λ q. q ∷ ps) (nil-append_s p)

prepend_twice : (x y : String) (ps : List String) → prepend x (prepend y ps) ≡ prepend (x +s+ y) ps
prepend_twice x y [] = refl
prepend_twice x y (p ∷ ps) = ap (λ q. q ∷ ps) (sym (append_assoc_s x y p))

split_from-pieces :
    (parts : List String) (part s : String)
    → split_from parts part s ≡ parts ++ prepend part (pieces s)
unfolding split_from pieces
split_from-pieces parts part empty = ap (λ p. parts ++ p ∷ []) (sym (append-nil_s part))
split_from-pieces parts part (c & s) = elim (Bool-cases (is_dash (c & empty))) [
  | inl e ↦ rw e (
      split_from-pieces (parts ++ part ∷ []) empty s
      ∙ append_assoc parts (part ∷ []) (prepend empty (pieces s))
      ∙ ap (λ ps. parts ++ ps)
          (ap (λ ps. part ∷ ps) (empty_prepended (pieces s) (pieces_made s))
            ∙ ap (λ p. p ∷ pieces s) (sym (append-nil_s part))))
  | inr e ↦ rw e (
      split_from-pieces parts (part +s+ (c & empty)) s
      ∙ ap (λ ps. parts ++ ps) (sym (prepend_twice part (c & empty) (pieces s))))
]

-- The parts by recursion are the parts of the loop.
pub split-pieces : (s : String) → split_traceparent s ≡ pieces s
unfolding split_traceparent
split-pieces s = split_from-pieces [] empty s ∙ empty_prepended (pieces s) (pieces_made s)

join-cons :
    (p : String) (ps : List String)
    → ps ≢ []
    → join_dashes (p ∷ ps) ≡ p +s+ ("-" +s+ join_dashes ps)
unfolding join_dashes
join-cons p [] h = absurd (h refl)
join-cons p (q ∷ ps) h = refl

join-prepend : (x : String) (ps : List String) → join_dashes (prepend x ps) ≡ x +s+ join_dashes ps
unfolding join_dashes
join-prepend x [] = sym (append-nil_s x)
join-prepend x (p ∷ []) = refl
join-prepend x (p ∷ q ∷ ps) = append_assoc_s x p _

pub join-pieces : (s : String) → join_dashes (pieces s) ≡ s
unfolding pieces
join-pieces empty = unfold join_dashes in refl
join-pieces (c & s) = elim (Bool-cases (is_dash (c & empty))) [
  | inl e ↦ rw e (
      join-cons empty (pieces s) (pieces_made s)
      ∙ nil-append_s _
      ∙ ap (λ t. "-" +s+ t) (join-pieces s)
      ∙ ap (λ d. d +s+ s) (sym ((eq_iff (c & empty) "-").0 e))
      ∙ cons-append_s c empty s
      ∙ ap (λ t. c & t) (nil-append_s s))
  | inr e ↦ rw e (
      join-prepend (c & empty) (pieces s)
      ∙ ap (λ t. (c & empty) +s+ t) (join-pieces s)
      ∙ cons-append_s c empty s
      ∙ ap (λ t. c & t) (nil-append_s s))
]

pieces-append : (p t : String) → Dashless p → pieces (p +s+ t) ≡ prepend p (pieces t)
unfolding pieces
pieces-append empty t h =
    ap pieces (nil-append_s t) ∙ sym (empty_prepended (pieces t) (pieces_made t))
pieces-append (c & p) t (d, h) =
    ap pieces (cons-append_s c p t)
    ∙ rw (pieces, d)
        (ap (prepend (c & empty)) (pieces-append p t h) ∙ prepend_twice (c & empty) p (pieces t))
    ∙ ap (λ x. prepend x (pieces t)) (cons-append_s c empty p ∙ ap (λ u. c & u) (nil-append_s p))

pieces-dash : (p t : String) → Dashless p → pieces (p +s+ ("-" +s+ t)) ≡ p ∷ pieces t
pieces-dash p t h =
    pieces-append p ("-" +s+ t) h
    ∙ ap (λ u. prepend p (pieces u)) (dash-append t)
    ∙ (unfold pieces in ap (λ q. q ∷ pieces t) (append-nil_s p))

pieces-last : (p : String) → Dashless p → pieces p ≡ p ∷ []
pieces-last p h =
    ap pieces (sym (append-nil_s p))
    ∙ pieces-append p empty h
    ∙ (unfold pieces in ap (λ q. q ∷ []) (append-nil_s p))

pub pieces-join :
    (p : String) (ps : List String) → All Dashless (p ∷ ps) → pieces (join_dashes (p ∷ ps)) ≡ p ∷ ps
unfolding join_dashes
pieces-join p [] (h, hs) = pieces-last p h
pieces-join p (q ∷ ps) (h, hs) =
    pieces-dash p (join_dashes (q ∷ ps)) h ∙ ap (λ rest. p ∷ rest) (pieces-join q ps hs)

Dashless-append : (x y : String) → Dashless x → Dashless y → Dashless (x +s+ y)
Dashless-append empty y h k = subst Dashless (sym (nil-append_s y)) k
Dashless-append (c & x) y (d, h) k =
    subst Dashless (sym (cons-append_s c x y)) (d, Dashless-append x y h k)

All-prepend :
    (x : String) (ps : List String) → Dashless x → All Dashless ps → All Dashless (prepend x ps)
All-prepend x [] h hs = (h, tt)
All-prepend x (p ∷ ps) h (k, hs) = (Dashless-append x p h k, hs)

pub pieces-Dashless : (s : String) → All Dashless (pieces s)
unfolding pieces
pieces-Dashless empty = (tt, tt)
pieces-Dashless (c & s) = elim (Bool-cases (is_dash (c & empty))) [
  | inl e ↦ rw e (tt, pieces-Dashless s)
  | inr e ↦ rw e (All-prepend (c & empty) (pieces s) (e, tt) (pieces-Dashless s))
]

pub one_piece : pieces empty ≡ empty ∷ []
unfolding pieces
one_piece = refl
