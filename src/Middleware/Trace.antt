-- ===== src/Middleware/Trace.antt =====
-- The parts of a `traceparent` header.
use Prim.Native.String.{[] as empty}
use go_gateway.Prelude.{
  ◌≡◌, ◌≢◌, ◌↔◌, All, refl, sym, ap, subst, ◌∙◌, List, [], ◌∷◌, String, arith, Bool-cases, inl, inr,
  eq_iff, ◌==◌,
}
use go_gateway.Middleware.Pieces.{
  join_dashes, Dashless, pieces, split-pieces, join-pieces, pieces-join, pieces-Dashless, one_piece,
}
use go_gateway.Middleware.{split_traceparent, second_of_four, extract_trace_id}

-- Splitting and joining at dashes are inverse: the parts of a text, joined, are the text, and the
-- join of one or more texts without a dash is split into these texts.
pub split-join :
    (s p : String) (ps : List String)
    → All Dashless (p ∷ ps)
    → (join_dashes (split_traceparent s) ≡ s) × (split_traceparent (join_dashes (p ∷ ps)) ≡ p ∷ ps)
split-join s p ps h = (
  ap join_dashes (split-pieces s) ∙ join-pieces s,
  split-pieces (join_dashes (p ∷ ps)) ∙ pieces-join p ps h,
)

-- A header of the four parts.
abbrev pub traceparent_of : String → String → String → String → String
traceparent_of v t p f = join_dashes (v ∷ t ∷ p ∷ f ∷ [])

Parts : String → List String → Type 0
Parts t parts = (v : String) × (p : String) × (f : String) × (parts ≡ v ∷ t ∷ p ∷ f ∷ [])

second-Parts :
    (parts : List String) → second_of_four parts ≢ "" → Parts (second_of_four parts) parts
unfolding Parts
second-Parts [] h = absurd (h refl)
second-Parts (v ∷ []) h = absurd (h refl)
second-Parts (v ∷ t ∷ []) h = absurd (h refl)
second-Parts (v ∷ t ∷ p ∷ []) h = absurd (h refl)
second-Parts (v ∷ t ∷ p ∷ f ∷ []) h = (v, p, f, refl)
second-Parts (v ∷ t ∷ p ∷ f ∷ x ∷ xs) h = absurd (h refl)

-- The four parts of a header are found.
extract-made :
    (v t p f : String)
    → All Dashless (v ∷ t ∷ p ∷ f ∷ [])
    → extract_trace_id (traceparent_of v t p f) ≡ t
unfolding extract_trace_id
extract-made v t p f h = elim (Bool-cases (traceparent_of v t p f == "")) [
  | inl e ↦ absurd (
      let gone : empty ∷ [] ≡ v ∷ t ∷ p ∷ f ∷ [] =
        sym one_piece
        ∙ sym (ap pieces ((eq_iff (traceparent_of v t p f) "").0 e))
        ∙ pieces-join v (t ∷ p ∷ f ∷ []) h in
      ground (arith, gone))
  | inr e ↦
      rw e (
        ap second_of_four
          (split-pieces (traceparent_of v t p f) ∙ pieces-join v (t ∷ p ∷ f ∷ []) h))
]

extract-second :
    (s : String)
    → extract_trace_id s ≢ ""
    → extract_trace_id s ≡ second_of_four (split_traceparent s)
unfolding extract_trace_id
extract-second s h = elim (Bool-cases (s == "")) [
  | inl e ↦ absurd (h (rw e refl))
  | inr e ↦ rw e refl
]

extract-Parts : (s t : String) → t ≢ "" → extract_trace_id s ≡ t → Parts t (split_traceparent s)
extract-Parts s t h e =
    let second = extract-second s (λ k. h (sym e ∙ k)) in
    let same = sym second ∙ e in
    subst (λ x. Parts x (split_traceparent s)) same
      (second-Parts (split_traceparent s) (λ k. h (sym same ∙ k)))

-- A trace identifier that is not empty is extracted from exactly the headers that consist of four
-- parts without dashes, joined by dashes, of which it is the second.
pub extract_trace_id_iff :
    (s t : String)
    → t ≢ ""
    → (extract_trace_id s ≡ t) ↔ (
        (v : String) × (p : String) × (f : String) × All Dashless (v ∷ t ∷ p ∷ f ∷ [])
        × (s ≡ traceparent_of v t p f))
unfolding Parts
extract_trace_id_iff s t h = (
  λ e.
      let (v, p, f, parts) = extract-Parts s t h e in
      let found = sym (split-pieces s) ∙ parts in
      (
        v,
        p,
        f,
        subst (All Dashless) found (pieces-Dashless s),
        sym (join-pieces s) ∙ ap join_dashes found,
      ),
  λ (v, p, f, dashless, e). ap extract_trace_id e ∙ extract-made v t p f dashless,
)
