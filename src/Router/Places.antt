-- ===== src/Router/Places.antt =====
-- The four places in which `Match` looks: what each returns takes the request, and what takes the
-- request is found.
use go_gateway.Prelude.{
  ◌≡◌, sym, ap, subst, String, arith, Bool, true, List, some, In, ◌⊎◌, inl, inr, find?, find?-some,
  ◌&&◌,
}
use go_gateway.Go.{Regexps}
use go_gateway.Router.{
  match_exact, match_prefix, match_regex, Route, Router, key, any_key, method_allowed, match_key,
  prefix_accepts, regex_accepts,
}
use go_gateway.Router.Index.{IsToken, key_injective, key-ne-any_key, any_key_injective}
use go_gateway.Router.Keyed.{Keyed, KeyOf}
use go_gateway.Router.Held.{
  Holds, allowed_cases, allowed_of_nil, allowed_of_In, match_key-some, match_key-hit,
}
use go_gateway.Router.Spec.{Found, PathAccepts, Accepts, TokenMethods}

and_parts : {a b : Bool} → (a && b) ≡ true → (a ≡ true) × (b ≡ true)
and_parts e = ground arith

and_intro : {a b : Bool} → a ≡ true → b ≡ true → (a && b) ≡ true
and_intro e f = ground arith

module _ (regexps : Regexps) {V : Type 0} where
  -- What the four places of a router hold for one request.
  module _ (method path : String) (r : Router regexps.Regexp V) (bs : List (Route regexps.Regexp V))
      (h : Holds r bs) (token : IsToken method) (tokens : TokenMethods bs) where
    accept_exact :
        (x : Route regexps.Regexp V)
        → x.match_type ≡ match_exact
        → method_allowed x method ≡ true
        → path ≡ x.path
        → Accepts regexps method path x
    accept_exact x t a e = (a, subst (λ t. PathAccepts regexps t path x) (sym t) e)

    pub key-Found :
        {x : Route regexps.Regexp V}
        → match_key (key method path) method r ≡ some x
        → Found regexps method path bs x match_exact
    key-Found {x} e =
        let (stored, a) = match_key-some (key method path) method r e in
        let (i, (t, k)) = h.sound (key method path) x stored in (i, t, accept_exact x t a (go i k))
      where
        go : In x bs → KeyOf (key method path) x → path ≡ x.path
        go i (inl (m, m_in, same)) =
            (key_injective method m path x.path token.1 (tokens x i m m_in).1 same).1
        go i (inr (_, same)) = absurd (key-ne-any_key method path x.path token same)

    pub any_key-Found :
        {x : Route regexps.Regexp V}
        → match_key (any_key path) method r ≡ some x
        → Found regexps method path bs x match_exact
    any_key-Found {x} e =
        let (stored, a) = match_key-some (any_key path) method r e in
        let (i, (t, k)) = h.sound (any_key path) x stored in (i, t, accept_exact x t a (go i k))
      where
        go : In x bs → KeyOf (any_key path) x → path ≡ x.path
        go i (inl (m, m_in, same)) =
            absurd (key-ne-any_key m x.path path (tokens x i m m_in) (sym same))
        go i (inr (_, same)) = any_key_injective path x.path same

    pub prefix-Found :
        {x : Route regexps.Regexp V}
        → find? (prefix_accepts regexps method path) r.prefix ≡ some x
        → Found regexps method path bs x match_prefix
    prefix-Found {x} e =
        let (m, ok) = find?-some (prefix_accepts regexps method path) r.prefix e in
        let (t, i) = h.prefix_sound m in
        let (p, a) = and_parts ok in
        (i, t, (a, subst (λ t. PathAccepts regexps t path x) (sym t) p))

    pub regex-Found :
        {x : Route regexps.Regexp V}
        → find? (regex_accepts regexps method path) r.regexes ≡ some x
        → Found regexps method path bs x match_regex
    regex-Found {x} e =
        let (m, ok) = find?-some (regex_accepts regexps method path) r.regexes e in
        let (t, i) = h.regex_sound m in
        let (p, a) = and_parts ok in
        (i, t, (a, subst (λ t. PathAccepts regexps t path x) (sym t) p))

    -- An exact route that takes the request is found under one of its two keys, or another one is.
    pub exact_hit :
        (y : Route regexps.Regexp V)
        → Found regexps method path bs y match_exact
        → (z : Route regexps.Regexp V) × ((match_key (key method path) method r ≡ some z)
            ⊎ (match_key (any_key path) method r ≡ some z))
    exact_hit y (i, t, (a, p)) = elim (allowed_cases y method a) [
      | inl any ↦
          (let (z, stored) = h.complete (any_key path) y i (t, inr (any, ap any_key same)) in
            (
              z,
              inr (
                  match_key-hit (any_key path) method r z stored
                    (any_allowed z (h.sound (any_key path) z stored))),
            ))
      | inr listed ↦
          (let (z, stored) =
              h.complete (key method path) y i (t, inl (method, listed, ap (key method) same)) in
            (
              z,
              inl (
                  match_key-hit (key method path) method r z stored
                    (listed_allowed z (h.sound (key method path) z stored))),
            ))
    ]
      where
        same : path ≡ y.path
        same = subst (λ t. PathAccepts regexps t path y) t p

        any_allowed :
            (z : Route regexps.Regexp V)
            → In z bs × Keyed (any_key path) z
            → method_allowed z method ≡ true
        any_allowed z (j, (_, inl (m, m_in, e))) =
            absurd (key-ne-any_key m z.path path (tokens z j m m_in) (sym e))
        any_allowed z (j, (_, inr (nothing, _))) = allowed_of_nil z method nothing

        listed_allowed :
            (z : Route regexps.Regexp V)
            → In z bs × Keyed (key method path) z
            → method_allowed z method ≡ true
        listed_allowed z (j, (_, inl (m, m_in, e))) = allowed_of_In z method (
            subst (λ n. In (n, tt) z.methods)
              (sym (key_injective method m path z.path token.1 (tokens z j m m_in).1 e).0) m_in)
        listed_allowed z (j, (_, inr (_, e))) = absurd (key-ne-any_key method path z.path token e)

    pub prefix_hit :
        (y : Route regexps.Regexp V)
        → Found regexps method path bs y match_prefix
        → In y r.prefix × (prefix_accepts regexps method path y ≡ true)
    prefix_hit y (i, t, (a, p)) =
        (h.prefix_complete t i, and_intro (subst (λ t. PathAccepts regexps t path y) t p) a)

    pub regex_hit :
        (y : Route regexps.Regexp V)
        → Found regexps method path bs y match_regex
        → In y r.regexes × (regex_accepts regexps method path y ≡ true)
    regex_hit y (i, t, (a, p)) =
        (h.regex_complete t i, and_intro (subst (λ t. PathAccepts regexps t path y) t p) a)
