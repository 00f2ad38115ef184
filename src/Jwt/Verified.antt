-- ===== src/Jwt/Verified.antt =====
-- What lets a request through the JWT plugin.
use go_gateway.Prelude.{
  ◌≡◌, ◌≢◌, refl, sym, subst, ◌⊎◌, inl, inr, true, false, String, Option, none, some, Map, In,
  arith, Bool-cases, eq_iff, ◌==◌, some_inj, not, ◌&&◌,
}
use go_gateway.Go.Value.{Value}
use go_gateway.Plugin.{Outcome, passed, abort_error}
use go_gateway.Jwt.{
  JwtPlugin, unless_empty, Request, Libraries, ParserOptions, Parsed, parse_error, token, plugin_of,
  new_jwt, get, split_space, options, key_of, forward, identify, after_parse, after_split,
  authenticate,
}

-- What the documentation of `gojwt.Parse` promises of a valid token: the key function gave a key for
-- its method, the signature verifies with this key, the method has one of the names that are allowed,
-- and the claims have the issuer and the audience that are asked for.
pub record Verifying {V : Type 0} (lib : Libraries V) : Type 1 where
  pub name_of : lib.Method → String
  pub Signed : lib.Method → String → String → Type 0
  pub Issued : String → Map V → Type 0
  pub Meant : String → Map V → Type 0
  pub parse_sound :
      (o : ParserOptions) (key : lib.Method → Option String) (text : String) (claims : Map V)
      → lib.parse o key text ≡ token true (some claims)
      → (method : lib.Method) × (k : String) × (key method ≡ some k)
        × Signed method k text
        × In (name_of method) o.valid_methods
        × ((i : String) → o.issuer ≡ some i → Issued i claims)
        × ((a : String) → o.audience ≡ some a → Meant a claims)

module _ {V : Type 0} (value : Value V) (lib : Libraries V) where
  -- The request ends with the answer 401, or it is let through with the claims of a token that the
  -- parser found valid.
  record Let (p : JwtPlugin) (r : Request V) (claims : Map V) : Type 0 where
    scheme : String
    text : String
    split : split_space (get "Authorization" r.headers) ≡ some (scheme, text)
    bearer : lib.equal_fold scheme "Bearer" ≡ true
    parsed : lib.parse (options value lib p) (key_of value lib p) text ≡ token true (some claims)

  Answers : JwtPlugin → Request V → Outcome × Request V → Type 0
  Answers p r d =
      (d ≡ (abort_error 401 "invalid_token", r))
      ⊎ ((claims : Map V) × Let p r claims
          × (d ≡ (
            passed,
            record {
              headers = forward value lib p claims r.headers;
              context = identify value lib claims r.context;
            },
          )))

  Answers-after_parse :
      (p : JwtPlugin) (r : Request V) (scheme text : String) (x : Parsed V)
      → split_space (get "Authorization" r.headers) ≡ some (scheme, text)
      → lib.equal_fold scheme "Bearer" ≡ true
      → lib.parse (options value lib p) (key_of value lib p) text ≡ x
      → Answers p r (after_parse value lib p x r)
  unfolding Answers after_parse
  Answers-after_parse p r scheme text parse_error s b e = inl refl
  Answers-after_parse p r scheme text (token valid none) s b e = inl refl
  Answers-after_parse p r scheme text (token true (some claims)) s b e =
      inr (claims, record { scheme = scheme; text = text; split = s; bearer = b; parsed = e }, refl)
  Answers-after_parse p r scheme text (token false (some claims)) s b e = inl refl

  Answers-after_split :
      (p : JwtPlugin) (r : Request V) (parts : Option (String × String))
      → split_space (get "Authorization" r.headers) ≡ parts
      → Answers p r (after_split value lib p parts r)
  unfolding after_split
  Answers-after_split p r none s = unfold Answers in inl refl
  Answers-after_split p r (some (scheme, text)) s =
      elim (Bool-cases (lib.equal_fold scheme "Bearer")) [
        | inl yes_b ↦ rw yes_b (Answers-after_parse p r scheme text _ s yes_b refl)
        | inr no_b ↦ rw no_b (unfold Answers in inl refl)
      ]

  authenticate-Answers :
      (p : JwtPlugin) (r : Request V)
      → p.auth_model ≢ "passthrough"
      → Answers p r (authenticate value lib p r)
  unfolding authenticate
  authenticate-Answers p r h = elim (Bool-cases (p.auth_model == "passthrough")) [
    | inl e ↦ absurd (h ((eq_iff p.auth_model "passthrough").0 e))
    | inr e ↦ elim (Bool-cases (get "Authorization" r.headers == "")) [
      | inl f ↦ rw (e, f) (unfold Answers in inl refl)
      | inr f ↦ rw (e, f) (Answers-after_split p r _ refl)
    ]
  ]

  has_secret :
      (p : JwtPlugin)
      → (not (p.auth_model == "passthrough") && p.secret == "") ≡ false
      → p.auth_model ≢ "passthrough"
      → p.secret ≢ ""
  has_secret p h model e =
      ground (arith, h, model, e, eq_iff p.auth_model "passthrough", eq_iff p.secret "")

  new_jwt-secret :
      (cfg : Map V) (p : JwtPlugin)
      → new_jwt value cfg ≡ some p
      → p.auth_model ≢ "passthrough"
      → p.secret ≢ ""
  unfolding new_jwt
  new_jwt-secret cfg p e model =
      elim (Bool-cases (
        not ((plugin_of value cfg).auth_model == "passthrough")
        && (plugin_of value cfg).secret == "")) [
          | inl refused ↦ absurd (ground (arith, rw refused at e))
          | inr kept ↦
              (let same = some_inj (rw kept at e) in
                subst (λ (q : JwtPlugin). q.auth_model ≢ "passthrough" → q.secret ≢ "") same
                  (has_secret (plugin_of value cfg) kept) model)
        ]

  key_given :
      (p : JwtPlugin) (method : lib.Method) (k : String)
      → key_of value lib p method ≡ some k
      → (lib.is_none_method method ≡ false) × (p.secret ≡ k)
  key_given p method k e = elim (Bool-cases (lib.is_none_method method)) [
    | inl h ↦ absurd (ground (arith, rw h at e))
    | inr h ↦ (h, some_inj (rw h at e))
  ]

  asked_for : (s : String) → (s ≡ "") ⊎ (unless_empty value lib s ≡ some s)
  asked_for s = elim (Bool-cases (s == "")) [
    | inl e ↦ inl ((eq_iff s "").0 e)
    | inr e ↦ inr (rw e refl)
  ]

  -- What the plugin has checked of the token of a request.
  pub record Authentic (law : Verifying lib) (p : JwtPlugin) (r : Request V) (claims : Map V)
      : Type 0 where
    pub scheme : String
    pub text : String
    pub method : lib.Method
    pub split : split_space (get "Authorization" r.headers) ≡ some (scheme, text)
    pub bearer : lib.equal_fold scheme "Bearer" ≡ true
    pub secret : p.secret ≢ ""
    pub signed : law.Signed method p.secret text
    pub not_none : lib.is_none_method method ≡ false
    pub allowed : In (law.name_of method) p.algorithms
    pub issuer : (p.issuer ≡ "") ⊎ law.Issued p.issuer claims
    pub audience : (p.audience ≡ "") ⊎ law.Meant p.audience claims

  Let-Authentic :
      (law : Verifying lib) (p : JwtPlugin) (r : Request V) (claims : Map V)
      → p.secret ≢ ""
      → Let p r claims
      → Authentic law p r claims
  Let-Authentic law p r claims secret l =
      let (method, k, given, signed, allowed, issued, meant) =
        law.parse_sound (options value lib p) (key_of value lib p) l.text claims l.parsed in
      let (not_none, same) = key_given p method k given in
      record {
        scheme = l.scheme;
        text = l.text;
        method = method;
        split = l.split;
        bearer = l.bearer;
        secret = secret;
        signed = subst (λ s. law.Signed method s l.text) (sym same) signed;
        not_none = not_none;
        allowed = allowed;
        issuer = elim (asked_for p.issuer) [ inl e ↦ inl e | inr e ↦ inr (issued p.issuer e) ];
        audience = elim (asked_for p.audience) [ inl e ↦ inl e | inr e ↦ inr (meant p.audience e) ];
      }

  -- A plugin that `NewJWTPlugin` makes, in another model than "passthrough", either answers 401 with
  -- the message "invalid_token" and leaves the request as it is, or the request carries a token after
  -- a word that is "Bearer" up to case, and this token is signed with the secret of the plugin, which
  -- is not empty, by a method that is one of the plugin's algorithms and not "none", and has the
  -- issuer and the audience of the plugin where these are set; then the request goes on with the
  -- identity and the headers that the claims of this token give.
  pub authenticate_sound :
      (law : Verifying lib) (cfg : Map V) (p : JwtPlugin) (r : Request V)
      → new_jwt value cfg ≡ some p
      → p.auth_model ≢ "passthrough"
      → (authenticate value lib p r ≡ (abort_error 401 "invalid_token", r))
        ⊎ ((claims : Map V) × Authentic law p r claims
            × (authenticate value lib p r ≡ (
              passed,
              record {
                headers = forward value lib p claims r.headers;
                context = identify value lib claims r.context;
              },
            )))
  unfolding Answers
  authenticate_sound law cfg p r made model = elim (authenticate-Answers p r model) [
    | inl e ↦ inl e
    | inr (claims, l, e) ↦
        inr (claims, Let-Authentic law p r claims (new_jwt-secret cfg p made model) l, e)
  ]
