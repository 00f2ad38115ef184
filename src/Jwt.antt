-- ===== src/Jwt.antt =====
-- internal/plugin/builtin/jwt.go: the plugin that authenticates a request by its token. The library
-- that parses tokens, `encoding/json` and `strings.EqualFold` are parameters. A header is the list of
-- its values under canonical names, as in the proxy.
pub mod Verified
pub mod Upstream
mod Examples
use Prim.Native.Char.{code}
use Prim.Native.String.{[] as empty, ◌∷◌ as ◌&◌}
use go_gateway.Prelude.{
  ℕ, eqb, Bool, true, false, List, [], ◌∷◌, ◌++◌, String, Option, none, some, Map, lookup, insert,
  if◌then◌else◌, ◌==◌, ◌&&◌, ◌||◌, not, is_nil,
}
use go_gateway.Go.Value.{Value}
use go_gateway.Plugin.{Outcome, passed, abort_error}
use go_gateway.Proxy.Headers.{Header, set}

pub record JwtPlugin : Type 0 where
  pub auth_model : String
  pub algorithms : List String
  pub secret : String
  pub issuer : String
  pub audience : String
  pub forward_claims : List String

-- What the plugin reads and changes of a request: `auth_claims` and `user_id` are those of its
-- gateway context, if it has one.
pub record Identity (V : Type 0) : Type 0 where
  pub auth_claims : Option (Map V)
  pub user_id : String

pub record Request (V : Type 0) : Type 0 where
  pub headers : Header
  pub context : Option (Identity V)

-- `Get`: the first value of a header, or the empty text.
abbrev pub get : String → Header → String
get name [] = ""
get name ((k, v) ∷ h) = if k == name then v else get name h

-- `strings.SplitN(s, " ", 2)`, where it gives two parts.
unfoldable pub split_space : String → Option (String × String)
split_space empty = none
split_space (c & s) =
    let rest = split_space s in
    if eqb (code c) 32
    then some (empty, s)
    else elim rest [ none ↦ none | some p ↦ some (c & p.0, p.1) ]

-- The options of a parser: none where an issuer or an audience is not asked for.
pub record ParserOptions : Type 0 where
  pub valid_methods : List String
  pub issuer : Option String
  pub audience : Option String

-- What `gojwt.Parse` returns: an error, or a token with its `Valid` and its claims, none where they
-- are no `MapClaims`.
pub data Parsed (V : Type 0) : Type 0 where
  parse_error : Parsed V
  token : (valid : Bool) (claims : Option (Map V)) → Parsed V

-- The libraries: `parse` is given the options and the key function, from the method of a token to its
-- key, or none for an error.
pub record Libraries (V : Type 0) : Type 1 where
  pub Method : Type 0
  pub is_none_method : Method → Bool
  pub parse : ParserOptions → (Method → Option String) → String → Parsed V
  pub equal_fold : String → String → Bool
  pub encode : Map V → Option String

module _ {V : Type 0} (value : Value V) where
  abbrev pub string_at : String → Map V → Option String
  string_at key m = elim (lookup key m) [ none ↦ none | some v ↦ value.as_string v ]

  abbrev pub list_at : String → Map V → Option (List V)
  list_at key m = elim (lookup key m) [ none ↦ none | some v ↦ value.as_list v ]

  -- The strings of a list, in order.
  unfoldable pub strings_of : List V → List String
  strings_of [] = []
  strings_of (v ∷ vs) =
      let rest = strings_of vs in elim (value.as_string v) [ none ↦ rest | some s ↦ s ∷ rest ]

  abbrev pub or_given : {A B : Type 0} → B → (A → B) → Option A → B
  or_given b f none = b
  or_given b f (some a) = f a

  -- The plugin that the configuration asks for, before the check.
  unfoldable pub plugin_of : Map V → JwtPlugin
  unfolding strings_of
  plugin_of cfg = record {
    auth_model = or_given "hybrid" (λ (s : String). s) (string_at "auth_model" cfg);
    algorithms = or_given ("HS256" ∷ []) strings_of (list_at "algorithms" cfg);
    secret = or_given "" (λ (s : String). s) (string_at "secret" cfg);
    issuer = or_given "" (λ (s : String). s) (string_at "issuer" cfg);
    audience = or_given "" (λ (s : String). s) (string_at "audience" cfg);
    forward_claims = or_given [] strings_of (list_at "forward_claims" cfg);
  }

  -- `NewJWTPlugin`: none is the error of a missing secret.
  unfoldable pub new_jwt : Map V → Option JwtPlugin
  unfolding plugin_of
  new_jwt cfg =
      if not ((plugin_of cfg).auth_model == "passthrough") && (plugin_of cfg).secret == ""
      then none
      else some (plugin_of cfg)

  module _ (lib : Libraries V) where
    abbrev pub unless_empty : String → Option String
    unless_empty s = if s == "" then none else some s

    abbrev pub options : JwtPlugin → ParserOptions
    options p = record {
      valid_methods = p.algorithms;
      issuer = unless_empty p.issuer;
      audience = unless_empty p.audience;
    }

    -- The key function that the plugin gives to the parser.
    abbrev pub key_of : JwtPlugin → lib.Method → Option String
    key_of p method = if lib.is_none_method method then none else some p.secret

    abbrev pub invalid_token : Request V → Outcome × Request V
    invalid_token r = (abort_error 401 "invalid_token", r)

    -- The claims that the configuration names, and that the token has.
    unfoldable pub claims_to_forward : List String → Map V → Map V → Map V
    claims_to_forward [] claims out = out
    claims_to_forward (key ∷ keys) claims out =
        claims_to_forward keys claims
          (elim (lookup key claims) [ none ↦ out | some v ↦ insert key v out ])

    abbrev pub set_given : String → Option String → Header → Header
    set_given name none h = h
    set_given name (some v) h = set name v h

    -- Step 4 of `ExecuteRequest`.
    unfoldable pub forward : JwtPlugin → Map V → Header → Header
    unfolding claims_to_forward
    forward p claims h =
        if is_nil p.forward_claims
        then h
        else set_given "X-Auth-Claims" (lib.encode (claims_to_forward p.forward_claims claims []))
            (set_given "X-User-Id" (string_at "sub" claims) h)

    -- Step 3: the identity in the gateway context.
    unfoldable pub identify : Map V → Option (Identity V) → Option (Identity V)
    identify claims none = none
    identify claims (some c) = some (record {
      auth_claims = some claims;
      user_id = or_given c.user_id (λ (s : String). s) (string_at "sub" claims);
    })

    unfoldable pub after_parse : JwtPlugin → Parsed V → Request V → Outcome × Request V
    unfolding forward identify
    after_parse p parse_error r = invalid_token r
    after_parse p (token valid none) r = invalid_token r
    after_parse p (token valid (some claims)) r =
        if valid
        then (
          passed,
          record { headers = forward p claims r.headers; context = identify claims r.context },
        )
        else invalid_token r

    unfoldable pub after_split :
        JwtPlugin → Option (String × String) → Request V → Outcome × Request V
    unfolding after_parse
    after_split p none r = invalid_token r
    after_split p (some (scheme, text)) r =
        if lib.equal_fold scheme "Bearer"
        then after_parse p (lib.parse (options p) (key_of p) text) r
        else invalid_token r

    -- `ExecuteRequest`
    unfoldable pub authenticate : JwtPlugin → Request V → Outcome × Request V
    unfolding after_split split_space
    authenticate p r =
        if p.auth_model == "passthrough"
        then (passed, r)
        else if get "Authorization" r.headers == ""
        then invalid_token r
        else after_split p (split_space (get "Authorization" r.headers)) r
