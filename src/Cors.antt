-- ===== src/Cors.antt =====
-- internal/plugin/builtin/cors.go: the CORS plugin. The values of the configuration map come as
-- options, none where the key is missing or has another type; `strings.Join` and the printing of a
-- number are parameters, and so is how a request of type `Q` gives its method and its `Origin`.
pub mod Origins
mod Examples
use go_gateway.Prelude.{
  ℤ, Bool, true, false, List, [], ◌∷◌, String, Option, none, some, lookup, insert, if◌then◌else◌,
  ◌==◌, ◌&&◌, ◌||◌, not,
}
use go_gateway.Router.{Set}
use go_gateway.Validator.{has}
use go_gateway.Plugin.{World, Response, Outcome, passed, abort_error, set_header, write_header}

pub record CorsConfig : Type 0 where
  pub allowed_origins : Option (List String)
  pub allowed_methods : Option (List String)
  pub allowed_headers : Option (List String)
  pub allow_credentials : Option Bool
  pub max_age : Option ℤ

pub record CorsPlugin : Type 0 where
  pub allowed_origins : Set
  pub allowed_methods : String
  pub allowed_headers : String
  pub allow_credentials : Bool
  pub max_age : String

abbrev or_given {ℓ κ} : {A : Type ℓ} {B : Type κ} → B → (A → B) → Option A → B
or_given b f none = b
or_given b f (some a) = f a

unfoldable pub origin_set : List String → Set → Set
origin_set [] set = set
origin_set (o ∷ os) set = origin_set os (insert o tt set)

-- The plugin that the configuration asks for, before the check.
unfoldable pub cors_of : (List String → String) → (ℤ → String) → CorsConfig → CorsPlugin
unfolding origin_set
cors_of join print cfg = record {
  allowed_origins = or_given [] (λ os. origin_set os []) cfg.allowed_origins;
  allowed_methods = or_given "GET, POST, PUT, DELETE, OPTIONS" join cfg.allowed_methods;
  allowed_headers = or_given "Content-Type, Authorization" join cfg.allowed_headers;
  allow_credentials = or_given false (λ b. b) cfg.allow_credentials;
  max_age = or_given "86400" print cfg.max_age;
}

-- `NewCORSPlugin`
unfoldable pub new_cors : (List String → String) → (ℤ → String) → CorsConfig → Option CorsPlugin
unfolding cors_of
new_cors join print cfg =
    let p = cors_of join print cfg in
    if p.allow_credentials && has "*" p.allowed_origins then none else some p

abbrev pub credentials_header : CorsPlugin → Response → Response
credentials_header p r =
    if p.allow_credentials then set_header "Access-Control-Allow-Credentials" "true" r else r

-- The answer to a preflight request.
unfoldable pub preflight : CorsPlugin → String → Response → Response
unfolding set_header write_header
preflight p origin r = write_header 204 (
    credentials_header p (
      set_header "Vary" "Origin" (
        set_header "Access-Control-Max-Age" p.max_age (
          set_header "Access-Control-Allow-Headers" p.allowed_headers (
            set_header "Access-Control-Allow-Methods" p.allowed_methods
              (set_header "Access-Control-Allow-Origin" origin r))))))

module _ {Q : Type 0} (method_of origin_of : Q → String) where
  -- `ExecuteRequest`
  unfoldable pub cors_request : CorsPlugin → World Q → Outcome × World Q
  unfolding preflight
  cors_request p w =
      let origin = origin_of w.request in
      if origin == ""
      then (passed, w)
      else if not (has origin p.allowed_origins) && not (has "*" p.allowed_origins)
      then (abort_error 403 "origin not allowed", w)
      else if method_of w.request == "OPTIONS"
      then (abort_error 204 "preflight", record w { response = preflight p origin w.response })
      else (passed, w)

  -- `ExecuteResponse`
  unfoldable pub cors_response : CorsPlugin → World Q → Outcome × World Q
  unfolding set_header
  cors_response p w =
      let origin = origin_of w.request in
      if origin == "" then (passed, w) else (
        passed,
        record w {
          response = credentials_header p (
              set_header "Vary" "Origin"
                (set_header "Access-Control-Allow-Origin" origin w.response));
        },
      )
