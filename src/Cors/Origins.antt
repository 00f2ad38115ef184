-- ===== src/Cors/Origins.antt =====
-- Which cross-origin requests the CORS plugin lets through.
use go_gateway.Prelude.{
  ℤ, ◌≡◌, ◌≢◌, sym, ◌∙◌, ap, true, false, List, String, none, some, arith, eq_iff, Bool-cases, inl,
  inr, some_inj, if◌then◌else◌, ◌&&◌,
}
use go_gateway.Validator.{has}
use go_gateway.Plugin.{World, abort_error}
use go_gateway.Cors.{CorsConfig, CorsPlugin, cors_of, new_cors, cors_request}

checked_plugin :
    (q p : CorsPlugin)
    → (if q.allow_credentials && has "*" q.allowed_origins then none else some q) ≡ some p
    → p.allow_credentials ≡ true
    → has "*" p.allowed_origins ≡ false
checked_plugin q p e c = elim (Bool-cases (q.allow_credentials && has "*" q.allowed_origins)) [
  | inl both ↦ absurd (ground (arith, rw both at e))
  | inr not_both ↦
      (let same = some_inj (rw not_both at e) in
        ground (
          arith,
          c,
          sym (ap (λ x. x.allow_credentials && has "*" x.allowed_origins) same) ∙ not_both,
        ))
]

new_cors-no_wildcard :
    (join : List String → String) (print : ℤ → String) (cfg : CorsConfig) (p : CorsPlugin)
    → new_cors join print cfg ≡ some p
    → p.allow_credentials ≡ true
    → has "*" p.allowed_origins ≡ false
unfolding new_cors
new_cors-no_wildcard join print cfg p e c = checked_plugin (cors_of join print cfg) p e c

request-listed :
    {Q : Type 0} (method_of origin_of : Q → String) (p : CorsPlugin) (w : World Q)
    → has "*" p.allowed_origins ≡ false
    → origin_of w.request ≢ ""
    → has (origin_of w.request) p.allowed_origins ≡ false
    → cors_request method_of origin_of p w ≡ (abort_error 403 "origin not allowed", w)
unfolding cors_request
request-listed method_of origin_of p w wild ne out =
    ground (arith, wild, ne, out, eq_iff (origin_of w.request) "")

-- A plugin that allows credentials lets a cross-origin request through to the upstream, or answers its
-- preflight, only if its origin is listed by name: every other origin is refused with status 403, and
-- the response is not touched. No configuration makes a plugin that allows credentials to the
-- wildcard origin.
pub credentials_only_to_listed :
    (join : List String → String) (print : ℤ → String) (cfg : CorsConfig) (p : CorsPlugin)
    {Q : Type 0} (method_of origin_of : Q → String) (w : World Q)
    → new_cors join print cfg ≡ some p
    → p.allow_credentials ≡ true
    → origin_of w.request ≢ ""
    → has (origin_of w.request) p.allowed_origins ≡ false
    → (has "*" p.allowed_origins ≡ false)
      × (cors_request method_of origin_of p w ≡ (abort_error 403 "origin not allowed", w))
credentials_only_to_listed join print cfg p method_of origin_of w e c ne out =
    let wild = new_cors-no_wildcard join print cfg p e c in
    (wild, request-listed method_of origin_of p w wild ne out)
