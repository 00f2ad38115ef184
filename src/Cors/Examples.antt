-- ===== src/Cors/Examples.antt =====
-- The CORS plugin at a configuration with credentials and one origin.
use go_gateway.Prelude.{ℤ, ◌≡◌, refl, true, false, List, [], ◌∷◌, String, none, some, arith, eq_iff}
use go_gateway.Validator.{has}
use go_gateway.Plugin.{World, abort_error}
use go_gateway.Cors.{CorsConfig, CorsPlugin, new_cors, cors_of, origin_set, cors_request}
use go_gateway.Cors.Origins.{credentials_only_to_listed}

abbrev strict_config : CorsConfig
strict_config = record {
  allowed_origins = some ("https://a.example" ∷ []);
  allowed_methods = none;
  allowed_headers = none;
  allow_credentials = some true;
  max_age = none;
}

abbrev strict_plugin : CorsPlugin
strict_plugin = record {
  allowed_origins = ("https://a.example", tt) ∷ [];
  allowed_methods = "GET, POST, PUT, DELETE, OPTIONS";
  allowed_headers = "Content-Type, Authorization";
  allow_credentials = true;
  max_age = "86400";
}

abbrev no_join : List String → String
no_join ms = ""

abbrev no_print : ℤ → String
no_print n = ""

-- A request is its origin; its method is GET.
abbrev from_elsewhere : World String
from_elsewhere = record {
  response = record { headers = []; status = none; sent = []; body = [] };
  request = "https://b.example";
}

abbrev always_get : String → String
always_get r = "GET"

abbrev its_origin : String → String
its_origin r = r

strict_built : new_cors no_join no_print strict_config ≡ some strict_plugin
unfolding new_cors cors_of origin_set
strict_built = refl

credentials_only_to_listed_example :
    (has "*" strict_plugin.allowed_origins ≡ false)
    × (cors_request always_get its_origin strict_plugin from_elsewhere
        ≡ (abort_error 403 "origin not allowed", from_elsewhere))
credentials_only_to_listed_example =
    credentials_only_to_listed no_join no_print strict_config strict_plugin always_get its_origin
      from_elsewhere strict_built refl (ground (arith, eq_iff "https://b.example" "")) refl
