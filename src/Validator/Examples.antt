-- ===== src/Validator/Examples.antt =====
-- `Validate` at a small configuration.
use go_gateway.Prelude.{ℕ, pos, false, ◌≡◌, ◌↔◌, [], ◌∷◌}
use go_gateway.Config.{Config}
use go_gateway.Go.Sample.{regexps}
use go_gateway.Validator.{validate}
use go_gateway.Validator.Sound.{Valid, validate-nil_iff}

-- One service, and one regex route with two plugins of different orders.
abbrev small_config : Config ℕ
small_config = record {
  gateway = record { port = pos 8080; max_concurrent = pos 0 };
  services =
      record {
        name = "users";
        lb_strategy = "";
        health_check = record {
          path = "";
          interval = pos 0;
          timeout = pos 0;
          failure_threshold = pos 0;
          success_threshold = pos 0;
        };
        instances = record { id = "u1"; address = "10.0.0.1:80"; weight = pos 1 } ∷ [];
      }
      ∷ [];
  routes =
      record {
        id = "api";
        methods = [];
        path = "/api";
        match_type = "regex";
        strip_prefix = false;
        service = "users";
        timeout = pos 0;
        max_body_bytes = pos 0;
        plugins =
            record { name = "log"; order = pos 2; config = 0 }
            ∷ record { name = "auth"; order = pos 1; config = 0 }
            ∷ [];
      }
      ∷ [];
  plugins =
      record { name = "log"; type = "builtin.logger" }
      ∷ record { name = "auth"; type = "builtin.jwt" }
      ∷ [];
}

validate-nil_iff_example :
    ((validate regexps.compile small_config).1 ≡ []) ↔ Valid regexps.compile small_config
validate-nil_iff_example = validate-nil_iff regexps.compile small_config
