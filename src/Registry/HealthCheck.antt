-- ===== src/Registry/HealthCheck.antt =====
-- internal/registry/healthcheck.go: the defaults of a check, the verdict on one response and one
-- tick of the ticker of a service. The HTTP call is the caller's: a response is its status code, and
-- `none` stands for an error of the client.
use go_gateway.Prelude.{
  ℕ, ℤ, pos, eqb_ℤ, Bool, true, String, if◌then◌else◌, Option, none, some, leb, map, ◌==◌,
}
use go_gateway.Registry.{Instance, HealthCheckCfg, ServiceEntry, record_success, record_failure}

abbrev or_default : ℤ → ℕ → ℤ
or_default x d = if eqb_ℤ x (pos 0) then pos d else x

-- The head of `runForService`.
unfoldable pub check_defaults : HealthCheckCfg → HealthCheckCfg
check_defaults cfg = record cfg {
  interval = or_default cfg.interval 10000000000;
  timeout = or_default cfg.timeout 3000000000;
  failure_threshold = or_default cfg.failure_threshold 3;
  success_threshold = or_default cfg.success_threshold 2;
}

unfoldable pub health_path : HealthCheckCfg → String
health_path cfg = if cfg.path == "" then "/health" else cfg.path

-- `err != nil || resp.StatusCode >= 300`
unfoldable pub check_failed : Option ℕ → Bool
check_failed none = true
check_failed (some status_code) = leb 300 status_code

-- The result of `checkInstance`, and whether it logged a transition.
unfoldable pub check_instance : HealthCheckCfg → Option ℕ → Instance → Instance × Bool
unfolding check_failed
check_instance cfg response i =
    if check_failed response
    then record_failure cfg.failure_threshold i
    else record_success cfg.success_threshold i

-- One tick: each instance of the entry is checked, each by a goroutine of its own, which touches no
-- other instance. `respond` is what the instance at an address and a path answers.
unfoldable pub tick : (String → String → Option ℕ) → ServiceEntry → ServiceEntry
unfolding check_defaults health_path check_instance
tick respond svc =
    let cfg = check_defaults svc.health_check in
    record svc {
      instances =
          map (λ i. (check_instance cfg (respond i.address (health_path cfg)) i).0) svc.instances;
    }
