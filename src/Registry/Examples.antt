-- ===== src/Registry/Examples.antt =====
-- An instance through concrete health checks.
use go_gateway.Prelude.{
  ℕ, pos, ◌≡◌, refl, true, false, List, ◌++◌, [], ◌∷◌, Option, none, some, arith,
}
use go_gateway.Registry.{
  Instance, status_healthy, status_unhealthy, HealthCheckCfg, is_healthy, record_success,
  record_failure,
}
use go_gateway.Registry.Health.{checks, goes_down_and_up}

abbrev sample_check : HealthCheckCfg
sample_check = record {
  path = "/health";
  interval = pos 0;
  timeout = pos 0;
  failure_threshold = pos 3;
  success_threshold = pos 2;
}

abbrev fresh : Instance
fresh = record {
  id = "a";
  address = "10.0.0.1:80";
  weight = pos 1;
  status = status_healthy;
  consecutive_fails = pos 0;
  consecutive_oks = pos 0;
}

abbrev down : Instance
down = record fresh { status = status_unhealthy }

-- Two failures, a success, three failures.
abbrev sample_responses : List (Option ℕ)
sample_responses = none ∷ some 503 ∷ some 200 ∷ some 300 ∷ none ∷ some 500 ∷ []

goes_down : is_healthy (checks sample_check sample_responses fresh) ≡ false
unfolding checks is_healthy record_success record_failure
goes_down = refl

-- Two failures and a third, then a success and a second.
goes_down_and_up_example :
    let down = checks sample_check ((none ∷ some 503 ∷ []) ++ some 300 ∷ []) fresh in
    let again = checks sample_check ((some 200 ∷ []) ++ some 204 ∷ []) down in
    (is_healthy (checks sample_check (none ∷ some 503 ∷ []) fresh) ≡ true)
    × (is_healthy down ≡ false)
    × (is_healthy (checks sample_check (some 200 ∷ []) down) ≡ false)
    × (is_healthy again ≡ true)
    × (again.consecutive_fails ≡ pos 0)
unfolding is_healthy
goes_down_and_up_example =
    goes_down_and_up sample_check (none ∷ some 503 ∷ []) (some 200 ∷ []) (some 300) (some 204) fresh
      (omega arith) (omega arith) refl refl (tt, (omega arith, tt)) (omega arith) (omega arith, tt)
      (omega arith) refl refl
