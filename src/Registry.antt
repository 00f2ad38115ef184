-- ===== src/Registry.antt =====
-- internal/registry/registry.go and internal/registry/healthcheck.go: the instances of the upstream
-- services, their health, and the registry of services. A method that mutates `*Instance` returns
-- the new record. The mutexes make each method one step. `lastChecked` is never used and left out.
pub mod Store
pub mod HealthCheck
pub mod Health
mod Examples
use go_gateway.Prelude.{
  ℕ, ℤ, pos, inc_int, leb_ℤ, Bool, true, false, List, [], ◌∷◌, String, if◌then◌else◌, ◌&&◌, not,
  Map, lookup, insert, Option, filter, map,
}

pub data HealthStatus : Type 0 where
  status_healthy status_unhealthy status_starting : HealthStatus

pub record Instance : Type 0 where
  pub id : String
  pub address : String
  pub weight : ℤ
  pub status : HealthStatus
  pub consecutive_fails : ℤ
  pub consecutive_oks : ℤ

abbrev pub is_unhealthy : HealthStatus → Bool
is_unhealthy status_unhealthy = true
is_unhealthy _ = false

-- `IsHealthy`
unfoldable pub is_healthy : Instance → Bool
is_healthy i = not (is_unhealthy i.status)

unfoldable pub record_success : ℤ → Instance → Instance × Bool
record_success success_threshold i =
    let j = record i { consecutive_fails = pos 0; consecutive_oks = inc_int i.consecutive_oks } in
    if is_unhealthy j.status && leb_ℤ success_threshold j.consecutive_oks
    then (record j { status = status_healthy; consecutive_oks = pos 0 }, true)
    else (j, false)

unfoldable pub record_failure : ℤ → Instance → Instance × Bool
record_failure fail_threshold i =
    let j = record i { consecutive_oks = pos 0; consecutive_fails = inc_int i.consecutive_fails } in
    if not (is_unhealthy j.status) && leb_ℤ fail_threshold j.consecutive_fails
    then (record j { status = status_unhealthy; consecutive_fails = pos 0 }, true)
    else (j, false)

pub record HealthCheckCfg : Type 0 where
  pub path : String
  pub interval : ℤ  -- nanoseconds
  pub timeout : ℤ  -- nanoseconds
  pub failure_threshold : ℤ
  pub success_threshold : ℤ

pub record ServiceEntry : Type 0 where
  pub name : String
  pub lb_strategy : String
  pub health_check : HealthCheckCfg
  pub instances : List Instance

-- `HealthyInstances`
unfoldable pub healthy_instances : ServiceEntry → List Instance
unfolding is_healthy
healthy_instances s = filter is_healthy s.instances
