-- ===== src/Config.antt =====
-- internal/config/config.go: the parts of the configuration that routing, validation and reloading
-- read. A duration is an integer number of nanoseconds. `PluginRef.Config` is a map of values of any
-- type, passed on to the factories of the plugins: its type `V` is a parameter.
use go_gateway.Prelude.{ℤ, Bool, List, String}

pub record HealthCheckConfig : Type 0 where
  pub path : String
  pub interval : ℤ
  pub timeout : ℤ
  pub failure_threshold : ℤ
  pub success_threshold : ℤ

pub record InstanceConfig : Type 0 where
  pub id : String
  pub address : String
  pub weight : ℤ

pub record ServiceConfig : Type 0 where
  pub name : String
  pub lb_strategy : String
  pub health_check : HealthCheckConfig
  pub instances : List InstanceConfig

pub record PluginRef (V : Type 0) : Type 0 where
  pub name : String
  pub order : ℤ
  pub config : V

pub record PluginDef : Type 0 where
  pub name : String
  pub type : String

pub record RouteConfig (V : Type 0) : Type 0 where
  pub id : String
  pub methods : List String
  pub path : String
  pub match_type : String
  pub strip_prefix : Bool
  pub service : String
  pub timeout : ℤ
  pub max_body_bytes : ℤ
  pub plugins : List (PluginRef V)

pub record GatewayConfig : Type 0 where
  pub port : ℤ
  pub max_concurrent : ℤ

pub record Config (V : Type 0) : Type 0 where
  pub gateway : GatewayConfig
  pub services : List ServiceConfig
  pub routes : List (RouteConfig V)
  pub plugins : List PluginDef
