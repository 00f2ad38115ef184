-- ===== src/External/Load.antt =====
-- internal/plugin/external/loader.go: the loading of a plugin.
use Prim.Native.String.{◌++◌}
use text.Mathlib.Text.{starts_with}
use go_gateway.Prelude.{
  ℤ, pos, eqb, eqb_ℤ, leb_ℤ, false, String, Option, none, some, if◌then◌else◌, ◌==◌,
}
use go_gateway.CircuitBreaker.{CircuitBreaker, Config, new}
use go_gateway.External.Client.{
  Manifest, Sent, Answer, call_error, http_answer, Codec, Client, ExternalPlugin, build_client,
}
use go_gateway.External.Execute.{check_health}

pub record ExternalPluginConfig : Type 0 where
  pub name : String
  pub address : String
  pub timeout : ℤ
  pub on_error : String
  pub health_path : String

pub data LoadError : Type 0 where
  manifest_fetch_failed version_mismatch health_check_failed : LoadError

pub data Loaded (J : Type 0) : Type 0 where
  loaded : ExternalPlugin J → Loaded J
  failed : LoadError → Loaded J

-- The defaults that `Load` puts in.
unfoldable pub with_defaults : ExternalPluginConfig → ExternalPluginConfig
with_defaults c = record c {
  timeout = if leb_ℤ c.timeout (pos 0) then pos 50000000 else c.timeout;
  on_error = if c.on_error == "" then "pass" else c.on_error;
  health_path = if c.health_path == "" then "/healthz" else c.health_path;
}

-- The address for the HTTP calls.
unfoldable pub http_addr : ExternalPluginConfig → String
http_addr c = if starts_with c.address "unix://" then "http://plugin" else c.address

abbrev pub load_limits : Config
load_limits = record {
  failure_threshold = pos 3;
  success_threshold = pos 2;
  reset_timeout = pos 30000000000;
}

-- The circuit breaker that `Load` makes.
unfoldable pub load_breaker : CircuitBreaker
unfolding new
load_breaker = new load_limits false

module _ {J B : Type 0} (codec : Codec J B) (reply : Client → Sent → Answer B) where
  abbrev pub read_manifest : Answer B → Option Manifest
  read_manifest call_error = none
  read_manifest (http_answer status body) =
      if eqb status 200 then codec.decode_manifest body else none

  unfoldable pub fetch_manifest : Client → String → Option Manifest
  fetch_manifest client addr =
      if codec.request_ok (addr ++ "/manifest")
      then read_manifest
          (reply client (record { method = "GET"; url = addr ++ "/manifest"; body = "" }))
      else none

  -- `Load`, after the defaults and with the client and the address made.
  unfoldable pub load_with : ExternalPluginConfig → J → Client → String → Loaded J
  unfolding load_breaker fetch_manifest check_health
  load_with c plugin_cfg client addr = elim (fetch_manifest client addr) [
    | none ↦ failed manifest_fetch_failed
    | some manifest ↦
        if eqb_ℤ manifest.sdk_major_version (pos 1)
        then (if check_health codec reply client addr c.health_path
            then loaded (record {
              manifest = manifest;
              addr = addr;
              cfg = plugin_cfg;
              timeout = c.timeout;
              on_error = c.on_error;
              client = client;
              cb = load_breaker;
            })
            else failed health_check_failed)
        else failed version_mismatch
  ]

  unfoldable pub load : ExternalPluginConfig → J → Loaded J
  unfolding with_defaults http_addr build_client load_with
  load c plugin_cfg =
      let c' = with_defaults c in
      load_with c' plugin_cfg (build_client c'.address c'.timeout) (http_addr c')
