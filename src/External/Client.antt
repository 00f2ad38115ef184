-- ===== src/External/Client.antt =====
-- internal/plugin/external/client.go and the health check of healthchecker.go.
use Prim.Native.String.{len, slice}
use text.Mathlib.Text.{starts_with}
use go_gateway.Prelude.{
  ℕ, suc, ◌+◌, ◌/◌, ℤ, pos, negsuc, sub_ℕ, Bool, List, [], ◌∷◌, String, Option, none, some, Map,
  if◌then◌else◌,
}
use go_gateway.CircuitBreaker.{CircuitBreaker, to_string}

-- The values of the sidecar's contract. `J` is the type of a JSON value.
pub record Manifest : Type 0 where
  pub name : String
  pub version : String
  pub sdk_major_version : ℤ

pub record RequestPayload (J : Type 0) : Type 0 where
  pub route_id : String
  pub method : String
  pub path : String
  pub query : String
  pub headers : Map String
  pub remote_addr : String
  pub user_id : String
  pub config : J

-- A negative status code is left out.
pub record PluginResponse : Type 0 where
  pub action : String
  pub status_code : ℕ
  pub message : String
  pub add_headers : Map String

-- The incoming request, as far as the plugin reads it, with the route and the user of its gateway
-- context, if it has one. Header names are canonical.
pub record Request : Type 0 where
  pub method : String
  pub path : String
  pub raw_query : String
  pub headers : Map (List String)
  pub remote_addr : String
  pub gateway_context : Option (String × String)

-- An outgoing request, and what `(*http.Client).Do` makes of it.
pub record Sent : Type 0 where
  pub method : String
  pub url : String
  pub body : String

pub data Answer (B : Type 0) : Type 0 where
  call_error : Answer B
  http_answer : (status_code : ℕ) (body : B) → Answer B

-- `encoding/json`, `http.NewRequest` and `http.CanonicalHeaderKey`, and the error text.
pub record Codec (J B : Type 0) : Type 0 where
  pub marshal : RequestPayload J → Option String
  pub decode_response : B → Option PluginResponse
  pub decode_manifest : B → Option Manifest
  pub request_ok : String → Bool
  pub canonical : String → String
  pub unavailable : String → String  -- "plugin %q unavailable"

-- The client: the path of the Unix socket that it dials, where the address names one.
pub record Client : Type 0 where
  pub socket_path : Option String
  pub timeout : ℤ

pub record ExternalPlugin (J : Type 0) : Type 0 where
  pub manifest : Manifest
  pub addr : String
  pub cfg : J
  pub timeout : ℤ
  pub on_error : String
  pub client : Client
  pub cb : CircuitBreaker

-- `Milliseconds` of a duration, which cuts towards 0: a negative duration is left out, since `Load`
-- makes none.
abbrev milliseconds : ℤ → ℕ
milliseconds (pos n) = n / 1000000
milliseconds (negsuc n) = 0

pub record PluginInfo : Type 0 where
  pub name : String
  pub version : String
  pub sdk_major : ℤ
  pub address : String
  pub on_error : String
  pub timeout_ms : ℕ
  pub circuit_state : String

unfoldable pub info : {J : Type 0} → ExternalPlugin J → PluginInfo
info p = record {
  name = p.manifest.name;
  version = p.manifest.version;
  sdk_major = p.manifest.sdk_major_version;
  address = p.addr;
  on_error = p.on_error;
  timeout_ms = milliseconds p.timeout;
  circuit_state = to_string p.cb.state;
}

abbrev add_5_ms : ℤ → ℤ
add_5_ms (pos n) = pos (n + 5000000)
add_5_ms (negsuc n) = sub_ℕ 5000000 (suc n)

-- `buildClient`: `slice` to the end of the text is `TrimPrefix`.
unfoldable pub build_client : String → ℤ → Client
build_client addr timeout = record {
  socket_path = if starts_with addr "unix://" then some (slice addr 7 (len addr)) else none;
  timeout = add_5_ms timeout;
}

-- The first value of each header that has one.
unfoldable pub first_values : Map (List String) → Map String
first_values [] = []
first_values ((k, []) ∷ h) = first_values h
first_values ((k, v ∷ vs) ∷ h) = (k, v) ∷ first_values h

abbrev route_and_user : Option (String × String) → String × String
route_and_user none = ("", "")
route_and_user (some c) = c

unfoldable pub build_payload : {J : Type 0} → ExternalPlugin J → Request → RequestPayload J
unfolding first_values
build_payload p r = record {
  route_id = (route_and_user r.gateway_context).0;
  method = r.method;
  path = r.path;
  query = r.raw_query;
  headers = first_values r.headers;
  remote_addr = r.remote_addr;
  user_id = (route_and_user r.gateway_context).1;
  config = p.cfg;
}
