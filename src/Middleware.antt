-- ===== src/Middleware.antt =====
-- internal/middleware/context.go: the middleware that gives each request its gateway context. The
-- addresses and their ranges are types of Go's package `net`: how they are parsed and compared are
-- parameters, and so are the identifiers of `uuid.New`.
mod Pieces
pub mod Trace
mod Context
mod Examples
use Prim.Native.String.{[] as empty, ◌∷◌ as ◌&◌, ◌++◌ as ◌+s+◌}
use go_gateway.Prelude.{
  Bool, true, false, List, [], ◌∷◌, ◌++◌, String, Option, none, some, if◌then◌else◌, ◌==◌, ◌||◌,
  not,
}
use go_gateway.Plugin.{Response, set_header}

-- `s[i] == '-'`, where `c` is the character at `i`.
abbrev pub is_dash : String → Bool
is_dash c = c == "-"

-- The loop of `splitTraceparent`: the parts so far, `s[start:i]` and `s[i:]`.
unfoldable pub split_from : List String → String → String → List String
split_from parts part empty = parts ++ part ∷ []
split_from parts part (c & s) =
    split_from (if is_dash (c & empty) then parts ++ part ∷ [] else parts)
      (if is_dash (c & empty) then empty else part +s+ (c & empty)) s

unfoldable pub split_traceparent : String → List String
unfolding split_from
split_traceparent s = split_from [] empty s

-- `parts[1]` of four parts.
abbrev pub second_of_four : List String → String
second_of_four (v ∷ t ∷ p ∷ f ∷ []) = t
second_of_four _ = ""

-- `extractTraceID`
unfoldable pub extract_trace_id : String → String
unfolding split_traceparent
extract_trace_id traceparent =
    if traceparent == "" then "" else second_of_four (split_traceparent traceparent)

-- Package `net`: the host of an address with a port, an IP address, none for nil, and `Contains`.
pub record Net (Ip Range : Type 0) : Type 0 where
  pub split_host_port : String → Option String
  pub parse_ip : String → Option Ip
  pub contains : Range → Option Ip → Bool

-- What the middleware sets of the gateway context, but for the time and the state of the circuit.
pub record GatewayContext (Ip : Type 0) : Type 0 where
  pub request_id : String
  pub trace_id : String
  pub client_ip : Option Ip

-- What it reads of a request; a header that is missing is the empty text.
pub record Incoming : Type 0 where
  pub remote_addr : String
  pub x_request_id : String
  pub traceparent : String

module _ {Ip Range : Type 0} (net : Net Ip Range) where
  unfoldable pub is_trusted : Option Ip → List Range → Bool
  is_trusted ip [] = false
  is_trusted ip (cidr ∷ ranges) =
      let rest = is_trusted ip ranges in if net.contains cidr ip then true else rest

  abbrev pub host_of : String → String
  host_of addr = elim (net.split_host_port addr) [ none ↦ addr | some host ↦ host ]

  -- `InjectContext`: the context for the next handler, and the response; the two texts are what
  -- `uuid.New` would give.
  unfoldable pub inject_context :
      List Range → String → String → Incoming → Response → GatewayContext Ip × Response
  unfolding is_trusted extract_trace_id
  inject_context trusted_ranges new_request_id new_trace_id r w =
      let ip = net.parse_ip (host_of r.remote_addr) in
      let request_id =
        if r.x_request_id == "" || not (is_trusted ip trusted_ranges)
        then new_request_id
        else r.x_request_id in
      let trace_id = extract_trace_id r.traceparent in
      (
        record {
          request_id = request_id;
          trace_id = if trace_id == "" then new_trace_id else trace_id;
          client_ip = ip;
        },
        set_header "X-Request-Id" request_id w,
      )
