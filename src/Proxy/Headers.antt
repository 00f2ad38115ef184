-- ===== src/Proxy/Headers.antt =====
-- internal/proxy/headers.go: the headers that are stripped, and those that the gateway sets.
use go_gateway.Prelude.{Bool, List, ◌∷◌, String, ◌==◌, filter, if◌then◌else◌, ◌||◌, not}

-- The values of the headers in the order in which they were added, under canonical names.
abbrev pub Header : Type 0
Header = List (String × String)

-- `hopByHopHeaders`
abbrev pub is_hop_by_hop : String → Bool
is_hop_by_hop name =
    name == "Connection"
    || name == "Keep-Alive"
    || name == "Proxy-Authenticate"
    || name == "Proxy-Authorization"
    || name == "Te"
    || name == "Trailers"
    || name == "Transfer-Encoding"
    || name == "Upgrade"

-- `Del` and `Set`
abbrev pub del : String → Header → Header
del name h = filter (λ p. not (p.0 == name)) h

abbrev pub set : String → String → Header → Header
set name value h = (name, value) ∷ del name h

-- `StripHopByHopFromResponse`; the same loop copies the headers of a request.
unfoldable pub strip_hop_by_hop : Header → Header
strip_hop_by_hop h = filter (λ p. not (is_hop_by_hop p.0)) h

-- `StripInboundHeaders`: `Del` takes the canonical name, `X-Real-Ip`.
unfoldable pub strip_inbound : Header → Header
unfolding strip_hop_by_hop
strip_inbound h =
    strip_hop_by_hop
      (del "X-Real-Ip" (del "X-Forwarded-Proto" (del "X-Forwarded-Host" (del "X-Forwarded-For" h))))

-- What the request says of the client: the host of `RemoteAddr`, or all of it where it has no port.
pub record Inbound : Type 0 where
  pub client_ip : String
  pub host : String
  pub tls : Bool

-- `SetForwardingHeaders`
unfoldable pub set_forwarding : Inbound → Header → Header
set_forwarding r h =
    set "X-Forwarded-Proto" (if r.tls then "https" else "http")
      (set "X-Forwarded-Host" r.host (set "X-Forwarded-For" r.client_ip h))

-- The headers of the outbound request in `doRequest`.
unfoldable pub outbound_headers : Inbound → Header → Header
unfolding strip_hop_by_hop set_forwarding
outbound_headers r h = set_forwarding r (strip_hop_by_hop h)
