-- ===== src/Proxy/Transport.antt =====
-- internal/proxy/transport.go: the transports of the services. A transport is its settings and a
-- number that tells it from the others; the connections that it keeps are those of net/http.
use go_gateway.Prelude.{
  ℕ, ◌+◌, ℤ, pos, eqb_ℤ, ◌≡◌, refl, sym, ap, ◌∙◌, [], String, none, some, Map, lookup, insert,
  lookup-insert, if◌then◌else◌, ◌==◌, Bool-cases, inl, inr, Option-cases,
}

-- Durations are in nanoseconds.
pub record TransportConfig : Type 0 where
  pub max_idle_conns : ℤ
  pub max_idle_conns_per_host : ℤ
  pub max_conns_per_host : ℤ
  pub idle_conn_timeout : ℤ
  pub tls_handshake_timeout : ℤ

abbrev pub default_transport_config : TransportConfig
default_transport_config = record {
  max_idle_conns = pos 100;
  max_idle_conns_per_host = pos 10;
  max_conns_per_host = pos 0;
  idle_conn_timeout = pos 90000000000;
  tls_handshake_timeout = pos 10000000000;
}

pub record Transport : Type 0 where
  pub number : ℕ
  pub settings : TransportConfig

-- `next_number` is that of the next transport that is built.
pub record TransportRegistry : Type 0 where
  pub transports : Map Transport
  pub next_number : ℕ

abbrev pub new_transport_registry : TransportRegistry
new_transport_registry = record { transports = []; next_number = 0 }

abbrev pub unless_zero : ℤ → ℤ → ℤ
unless_zero d n = if eqb_ℤ n (pos 0) then d else n

-- `buildTransport`
unfoldable pub build_transport : ℕ → TransportConfig → Transport
build_transport number cfg = record {
  number = number;
  settings = record {
    max_idle_conns = unless_zero default_transport_config.max_idle_conns cfg.max_idle_conns;
    max_idle_conns_per_host =
        unless_zero default_transport_config.max_idle_conns_per_host cfg.max_idle_conns_per_host;
    max_conns_per_host = cfg.max_conns_per_host;
    idle_conn_timeout =
        unless_zero default_transport_config.idle_conn_timeout cfg.idle_conn_timeout;
    tls_handshake_timeout =
        unless_zero default_transport_config.tls_handshake_timeout cfg.tls_handshake_timeout;
  };
}

-- `Register`
unfoldable pub register_transport : String → TransportConfig → TransportRegistry → TransportRegistry
unfolding build_transport
register_transport service cfg r = record {
  transports = insert service (build_transport r.next_number cfg) r.transports;
  next_number = r.next_number + 1;
}

-- `Get`: a service without a transport gets a new one, which is not stored.
unfoldable pub get_transport : String → TransportRegistry → Transport × TransportRegistry
unfolding build_transport
get_transport service r = elim (lookup service r.transports) [
  | some t ↦ (t, r)
  | none ↦ (
    build_transport r.next_number default_transport_config,
    record r { next_number = r.next_number + 1 },
  )
]

-- A transport that is registered serves its service alone: any other service gets what it got before,
-- but for the number of a transport that is built for it.
register-get :
    (service other : String) (cfg : TransportConfig) (r : TransportRegistry)
    → (get_transport other (register_transport service cfg r)).0.settings ≡ (
        if service == other
        then (build_transport r.next_number cfg).settings
        else (get_transport other r).0.settings)
unfolding get_transport register_transport build_transport
register-get service other cfg r =
    let found = lookup-insert service other (build_transport r.next_number cfg) r.transports in
    elim (Bool-cases (service == other)) [
      | inl e ↦ rw (found, e, get_transport, register_transport) refl
      | inr e ↦ elim (Option-cases (lookup other r.transports)) [
        | inl missing ↦ rw (found, e, missing, get_transport, register_transport) refl
        | inr (t, there) ↦ rw (found, e, there, get_transport, register_transport) refl
      ]
    ]

get-missing :
    (service : String) (r : TransportRegistry)
    → lookup service r.transports ≡ none
    → get_transport service r ≡ (
      build_transport r.next_number default_transport_config,
      record r { next_number = r.next_number + 1 },
    )
unfolding get_transport build_transport
get-missing service r missing = rw (missing, get_transport) refl

-- Two calls for a service that is not registered get two transports.
unregistered_apart :
    (service : String) (r : TransportRegistry)
    → lookup service r.transports ≡ none
    → let (t, r') = get_transport service r in (get_transport service r').0.number ≡ t.number + 1
unfolding build_transport
unregistered_apart service r missing =
    let first = get-missing service r missing in
    let second = get-missing service (record r { next_number = r.next_number + 1 }) missing in
    ap (λ p. (get_transport service p.1).0.number) first
    ∙ ap (λ p. p.0.number) second
    ∙ ap (λ p. p.0.number + 1) (sym first)
