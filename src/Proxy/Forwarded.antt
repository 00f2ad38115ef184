-- ===== src/Proxy/Forwarded.antt =====
-- What the upstream gets to see of the headers of a request.
use go_gateway.Prelude.{
  ◌≡◌, ◌≢◌, ap, sym, subst, ◌∙◌, refl, Bool, All, List, [], ◌∷◌, ◌||◌, ◌↔◌, ◌⊎◌, inl, inr, false,
  String, ◌==◌, arith, eq_iff, In, In-filter, filter-In, if◌then◌else◌, not,
}
use go_gateway.Proxy.Headers.{
  Header, is_hop_by_hop, del, set, strip_hop_by_hop, strip_inbound, Inbound, set_forwarding,
  outbound_headers,
}

In-del :
    (name : String) (h : Header) {k v : String} → In (k, v) (del name h) → (k ≢ name) × In (k, v) h
In-del name h {k} {v} m =
    let (kept, held) = In-filter (λ p. not (p.0 == name)) h m in
    ((λ e. ground (arith, kept, (eq_iff k name).1 e)), held)

del-In :
    (name : String) (h : Header) {k v : String} → k ≢ name → In (k, v) h → In (k, v) (del name h)
del-In name h {k} {v} ne m =
    filter-In (λ p. not (p.0 == name)) h (ground (arith, ne, eq_iff k name)) m

In-set :
    (name value : String) (h : Header) {k v : String}
    → In (k, v) (set name value h)
    → ((k ≡ name) × (v ≡ value)) ⊎ ((k ≢ name) × In (k, v) h)
In-set name value h (In.here e) = inl (ap (λ p. p.0) e, ap (λ p. p.1) e)
In-set name value h (In.there m) = inr (In-del name h m)

-- The scheme that the gateway tells the upstream.
abbrev pub scheme : Inbound → String
scheme r = if r.tls then "https" else "http"

-- The names that are hop-by-hop, as a list of their own.
abbrev pub hop_by_hop_names : List String
hop_by_hop_names =
    "Connection" ∷ "Keep-Alive" ∷ "Proxy-Authenticate" ∷ "Proxy-Authorization" ∷ "Te" ∷ "Trailers"
    ∷ "Transfer-Encoding" ∷ "Upgrade" ∷ []

-- The name is none of these.
abbrev pub NoneOf : List String → String → Type 0
NoneOf names k = All (λ n. k ≢ n) names

apart : (k n : String) → k ≢ n → (k == n) ≡ false
apart k n h = ground (arith, h, eq_iff k n)

apart_inv : (k n : String) → (k == n) ≡ false → k ≢ n
apart_inv k n h e = ground (arith, h, (eq_iff k n).1 e)

any_of : List String → String → Bool
any_of [] k = false
any_of (n ∷ ns) k = k == n || any_of ns k

any_of-NoneOf : (names : List String) (k : String) → any_of names k ≡ false ↔ NoneOf names k
unfolding any_of
any_of-NoneOf [] k = (λ e. tt, λ h. refl)
any_of-NoneOf (n ∷ ns) k =
    let (to, from) = any_of-NoneOf ns k in
    (
      λ e. (apart_inv k n (ground (arith, e)), to (ground (arith, e))),
      λ (h, hs). ground (arith, apart k n h, from hs),
    )

hop_by_hop-any_of : (k : String) → is_hop_by_hop k ≡ any_of hop_by_hop_names k
unfolding any_of
hop_by_hop-any_of k = ground arith

pub hop_by_hop_iff : (k : String) → is_hop_by_hop k ≡ false ↔ NoneOf hop_by_hop_names k
hop_by_hop_iff k =
    let (to, from) = any_of-NoneOf hop_by_hop_names k in
    (λ e. to (sym (hop_by_hop-any_of k) ∙ e), λ h. hop_by_hop-any_of k ∙ from h)

set-In :
    (name value : String) (h : Header) {k v : String}
    → k ≢ name
    → In (k, v) h
    → In (k, v) (set name value h)
set-In name value h ne m = In.there (del-In name h ne m)

set-own : (name value : String) (h : Header) → In (name, value) (set name value h)
set-own name value h = In.here refl

-- What a header of the outbound request may be.
abbrev pub Reaches : Inbound → Header → String → String → Type 0
Reaches r h k v =
    ((k ≡ "X-Forwarded-For") × (v ≡ r.client_ip))
    ⊎ (((k ≡ "X-Forwarded-Host") × (v ≡ r.host))
        ⊎ (((k ≡ "X-Forwarded-Proto") × (v ≡ scheme r))
            ⊎ ((k ≢ "X-Forwarded-For")
                × (k ≢ "X-Forwarded-Host")
                × (k ≢ "X-Forwarded-Proto")
                × NoneOf hop_by_hop_names k
                × In (k, v) h)))

outbound-Reaches :
    (r : Inbound) (h : Header) (k v : String) → In (k, v) (outbound_headers r h) → Reaches r h k v
unfolding outbound_headers set_forwarding strip_hop_by_hop
outbound-Reaches r h k v m =
    let stripped = strip_hop_by_hop h in
    let with_for = set "X-Forwarded-For" r.client_ip stripped in
    let with_host = set "X-Forwarded-Host" r.host with_for in
    elim (In-set "X-Forwarded-Proto" (scheme r) with_host m) [
      | inl proto ↦ inr (inr (inl proto))
      | inr (not_proto, m₁) ↦ elim (In-set "X-Forwarded-Host" r.host with_for m₁) [
        | inl host ↦ inr (inl host)
        | inr (not_host, m₂) ↦ elim (In-set "X-Forwarded-For" r.client_ip stripped m₂) [
          | inl address ↦ inl address
          | inr (not_for, m₃) ↦
              (let (kept, held) = In-filter (λ p. not (is_hop_by_hop p.0)) h m₃ in
                inr (
                  inr (
                    inr (
                      not_for,
                      not_host,
                      not_proto,
                      (hop_by_hop_iff k).0 (ground (arith, kept)),
                      held,
                    ))))
        ]
      ]
    ]

In-named :
    (h : Header) (k name v value : String) → k ≡ name → v ≡ value → In (name, value) h → In (k, v) h
In-named h k name v value e f m =
    subst (λ x. In (x, v) h) (sym e) (subst (λ y. In (name, y) h) (sym f) m)

for_host : Path String "X-Forwarded-For" "X-Forwarded-Host" → ⊥
for_host = apart_inv "X-Forwarded-For" "X-Forwarded-Host" refl

for_proto : Path String "X-Forwarded-For" "X-Forwarded-Proto" → ⊥
for_proto = apart_inv "X-Forwarded-For" "X-Forwarded-Proto" refl

host_proto : Path String "X-Forwarded-Host" "X-Forwarded-Proto" → ⊥
host_proto = apart_inv "X-Forwarded-Host" "X-Forwarded-Proto" refl

Reaches-outbound :
    (r : Inbound) (h : Header) (k v : String) → Reaches r h k v → In (k, v) (outbound_headers r h)
unfolding outbound_headers set_forwarding strip_hop_by_hop
Reaches-outbound r h k v (inl (e, f)) = In-named _ k "X-Forwarded-For" v r.client_ip e f (
    set-In "X-Forwarded-Proto" (scheme r) _ for_proto (
      set-In "X-Forwarded-Host" r.host _ for_host
        (set-own "X-Forwarded-For" r.client_ip (strip_hop_by_hop h))))
Reaches-outbound r h k v (inr (inl (e, f))) = In-named _ k "X-Forwarded-Host" v r.host e f (
    set-In "X-Forwarded-Proto" (scheme r) _ host_proto
      (set-own "X-Forwarded-Host" r.host (set "X-Forwarded-For" r.client_ip (strip_hop_by_hop h))))
Reaches-outbound r h k v (inr (inr (inl (e, f)))) =
    In-named _ k "X-Forwarded-Proto" v (scheme r) e f (
      set-own "X-Forwarded-Proto" (scheme r)
        (set "X-Forwarded-Host" r.host (set "X-Forwarded-For" r.client_ip (strip_hop_by_hop h))))
Reaches-outbound r h k v (inr (inr (inr (not_for, not_host, not_proto, kept, held)))) =
    set-In "X-Forwarded-Proto" (scheme r) _ not_proto (
      set-In "X-Forwarded-Host" r.host _ not_host (
        set-In "X-Forwarded-For" r.client_ip _ not_for (
          filter-In (λ p. not (is_hop_by_hop p.0)) h (ground (arith, (hop_by_hop_iff k).1 kept))
            held)))

-- The headers of the outbound request are exactly the three forwarding headers with the values that
-- the gateway sets (the client's address, the host, the scheme), under which names the client's own
-- values never pass, and the headers of the client whose name is none of these three and none of
-- Connection, Keep-Alive, Proxy-Authenticate, Proxy-Authorization, Te, Trailers, Transfer-Encoding and
-- Upgrade.
pub outbound_iff :
    (r : Inbound) (h : Header) (k v : String) → In (k, v) (outbound_headers r h) ↔ Reaches r h k v
outbound_iff r h k v = (outbound-Reaches r h k v, Reaches-outbound r h k v)

-- After `StripInboundHeaders` the plugins see exactly the headers of the client that are not
-- hop-by-hop and are none of the three forwarding headers nor `X-Real-Ip`.
pub strip_inbound_iff :
    (h : Header) (k v : String)
    → In (k, v) (strip_inbound h) ↔ (
        In (k, v) h
        × NoneOf hop_by_hop_names k
        × (k ≢ "X-Forwarded-For")
        × (k ≢ "X-Forwarded-Host")
        × (k ≢ "X-Forwarded-Proto")
        × (k ≢ "X-Real-Ip"))
unfolding strip_inbound strip_hop_by_hop
strip_inbound_iff h k v = (
  λ m.
      (let (kept, m₁) = In-filter (λ p. not (is_hop_by_hop p.0)) _ m in
        let (not_real, m₂) = In-del "X-Real-Ip" _ m₁ in
        let (not_proto, m₃) = In-del "X-Forwarded-Proto" _ m₂ in
        let (not_host, m₄) = In-del "X-Forwarded-Host" _ m₃ in
        let (not_for, m₅) = In-del "X-Forwarded-For" _ m₄ in
        (m₅, (hop_by_hop_iff k).0 (ground (arith, kept)), not_for, not_host, not_proto, not_real)),
  λ t.
      (let (m, kept, not_for, not_host, not_proto, not_real) = t in
        filter-In (λ p. not (is_hop_by_hop p.0)) _ (ground (arith, (hop_by_hop_iff k).1 kept))
          (del-In "X-Real-Ip" _ not_real (
            del-In "X-Forwarded-Proto" _ not_proto
              (del-In "X-Forwarded-Host" _ not_host (del-In "X-Forwarded-For" h not_for m))))),
)
