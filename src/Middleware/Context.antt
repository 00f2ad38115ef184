-- ===== src/Middleware/Context.antt =====
-- The identifiers that a request gets.
use go_gateway.Prelude.{
  ◌≡◌, ◌≢◌, refl, Bool, true, false, List, String, some, arith, Bool-cases, inl, inr, eq_iff,
  lookup, lookup-insert, if◌then◌else◌, ◌==◌, ◌||◌, not, ◌⊎◌,
}
use go_gateway.Plugin.{Response, set_header}
use go_gateway.Middleware.{Net, Incoming, inject_context, is_trusted, host_of, extract_trace_id}

neither : (a b : Bool) → (a || b) ≡ false → a ≡ false
neither a b h = ground (arith, h)

untrusted : (a t : Bool) (x y : String) → t ≡ false → (if a || not t then x else y) ≡ x
untrusted true t x y e = refl
untrusted false t x y e = rw e refl

picked : (b : Bool) (x y : String) → x ≢ "" → (b ≡ false → y ≢ "") → (if b then x else y) ≢ ""
picked true x y h k = h
picked false x y h k = k refl

header_set :
    (v : String) (w : Response)
    → lookup "X-Request-Id" (set_header "X-Request-Id" v w).headers ≡ some v
unfolding set_header
header_set v w = lookup-insert "X-Request-Id" "X-Request-Id" v w.headers

present : (s : String) → (s == "") ≡ false → s ≢ ""
present s h e = ground (arith, h, eq_iff s "", e)

module _ {Ip Range : Type 0} (net : Net Ip Range) where
  -- No request goes on without identifiers, and only trusted clients choose them: where the texts
  -- that are drawn are not empty, the request and the trace have identifiers that are not empty, the
  -- response tells the client the one of the request, and this one was drawn unless the address of
  -- the client lies in a trusted range.
  pub request_identifiers :
      (ranges : List Range) (new_id new_trace : String) (r : Incoming) (w : Response)
      → new_id ≢ ""
      → new_trace ≢ ""
      → let (ctx, response) = inject_context net ranges new_id new_trace r w in
        (ctx.request_id ≢ "")
        × (ctx.trace_id ≢ "")
        × (lookup "X-Request-Id" response.headers ≡ some ctx.request_id)
        × ((is_trusted net (net.parse_ip (host_of net r.remote_addr)) ranges ≡ true)
            ⊎ (ctx.request_id ≡ new_id))
  unfolding inject_context
  request_identifiers ranges new_id new_trace r w h k =
      let trusted = is_trusted net (net.parse_ip (host_of net r.remote_addr)) ranges in
      (
        picked (r.x_request_id == "" || not trusted) new_id r.x_request_id h
            (λ e. present r.x_request_id (neither (r.x_request_id == "") (not trusted) e)),
        picked (extract_trace_id r.traceparent == "") new_trace (extract_trace_id r.traceparent) k
            (present (extract_trace_id r.traceparent)),
        header_set _ w,
        elim (Bool-cases trusted) [
          | inl e ↦ inl e
          | inr e ↦ inr (untrusted (r.x_request_id == "") trusted new_id r.x_request_id e)
        ],
      )
