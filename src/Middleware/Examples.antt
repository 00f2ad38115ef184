-- ===== src/Middleware/Examples.antt =====
-- The middleware at concrete requests: an address is its own text, and a range holds one address.
use go_gateway.Prelude.{
  ◌≡◌, ◌↔◌, refl, false, Bool, [], ◌∷◌, String, Option, none, some, arith, eq_iff, All, ◌==◌,
}
use go_gateway.Plugin.{Response}
use go_gateway.Middleware.{Net, Incoming, split_traceparent, split_from, extract_trace_id}
use go_gateway.Middleware.Trace.{split-join, traceparent_of, extract_trace_id_iff}
use go_gateway.Middleware.Pieces.{join_dashes, Dashless}

split-join_example :
    (join_dashes (split_traceparent "00--01") ≡ "00--01")
    × (split_traceparent (join_dashes ("00" ∷ "" ∷ "01" ∷ [])) ≡ "00" ∷ "" ∷ "01" ∷ [])
split-join_example =
    split-join "00--01" "00" ("" ∷ "01" ∷ []) ((refl, (refl, tt)), (tt, ((refl, (refl, tt)), tt)))

extract_trace_id_iff_example : (extract_trace_id "00-ab12-cd-01" ≡ "ab12") ↔ (
    (v : String) × (p : String) × (f : String) × All Dashless (v ∷ "ab12" ∷ p ∷ f ∷ [])
    × ("00-ab12-cd-01" ≡ traceparent_of v "ab12" p f))
extract_trace_id_iff_example =
    extract_trace_id_iff "00-ab12-cd-01" "ab12" (λ e. ground (arith, (eq_iff "ab12" "").1 e))

trace_id-read : extract_trace_id "00-ab12-cd-01" ≡ "ab12"
unfolding extract_trace_id split_traceparent split_from
trace_id-read = refl

abbrev one_address : Net String String
one_address = record {
  split_host_port = λ addr. none;
  parse_ip = λ host. some host;
  contains = λ range ip. range_holds range ip;
}
  where
    range_holds : String → Option String → Bool
    range_holds range none = false
    range_holds range (some ip) = range == ip

abbrev empty_response : Response
empty_response = record { headers = []; status = none; sent = []; body = [] }

abbrev outside : Incoming
outside = record {
  remote_addr = "203.0.113.9";
  x_request_id = "mine";
  traceparent = "00-ab12-cd-01";
}
