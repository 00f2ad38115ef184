-- ===== src/Server.antt =====
-- internal/server/server.go: the load shedder around the handler. The buffered channel is the number
-- of its elements. The timeouts and the listener of `http.Server` are left out.
mod Shedding
mod Examples
use go_gateway.Prelude.{
  ℕ, suc, ◌-◌, ◌+◌, ltb, eqb, ℤ, pos, leb_ℤ, pos_part, Bool, true, false, List, [], ◌∷◌, ◌++◌,
  Option, none, some, if◌then◌else◌,
}
use go_gateway.Plugin.{Response, set_header, write_header}

-- The channel, and the requests that hold a slot: a request is a number.
pub record Shedder : Type 0 where
  pub slots : ℕ
  pub taken : ℕ
  pub running : List ℕ

-- `loadShed`
unfoldable pub load_shed : ℤ → Shedder
load_shed max_concurrent = record {
  slots = if leb_ℤ max_concurrent (pos 0) then 1000 else pos_part max_concurrent;
  taken = 0;
  running = [];
}

-- `http.Error`: the piece of the body is the code and the message.
abbrev http_error : ℕ → Response → Response
http_error code w =
    let w' = write_header code (
      set_header "X-Content-Type-Options" "nosniff"
        (set_header "Content-Type" "text/plain; charset=utf-8" w)) in
    record w' { body = w'.body ++ (code, "server overloaded") ∷ [] }

-- The arrival of a request: whether it gets a slot, and the response if it does not.
unfoldable pub arrive : ℕ → Shedder → Response → Bool × Shedder × Response
arrive id s w =
    if ltb s.taken s.slots
    then (true, record s { taken = s.taken + 1; running = id ∷ s.running }, w)
    else (false, s, http_error 503 (set_header "Retry-After" "1" w))

-- The requests without one.
unfoldable pub without : ℕ → List ℕ → Option (List ℕ)
without id [] = none
without id (x ∷ xs) =
    let rest = without id xs in
    if eqb x id then some xs else elim rest [ none ↦ none | some ys ↦ some (x ∷ ys) ]

-- The deferred release, when the handler of a running request returns or panics.
unfoldable pub leave : ℕ → Shedder → Shedder
unfolding without
leave id s = elim (without id s.running) [
  | none ↦ s
  | some rest ↦ record s { taken = s.taken - 1; running = rest }
]

pub data Event : Type 0 where
  arrived left : (id : ℕ) → Event

unfoldable pub run : Response → List Event → Shedder → Shedder
unfolding arrive leave
run w [] s = s
run w (arrived id ∷ events) s = run w events (arrive id s w).1
run w (left id ∷ events) s = run w events (leave id s)
