-- ===== src/Server/Examples.antt =====
-- The load shedder with two slots.
use go_gateway.Prelude.{
  ◌≤◌, ◌<◌, pos, ◌≡◌, ◌⊎◌, ◌↔◌, refl, true, List, [], ◌∷◌, length, none, arith,
}
use go_gateway.Plugin.{Response}
use go_gateway.Server.{load_shed, arrive, without, leave, Event, arrived, left, run}
use go_gateway.Server.Shedding.{Overloaded, running_bounded}

abbrev fresh : Response
fresh = record { headers = []; status = none; sent = []; body = [] }

abbrev busy : List Event
busy = arrived 1 ∷ arrived 2 ∷ arrived 3 ∷ left 1 ∷ left 3 ∷ arrived 4 ∷ []

busy-running : (run fresh busy (load_shed (pos 2))).running ≡ 4 ∷ 2 ∷ []
unfolding run arrive leave without load_shed
busy-running = refl

running_bounded_example :
    let s = run fresh busy (load_shed (pos 2)) in
    (length s.running ≤ 2)
    × (((arrive 5 s fresh).0 ≡ true) ↔ (length s.running < 2))
    × (((arrive 5 s fresh).0 ≡ true) ⊎ Overloaded (arrive 5 s fresh).2)
running_bounded_example = running_bounded fresh busy 2 5 (omega arith) refl
