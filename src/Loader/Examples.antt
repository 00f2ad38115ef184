-- ===== src/Loader/Examples.antt =====
-- The loader at a concrete history. A text is the name of the one service, and the empty text is
-- decoded to a configuration without a port.
use go_gateway.Prelude.{
  ℕ, pos, ◌≡◌, refl, false, List, [], ◌∷◌, String, Option, some, arith, get_elem?, if◌then◌else◌,
  ◌==◌,
}
use go_gateway.Config.{Config}
use go_gateway.Go.Sample.{regexps}
use go_gateway.Validator.{validate, check_services, check_plugins, check_routes, default_matches}
use go_gateway.Loader.{
  System, Event, written, fires, subscribed, new_loader, load_and_validate, after_unmarshal,
  after_validate, after_load, fan_out, subscribe, receive_at, force_reload, step, run,
}
use go_gateway.Loader.Accepted.{AllAccepted, loader_accepts}
use go_gateway.Loader.Dropped.{reload_lost}

abbrev config_of : String → Config ℕ
config_of name = record {
  gateway = record { port = if name == "" then pos 0 else pos 8080; max_concurrent = pos 500 };
  services =
      record {
        name = name;
        lb_strategy = "random";
        health_check = record {
          path = "";
          interval = pos 0;
          timeout = pos 0;
          failure_threshold = pos 0;
          success_threshold = pos 0;
        };
        instances = record { id = "a"; address = "10.0.0.1:80"; weight = pos 1 } ∷ [];
      }
      ∷ [];
  routes = [];
  plugins = [];
}

abbrev decode : String → Option (Config ℕ)
decode s = some (config_of s)

abbrev at_start : System ℕ
at_start = record {
  file = some "first";
  debounce_timer = false;
  loader = record { current = config_of "first"; subscribers = [] };
}

-- The second configuration waits in the channel, an invalid file is refused, and then comes the third.
abbrev before : List Event
before = subscribed 1 ∷ written (some "second") ∷ fires ∷ []

abbrev after : List Event
after = written (some "") ∷ fires ∷ written (some "third") ∷ []

abbrev waiting : System ℕ
waiting = run decode regexps.compile before at_start

loader_accepts_example :
    AllAccepted decode regexps.compile (run decode regexps.compile before at_start).loader
unfolding new_loader load_and_validate after_unmarshal after_validate validate check_services
    check_plugins check_routes default_matches
loader_accepts_example = loader_accepts decode regexps.compile (some "first") at_start before refl

reload_lost_example :
    let u = (force_reload decode regexps.compile (run decode regexps.compile after waiting)).1 in
    (u.loader.current ≡ config_of "third")
    × (get_elem? u.loader.subscribers 0
        ≡ some (record { capacity = 1; queue = config_of "second" ∷ [] }))
unfolding run step force_reload after_load fan_out subscribe receive_at load_and_validate
    after_unmarshal after_validate validate check_services check_plugins check_routes
    default_matches
reload_lost_example =
    reload_lost decode regexps.compile after 0
      (record { capacity = 1; queue = config_of "second" ∷ [] }) waiting (config_of "third")
      (refl, refl) (omega arith) refl
