-- ===== src/SmartBalancer/Examples.antt =====
-- The balancer over two instances, of which one is healthy, with whole numbers in place of `float64`.
use go_gateway.Prelude.{
  ℕ, pos, ◌≡◌, ◌⊎◌, List, [], ◌∷◌, String, none, some, inc_int, if◌then◌else◌, ◌==◌,
}
use go_gateway.Go.Whole.{whole_numbers}
use go_gateway.Registry.{Instance, HealthStatus, status_healthy, status_unhealthy}
use go_gateway.LoadBalancer.{Skipper}
use go_gateway.LoadBalancer.Eligible.{Eligible}
use go_gateway.SmartBalancer.{Balancer, Draws, default_config, new_balancer, next}
use go_gateway.SmartBalancer.Selection.{inflight_of}
use go_gateway.SmartBalancer.Running.{next_selects}

abbrev node : String → HealthStatus → Instance
node id status = record {
  id = id;
  address = id;
  weight = pos 1;
  status = status;
  consecutive_fails = pos 0;
  consecutive_oks = pos 0;
}

abbrev a : Instance
a = node "a" status_healthy

abbrev b : Instance
b = node "b" status_unhealthy

abbrev c : Instance
c = node "c" status_healthy

abbrev pool : List Instance
pool = a ∷ b ∷ c ∷ []

abbrev balancer : Balancer ℕ
balancer = new_balancer default_config pool

abbrev draws : Draws ℕ
draws = record { explore = 5; index = 7; wheel = 1 }

abbrev skip_a : Skipper (Unit {0})
skip_a = some (λ i u. (i.id == "a", u))

next_selects_example :
    (((x : Instance) → Eligible skip_a tt pool x → ⊥)
      × ((next draws skip_a pool tt balancer).0 ≡ (none, balancer)))
    ⊎ ((i : Instance) × Eligible skip_a tt pool i
        × ((next draws skip_a pool tt balancer).0.0 ≡ some i)
        × ((k : String)
            → inflight_of k (next draws skip_a pool tt balancer).0.1 ≡ (
                if i.id == k then inc_int (inflight_of i.id balancer) else inflight_of k balancer)))
next_selects_example = next_selects draws skip_a pool tt balancer
