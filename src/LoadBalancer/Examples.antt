-- ===== src/LoadBalancer/Examples.antt =====
-- The strategies over three instances.
use go_gateway.Prelude.{
  ℕ, suc, pos, ◌≡◌, inl, refl, Bool, List, [], ◌∷◌, String, some, arith, filter, ◌==◌,
}
use go_gateway.Registry.{Instance, HealthStatus, status_healthy, status_unhealthy, is_healthy}
use go_gateway.LoadBalancer.{Skipper, filter_eligible, next_round_robin}
use go_gateway.LoadBalancer.Eligible.{Eligible, wanted, next-Eligible}
use go_gateway.LoadBalancer.RoundRobin.{picks, cycle, picks-cycle}

abbrev node : String → HealthStatus → Instance
node id status = record {
  id = id;
  address = id;
  weight = pos 1;
  status = status;
  consecutive_fails = pos 0;
  consecutive_oks = pos 0;
}

abbrev pool : List Instance
pool =
    node "a" status_healthy
    ∷ node "b" status_unhealthy
    ∷ node "c" status_healthy
    ∷ node "d" status_healthy
    ∷ []

abbrev skip_d : Instance → Bool
skip_d i = i.id == "d"

-- A skipper that counts how often it is asked.
abbrev counting : Skipper ℕ
counting = some (λ i n. (i.id == "a", suc n))

asked : (filter_eligible counting pool 0).1 ≡ 3
unfolding filter_eligible is_healthy
asked = refl

next-Eligible_example : Eligible counting 0 pool (node "c" status_healthy)
unfolding next_round_robin is_healthy filter_eligible
next-Eligible_example = next-Eligible counting pool 6 0 0 (node "c" status_healthy) (inl refl)

picks-cycle_example : picks skip_d pool 3 10 ≡ cycle (filter (wanted skip_d) pool) 3 10
unfolding is_healthy
picks-cycle_example = picks-cycle skip_d pool 3 10 (omega arith) (omega arith)
