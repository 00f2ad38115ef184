-- ===== src/Runtime/Reload.antt =====
-- What a reload does to the services: the entries served, the entries that the running health checks
-- look at, and the load balancers.
use go_gateway.Prelude.{
  ◌<◌, ◌≡◌, ◌≢◌, refl, sym, ◌∙◌, ap, [], ◌∷◌, map, String, none, some, Map, lookup, lookup-insert,
  ◌==◌, arith, eq_iff, All, In, length, get_elem?, Bool-cases, inl, inr,
}
use go_gateway.Config.{Config, ServiceConfig}
use go_gateway.Registry.{ServiceEntry}
use go_gateway.Registry.Store.{Registry, Pointer, service_names, served, checked}
use go_gateway.Validator.Names.{Distinct}
use go_gateway.Runtime.{
  LoadBalancer, random, round_robin, Services, entry_of, update_lb, apply_services,
  apply_service_diff,
}
use go_gateway.Runtime.Rounds.{
  names_of, apply_services-Round, apply_services-Kept, apply_services-Grown, still_exists-In,
  still_exists-not_in, stop_removed-same, stop_removed-kept, stop_removed-gone,
}

served_at :
    (name : String) (r : Registry) (p : Pointer) (e : ServiceEntry)
    → lookup name r.services ≡ some p
    → get_elem? r.entries p ≡ some e
    → served name r ≡ some e
unfolding served
served_at name r p e l g = rw (l, served) g

-- After the service diff of a configuration whose services have distinct names, requests for each of
-- its services are served from a fresh entry: the one that its configuration describes, with every
-- instance healthy and both counters at 0, whatever was served before.
pub diff-serves :
    {V : Type 0} (cfg : Config V) (s : Services) (c : ServiceConfig)
    → Distinct (names_of cfg.services)
    → In c cfg.services
    → served c.name (apply_service_diff cfg s).store ≡ some (entry_of c)
unfolding apply_service_diff
diff-serves cfg s c distinct m =
    let t = apply_services cfg.services s in
    let round = apply_services-Round c cfg.services s distinct m in
    let (same_services, same_entries) =
      stop_removed-same cfg.services (service_names t.store) t.store in
    served_at c.name (apply_service_diff cfg s).store _ _
      (ap (lookup c.name) same_services ∙ round.kept_after.services_kept ∙ round.applied.pointer_of)
      (ap (λ es. get_elem? es (length round.before.store.entries)) same_entries
        ∙ round.grown_after.entries_kept _ _ round.applied.entry_there)

-- Where the health check of a service is running at the time of a reload that keeps the service (the
-- services of the new configuration having distinct names), it goes on with the entry that it was
-- given, and requests for the service are served from another entry.
pub diff-strands_check :
    {V : Type 0} (cfg : Config V) (s : Services) (c : ServiceConfig) (q : Pointer)
    → Distinct (names_of cfg.services)
    → In c cfg.services
    → lookup c.name s.store.cancels ≡ some q
    → q < length s.store.entries
    → let t = (apply_service_diff cfg s).store in
      (lookup c.name t.cancels ≡ some q)
      × (p : Pointer) × (lookup c.name t.services ≡ some p)
      × (p ≢ q)
unfolding apply_service_diff
diff-strands_check cfg s c q distinct m running old =
    let t = apply_services cfg.services s in
    let round = apply_services-Round c cfg.services s distinct m in
    let (same_services, _) = stop_removed-same cfg.services (service_names t.store) t.store in
    (
      stop_removed-kept cfg.services c.name (service_names t.store) t.store
            (still_exists-In c cfg.services m)
          ∙ round.kept_after.cancels_kept
          ∙ round.applied.runs_on q (round.kept_before.cancels_kept ∙ running),
      length round.before.store.entries,
      ap (lookup c.name) same_services ∙ round.kept_after.services_kept ∙ round.applied.pointer_of,
      omega (arith, round.grown_before.longer, old),
    )

In-names :
    (name : String) (m : Map Pointer) (p : Pointer)
    → lookup name m ≡ some p
    → In name (map (λ x. x.0) m)
In-names name [] p e = absurd (ground (arith, e))
In-names name ((j, q) ∷ m) p e = elim (Bool-cases (j == name)) [
  | inl same ↦ In.here (sym ((eq_iff j name).0 same))
  | inr other_name ↦ In.there (In-names name m p (rw other_name at e))
]

-- A service that the new configuration does not have is no longer health-checked after the diff, and
-- is served as before, from the same entry.
pub diff-keeps_removed :
    {V : Type 0} (cfg : Config V) (s : Services) (name : String) (p : Pointer) (e : ServiceEntry)
    → All (λ j. name ≢ j) (names_of cfg.services)
    → lookup name s.store.services ≡ some p
    → get_elem? s.store.entries p ≡ some e
    → let t = (apply_service_diff cfg s).store in
      (lookup name t.cancels ≡ none) × (checked name t ≡ none) × (served name t ≡ some e)
unfolding apply_service_diff service_names checked
diff-keeps_removed cfg s name p e removed pointer entry =
    let t = apply_services cfg.services s in
    let kept = apply_services-Kept name cfg.services s removed in
    let grown = apply_services-Grown cfg.services s in
    let (same_services, same_entries) =
      stop_removed-same cfg.services (service_names t.store) t.store in
    let known = kept.services_kept ∙ pointer in
    let stopped =
      stop_removed-gone cfg.services name (service_names t.store) t.store
        (In-names name t.store.services p known) (still_exists-not_in name cfg.services removed) in
    (
      stopped,
      rw (checked, stopped) refl,
      served_at name (apply_service_diff cfg s).store p e (ap (lookup name) same_services ∙ known)
          (ap (λ es. get_elem? es p) same_entries ∙ grown.entries_kept p e entry),
    )

-- The load balancer of each service after the diff, the services having distinct names: with strategy
-- "random" it is the random one; with any other strategy a service that had none gets a round-robin
-- one whose counter is 0, and a service that had one keeps it, the random one too.
pub diff-balancers :
    {V : Type 0} (cfg : Config V) (s : Services) (c : ServiceConfig)
    → Distinct (names_of cfg.services)
    → In c cfg.services
    → let after = lookup c.name (apply_service_diff cfg s).lbs in
      (c.lb_strategy ≡ "random" → after ≡ some random)
      × (c.lb_strategy ≢ "random" → lookup c.name s.lbs ≡ none → after ≡ some (round_robin 0))
      × ((lb : LoadBalancer)
          → c.lb_strategy ≢ "random"
          → lookup c.name s.lbs ≡ some lb
          → after ≡ some lb)
unfolding apply_service_diff update_lb
diff-balancers cfg s c distinct m =
    let round = apply_services-Round c cfg.services s distinct m in
    let balanced = round.kept_after.lbs_kept ∙ round.applied.balanced in
    let strategy = eq_iff c.lb_strategy "random" in
    (
      (λ e.
          balanced
          ∙ ground (
            arith,
            e,
            strategy,
            lookup-insert c.name c.name random round.before.lbs,
            eq_iff c.name c.name,
          )),
      (λ ne e.
          balanced
          ∙ ground (
            arith,
            ne,
            strategy,
            round.kept_before.lbs_kept ∙ e,
            lookup-insert c.name c.name (round_robin 0) round.before.lbs,
            eq_iff c.name c.name,
          )),
      (λ lb ne e. balanced ∙ ground (arith, ne, strategy, round.kept_before.lbs_kept ∙ e)),
    )
