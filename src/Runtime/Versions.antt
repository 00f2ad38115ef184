-- ===== src/Runtime/Versions.antt =====
-- What a sequence of reloads does to the runtimes.
use go_gateway.Prelude.{
  ℕ, ◌+◌, ◌≤◌, ◌<◌, ◌≡◌, refl, sym, ◌∙◌, ap, List, [], ◌∷◌, ◌++◌, All, String, arith, length,
}
use go_gateway.Config.{Config}
use go_gateway.Go.{Sorting, Regexps}
use go_gateway.LoadBalancer.{add_uint64}
use go_gateway.Plugin
use go_gateway.Router
use go_gateway.Router.{new}
use go_gateway.Runtime.Chains.{built_inj}
use go_gateway.Runtime.{
  Reloader, Services, new_reloader, GatewayRuntime, Built, built, failed, build, build_chains,
  finish, apply_reload, apply_service_diff, Chains, of_router, ◌>=>◌,
}

-- Each version of a list is below the one before it.
abbrev pub Descending : {R Q V : Type 0} → ℕ → List (GatewayRuntime R Q V) → Type 0
Descending above [] = Unit
Descending above (rt ∷ rts) = (rt.version < above) × Descending rt.version rts

Descending-mono :
    {R Q V : Type 0} (a b : ℕ) (rts : List (GatewayRuntime R Q V))
    → a ≤ b
    → Descending a rts
    → Descending b rts
Descending-mono a b [] le h = tt
Descending-mono a b (rt ∷ rts) le (lt, h) = (omega (arith, lt, le), h)

-- The runtimes of a reloader, the current one first, are those that the reloads made, with versions
-- from 1 to the count of reloads, each below the one that replaced it, and the initial one at the end.
pub record Versions {R Q V : Type 0} (initial : GatewayRuntime R Q V) (rl : Reloader R Q V)
    : Type 0 where
  pub made : List (GatewayRuntime R Q V)
  pub all_of_them : rl.current ∷ rl.retired ≡ made ++ initial ∷ []
  pub descending : Descending (rl.version_count + 1) made
  pub positive : All (λ rt. 1 ≤ rt.version) made

module _ (sorting : Sorting) (regexps : Regexps) (to_upper : String → String) {Q V : Type 0}
    (reg : Plugin.Registry Q V) where
  -- The reloads of a sequence of configurations.
  unfoldable pub reload_all :
      List (Config V) → Reloader regexps.Regexp Q V → Reloader regexps.Regexp Q V
  reload_all [] rl = rl
  reload_all (cfg ∷ cfgs) rl = reload_all cfgs (apply_reload sorting regexps to_upper reg cfg rl)

  build-version :
      (cfg : Config V) (version : ℕ) (rt : GatewayRuntime regexps.Regexp Q V)
      → build sorting regexps to_upper cfg reg version ≡ built rt
      → rt.version ≡ version
  unfolding build
  build-version cfg version rt e = routed (of_router (new sorting regexps to_upper cfg.routes)) e
    where
      chained :
          (r : Router.Router regexps.Regexp V) (b : Built (Chains Q))
          → Path
              (Built (GatewayRuntime regexps.Regexp Q V))
              (b >=> λ chains.
                built (record { version = version; router = r; plugin_chains = chains }))
              (built rt)
          → rt.version ≡ version
      chained r (failed why) e₁ = absurd (ground (arith, e₁))
      chained r (built chains) e₁ = ap (λ t. t.version) (sym (built_inj e₁))

      routed :
          (b : Built (Router.Router regexps.Regexp V))
          → Path
              (Built (GatewayRuntime regexps.Regexp Q V))
              (b >=> λ r. build_chains sorting reg cfg cfg.routes [] >=> λ chains.
                built (record { version = version; router = r; plugin_chains = chains }))
              (built rt)
          → rt.version ≡ version
      routed (failed why) e₁ = absurd (ground (arith, e₁))
      routed (built r) e₁ = chained r (build_chains sorting reg cfg cfg.routes []) e₁

  finish-Versions :
      (initial : GatewayRuntime regexps.Regexp Q V) (b : Built (GatewayRuntime regexps.Regexp Q V))
      (before rl : Reloader regexps.Regexp Q V)
      → Versions initial before
      → rl.current ≡ before.current
      → rl.retired ≡ before.retired
      → rl.version_count ≡ before.version_count + 1
      → ((rt : GatewayRuntime regexps.Regexp Q V) → b ≡ built rt → rt.version ≡ rl.version_count)
      → Versions initial (finish b rl) × ((finish b rl).version_count ≡ rl.version_count)
  finish-Versions initial (failed why) before rl h same same' next v = (
    record {
      made = h.made;
      all_of_them = rw (same, same') h.all_of_them;
      descending =
          Descending-mono (before.version_count + 1) (rl.version_count + 1) h.made
            (omega (arith, next)) h.descending;
      positive = h.positive;
    },
    refl,
  )
  finish-Versions initial (built rt) before rl h same same' next v = (
    record {
      made = rt ∷ h.made;
      all_of_them = ap (λ l. rt ∷ l) (rw (same, same') h.all_of_them);
      descending = (
        omega (arith, v rt refl),
        Descending-mono (before.version_count + 1) rt.version h.made
            (omega (arith, v rt refl, next)) h.descending,
      );
      positive = (omega (arith, v rt refl, next), h.positive);
    },
    refl,
  )

  apply_reload-Versions :
      (initial : GatewayRuntime regexps.Regexp Q V) (cfg : Config V)
      (rl : Reloader regexps.Regexp Q V)
      → rl.version_count + 1 < 18446744073709551616
      → Versions initial rl
      → Versions initial (apply_reload sorting regexps to_upper reg cfg rl)
        × ((apply_reload sorting regexps to_upper reg cfg rl).version_count ≡ rl.version_count + 1)
  unfolding apply_reload
  apply_reload-Versions initial cfg rl small h =
      let next : add_uint64 rl.version_count ≡ rl.version_count + 1 = omega (arith, small) in
      let (v, count) =
        finish-Versions initial
          (build sorting regexps to_upper cfg reg (add_uint64 rl.version_count)) rl
          (record rl {
            version_count = add_uint64 rl.version_count;
            services = apply_service_diff cfg rl.services;
          })
          h refl refl next (λ rt e. build-version cfg (add_uint64 rl.version_count) rt e) in
      (v, count ∙ next)

  -- The runtimes that builds of the configurations make, numbered from `n` on, on top of `held`, the
  -- latest first: a build that fails makes none.
  abbrev pub onto :
      Built (GatewayRuntime regexps.Regexp Q V)
      → List (GatewayRuntime regexps.Regexp Q V)
      → List (GatewayRuntime regexps.Regexp Q V)
  onto (failed why) held = held
  onto (built rt) held = rt ∷ held

  unfoldable pub builds_onto :
      ℕ
      → List (Config V)
      → List (GatewayRuntime regexps.Regexp Q V)
      → List (GatewayRuntime regexps.Regexp Q V)
  builds_onto n [] held = held
  builds_onto n (cfg ∷ cfgs) held =
      builds_onto (n + 1) cfgs (onto (build sorting regexps to_upper cfg reg (n + 1)) held)

  finish-onto :
      (b : Built (GatewayRuntime regexps.Regexp Q V)) (rl : Reloader regexps.Regexp Q V)
      → (finish b rl).current ∷ (finish b rl).retired ≡ onto b (rl.current ∷ rl.retired)
  finish-onto (failed why) rl = refl
  finish-onto (built rt) rl = refl

  reload-onto :
      (cfg : Config V) (rl : Reloader regexps.Regexp Q V)
      → rl.version_count + 1 < 18446744073709551616
      → (apply_reload sorting regexps to_upper reg cfg rl).current
          ∷ (apply_reload sorting regexps to_upper reg cfg rl).retired
        ≡ onto
            (build sorting regexps to_upper cfg reg (rl.version_count + 1))
            (rl.current ∷ rl.retired)
  unfolding apply_reload
  reload-onto cfg rl small =
      let next : add_uint64 rl.version_count ≡ rl.version_count + 1 = omega (arith, small) in
      finish-onto (build sorting regexps to_upper cfg reg (add_uint64 rl.version_count))
        (record rl {
          version_count = add_uint64 rl.version_count;
          services = apply_service_diff cfg rl.services;
        })
      ∙ ap (λ n. onto (build sorting regexps to_upper cfg reg n) (rl.current ∷ rl.retired)) next

  reloads-onto :
      (initial : GatewayRuntime regexps.Regexp Q V) (cfgs : List (Config V))
      (rl : Reloader regexps.Regexp Q V)
      → Versions initial rl
      → rl.version_count + length cfgs < 18446744073709551616
      → (reload_all cfgs rl).current ∷ (reload_all cfgs rl).retired
        ≡ builds_onto rl.version_count cfgs (rl.current ∷ rl.retired)
  unfolding reload_all builds_onto
  reloads-onto initial [] rl h small = refl
  reloads-onto initial (cfg ∷ cfgs) rl h small =
      let (v, count) = apply_reload-Versions initial cfg rl (omega (arith, small)) h in
      let rl' = apply_reload sorting regexps to_upper reg cfg rl in
      reloads-onto initial cfgs rl' v (omega (arith, count, small))
      ∙ ap (λ n. builds_onto n cfgs (rl'.current ∷ rl'.retired)) count
      ∙ ap (λ held. builds_onto (rl.version_count + 1) cfgs held)
          (reload-onto cfg rl (omega (arith, small)))

  reloads-Versions :
      (initial : GatewayRuntime regexps.Regexp Q V) (cfgs : List (Config V))
      (rl : Reloader regexps.Regexp Q V)
      → Versions initial rl
      → rl.version_count + length cfgs < 18446744073709551616
      → Versions initial (reload_all cfgs rl)
        × ((reload_all cfgs rl).version_count ≡ rl.version_count + length cfgs)
  unfolding reload_all
  reloads-Versions initial [] rl h small = (h, omega arith)
  reloads-Versions initial (cfg ∷ cfgs) rl h small =
      let (v, count) = apply_reload-Versions initial cfg rl (omega (arith, small)) h in
      let (vs, counts) =
        reloads-Versions initial cfgs (apply_reload sorting regexps to_upper reg cfg rl) v
          (omega (arith, count, small)) in
      (vs, omega (arith, counts, count))

-- Over any sequence of reloads of a new reloader, failed ones included, that the 64-bit counter can
-- number, every reload is counted; the holder has held the initial runtime, which may have any
-- version, and after it exactly the runtimes of the reloads whose build succeeds, the n-th reload
-- building with version n; and the versions of those grow strictly.
pub reload_all-Versions :
    (sorting : Sorting) (regexps : Regexps) (to_upper : String → String) {Q V : Type 0}
    (reg : Plugin.Registry Q V) (services : Services) (initial : GatewayRuntime regexps.Regexp Q V)
    (cfgs : List (Config V))
    → length cfgs < 18446744073709551616
    → let after = reload_all sorting regexps to_upper reg cfgs (new_reloader services initial) in
      Versions initial after
      × (after.version_count ≡ length cfgs)
      × (after.current ∷ after.retired
          ≡ builds_onto sorting regexps to_upper reg 0 cfgs (initial ∷ []))
reload_all-Versions sorting regexps to_upper reg services initial cfgs small =
    let start : Versions initial (new_reloader services initial) = record {
      made = [];
      all_of_them = refl;
      descending = tt;
      positive = tt;
    } in
    let (v, count) =
      reloads-Versions sorting regexps to_upper reg initial cfgs (new_reloader services initial)
        start (omega (arith, small)) in
    (
      v,
      omega (arith, count),
      reloads-onto sorting regexps to_upper reg initial cfgs (new_reloader services initial) start
          (omega (arith, small)),
    )
