-- ===== src/External/Startup.antt =====
-- What the loading of an external plugin promises.
use go_gateway.Prelude.{
  ℤ, pos, negsuc, eqb_ℤ, ◌≡◌, refl, sym, ◌∙◌, true, ap, String, some, arith, Bool-cases,
  Option-cases, inl, inr, ◌↔◌,
}
use go_gateway.External.Client.{Manifest, Sent, Answer, Codec, Client, ExternalPlugin, build_client}
use go_gateway.External.Execute.{check_health}
use go_gateway.External.Load.{
  ExternalPluginConfig, LoadError, loaded, failed, with_defaults, http_addr, fetch_manifest,
  load_with, load, load_breaker,
}

never_failed : {J : Type 0} {x : LoadError} {p : ExternalPlugin J} → failed x ≡ loaded p → ⊥
never_failed e = cc

loaded_inj : {J : Type 0} {p q : ExternalPlugin J} → loaded p ≡ loaded q → p ≡ q
loaded_inj e = cc

major_one : (z : ℤ) → eqb_ℤ z (pos 1) ≡ true → z ≡ pos 1
major_one (pos n) h = ap pos (ground arith)
major_one (negsuc n) h = absurd (ground arith)

module _ {J B : Type 0} (codec : Codec J B) (reply : Client → Sent → Answer B) where
  -- The sidecar behind a configuration serves the manifest `m` of the gateway's major version, and
  -- is healthy.
  pub record Compatible (c : ExternalPluginConfig) (m : Manifest) : Type 0 where
    pub fetched :
        fetch_manifest codec reply (build_client c.address (with_defaults c).timeout) (http_addr c)
        ≡ some m
    pub same_major : m.sdk_major_version ≡ pos 1
    pub healthy :
        check_health codec reply
          (build_client c.address (with_defaults c).timeout)
          (http_addr c)
          (with_defaults c).health_path
        ≡ true

  unfoldable pub plugin_of : ExternalPluginConfig → J → Manifest → ExternalPlugin J
  unfolding with_defaults build_client http_addr
  plugin_of c cfg m = record {
    manifest = m;
    addr = http_addr c;
    cfg = cfg;
    timeout = (with_defaults c).timeout;
    on_error = (with_defaults c).on_error;
    client = build_client c.address (with_defaults c).timeout;
    cb = load_breaker;
  }

  plugin_from : ExternalPluginConfig → J → Client → String → Manifest → ExternalPlugin J
  plugin_from c cfg client addr m = record {
    manifest = m;
    addr = addr;
    cfg = cfg;
    timeout = c.timeout;
    on_error = c.on_error;
    client = client;
    cb = load_breaker;
  }

  load_with-loaded :
      (c : ExternalPluginConfig) (cfg : J) (client : Client) (addr : String) (p : ExternalPlugin J)
      → load_with codec reply c cfg client addr ≡ loaded p
      → (fetch_manifest codec reply client addr ≡ some p.manifest)
        × (p.manifest.sdk_major_version ≡ pos 1)
        × (check_health codec reply client addr c.health_path ≡ true)
        × (p ≡ plugin_from c cfg client addr p.manifest)
  unfolding load_with plugin_from
  load_with-loaded c cfg client addr p e =
      elim (Option-cases (fetch_manifest codec reply client addr)) [
        | inl none_fetched ↦ absurd (never_failed (rw (none_fetched, load_with) at e))
        | inr (m, fetched) ↦ elim (Bool-cases (eqb_ℤ m.sdk_major_version (pos 1))) [
          | inr no_major ↦ absurd (never_failed (rw (fetched, load_with, no_major) at e))
          | inl yes_major ↦ elim (Bool-cases (check_health codec reply client addr c.health_path)) [
            | inr no_health ↦
                absurd (never_failed (rw (fetched, load_with, yes_major, no_health) at e))
            | inl yes_health ↦
                (let made =
                    sym (loaded_inj (rw (fetched, load_with, yes_major, yes_health) at e)) in
                  let same = ap (λ (q : ExternalPlugin J). q.manifest) made in
                  (
                    fetched ∙ ap some (sym same),
                    ap (λ (n : Manifest). n.sdk_major_version) same
                        ∙ major_one m.sdk_major_version yes_major,
                    yes_health,
                    made ∙ ap (plugin_from c cfg client addr) (sym same),
                  ))
          ]
        ]
      ]

  load_with-makes :
      (c : ExternalPluginConfig) (cfg : J) (client : Client) (addr : String) (m : Manifest)
      → fetch_manifest codec reply client addr ≡ some m
      → m.sdk_major_version ≡ pos 1
      → check_health codec reply client addr c.health_path ≡ true
      → load_with codec reply c cfg client addr ≡ loaded (plugin_from c cfg client addr m)
  unfolding load_with plugin_from
  load_with-makes c cfg client addr m fetched major healthy =
      rw (fetched, load_with, major, healthy) refl

  -- Loading succeeds exactly where the sidecar behind the configuration, at the address and with the
  -- client that the configuration gives, serves a manifest with status 200 and the major version of
  -- the gateway and answers the health path with status 200; and the plugin is then that manifest with
  -- the values of the configuration, the defaults put in, and a new circuit breaker.
  pub load_iff :
      (c : ExternalPluginConfig) (cfg : J) (p : ExternalPlugin J)
      → (load codec reply c cfg ≡ loaded p)
        ↔ (Compatible c p.manifest × (p ≡ plugin_of c cfg p.manifest))
  unfolding load plugin_of plugin_from with_defaults http_addr
  load_iff c cfg p = (forward, backward)
    where
      forward :
          load codec reply c cfg ≡ loaded p
          → Compatible c p.manifest × (p ≡ plugin_of c cfg p.manifest)
      forward e =
          let (f, m, h, same) =
            load_with-loaded (with_defaults c) cfg
              (build_client (with_defaults c).address (with_defaults c).timeout)
              (http_addr (with_defaults c)) p e in
          (record { fetched = f; same_major = m; healthy = h }, same)

      backward :
          Compatible c p.manifest × (p ≡ plugin_of c cfg p.manifest)
          → load codec reply c cfg ≡ loaded p
      backward (k, same) =
          load_with-makes (with_defaults c) cfg
            (build_client (with_defaults c).address (with_defaults c).timeout)
            (http_addr (with_defaults c)) p.manifest k.fetched k.same_major k.healthy
          ∙ ap loaded (sym same)
