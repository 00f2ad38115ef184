-- ===== src/Registry/Health.antt =====
-- How an instance goes up and down.
use go_gateway.Prelude.{
  ℕ, suc, ◌+◌, refl, ap, ◌∙◌, ◌++◌, ◌≤◌, ◌<◌, ℤ, pos, max_int, ◌≡◌, ◌≢◌, true, false, List, [], ◌∷◌,
  arith, length, All, ◌↔◌, Option, none, some,
}
use go_gateway.Registry.{Instance, is_healthy, record_success, record_failure, HealthCheckCfg}
use go_gateway.Registry.HealthCheck.{check_instance}

-- Both methods return true exactly when they change whether the instance is healthy, and then
-- success makes it healthy and failure unhealthy; success never makes an instance unhealthy, nor
-- failure one healthy.

transitioned_iff_flipped :
    (threshold : ℤ) (i : Instance)
    → (((record_success threshold i).1 ≡ true)
        ↔ (is_healthy (record_success threshold i).0 ≢ is_healthy i))
      × (((record_failure threshold i).1 ≡ true)
          ↔ (is_healthy (record_failure threshold i).0 ≢ is_healthy i))
      × (is_healthy i ≡ true → is_healthy (record_success threshold i).0 ≡ true)
      × (is_healthy i ≡ false → is_healthy (record_failure threshold i).0 ≡ false)
unfolding record_success record_failure is_healthy
transitioned_iff_flipped threshold i = ground arith

-- One instance through the responses to its checks, oldest first.
unfoldable pub checks : HealthCheckCfg → List (Option ℕ) → Instance → Instance
unfolding check_instance
checks cfg [] i = i
checks cfg (response ∷ rest) i = checks cfg rest (check_instance cfg response i).0

-- The response of a check that fails: an error of the client, or a status code from 300 on.
abbrev pub Failed : Option ℕ → Type 0
Failed none = Unit
Failed (some status_code) = 300 ≤ status_code

abbrev pub Passed : Option ℕ → Type 0
Passed none = ⊥
Passed (some status_code) = status_code < 300

-- `k` failures of the `n` that make a healthy instance unhealthy.
abbrev Failing : ℕ → Instance → Type 0
Failing k i = (is_healthy i ≡ true) × (i.consecutive_fails ≡ pos k)

abbrev Recovering : ℕ → Instance → Type 0
Recovering k i = (is_healthy i ≡ false) × (i.consecutive_oks ≡ pos k)

module _ (cfg : HealthCheckCfg) (n : ℕ) (fits : n ≤ max_int) where
  check-Failing :
      (k : ℕ) (r : Option ℕ) (i : Instance)
      → cfg.failure_threshold ≡ pos n
      → suc k < n
      → Failed r
      → Failing k i
      → Failing (suc k) (check_instance cfg r i).0
  unfolding check_instance record_failure is_healthy
  check-Failing k none i t more r h = ground arith
  check-Failing k (some c) i t more r h = ground arith

  checks-Failing :
      (k : ℕ) (rs : List (Option ℕ)) (i : Instance)
      → cfg.failure_threshold ≡ pos n
      → k + length rs < n
      → All Failed rs
      → Failing k i
      → Failing (k + length rs) (checks cfg rs i)
  unfolding checks
  checks-Failing k [] i t more _ h = ground arith
  checks-Failing k (r ∷ rs) i t more (f, fs) h = ground (
    arith,
    check-Failing k r i t (omega arith) f h,
    checks-Failing (suc k) rs (check_instance cfg r i).0 t (omega arith) fs,
  )

  check-Recovering :
      (k : ℕ) (r : Option ℕ) (i : Instance)
      → cfg.success_threshold ≡ pos n
      → suc k < n
      → Passed r
      → Recovering k i
      → Recovering (suc k) (check_instance cfg r i).0
  unfolding check_instance record_success is_healthy
  check-Recovering k (some c) i t more r h = ground arith
  check-Recovering k none i t more r h = elim r [ ]

  checks-Recovering :
      (k : ℕ) (rs : List (Option ℕ)) (i : Instance)
      → cfg.success_threshold ≡ pos n
      → k + length rs < n
      → All Passed rs
      → Recovering k i
      → Recovering (k + length rs) (checks cfg rs i)
  unfolding checks
  checks-Recovering k [] i t more _ h = ground arith
  checks-Recovering k (r ∷ rs) i t more (f, fs) h = ground (
    arith,
    check-Recovering k r i t (omega arith) f h,
    checks-Recovering (suc k) rs (check_instance cfg r i).0 t (omega arith) fs,
  )

last_failure :
    (cfg : HealthCheckCfg) (k : ℕ) (r : Option ℕ) (i : Instance)
    → suc k ≤ max_int
    → cfg.failure_threshold ≡ pos (suc k)
    → Failed r
    → Failing k i
    → ((check_instance cfg r i).1 ≡ true) × (is_healthy (check_instance cfg r i).0 ≡ false)
unfolding check_instance record_failure is_healthy
last_failure cfg k none i fits t f h = ground arith
last_failure cfg k (some c) i fits t f h = ground arith

last_success :
    (cfg : HealthCheckCfg) (k : ℕ) (r : Option ℕ) (i : Instance)
    → suc k ≤ max_int
    → cfg.success_threshold ≡ pos (suc k)
    → Passed r
    → Recovering k i
    → ((check_instance cfg r i).1 ≡ true) × (is_healthy (check_instance cfg r i).0 ≡ true)
unfolding check_instance record_success is_healthy
last_success cfg k none i fits t f h = elim f [ ]
last_success cfg k (some c) i fits t f h = ground arith

-- A healthy (or starting) instance with no failure counted, and failure threshold n + 1 (an `int`),
-- stays healthy through n failed checks in a row, and the next failed check makes it unhealthy.
fails_at_threshold :
    (cfg : HealthCheckCfg) (rs : List (Option ℕ)) (r : Option ℕ) (i : Instance)
    → suc (length rs) ≤ max_int
    → cfg.failure_threshold ≡ pos (suc (length rs))
    → All Failed rs
    → Failed r
    → is_healthy i ≡ true
    → i.consecutive_fails ≡ pos 0
    → (is_healthy (checks cfg rs i) ≡ true)
      × ((check_instance cfg r (checks cfg rs i)).1 ≡ true)
      × (is_healthy (check_instance cfg r (checks cfg rs i)).0 ≡ false)
fails_at_threshold cfg rs r i fits t fs f up zero_fails =
    let h = checks-Failing cfg (suc (length rs)) fits 0 rs i t (omega arith) fs (up, zero_fails) in
    let h' : Failing (length rs) (checks cfg rs i) = ground (arith, h) in
    let l = last_failure cfg (length rs) r (checks cfg rs i) fits t f h' in (h.0, l.0, l.1)

-- An unhealthy instance with no success counted, and success threshold n + 1 (an `int`), stays
-- unhealthy through n passed checks in a row, and the next passed check makes it healthy.
recovers_at_threshold :
    (cfg : HealthCheckCfg) (rs : List (Option ℕ)) (r : Option ℕ) (i : Instance)
    → suc (length rs) ≤ max_int
    → cfg.success_threshold ≡ pos (suc (length rs))
    → All Passed rs
    → Passed r
    → is_healthy i ≡ false
    → i.consecutive_oks ≡ pos 0
    → (is_healthy (checks cfg rs i) ≡ false)
      × ((check_instance cfg r (checks cfg rs i)).1 ≡ true)
      × (is_healthy (check_instance cfg r (checks cfg rs i)).0 ≡ true)
recovers_at_threshold cfg rs r i fits t fs f down zero_oks =
    let h =
      checks-Recovering cfg (suc (length rs)) fits 0 rs i t (omega arith) fs (down, zero_oks) in
    let h' : Recovering (length rs) (checks cfg rs i) = ground (arith, h) in
    let l = last_success cfg (length rs) r (checks cfg rs i) fits t f h' in (h.0, l.0, l.1)

checks-append :
    (cfg : HealthCheckCfg) (rs rs' : List (Option ℕ)) (i : Instance)
    → checks cfg (rs ++ rs') i ≡ checks cfg rs' (checks cfg rs i)
unfolding checks
checks-append cfg [] rs' i = refl
checks-append cfg (r ∷ rs) rs' i = checks-append cfg rs rs' (check_instance cfg r i).0

last_check :
    (cfg : HealthCheckCfg) (rs : List (Option ℕ)) (r : Option ℕ) (i : Instance)
    → checks cfg (rs ++ r ∷ []) i ≡ (check_instance cfg r (checks cfg rs i)).0
last_check cfg rs r i = checks-append cfg rs (r ∷ []) i ∙ (unfold checks in refl)

Failed-oks :
    (cfg : HealthCheckCfg) (r : Option ℕ) (i : Instance)
    → Failed r
    → (check_instance cfg r i).0.consecutive_oks ≡ pos 0
unfolding check_instance record_failure
Failed-oks cfg none i f = ground arith
Failed-oks cfg (some c) i f = ground arith

Passed-fails :
    (cfg : HealthCheckCfg) (r : Option ℕ) (i : Instance)
    → Passed r
    → (check_instance cfg r i).0.consecutive_fails ≡ pos 0
unfolding check_instance record_success
Passed-fails cfg none i f = elim f [ ]
Passed-fails cfg (some c) i f = ground arith

-- A healthy instance with no failure counted, where the failure threshold is m + 1 and the success
-- threshold n + 1 (both an `int`): it is still healthy after m failed checks in a row, unhealthy after
-- the next failed one, still unhealthy after n passed checks in a row then, and after the next passed
-- one it is healthy and has no failure counted, as it was.
pub goes_down_and_up :
    (cfg : HealthCheckCfg) (fs ps : List (Option ℕ)) (f p : Option ℕ) (i : Instance)
    → suc (length fs) ≤ max_int
    → suc (length ps) ≤ max_int
    → cfg.failure_threshold ≡ pos (suc (length fs))
    → cfg.success_threshold ≡ pos (suc (length ps))
    → All Failed fs
    → Failed f
    → All Passed ps
    → Passed p
    → is_healthy i ≡ true
    → i.consecutive_fails ≡ pos 0
    → let down = checks cfg (fs ++ f ∷ []) i in
      let again = checks cfg (ps ++ p ∷ []) down in
      (is_healthy (checks cfg fs i) ≡ true)
      × (is_healthy down ≡ false)
      × (is_healthy (checks cfg ps down) ≡ false)
      × (is_healthy again ≡ true)
      × (again.consecutive_fails ≡ pos 0)
goes_down_and_up cfg fs ps f p i fits fits' t t' failing f_failed passing p_passed up zero_fails =
    let down = checks cfg (fs ++ f ∷ []) i in
    let (still_up, _, is_down) =
      fails_at_threshold cfg fs f i fits t failing f_failed up zero_fails in
    let down_now : is_healthy down ≡ false = ap is_healthy (last_check cfg fs f i) ∙ is_down in
    let no_oks : down.consecutive_oks ≡ pos 0 =
      ap (λ j. j.consecutive_oks) (last_check cfg fs f i)
      ∙ Failed-oks cfg f (checks cfg fs i) f_failed in
    let (still_down, _, up_again) =
      recovers_at_threshold cfg ps p down fits' t' passing p_passed down_now no_oks in
    (
      still_up,
      down_now,
      still_down,
      ap is_healthy (last_check cfg ps p down) ∙ up_again,
      ap (λ j. j.consecutive_fails) (last_check cfg ps p down)
          ∙ Passed-fails cfg p (checks cfg ps down) p_passed,
    )
