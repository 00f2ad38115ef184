-- ===== src/Validator/Services.antt =====
-- The loops over the services and the plugins, against what they require.
use go_gateway.Prelude.{
  ℕ, ◌+◌, ◌≡◌, ◌≢◌, refl, sym, ◌∙◌, ◌↔◌, ◌⊎◌, inl, inr, true, false, List, [], ◌∷◌, map, String,
  insert, ◌==◌, All, arith, eq_iff, Bool-cases, In,
}
use go_gateway.Config.{ServiceConfig, PluginDef}
use go_gateway.Validator.{Names, has, valid_lb, service_problems, check_services, check_plugins}
use go_gateway.Validator.Names.{
  has-insert, Distinct, Fresh, Fresh-insert, append-eq-nil, when-nil_iff,
}

-- The strategies that a service may name; none is round-robin.
abbrev pub KnownStrategy : String → Type 0
KnownStrategy s = (s ≡ "round-robin") ⊎ ((s ≡ "random") ⊎ ((s ≡ "smart") ⊎ (s ≡ "")))

valid_lb_iff : (s : String) → (valid_lb s ≡ true) ↔ KnownStrategy s
valid_lb_iff s =
    ground (arith, eq_iff s "round-robin", eq_iff s "random", eq_iff s "smart", eq_iff s "")

-- A service that can be used: a name, a known strategy and an instance.
pub record ServiceOk (svc : ServiceConfig) : Type 0 where
  pub has_name : svc.name ≢ ""
  pub lb_known : KnownStrategy svc.lb_strategy
  pub has_instance : svc.instances ≢ []

abbrev pub service_names : List ServiceConfig → List String
service_names svcs = map (λ s. s.name) svcs

abbrev pub ServicesOk : Names → List ServiceConfig → Type 0
ServicesOk seen svcs =
    All ServiceOk svcs × Fresh seen (service_names svcs) × Distinct (service_names svcs)

service_problems-nil_iff :
    (seen : Names) (svc : ServiceConfig)
    → (service_problems seen svc ≡ [])
      ↔ ((has svc.name seen ≡ false) × (valid_lb svc.lb_strategy ≡ true) × (svc.instances ≢ []))
unfolding service_problems
service_problems-nil_iff seen svc = ground (arith, when-nil_iff (has svc.name seen))

-- One service with a name, and the rest.
first_service :
    (i : ℕ) (seen : Names) (svc : ServiceConfig) (svcs : List ServiceConfig)
    → svc.name ≢ ""
    → ((check_services i seen (svc ∷ svcs)).0 ≡ []) ↔ (
        (service_problems seen svc ≡ [])
        × ((check_services (i + 1) (insert svc.name tt seen) svcs).0 ≡ []))
unfolding check_services
first_service i seen svc svcs named =
    let unequal : (svc.name == "") ≡ false = ground (arith, eq_iff svc.name "") in
    rw unequal (append-eq-nil _ _)

unnamed_service :
    (i : ℕ) (seen : Names) (svc : ServiceConfig) (svcs : List ServiceConfig)
    → (check_services i seen (svc ∷ svcs)).0 ≡ []
    → svc.name ≢ ""
unfolding check_services
unnamed_service i seen svc svcs e same =
    let equal : (svc.name == "") ≡ true = (eq_iff svc.name "").1 same in ground (arith, e, equal)

-- The loop finds no problem exactly when every service is usable, and the names are new and distinct.
pub check_services-nil_iff :
    (i : ℕ) (seen : Names) (svcs : List ServiceConfig)
    → ((check_services i seen svcs).0 ≡ []) ↔ ServicesOk seen svcs
check_services-nil_iff i seen [] = ((λ _. (tt, tt, tt)), (λ _. unfold check_services in refl))
check_services-nil_iff i seen (svc ∷ svcs) = (
  λ e.
      (let named = unnamed_service i seen svc svcs e in
        let (here, rest) = (first_service i seen svc svcs named).0 e in
        let (new_name, lb, some_instance) = (service_problems-nil_iff seen svc).0 here in
        let (oks, fresh, distinct) =
          (check_services-nil_iff (i + 1) (insert svc.name tt seen) svcs).0 rest in
        let (others, fresh') = (Fresh-insert svc.name seen (service_names svcs)).0 fresh in
        (
          (
            record {
              has_name = named;
              lb_known = (valid_lb_iff svc.lb_strategy).0 lb;
              has_instance = some_instance;
            },
            oks,
          ),
          (new_name, fresh'),
          (others, distinct),
        )),
  λ ok.
      (let ((one_ok, oks), (new_name, fresh), (others, distinct)) = ok in
        (first_service i seen svc svcs one_ok.has_name).1 (
          (service_problems-nil_iff seen svc).1
              (new_name, (valid_lb_iff svc.lb_strategy).1 one_ok.lb_known, one_ok.has_instance),
          (check_services-nil_iff (i + 1) (insert svc.name tt seen) svcs).1
              (oks, (Fresh-insert svc.name seen (service_names svcs)).1 (others, fresh), distinct),
        )),
)

-- A set of names that holds those of a list, without the empty one, and what it held before.
abbrev pub HoldsNames : Names → Names → List String → Type 0
HoldsNames after before xs =
    (k : String) → (has k after ≡ true) ↔ ((has k before ≡ true) ⊎ ((k ≢ "") × In k xs))

HoldsNames-skip :
    (after before : Names) (x : String) (xs : List String)
    → x ≡ ""
    → HoldsNames after before xs
    → HoldsNames after before (x ∷ xs)
HoldsNames-skip after before x xs empty h k = (
  λ e. elim ((h k).0 e) [ inl old ↦ inl old | inr (ne, m) ↦ inr (ne, In.there m) ],
  λ d. elim d [ inl old ↦ (h k).1 (inl old) | inr (ne, m) ↦ (h k).1 (inr (ne, tail_of k ne m)) ],
)
  where
    tail_of : (k : String) → k ≢ "" → In k (x ∷ xs) → In k xs
    tail_of k ne (In.here e) = absurd (ne (e ∙ empty))
    tail_of k ne (In.there m) = m

HoldsNames-add :
    (after before : Names) (x : String) (xs : List String)
    → x ≢ ""
    → HoldsNames after (insert x tt before) xs
    → HoldsNames after before (x ∷ xs)
HoldsNames-add after before x xs some_name h k = (
  λ e. elim ((h k).0 e) [
    | inl old ↦ split (ground (arith, old, has-insert k x before))
    | inr (ne, m) ↦ inr (ne, In.there m)
  ],
  λ d. elim d [
    | inl old ↦ (h k).1 (inl (ground (arith, old, has-insert k x before)))
    | inr (ne, In.here e) ↦
        (h k).1 (inl (ground (arith, has-insert k x before, (eq_iff x k).1 (sym e))))
    | inr (ne, In.there m) ↦ (h k).1 (inr (ne, m))
  ],
)
  where
    split :
        ((x == k) ≡ true) ⊎ (has k before ≡ true)
        → (has k before ≡ true) ⊎ ((k ≢ "") × In k (x ∷ xs))
    split (inl same) =
        let e = (eq_iff x k).0 same in inr ((λ n. some_name (e ∙ n)), In.here (sym e))
    split (inr old) = inl old

pub check_services-HoldsNames :
    (i : ℕ) (seen : Names) (svcs : List ServiceConfig)
    → HoldsNames (check_services i seen svcs).1 seen (service_names svcs)
unfolding check_services
check_services-HoldsNames i seen [] =
    λ k. ((λ e. inl e), (λ d. elim d [ inl e ↦ e | inr (ne, m) ↦ elim m [ ] ]))
check_services-HoldsNames i seen (svc ∷ svcs) = elim (Bool-cases (svc.name == "")) [
  | inl e ↦
      HoldsNames-skip _ seen svc.name (service_names svcs) ((eq_iff svc.name "").0 e)
        (rw e (check_services-HoldsNames (i + 1) seen svcs))
  | inr e ↦
      HoldsNames-add _ seen svc.name (service_names svcs)
        (λ same. absurd (ground (arith, e, (eq_iff svc.name "").1 same)))
        (rw e (check_services-HoldsNames (i + 1) (insert svc.name tt seen) svcs))
]

abbrev pub plugin_names : List PluginDef → List String
plugin_names ps = map (λ p. p.name) ps

pub check_plugins-HoldsNames :
    (i : ℕ) (seen : Names) (ps : List PluginDef)
    → HoldsNames (check_plugins i seen ps).1 seen (plugin_names ps)
unfolding check_plugins
check_plugins-HoldsNames i seen [] =
    λ k. ((λ e. inl e), (λ d. elim d [ inl e ↦ e | inr (ne, m) ↦ elim m [ ] ]))
check_plugins-HoldsNames i seen (p ∷ ps) = elim (Bool-cases (p.name == "")) [
  | inl e ↦
      HoldsNames-skip _ seen p.name (plugin_names ps) ((eq_iff p.name "").0 e)
        (rw e (check_plugins-HoldsNames (i + 1) seen ps))
  | inr e ↦
      HoldsNames-add _ seen p.name (plugin_names ps)
        (λ same. absurd (ground (arith, e, (eq_iff p.name "").1 same)))
        (rw e (check_plugins-HoldsNames (i + 1) (insert p.name tt seen) ps))
]

pub check_plugins-nil_iff :
    (i : ℕ) (seen : Names) (ps : List PluginDef)
    → ((check_plugins i seen ps).0 ≡ []) ↔ All (λ x. x ≢ "") (plugin_names ps)
unfolding check_plugins
check_plugins-nil_iff i seen [] = ((λ _. tt), (λ _. refl))
check_plugins-nil_iff i seen (p ∷ ps) = ground (
  arith,
  eq_iff p.name "",
  check_plugins-nil_iff (i + 1) seen ps,
  check_plugins-nil_iff (i + 1) (insert p.name tt seen) ps,
)
