-- ===== src/Runtime/Rounds.antt =====
-- The rounds of the loop over the services, and of the loop that stops removed ones: what they do to
-- the maps of the registry and to the load balancers.
use go_gateway.Prelude.{
  ℕ, zero, suc, ◌≤◌, ◌≡◌, ◌≢◌, refl, sym, ◌∙◌, ap, subst, true, false, List, [], ◌∷◌, ◌++◌, map,
  String, none, some, lookup, lookup-insert, lookup-delete, arith, eq_iff, All, In, length,
  length-append, get_elem?, Option-cases, inl, inr,
}
use go_gateway.Config.{ServiceConfig}
use go_gateway.Registry.{ServiceEntry}
use go_gateway.Registry.Store.{Registry, allocate, register, start_for_service, stop_for_service}
use go_gateway.Validator.Names.{Distinct}
use go_gateway.Runtime.{
  random, round_robin, Services, entry_of, update_lb, apply_service, apply_services, still_exists,
  stop_removed,
}

abbrev pub names_of : List ServiceConfig → List String
names_of cs = map (λ c. c.name) cs

get_elem?-append {ℓ} :
    {A : Type ℓ} (xs ys : List A) (i : ℕ) (x : A)
    → get_elem? xs i ≡ some x
    → get_elem? (xs ++ ys) i ≡ some x
get_elem?-append [] ys i x e = absurd (ground (arith, e))
get_elem?-append (y ∷ xs) ys zero x e = e
get_elem?-append (y ∷ xs) ys (suc i) x e = get_elem?-append xs ys i x e

get_elem?-last {ℓ} :
    {A : Type ℓ} (xs : List A) (x : A) → get_elem? (xs ++ x ∷ []) (length xs) ≡ some x
get_elem?-last [] x = refl
get_elem?-last (y ∷ xs) x = get_elem?-last xs x

-- A round for another service leaves what belongs to a name.
pub record Kept (name : String) (s t : Services) : Type 0 where
  pub services_kept : lookup name t.store.services ≡ lookup name s.store.services
  pub cancels_kept : lookup name t.store.cancels ≡ lookup name s.store.cancels
  pub lbs_kept : lookup name t.lbs ≡ lookup name s.lbs

-- Entries are only added.
pub record Grown (s t : Services) : Type 0 where
  pub longer : length s.store.entries ≤ length t.store.entries
  pub entries_kept :
      (i : ℕ) (e : ServiceEntry)
      → get_elem? s.store.entries i ≡ some e
      → get_elem? t.store.entries i ≡ some e

apply_service-Kept :
    (name : String) (c : ServiceConfig) (s : Services)
    → name ≢ c.name
    → Kept name s (apply_service c s)
unfolding apply_service update_lb allocate register start_for_service
apply_service-Kept name c s ne = record {
  services_kept = ground (
    arith,
    ne,
    lookup-insert c.name name (length s.store.entries) s.store.services,
    eq_iff c.name name,
  );
  cancels_kept = ground (
    arith,
    ne,
    lookup-insert c.name name (length s.store.entries) s.store.cancels,
    eq_iff c.name name,
  );
  lbs_kept = ground (
    arith,
    ne,
    lookup-insert c.name name random s.lbs,
    lookup-insert c.name name (round_robin 0) s.lbs,
    eq_iff c.name name,
  );
}

apply_service-entries :
    (c : ServiceConfig) (s : Services)
    → (apply_service c s).store.entries ≡ s.store.entries ++ entry_of c ∷ []
unfolding apply_service allocate register start_for_service
apply_service-entries c s = elim (Option-cases (lookup c.name s.store.cancels)) [
  | inl e ↦ rw (apply_service, start_for_service, e) refl
  | inr (q, e) ↦ rw (apply_service, start_for_service, e) refl
]

apply_service-Grown : (c : ServiceConfig) (s : Services) → Grown s (apply_service c s)
apply_service-Grown c s = record {
  longer =
      rw (apply_service-entries c s)
        (omega (arith, length-append s.store.entries (entry_of c ∷ [])));
  entries_kept = λ i e h.
      rw (apply_service-entries c s) (get_elem?-append s.store.entries (entry_of c ∷ []) i e h);
}

pub apply_services-Kept :
    (name : String) (cs : List ServiceConfig) (s : Services)
    → All (λ j. name ≢ j) (names_of cs)
    → Kept name s (apply_services cs s)
unfolding apply_services
apply_services-Kept name [] s _ = record {
  services_kept = refl;
  cancels_kept = refl;
  lbs_kept = refl;
}
apply_services-Kept name (c ∷ cs) s (ne, nes) =
    let first = apply_service-Kept name c s ne in
    let rest = apply_services-Kept name cs (apply_service c s) nes in
    record {
      services_kept = rest.services_kept ∙ first.services_kept;
      cancels_kept = rest.cancels_kept ∙ first.cancels_kept;
      lbs_kept = rest.lbs_kept ∙ first.lbs_kept;
    }

pub apply_services-Grown : (cs : List ServiceConfig) (s : Services) → Grown s (apply_services cs s)
unfolding apply_services
apply_services-Grown [] s = record { longer = omega arith; entries_kept = λ i e h. h }
apply_services-Grown (c ∷ cs) s =
    let first = apply_service-Grown c s in
    let rest = apply_services-Grown cs (apply_service c s) in
    record {
      longer = omega (arith, first.longer, rest.longer);
      entries_kept = λ i e h. rest.entries_kept i e (first.entries_kept i e h);
    }

-- The maps at the name of the service of a round.
pub record Applied (c : ServiceConfig) (s t : Services) : Type 0 where
  pub pointer_of : lookup c.name t.store.services ≡ some (length s.store.entries)
  pub entry_there : get_elem? t.store.entries (length s.store.entries) ≡ some (entry_of c)
  pub runs_on :
      (q : ℕ) → lookup c.name s.store.cancels ≡ some q → lookup c.name t.store.cancels ≡ some q
  pub starts :
      lookup c.name s.store.cancels ≡ none
      → lookup c.name t.store.cancels ≡ some (length s.store.entries)
  pub balanced : lookup c.name t.lbs ≡ lookup c.name (update_lb c.lb_strategy c.name s.lbs)

apply_service-Applied : (c : ServiceConfig) (s : Services) → Applied c s (apply_service c s)
unfolding apply_service allocate register start_for_service
apply_service-Applied c s = record {
  pointer_of = ground (
    arith,
    lookup-insert c.name c.name (length s.store.entries) s.store.services,
    eq_iff c.name c.name,
  );
  entry_there = rw (apply_service-entries c s) (get_elem?-last s.store.entries (entry_of c));
  runs_on = λ q e. ground (arith, e);
  starts = λ e. ground (
    arith,
    e,
    lookup-insert c.name c.name (length s.store.entries) s.store.cancels,
    eq_iff c.name c.name,
  );
  balanced = refl;
}

-- The round of one service among those of a configuration whose services have distinct names.
pub record Round (c : ServiceConfig) (s t : Services) : Type 0 where
  pub before : Services
  pub grown_before : Grown s before
  pub kept_before : Kept c.name s before
  pub applied : Applied c before (apply_service c before)
  pub grown_after : Grown (apply_service c before) t
  pub kept_after : Kept c.name (apply_service c before) t

pub apply_services-Round :
    (c : ServiceConfig) (cs : List ServiceConfig) (s : Services)
    → Distinct (names_of cs)
    → In c cs
    → Round c s (apply_services cs s)
unfolding apply_services
apply_services-Round c [] s _ m = elim m [ ]
apply_services-Round c (d ∷ cs) s (others, distinct) m =
    round m (λ i. apply_services-Round c cs (apply_service d s) distinct i)
  where
    here_round : c ≡ d → Round c s (apply_services cs (apply_service d s))
    here_round same =
        subst (λ b. Round b s (apply_services cs (apply_service d s))) (sym same)
          (record {
            before = s;
            grown_before = record { longer = omega arith; entries_kept = λ i e h. h };
            kept_before = record { services_kept = refl; cancels_kept = refl; lbs_kept = refl };
            applied = apply_service-Applied d s;
            grown_after = apply_services-Grown cs (apply_service d s);
            kept_after = apply_services-Kept d.name cs (apply_service d s) others;
          })

    member_differs :
        (xs : List ServiceConfig) → All (λ j. d.name ≢ j) (names_of xs) → In c xs → c.name ≢ d.name
    member_differs [] _ i = elim i [ ]
    member_differs (x ∷ xs) (ne, nes) (In.here e) = λ same. ne (sym same ∙ ap (λ b. b.name) e)
    member_differs (x ∷ xs) (ne, nes) (In.there i) = member_differs xs nes i

    later_round :
        c.name ≢ d.name
        → Round c (apply_service d s) (apply_services cs (apply_service d s))
        → Round c s (apply_services cs (apply_service d s))
    later_round ne rest =
        let grown = apply_service-Grown d s in
        let kept = apply_service-Kept c.name d s ne in
        record {
          before = rest.before;
          grown_before = record {
            longer = omega (arith, grown.longer, rest.grown_before.longer);
            entries_kept = λ i e h. rest.grown_before.entries_kept i e (grown.entries_kept i e h);
          };
          kept_before = record {
            services_kept = rest.kept_before.services_kept ∙ kept.services_kept;
            cancels_kept = rest.kept_before.cancels_kept ∙ kept.cancels_kept;
            lbs_kept = rest.kept_before.lbs_kept ∙ kept.lbs_kept;
          };
          applied = rest.applied;
          grown_after = rest.grown_after;
          kept_after = rest.kept_after;
        }

    round :
        In c (d ∷ cs)
        → (In c cs → Round c (apply_service d s) (apply_services cs (apply_service d s)))
        → Round c s (apply_services cs (apply_service d s))
    round (In.here same) rest = here_round same
    round (In.there i) rest = later_round (member_differs cs others i) (rest i)

pub still_exists-In :
    (c : ServiceConfig) (cs : List ServiceConfig) → In c cs → still_exists c.name cs ≡ true
still_exists-In c [] m = elim m [ ]
still_exists-In c (d ∷ cs) (In.here same) =
    ground (arith, eq_iff d.name c.name, ap (λ b. b.name) same)
still_exists-In c (d ∷ cs) (In.there m) = ground (arith, still_exists-In c cs m)

pub still_exists-not_in :
    (name : String) (cs : List ServiceConfig)
    → All (λ j. name ≢ j) (names_of cs)
    → still_exists name cs ≡ false
still_exists-not_in name [] _ = refl
still_exists-not_in name (c ∷ cs) (ne, nes) =
    ground (arith, ne, eq_iff c.name name, still_exists-not_in name cs nes)

module _ (cs : List ServiceConfig) where
  pub stop_removed-same :
      (names : List String) (r : Registry)
      → ((stop_removed cs names r).services ≡ r.services)
        × ((stop_removed cs names r).entries ≡ r.entries)
  unfolding stop_removed stop_for_service
  stop_removed-same [] r = (refl, refl)
  stop_removed-same (name ∷ names) r =
      ground (arith, stop_removed-same names r, stop_removed-same names (stop_for_service name r))

  pub stop_removed-kept :
      (name : String) (names : List String) (r : Registry)
      → still_exists name cs ≡ true
      → lookup name (stop_removed cs names r).cancels ≡ lookup name r.cancels
  unfolding stop_removed stop_for_service
  stop_removed-kept name [] r e = refl
  stop_removed-kept name (n ∷ names) r e = ground (
    arith,
    e,
    eq_iff n name,
    stop_removed-kept name names r e,
    stop_removed-kept name names (stop_for_service n r) e,
    lookup-delete n name r.cancels,
  )

  stop_removed-none :
      (name : String) (names : List String) (r : Registry)
      → lookup name r.cancels ≡ none
      → lookup name (stop_removed cs names r).cancels ≡ none
  unfolding stop_removed stop_for_service
  stop_removed-none name [] r e = e
  stop_removed-none name (n ∷ names) r e = ground (
    arith,
    e,
    stop_removed-none name names r,
    stop_removed-none name names (stop_for_service n r),
    lookup-delete n name r.cancels,
  )

  pub stop_removed-gone :
      (name : String) (names : List String) (r : Registry)
      → In name names
      → still_exists name cs ≡ false
      → lookup name (stop_removed cs names r).cancels ≡ none
  unfolding stop_removed stop_for_service
  stop_removed-gone name [] r m e = elim m [ ]
  stop_removed-gone name (n ∷ names) r (In.here same) e = ground (
    arith,
    same,
    e,
    eq_iff n name,
    stop_removed-none name names (stop_for_service n r),
    lookup-delete n name r.cancels,
  )
  stop_removed-gone name (n ∷ names) r (In.there m) e = ground (
    arith,
    stop_removed-gone name names r m e,
    stop_removed-gone name names (stop_for_service n r) m e,
  )
