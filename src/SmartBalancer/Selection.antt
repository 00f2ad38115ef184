-- ===== src/SmartBalancer/Selection.antt =====
-- Which instance the balancer picks, and what it counts.
use go_gateway.Prelude.{
  ℕ, ◌%◌, ℤ, pos, inc_int, dec_int, ◌≡◌, refl, sym, ap, subst, ◌∙◌, inl, inr, Bool, true, false,
  List, [], ◌∷◌, String, Option, none, some, lookup, insert, lookup-insert, In, arith, Bool-cases,
  Option-cases, some_inj, eq_iff, eqb, length, get_elem?, if◌then◌else◌, ◌==◌, ◌||◌, Map,
}
use go_gateway.Go.Float.{Float}
use go_gateway.Registry.{Instance}
use go_gateway.LoadBalancer.Eligible.{get_elem?-In}
use go_gateway.SmartBalancer.{
  InstanceState, Balancer, Draws, new_instance_state, get_state, record_start, recorded, done,
  score_of, score_all, spin, last_of, or_last, pick_random, choose,
}

last_of-In : (i : Instance) (is : List Instance) → In (last_of i is) (i ∷ is)
last_of-In i [] = In.here refl
last_of-In i (j ∷ is) = In.there (last_of-In j is)

or_last-In :
    (i : Instance) (is : List Instance) (o : Option Instance)
    → ((j : Instance) → o ≡ some j → In j (i ∷ is))
    → In (or_last i is o) (i ∷ is)
or_last-In i is none h = last_of-In i is
or_last-In i is (some j) h = h j refl

random-In : (index : ℕ) (i : Instance) (is : List Instance) → In (pick_random index i is) (i ∷ is)
random-In index i is =
    or_last-In i is (get_elem? (i ∷ is) (index % length (i ∷ is)))
      (λ j f. get_elem?-In (i ∷ is) (index % length (i ∷ is)) f)

module _ {F : Type 0} ⦃fl : Float F⦄ where
  -- The count of running requests of an instance, 0 where it has no state.
  abbrev pub counted : Option (InstanceState F) → ℤ
  counted none = pos 0
  counted (some s) = s.inflight

  abbrev pub inflight_of : String → Balancer F → ℤ
  inflight_of id b = counted (lookup id b.states)

  abbrev instances_of : List (Instance × F) → List Instance
  instances_of [] = []
  instances_of ((i, score) ∷ rest) = i ∷ instances_of rest

  spin-In :
      (target accum : F) (scores : List (Instance × F)) (j : Instance)
      → spin target accum scores ≡ some j
      → In j (instances_of scores)
  unfolding spin
  spin-In target accum [] j e = absurd (ground (arith, e))
  spin-In target accum ((i, score) ∷ rest) j e =
      elim (Bool-cases (fl.leq_f target (fl.add_f accum score))) [
        | inl h ↦ In.here (sym (some_inj (rw h at e)))
        | inr h ↦ In.there (spin-In target (fl.add_f accum score) rest j (rw h at e))
      ]

  score_all-instances :
      (is : List Instance) (total : F) (b : Balancer F) → instances_of (score_all is total b).0 ≡ is
  unfolding score_all
  score_all-instances [] total b = refl
  score_all-instances (i ∷ is) total b =
      ap (λ js. i ∷ js)
        (score_all-instances is (fl.add_f total (score_of b.cfg (get_state i b).0))
          (get_state i b).1)

  wheel-In :
      (target : F) (i : Instance) (is : List Instance) (b : Balancer F)
      → In (or_last i is (spin target fl.zero_f (score_all (i ∷ is) fl.zero_f b).0)) (i ∷ is)
  wheel-In target i is b =
      or_last-In i is (spin target fl.zero_f (score_all (i ∷ is) fl.zero_f b).0) (λ j f.
        subst (In j) (score_all-instances (i ∷ is) fl.zero_f b)
          (spin-In target fl.zero_f (score_all (i ∷ is) fl.zero_f b).0 j f))

  pub choose-In :
      (draws : Draws F) (i : Instance) (is : List Instance) (b : Balancer F)
      → In (choose draws i is b).0 (i ∷ is)
  unfolding choose
  choose-In draws i is b =
      elim (Bool-cases
        (fl.less_f draws.explore b.cfg.exploration_rate || eqb (length (i ∷ is)) 1)) [
          | inl e ↦ rw e (random-In draws.index i is)
          | inr e ↦ rw e (wheel-In (fl.mul_f draws.wheel (score_all (i ∷ is) fl.zero_f b).1) i is b)
        ]

  counted_if :
      (same : Bool) (s : InstanceState F) (o : Option (InstanceState F))
      → counted (if same then some s else o) ≡ (if same then s.inflight else counted o)
  counted_if true s o = refl
  counted_if false s o = refl

  inflight-insert :
      (id k : String) (s : InstanceState F) (states : Map (InstanceState F))
      → counted (lookup k (insert id s states))
        ≡ (if id == k then s.inflight else counted (lookup k states))
  inflight-insert id k s states =
      ap counted (lookup-insert id k s states) ∙ counted_if (id == k) s (lookup k states)

  nothing_new :
      (id k : String) (states : Map (InstanceState F))
      → lookup id states ≡ none
      → (if id == k then pos 0 else counted (lookup k states)) ≡ counted (lookup k states)
  nothing_new id k states e = elim (Bool-cases (id == k)) [
    | inl h ↦ rw h (sym (ap counted (subst (λ x. lookup x states ≡ none) ((eq_iff id k).0 h) e)))
    | inr h ↦ rw h refl
  ]

  -- The state that is made on demand counts nothing.
  get_state-inflight :
      (i : Instance) (b : Balancer F) (k : String)
      → (inflight_of k (get_state i b).1 ≡ inflight_of k b)
        × ((get_state i b).0.inflight ≡ inflight_of i.id b)
  unfolding get_state new_instance_state
  get_state-inflight i b k = elim (Option-cases (lookup i.id b.states)) [
    | inl e ↦
        rw (e, get_state)
          (inflight-insert i.id k new_instance_state b.states ∙ nothing_new i.id k b.states e, refl)
    | inr (s, e) ↦ rw (e, get_state) (refl, refl)
  ]

  score_all-inflight :
      (is : List Instance) (total : F) (b : Balancer F) (k : String)
      → inflight_of k (score_all is total b).2 ≡ inflight_of k b
  unfolding score_all
  score_all-inflight [] total b k = refl
  score_all-inflight (i ∷ is) total b k =
      score_all-inflight is (fl.add_f total (score_of b.cfg (get_state i b).0)) (get_state i b).1 k
      ∙ (get_state-inflight i b k).0

  pub choose-inflight :
      (draws : Draws F) (i : Instance) (is : List Instance) (b : Balancer F) (k : String)
      → inflight_of k (choose draws i is b).1 ≡ inflight_of k b
  unfolding choose
  choose-inflight draws i is b k =
      elim (Bool-cases
        (fl.less_f draws.explore b.cfg.exploration_rate || eqb (length (i ∷ is)) 1)) [
          | inl e ↦ rw e refl
          | inr e ↦ rw e (score_all-inflight (i ∷ is) fl.zero_f b k)
        ]

  pub record_start-inflight :
      (i : Instance) (b : Balancer F) (k : String)
      → inflight_of k (record_start i b)
        ≡ (if i.id == k then inc_int (inflight_of i.id b) else inflight_of k b)
  unfolding record_start
  record_start-inflight i b k =
      inflight-insert i.id k _ (get_state i b).1.states
      ∙ ap (λ n. if i.id == k then n else inflight_of k (get_state i b).1)
          (ap inc_int (get_state-inflight i b k).1)
      ∙ ap (λ n. if i.id == k then inc_int (inflight_of i.id b) else n) (get_state-inflight i b k).0

  pub done-inflight :
      (i : Instance) (latency : ℕ) (is_err : Bool) (b : Balancer F) (k : String)
      → inflight_of k (done i latency is_err b)
        ≡ (if i.id == k then dec_int (inflight_of i.id b) else inflight_of k b)
  unfolding done recorded
  done-inflight i latency is_err b k =
      inflight-insert i.id k _ (get_state i b).1.states
      ∙ ap (λ n. if i.id == k then n else inflight_of k (get_state i b).1)
          (ap dec_int (get_state-inflight i b k).1)
      ∙ ap (λ n. if i.id == k then dec_int (inflight_of i.id b) else n) (get_state-inflight i b k).0
