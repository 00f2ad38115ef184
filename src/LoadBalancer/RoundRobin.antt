-- ===== src/LoadBalancer/RoundRobin.antt =====
-- Round robin over instances that stay eligible.
use go_gateway.Prelude.{
  ℕ, zero, suc, ◌+◌, ◌%◌, ◌<◌, ◌≡◌, refl, Bool, true, false, List, [], ◌∷◌, Option, none, length,
  get_elem?, In, filter-In, Bool-cases, arith, inl, inr, ◌↔◌, filter,
}
use go_gateway.Registry.{Instance, is_healthy}
use go_gateway.LoadBalancer.{pick_from, next_round_robin, index_of}
use go_gateway.LoadBalancer.Eligible.{get_elem?_total, pure_skip, wanted, filter_eligible-pure}

-- `n` requests in a row: the instances picked, and the counter after them.
pub picks : (Instance → Bool) → List Instance → ℕ → ℕ → List (Option Instance)
picks test instances zero counter = []
picks test instances (suc n) counter =
    let p = next_round_robin (pure_skip test) instances counter (tt {0}) in
    p.instance_of ∷ picks test instances n p.counter

-- The members of a list in turn, from an index on, round and round.
pub cycle : List Instance → ℕ → ℕ → List (Option Instance)
cycle es zero start = []
cycle es (suc n) start = get_elem? es (start % length es) ∷ cycle es n (start + 1)

pick_from_lem :
    {S : Type 0} (es : List Instance) (counter : ℕ) (s : S)
    → 0 < length es
    → counter + 1 < 18446744073709551616
    → pick_from es counter s ≡ record {
      instance_of = get_elem? es (counter % length es);
      counter = counter + 1;
      after = s;
    }
pick_from_lem [] counter s h fits = elim h [ ]
pick_from_lem (i ∷ is) counter s h fits =
    let step : (counter + 1) % 18446744073709551616 ≡ counter + 1 = omega arith in
    let back : (counter + 1 + 18446744073709551615) % 18446744073709551616 ≡ counter =
      omega arith in
    simp (step, back)

-- While the counter does not wrap around, and with an `isSkipped` that changes nothing and leaves
-- some healthy instance, n requests in a row get the healthy instances that are not skipped in turn,
-- in their order, round and round from the counter on.
pub picks-cycle :
    (test : Instance → Bool) (instances : List Instance) (n counter : ℕ)
    → 0 < length (filter (wanted test) instances)
    → counter + n < 18446744073709551616
    → picks test instances n counter ≡ cycle (filter (wanted test) instances) n counter
unfolding picks cycle next_round_robin
picks-cycle test instances zero counter some_left fits = refl
picks-cycle test instances (suc n) counter some_left fits =
    rw (filter_eligible-pure test instances (tt {0})) (
      rw (pick_from_lem (filter (wanted test) instances) counter (tt {0}) some_left (omega arith))
        (rw (picks-cycle test instances n (counter + 1) some_left (omega arith))))

pick_from-none :
    {S : Type 0} (es : List Instance) (counter : ℕ) (s : S)
    → (pick_from es counter s).instance_of ≡ none
    → es ≡ []
pick_from-none [] counter s e = refl
pick_from-none (i ∷ is) counter s e =
    let (x, found) =
      get_elem?_total (i ∷ is) (index_of ((counter + 1) % 18446744073709551616) (length (i ∷ is)))
        (grind arith) in
    ground (arith, e, found)

filter-nil_of_all :
    (p : Instance → Bool) (is : List Instance)
    → ((x : Instance) → In x is → p x ≡ false)
    → filter p is ≡ []
filter-nil_of_all p [] h = refl
filter-nil_of_all p (i ∷ is) h =
    rw (h i (In.here refl)) (filter-nil_of_all p is (λ x m. h x (In.there m)))

not-In-nil : {x : Instance} {is : List Instance} → is ≡ [] → In x is → ⊥
not-In-nil {x} e m = elim (let n : In x [] = rw e at m in n) [ ]

unwanted :
    (test : Instance → Bool) (x : Instance)
    → (is_healthy x ≡ true → test x ≡ true)
    → wanted test x ≡ false
unwanted test x h = elim (Bool-cases (is_healthy x)) [ inl up ↦ rw (up, h up) | inr down ↦ rw down ]

skipped_of_unwanted :
    (test : Instance → Bool) (x : Instance)
    → is_healthy x ≡ true
    → (wanted test x ≡ true → ⊥)
    → test x ≡ true
skipped_of_unwanted test x up h = elim (Bool-cases (test x)) [
  | inl e ↦ e
  | inr e ↦ absurd (h (rw (up, e)))
]

-- With an `isSkipped` that changes nothing, round robin returns ErrNoHealthyInstances exactly when
-- every healthy instance is skipped.
pub next-none_iff :
    {S : Type 0} (test : Instance → Bool) (instances : List Instance) (counter : ℕ) (s : S)
    → ((next_round_robin (pure_skip test) instances counter s).instance_of ≡ none)
      ↔ ((x : Instance) → In x instances → is_healthy x ≡ true → test x ≡ true)
unfolding next_round_robin
next-none_iff test instances counter s = (
  λ e x m up.
      (let emptied : filter (wanted test) instances ≡ [] =
          pick_from-none _ counter s (rw (filter_eligible-pure test instances s) at e) in
        skipped_of_unwanted test x up
          (λ w. not-In-nil emptied (filter-In (wanted test) instances w m))),
  λ h.
      (let emptied = filter-nil_of_all (wanted test) instances (λ x m. unwanted test x (h x m)) in
        rw (filter_eligible-pure test instances s) (rw emptied)),
)
