-- ===== src/LoadBalancer/Eligible.antt =====
-- Which instances a strategy may pick.
use go_gateway.Prelude.{
  ℕ, zero, suc, ◌<◌, ◌≡◌, refl, Bool, true, false, List, [], ◌∷◌, if◌then◌else◌, not, some, length,
  get_elem?, In, none, ◌++◌, subst, sym, ap, Bool-cases, arith, ◌⊎◌, inl, inr, filter, ◌&&◌,
}
use go_gateway.Registry.{Instance, is_healthy}
use go_gateway.LoadBalancer.{
  Skipper, is_eligible, filter_eligible, pick_from, next_round_robin, next_random, draw_from,
}

pub get_elem?-In {ℓ} :
    {A : Type ℓ} (xs : List A) (i : ℕ) {x : A} → get_elem? xs i ≡ some x → In x xs
get_elem?-In [] i e = ground (arith, e)
get_elem?-In (y ∷ ys) zero e = In.here (ground (arith, e))
get_elem?-In (y ∷ ys) (suc i) e = In.there (get_elem?-In ys i e)

pub get_elem?_total {ℓ} :
    {A : Type ℓ} (xs : List A) (i : ℕ) → i < length xs → (x : A) × (get_elem? xs i ≡ some x)
get_elem?_total [] i h = elim h [ ]
get_elem?_total (x ∷ xs) zero h = (x, refl)
get_elem?_total (x ∷ xs) (suc i) h = get_elem?_total xs i (omega arith)

-- What `isSkipped` says of an instance at a state: nil skips nothing.
abbrev pub skips : {S : Type 0} → Skipper S → Instance → S → Bool
skips none i s = false
skips (some f) i s = (f i s).0

-- The state after the turn of one instance, and after those of a list, in order: `isSkipped` is asked
-- about the healthy ones.
abbrev pub after_one : {S : Type 0} → Skipper S → Instance → S → S
after_one none i s = s
after_one (some f) i s = if is_healthy i then (f i s).1 else s

unfoldable pub after_turns : {S : Type 0} → Skipper S → List Instance → S → S
after_turns skip [] s = s
after_turns skip (i ∷ is) s = after_turns skip is (after_one skip i s)

is_eligible-turn :
    {S : Type 0} (skip : Skipper S) (i : Instance) (s : S)
    → is_eligible skip i s ≡ (is_healthy i && not (skips skip i s), after_one skip i s)
unfolding is_eligible
is_eligible-turn none i s = elim (Bool-cases (is_healthy i)) [
  | inl e ↦ rw e refl
  | inr e ↦ rw e refl
]
is_eligible-turn (some f) i s = elim (Bool-cases (is_healthy i)) [
  | inl e ↦ rw e refl
  | inr e ↦ rw e refl
]

filter_eligible-cons :
    {S : Type 0} (skip : Skipper S) (i : Instance) (is : List Instance) (s : S)
    → let rest = (filter_eligible skip is (after_one skip i s)).0 in
      (filter_eligible skip (i ∷ is) s).0
      ≡ (if is_healthy i && not (skips skip i s) then i ∷ rest else rest)
unfolding filter_eligible
filter_eligible-cons skip i is s =
    ap (λ p. (let rest = (filter_eligible skip is p.1).0 in if p.0 then i ∷ rest else rest))
      (is_eligible-turn skip i s)

both : (a b : Bool) → (a && not b) ≡ true → (a ≡ true) × (b ≡ false)
both a b h = ground (arith, h)

module _ {S : Type 0} (skip : Skipper S) where
  -- An instance in a list that is healthy and not skipped when its turn comes: at the state that the
  -- turns of the instances before it leave.
  pub record Eligible (s : S) (is : List Instance) (x : Instance) : Type 0 where
    pub before : List Instance
    pub behind : List Instance
    pub place : is ≡ before ++ x ∷ behind
    pub up : is_healthy x ≡ true
    pub let_pass : skips skip x (after_turns skip before s) ≡ false

  later-Eligible :
      (i x : Instance) (is : List Instance) (s : S)
      → Eligible (after_one skip i s) is x
      → Eligible s (i ∷ is) x
  unfolding after_turns
  later-Eligible i x is s h = record {
    before = i ∷ h.before;
    behind = h.behind;
    place = ap (λ l. i ∷ l) h.place;
    up = h.up;
    let_pass = h.let_pass;
  }

  first-Eligible :
      (i x : Instance) (is : List Instance) (s : S)
      → (is_healthy i && not (skips skip i s)) ≡ true
      → x ≡ i
      → Eligible s (i ∷ is) x
  unfolding after_turns
  first-Eligible i x is s h e =
      let (up, passes) = both (is_healthy i) (skips skip i s) h in
      subst (Eligible s (i ∷ is)) (sym e)
        (record { before = []; behind = is; place = refl; up = up; let_pass = passes })

  -- The filter keeps only eligible instances.
  pub In-filter_eligible :
      (is : List Instance) (s : S) {x : Instance}
      → In x (filter_eligible skip is s).0
      → Eligible s is x
  In-filter_eligible [] s m = unfold filter_eligible in elim m [ ]
  In-filter_eligible (i ∷ is) s {x} m =
      let m' = subst (In x) (filter_eligible-cons skip i is s) m in
      elim (Bool-cases (is_healthy i && not (skips skip i s))) [
        | inr e ↦ later-Eligible i x is s (In-filter_eligible is (after_one skip i s) (rw e at m'))
        | inl e ↦
            kept m' e (λ n. later-Eligible i x is s (In-filter_eligible is (after_one skip i s) n))
      ]
    where
      kept :
          In x (
            if is_healthy i && not (skips skip i s)
            then i ∷ (filter_eligible skip is (after_one skip i s)).0
            else (filter_eligible skip is (after_one skip i s)).0)
          → (is_healthy i && not (skips skip i s)) ≡ true
          → (In x (filter_eligible skip is (after_one skip i s)).0 → Eligible s (i ∷ is) x)
          → Eligible s (i ∷ is) x
      kept m₁ e later = first_or_later (rw e at m₁) e later
        where
          first_or_later :
              In x (i ∷ (filter_eligible skip is (after_one skip i s)).0)
              → (is_healthy i && not (skips skip i s)) ≡ true
              → (In x (filter_eligible skip is (after_one skip i s)).0 → Eligible s (i ∷ is) x)
              → Eligible s (i ∷ is) x
          first_or_later (In.here f) h later' = first-Eligible i x is s h f
          first_or_later (In.there n) h later' = later' n

  place-In :
      (before behind : List Instance) (x : Instance) (s : S)
      → is_healthy x ≡ true
      → skips skip x (after_turns skip before s) ≡ false
      → In x (filter_eligible skip (before ++ x ∷ behind) s).0
  unfolding after_turns
  place-In [] behind x s up passes =
      subst (In x) (sym (filter_eligible-cons skip x behind s)) (rw (up, passes) (In.here refl))
  place-In (i ∷ before) behind x s up passes =
      let n = place-In before behind x (after_one skip i s) up passes in
      subst (In x) (sym (filter_eligible-cons skip i (before ++ x ∷ behind) s))
        (elim (Bool-cases (is_healthy i && not (skips skip i s))) [
          | inl e ↦ rw e (In.there n)
          | inr e ↦ rw e n
        ])

  -- The filter keeps every eligible instance.
  Eligible-In :
      (is : List Instance) (s : S) {x : Instance}
      → Eligible s is x
      → In x (filter_eligible skip is s).0
  Eligible-In is s {x} h =
      subst (λ l. In x (filter_eligible skip l s).0) (sym h.place)
        (place-In h.before h.behind x s h.up h.let_pass)

  -- Where no instance is eligible, the filter keeps none.
  pub none-Eligible :
      (is : List Instance) (s : S)
      → (filter_eligible skip is s).0 ≡ []
      → (x : Instance) → Eligible s is x
      → ⊥
  none-Eligible is s e x h = elim (subst (In x) e (Eligible-In is s h)) [ ]

  pick_from-In :
      (es : List Instance) (counter : ℕ) (s : S) {x : Instance}
      → (pick_from es counter s).instance_of ≡ some x
      → In x es
  pick_from-In [] counter s e = ground (arith, e)
  pick_from-In (i ∷ is) counter s e = get_elem?-In (i ∷ is) _ e

  draw_from-In :
      (es : List Instance) (draw : ℕ) {x : Instance} → draw_from es draw ≡ some x → In x es
  draw_from-In [] draw e = ground (arith, e)
  draw_from-In (i ∷ is) draw e = get_elem?-In (i ∷ is) _ e

  -- Round robin and random selection return only an instance that they were given, that is healthy,
  -- and that `isSkipped` let pass when its turn came, after the healthy instances before it in the
  -- list and no others were asked about.
  pub next-Eligible :
      (instances : List Instance) (counter draw : ℕ) (s : S) (x : Instance)
      → (next_round_robin skip instances counter s).instance_of ≡ some x
        ⊎ (next_random skip instances draw s).0 ≡ some x
      → Eligible s instances x
  unfolding next_round_robin next_random
  next-Eligible instances counter draw s x (inl e) =
      In-filter_eligible instances s (pick_from-In _ counter _ e)
  next-Eligible instances counter draw s x (inr e) =
      In-filter_eligible instances s (draw_from-In _ draw e)

-- A skipper that changes nothing.
abbrev pub pure_skip : {S : Type 0} → (Instance → Bool) → Skipper S
pure_skip test = some (λ i s. (test i, s))

abbrev pub wanted : (Instance → Bool) → Instance → Bool
wanted test i = is_healthy i && not (test i)

pub filter_eligible-pure :
    {S : Type 0} (test : Instance → Bool) (is : List Instance) (s : S)
    → filter_eligible (pure_skip test) is s ≡ (filter (wanted test) is, s)
unfolding filter_eligible
filter_eligible-pure test [] s = refl
filter_eligible-pure test (i ∷ is) s = ground (arith, filter_eligible-pure test is s)
