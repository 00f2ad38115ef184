-- ===== src/SmartBalancer/Running.antt =====
-- What `Next` and the function it returns do to the counts of running requests.
use go_gateway.Prelude.{
  ℕ, zero, suc, ◌≤◌, ℤ, pos, negsuc, inc_int, dec_int, max_int, ◌≡◌, refl, sym, ap, subst, ◌∙◌, ◌⊎◌,
  inl, inr, Bool, List, [], ◌∷◌, String, Option, none, some, In, arith, Bool-cases, some_inj,
  eq_iff, eq_refl, if◌then◌else◌, ◌==◌,
}
use go_gateway.Go.Float.{Float}
use go_gateway.Registry.{Instance}
use go_gateway.LoadBalancer.{Skipper, filter_eligible}
use go_gateway.LoadBalancer.Eligible.{Eligible, In-filter_eligible, none-Eligible}
use go_gateway.SmartBalancer.{Balancer, Draws, done, choose, select_from, next}
use go_gateway.SmartBalancer.Selection.{
  inflight_of, choose-In, choose-inflight, record_start-inflight, done-inflight,
}

-- A value of an `int64`.
abbrev pub FitsInt : ℤ → Type 0
FitsInt (pos n) = n ≤ max_int
FitsInt (negsuc n) = n ≤ max_int

dec-inc : (z : ℤ) → FitsInt z → dec_int (inc_int z) ≡ z
dec-inc (pos n) h = ground arith
dec-inc (negsuc zero) h = refl
dec-inc (negsuc (suc n)) h = ground arith

module _ {F : Type 0} ⦃fl : Float F⦄ where
  taken_back :
      (id k : String) (b after : Balancer F)
      → FitsInt (inflight_of id b)
      → ((l : String)
          → inflight_of l after ≡ (if id == l then inc_int (inflight_of id b) else inflight_of l b))
      → (if id == k then dec_int (inflight_of id after) else inflight_of k after) ≡ inflight_of k b
  taken_back id k b after fits counts = elim (Bool-cases (id == k)) [
    | inl e ↦ rw e (
        ap dec_int (rw (eq_refl id) at (counts id))
        ∙ dec-inc (inflight_of id b) fits
        ∙ ap (λ l. inflight_of l b) ((eq_iff id k).0 e))
    | inr e ↦ rw e (counts k ∙ rw e refl)
  ]

  -- What `Next` comes to: no instance and the same balancer, or an instance that was eligible, with
  -- one more running request of its own and the same running requests of the other instances.
  pub Selects : List Instance → Balancer F → Option Instance × Balancer F → Type 0
  Selects eligible b r =
      ((eligible ≡ []) × (r ≡ (none, b)))
      ⊎ ((i : Instance) × In i eligible
          × (r.0 ≡ some i)
          × ((k : String)
              → inflight_of k r.1
                ≡ (if i.id == k then inc_int (inflight_of i.id b) else inflight_of k b)))

  select_from-Selects :
      (draws : Draws F) (eligible : List Instance) (b : Balancer F)
      → Selects eligible b (select_from draws eligible b)
  unfolding select_from Selects
  select_from-Selects draws [] b = inl (refl, refl)
  select_from-Selects draws (i ∷ is) b =
      let (j, b') = choose draws i is b in
      inr (
        j,
        choose-In draws i is b,
        refl,
        λ k.
            record_start-inflight j b' k
            ∙ ap (λ n. if j.id == k then inc_int n else inflight_of k b')
                (choose-inflight draws i is b j.id)
            ∙ ap (λ n. if j.id == k then inc_int (inflight_of j.id b) else n)
                (choose-inflight draws i is b k),
      )

  -- `Next` picks an instance that was given, is healthy and was let pass by `isSkipped` when its turn
  -- came, after the healthy instances before it in the list, and counts one more running request of
  -- it and of no other instance. It returns no instance only where there is no such instance, and
  -- then changes nothing.
  pub next_selects :
      {S : Type 0} (draws : Draws F) (skip : Skipper S) (instances : List Instance) (s : S)
      (b : Balancer F)
      → (((x : Instance) → Eligible skip s instances x → ⊥)
          × ((next draws skip instances s b).0 ≡ (none, b)))
        ⊎ ((i : Instance) × Eligible skip s instances i
            × ((next draws skip instances s b).0.0 ≡ some i)
            × ((k : String)
                → inflight_of k (next draws skip instances s b).0.1
                  ≡ (if i.id == k then inc_int (inflight_of i.id b) else inflight_of k b)))
  unfolding next Selects
  next_selects draws skip instances s b =
      elim (select_from-Selects draws (filter_eligible skip instances s).0 b) [
        | inl (no_one, same) ↦ inl (none-Eligible skip instances s no_one, same)
        | inr (i, m, e, counts) ↦ inr (i, In-filter_eligible skip instances s m, e, counts)
      ]

  -- The end of the request that `Next` picked an instance for, which calls `done` once, takes back
  -- what `Next` counted: the running requests of every instance are those before, where the count of
  -- the instance is an `int64`.
  pub done_takes_back :
      {S : Type 0} (draws : Draws F) (skip : Skipper S) (instances : List Instance) (s : S)
      (b : Balancer F) (i : Instance) (latency : ℕ) (is_err : Bool) (k : String)
      → (next draws skip instances s b).0.0 ≡ some i
      → FitsInt (inflight_of i.id b)
      → inflight_of k (done i latency is_err (next draws skip instances s b).0.1) ≡ inflight_of k b
  unfolding next Selects
  done_takes_back draws skip instances s b i latency is_err k picked fits =
      elim (select_from-Selects draws (filter_eligible skip instances s).0 b) [
        | inl (h, e) ↦
            absurd (ground (arith, sym picked, ap (λ (r : Option Instance × Balancer F). r.0) e))
        | inr (j, m, e, counts) ↦
            (let same = some_inj (sym e ∙ picked) in
              let after = (next draws skip instances s b).0.1 in
              done-inflight i latency is_err after k
              ∙ taken_back i.id k b after fits (
                  subst
                    (λ (x : Instance).
                      (l : String)
                      → inflight_of l after
                        ≡ (if x.id == l then inc_int (inflight_of x.id b) else inflight_of l b))
                    same counts))
      ]
