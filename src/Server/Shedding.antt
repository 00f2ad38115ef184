-- ===== src/Server/Shedding.antt =====
-- How many requests the handler runs at a time.
use go_gateway.Prelude.{
  ℕ, suc, ◌≤◌, ◌<◌, ltb, eqb, pos, ◌≡◌, refl, ◌∙◌, subst, true, List, [], ◌∷◌, length, none, some,
  arith, Bool-cases, Option-cases, inl, inr, lookup, lookup-insert, insert, ◌↔◌, ◌⊎◌,
}
use go_gateway.Plugin.{Response, set_header, write_header}
use go_gateway.Server.{Shedder, load_shed, arrive, without, leave, Event, arrived, left, run}

-- The channel holds an element for each running request, and has room for them.
pub record Counted (s : Shedder) : Type 0 where
  pub taken_all : s.taken ≡ length s.running
  pub has_room : s.taken ≤ s.slots

length-without : (id : ℕ) (xs ys : List ℕ) → without id xs ≡ some ys → length xs ≡ suc (length ys)
unfolding without
length-without id [] ys e = absurd (ground (arith, e))
length-without id (x ∷ xs) ys e = elim (Bool-cases (eqb x id)) [
  | inl h ↦ ground (arith, rw h at e)
  | inr h ↦ elim (Option-cases (without id xs)) [
    | inl n ↦ absurd (ground (arith, rw (h, n) at e))
    | inr (zs, n) ↦ ground (arith, rw (h, n) at e, length-without id xs zs n)
  ]
]

arrive-Counted : (id : ℕ) (s : Shedder) (w : Response) → Counted s → Counted (arrive id s w).1
unfolding arrive
arrive-Counted id s w c = elim (Bool-cases (ltb s.taken s.slots)) [
  | inl e ↦ rw e (ground (arith, c.taken_all, c.has_room, e))
  | inr e ↦ rw e c
]

leave-Counted : (id : ℕ) (s : Shedder) → Counted s → Counted (leave id s)
unfolding leave
leave-Counted id s c = elim (Option-cases (without id s.running)) [
  | inl e ↦ rw (e, leave) c
  | inr (rest, e) ↦
      rw (e, leave) (ground (arith, c.taken_all, c.has_room, length-without id s.running rest e))
]

run-Counted :
    (w : Response) (events : List Event) (s : Shedder) → Counted s → Counted (run w events s)
unfolding run
run-Counted w [] s c = c
run-Counted w (arrived id ∷ events) s c =
    run-Counted w events (arrive id s w).1 (arrive-Counted id s w c)
run-Counted w (left id ∷ events) s c = run-Counted w events (leave id s) (leave-Counted id s c)

start : (n : ℕ) → Counted (load_shed (pos n))
unfolding load_shed
start n = record { taken_all = refl; has_room = omega arith }

start_slots : (n : ℕ) → 0 < n → (load_shed (pos n)).slots ≡ n
unfolding load_shed
start_slots n h = ground arith

slots-arrive : (id : ℕ) (s : Shedder) (w : Response) → (arrive id s w).1.slots ≡ s.slots
unfolding arrive
slots-arrive id s w = elim (Bool-cases (ltb s.taken s.slots)) [
  | inl e ↦ rw e refl
  | inr e ↦ rw e refl
]

slots-leave : (id : ℕ) (s : Shedder) → (leave id s).slots ≡ s.slots
unfolding leave
slots-leave id s = elim (Option-cases (without id s.running)) [
  | inl e ↦ rw (e, leave) refl
  | inr (rest, e) ↦ rw (e, leave) refl
]

slots-run : (w : Response) (events : List Event) (s : Shedder) → (run w events s).slots ≡ s.slots
unfolding run
slots-run w [] s = refl
slots-run w (arrived id ∷ events) s = slots-run w events (arrive id s w).1 ∙ slots-arrive id s w
slots-run w (left id ∷ events) s = slots-run w events (leave id s) ∙ slots-leave id s

-- The answer to a request that gets no slot.
abbrev pub Overloaded : Response → Type 0
Overloaded w = (w.status ≡ some 503) × (lookup "Retry-After" w.sent ≡ some "1")

arrive-shed :
    (id : ℕ) (s : Shedder) (w : Response)
    → w.status ≡ none
    → ((arrive id s w).0 ≡ true) ⊎ Overloaded (arrive id s w).2
unfolding arrive write_header set_header
arrive-shed id s w fresh = elim (Bool-cases (ltb s.taken s.slots)) [
  | inl e ↦ rw e (inl refl)
  | inr e ↦
      rw (e, fresh)
        (inr (
          refl,
          lookup-insert "X-Content-Type-Options" "Retry-After" "nosniff" (
                insert "Content-Type" "text/plain; charset=utf-8"
                  (insert "Retry-After" "1" w.headers))
              ∙ lookup-insert "Content-Type" "Retry-After" "text/plain; charset=utf-8"
                  (insert "Retry-After" "1" w.headers)
              ∙ lookup-insert "Retry-After" "Retry-After" "1" w.headers,
        ))
]

arrive_iff :
    (id : ℕ) (s : Shedder) (w : Response)
    → Counted s
    → ((arrive id s w).0 ≡ true) ↔ (length s.running < s.slots)
unfolding arrive
arrive_iff id s w c = elim (Bool-cases (ltb s.taken s.slots)) [
  | inl e ↦ rw e (λ h. ground (arith, c.taken_all, e), λ h. refl)
  | inr e ↦ rw e (λ h. absurd (ground (arith, h)), λ h. absurd (ground (arith, c.taken_all, e, h)))
]

-- After any history of arrivals and ends of requests of a server whose limit is a positive number,
-- at most this number of requests are running; a new request gets a slot exactly where fewer are
-- running; and one that gets none is answered at once with status 503 and `Retry-After: 1`.
pub running_bounded :
    (w : Response) (events : List Event) (n id : ℕ)
    → 0 < n
    → w.status ≡ none
    → let s = run w events (load_shed (pos n)) in
      (length s.running ≤ n)
      × (((arrive id s w).0 ≡ true) ↔ (length s.running < n))
      × (((arrive id s w).0 ≡ true) ⊎ Overloaded (arrive id s w).2)
running_bounded w events n id positive fresh =
    let s = run w events (load_shed (pos n)) in
    let c = run-Counted w events (load_shed (pos n)) (start n) in
    let slots = slots-run w events (load_shed (pos n)) ∙ start_slots n positive in
    (
      omega (arith, c.taken_all, c.has_room, slots),
      subst (λ k. ((arrive id s w).0 ≡ true) ↔ (length s.running < k)) slots (arrive_iff id s w c),
      arrive-shed id s w fresh,
    )
