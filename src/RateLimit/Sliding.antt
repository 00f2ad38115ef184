-- ===== src/RateLimit/Sliding.antt =====
-- The script of the sliding window against the log of all requests that it ever allowed.
use go_gateway.Prelude.{
  ℕ, suc, ◌+◌, ◌-◌, ◌≤◌, ◌<◌, ltb, leb, ℤ, pos, sub_ℕ, leb_ℤ, ◌≡◌, refl, sym, ap, ◌∙◌, Bool, false,
  List, [], ◌∷◌, All, filter, length, not, arith, Bool-cases, inl, inr, if◌then◌else◌, leb→le,
}
use go_gateway.RateLimit.Window.{
  WindowState, no_keys, expire, evicted, evict, has_member, zadd, decide, sliding_window,
}

-- The times of the log that lie in the window that ends now.
abbrev pub recent : ℕ → ℕ → List ℕ → List ℕ
recent window now log = filter (λ g. ltb now (g + window)) log

abbrev scores : List (ℕ × ℕ) → List ℕ
scores [] = []
scores (m ∷ ms) = m.0 ∷ scores ms

length-scores : (ms : List (ℕ × ℕ)) → length (scores ms) ≡ length ms
length-scores [] = refl
length-scores (m ∷ ms) = ap suc (length-scores ms)

recent-recent :
    (window t now : ℕ) (log : List ℕ)
    → t ≤ now
    → recent window now (recent window t log) ≡ recent window now log
recent-recent window t now [] h = refl
recent-recent window t now (g ∷ log) h = ground (arith, h, recent-recent window t now log h)

evicted_iff : (window now g : ℕ) → not (leb_ℤ (pos g) (sub_ℕ now window)) ≡ ltb now (g + window)
evicted_iff window now g = ground arith

scores-evict :
    (window now : ℕ) (ms : List (ℕ × ℕ))
    → scores (evict window now ms) ≡ recent window now (scores ms)
unfolding evict
scores-evict window now [] = refl
scores-evict window now (m ∷ ms) = elim (Bool-cases (ltb now (m.0 + window))) [
  | inl e ↦ rw (evicted_iff window now m.0, e) (ap (λ gs. m.0 ∷ gs) (scores-evict window now ms))
  | inr e ↦ rw (evicted_iff window now m.0, e) (scores-evict window now ms)
]

-- The members are the requests of the log that are recent, with numbers up to the counter, and do not
-- outlive the keys.
record Holds (window t : ℕ) (st : WindowState) (log : List ℕ) : Type 0 where
  members_recent : scores st.members ≡ recent window t log
  numbered : All (λ (m : ℕ × ℕ). m.1 ≤ st.seq) st.members
  kept : All (λ (m : ℕ × ℕ). m.0 + (window + 1000) ≤ st.expires_at) st.members
  past : All (λ (m : ℕ × ℕ). m.0 ≤ t) st.members

All-weaken :
    (P Q : ℕ × ℕ → Type 0) (ms : List (ℕ × ℕ)) → ((m : ℕ × ℕ) → P m → Q m) → All P ms → All Q ms
All-weaken P Q [] f h = h
All-weaken P Q (m ∷ ms) f (h, hs) = (f m h, All-weaken P Q ms f hs)

All-evict :
    (P : ℕ × ℕ → Type 0) (window now : ℕ) (ms : List (ℕ × ℕ))
    → All P ms
    → All P (evict window now ms)
unfolding evict
All-evict P window now [] h = h
All-evict P window now (m ∷ ms) (h, hs) = elim (Bool-cases (evicted window now m)) [
  | inl e ↦ rw e (All-evict P window now ms hs)
  | inr e ↦ rw e (h, All-evict P window now ms hs)
]

expired-none :
    (window now expires_at : ℕ) (ms : List (ℕ × ℕ))
    → All (λ (m : ℕ × ℕ). m.0 + (window + 1000) ≤ expires_at) ms
    → expires_at ≤ now
    → recent window now (scores ms) ≡ []
expired-none window now expires_at [] h e = refl
expired-none window now expires_at (m ∷ ms) (h, hs) e =
    ground (arith, h, e, expired-none window now expires_at ms hs e)

fresh_member :
    (m : ℕ × ℕ) (ms : List (ℕ × ℕ)) (seq : ℕ)
    → All (λ (n : ℕ × ℕ). n.1 ≤ seq) ms
    → seq < m.1
    → has_member m ms ≡ false
fresh_member m [] seq h e = refl
fresh_member m (n ∷ ns) seq (h, hs) e = ground (arith, h, e, fresh_member m ns seq hs e)

-- The state that `decide` sees.
abbrev cleaned : ℕ → ℕ → WindowState → WindowState
cleaned window now st =
    let st' = expire now st in record st' { members = evict window now st'.members }

Holds-cleaned :
    (window t now : ℕ) (st : WindowState) (log : List ℕ)
    → t ≤ now
    → Holds window t st log
    → Holds window now (cleaned window now st) log
Holds-cleaned window t now st log le h = elim (Bool-cases (leb st.expires_at now)) [
  | inl e ↦ rw e (record {
    members_recent =
        unfold evict in
        sym (expired-none window now st.expires_at st.members h.kept (leb→le st.expires_at now e))
        ∙ ap (recent window now) h.members_recent
        ∙ recent-recent window t now log le;
    numbered = unfold evict in tt;
    past = unfold evict in tt;
    kept = unfold evict in tt;
  })
  | inr e ↦ rw e (record {
    members_recent =
        scores-evict window now st.members
        ∙ ap (recent window now) h.members_recent
        ∙ recent-recent window t now log le;
    past =
        All-evict (λ (m : ℕ × ℕ). m.0 ≤ now) window now st.members
          (All-weaken (λ (m : ℕ × ℕ). m.0 ≤ t) (λ (m : ℕ × ℕ). m.0 ≤ now) st.members
            (λ m k. omega (arith, k)) h.past);
    numbered = All-evict (λ (m : ℕ × ℕ). m.1 ≤ st.seq) window now st.members h.numbered;
    kept =
        All-evict (λ (m : ℕ × ℕ). m.0 + (window + 1000) ≤ st.expires_at) window now st.members
          h.kept;
  })
]

abbrev logged : Bool → ℕ → List ℕ → List ℕ
logged allowed now log = if allowed then now ∷ log else log

-- What the script answers at a count of the window.
abbrev pub answer_at : ℕ → ℕ → List ℤ
answer_at limit count =
    if ltb count limit then pos 1 ∷ pos (limit - count - 1) ∷ [] else pos 0 ∷ pos 0 ∷ []

kept_now :
    (window now : ℕ) (log : List ℕ)
    → 0 < window
    → recent window now (now ∷ log) ≡ now ∷ recent window now log
kept_now window now log positive = ground (arith, positive)

added :
    (window now : ℕ) (st : WindowState) (log : List ℕ)
    → 0 < window
    → Holds window now st log
    → Holds window now
        (record {
          members = zadd (now, st.seq + 1) st.members;
          seq = st.seq + 1;
          expires_at = now + (window + 1000);
        })
        (now ∷ log)
unfolding zadd
added window now st log positive h =
    let fresh = fresh_member (now, st.seq + 1) st.members st.seq h.numbered (omega arith) in
    record {
      members_recent =
          rw fresh (ap (λ gs. now ∷ gs) h.members_recent ∙ sym (kept_now window now log positive));
      numbered = rw fresh (
        omega arith,
        All-weaken (λ (m : ℕ × ℕ). m.1 ≤ st.seq) (λ (m : ℕ × ℕ). m.1 ≤ st.seq + 1) st.members
            (λ m k. omega (arith, k)) h.numbered,
      );
      kept = rw fresh (
        omega arith,
        All-weaken (λ (m : ℕ × ℕ). m.0 ≤ now)
            (λ (m : ℕ × ℕ). m.0 + (window + 1000) ≤ now + (window + 1000)) st.members
            (λ m k. omega (arith, k)) h.past,
      );
      past = rw fresh (omega arith, h.past);
    }

decide-Holds :
    (window limit now : ℕ) (st : WindowState) (log : List ℕ)
    → 0 < window
    → Holds window now st log
    → ((decide window limit now st).0 ≡ answer_at limit (length (recent window now log)))
      × Holds window now
          (decide window limit now st).1
          (logged (ltb (length (recent window now log)) limit) now log)
unfolding decide
decide-Holds window limit now st log positive h =
    let counted : length st.members ≡ length (recent window now log) =
      sym (length-scores st.members) ∙ ap length h.members_recent in
    rw (sym counted) (elim (Bool-cases (ltb (length st.members) limit)) [
      | inl e ↦ rw e (refl, added window now st log positive h)
      | inr e ↦ rw e (refl, h)
    ])

-- The answers of the script to requests at the given times.
unfoldable pub answers : ℕ → ℕ → List ℕ → WindowState → List (List ℤ)
answers window limit [] st = []
answers window limit (now ∷ times) st =
    let (answer, st') = sliding_window window limit now st in
    answer ∷ answers window limit times st'

-- A sliding log: it keeps the time of every request that it allowed, and counts those in the window.
unfoldable pub sliding_log : ℕ → ℕ → List ℕ → List ℕ → List (List ℤ)
sliding_log window limit [] log = []
sliding_log window limit (now ∷ times) log =
    let count = length (recent window now log) in
    answer_at limit count ∷ sliding_log window limit times (logged (ltb count limit) now log)

-- The clock of Redis does not go back.
abbrev pub Ordered : ℕ → List ℕ → Type 0
Ordered t [] = Unit
Ordered t (now ∷ times) = (t ≤ now) × Ordered now times

answers-Holds :
    (window limit t : ℕ) (times : List ℕ) (st : WindowState) (log : List ℕ)
    → 0 < window
    → Ordered t times
    → Holds window t st log
    → answers window limit times st ≡ sliding_log window limit times log
unfolding answers sliding_log sliding_window
answers-Holds window limit t [] st log positive o h = refl
answers-Holds window limit t (now ∷ times) st log positive (le, o) h =
    let cleaned_holds = Holds-cleaned window t now st log le h in
    let (e, h') =
      decide-Holds window limit now (cleaned window now st) log positive cleaned_holds in
    rw e (
      ap (λ rest. answer_at limit (length (recent window now log)) ∷ rest)
        (answers-Holds window limit now times (decide window limit now (cleaned window now st)).1
          (logged (ltb (length (recent window now log)) limit) now log) positive o h'))

no_keys-Holds : (window : ℕ) → Holds window 0 no_keys []
no_keys-Holds window = record { members_recent = refl; numbered = tt; kept = tt; past = tt }

-- The script refines a log of all allowed requests. Over any times that do not go back, with a window
-- that is not empty, it gives the answers of the log: a request is allowed exactly where fewer than
-- the limit were allowed in the window that ends with it, and the answer tells how many remain. What
-- the script forgets, by removing members and by the expiry of its keys, makes no difference.
pub answers-sliding_log :
    (window limit : ℕ) (times : List ℕ)
    → 0 < window
    → Ordered 0 times
    → answers window limit times no_keys ≡ sliding_log window limit times []
answers-sliding_log window limit times positive o =
    answers-Holds window limit 0 times no_keys [] positive o (no_keys-Holds window)
