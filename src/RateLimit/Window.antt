-- ===== src/RateLimit/Window.antt =====
-- pkg/ratelimit/redis.go, the Lua script: the sliding window of one key in Redis. A script runs as one
-- step, at a time that Redis keeps for the whole script. The sorted set holds, latest first, the score
-- and the number of each member, which its text `nowMs:seq` tells. The set and its counter expire
-- together.
use go_gateway.Prelude.{
  ℕ, ◌+◌, ◌-◌, ◌*◌, ◌/◌, eqb, ltb, leb, ℤ, pos, sub_ℕ, leb_ℤ, Bool, true, false, List, [], ◌∷◌,
  filter, length, not, if◌then◌else◌, ◌&&◌,
}

pub record WindowState : Type 0 where
  pub members : List (ℕ × ℕ)
  pub seq : ℕ
  pub expires_at : ℕ

-- No key: nothing was ever added.
abbrev pub no_keys : WindowState
no_keys = record { members = []; seq = 0; expires_at = 0 }

-- `TIME`, in seconds and microseconds, in milliseconds.
unfoldable pub now_ms : ℕ → ℕ → ℕ
now_ms seconds micros = seconds * 1000 + micros / 1000

-- Keys whose time is over are gone.
abbrev pub expire : ℕ → WindowState → WindowState
expire now st = if leb st.expires_at now then no_keys else st

-- `ZREMRANGEBYSCORE key 0 winStart`
abbrev pub evicted : ℕ → ℕ → ℕ × ℕ → Bool
evicted window now m = leb_ℤ (pos m.0) (sub_ℕ now window)

unfoldable pub evict : ℕ → ℕ → List (ℕ × ℕ) → List (ℕ × ℕ)
evict window now members = filter (λ m. not (evicted window now m)) members

-- `ZADD`: a member that is there already is not added again.
abbrev pub has_member : ℕ × ℕ → List (ℕ × ℕ) → Bool
has_member m [] = false
has_member m (n ∷ ns) = if eqb m.0 n.0 && eqb m.1 n.1 then true else has_member m ns

unfoldable pub zadd : ℕ × ℕ → List (ℕ × ℕ) → List (ℕ × ℕ)
zadd m members = if has_member m members then members else m ∷ members

-- The script after the eviction.
unfoldable pub decide : ℕ → ℕ → ℕ → WindowState → List ℤ × WindowState
unfolding zadd
decide window limit now st =
    let count = length st.members in
    if ltb count limit
    then (
      pos 1 ∷ pos (limit - count - 1) ∷ [],
      record {
        members = zadd (now, st.seq + 1) st.members;
        seq = st.seq + 1;
        expires_at = now + (window + 1000);
      },
    )
    else (pos 0 ∷ pos 0 ∷ [], st)

-- The script, at the time `now` in milliseconds.
unfoldable pub sliding_window : ℕ → ℕ → ℕ → WindowState → List ℤ × WindowState
unfolding evict decide
sliding_window window limit now st =
    let st' = expire now st in
    decide window limit now (record st' { members = evict window now st'.members })
