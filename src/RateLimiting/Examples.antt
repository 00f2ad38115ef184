-- ===== src/RateLimiting/Examples.antt =====
-- The plugin at concrete requests, with whole numbers in place of `float64`. A value of a
-- configuration is a whole number or a text.
use go_gateway.Prelude.{
  ℕ, zero, suc, ℤ, pos, ◌≢◌, ◌≡◌, refl, false, List, [], ◌∷◌, String, Option, none, some, arith,
}
use go_gateway.Go.Value.{Value}
use go_gateway.Go.Whole.{whole_numbers}
use go_gateway.Plugin.{World}
use go_gateway.RateLimiting.{
  Call, Caller, before_last_colon, strip_port, bucket_key, execute_rate_limit, limiter_config,
  new_rate_limit,
}
use go_gateway.RateLimiting.Factory.{
  failed, no_limit, unknown_backend, new_from_config, on_redis, milliseconds,
}
use go_gateway.RateLimiting.Isolated.{
  user, ip, client_of, in_memory, after_requests, clients_isolated,
}
use go_gateway.TokenBucket.{TokenBucket, new_token_bucket}

data Setting : Type 0 where
  number : ℤ → Setting
  text : String → Setting

abbrev number_of : Setting → Option ℤ
number_of (number n) = some n
number_of (text s) = none

abbrev text_of : Setting → Option String
text_of (number n) = none
text_of (text s) = some s

abbrev settings : Value Setting
settings = record { as_string = text_of; as_list = λ v. none; as_int = number_of }

abbrev no_float : Setting → Option ℕ
no_float v = none

abbrev ann : Caller
ann = record { headers = []; remote_addr = "10.0.0.1:5000"; context = some ("r", "ann") }

abbrev nobody : Caller
nobody = record { headers = []; remote_addr = "10.0.0.1:5001"; context = some ("r", "") }

keys :
    (bucket_key "per-user" ann ≡ "r:user:ann")
    × (bucket_key "per-user" nobody ≡ "r:ip:10.0.0.1")
    × (strip_port "[::1]:80" ≡ "[::1]")
unfolding bucket_key before_last_colon
keys = (refl, refl, refl)

too_slow :
    new_rate_limit settings no_float pos
      (("backend", text "redis") ∷ ("requests_per_minute", number (pos 0)) ∷ [])
    ≡ failed no_limit
unfolding new_rate_limit limiter_config new_from_config on_redis
too_slow = refl

misspelt :
    new_rate_limit settings no_float pos (("backend", text "Redis") ∷ [])
    ≡ failed (unknown_backend "Redis")
unfolding new_rate_limit limiter_config new_from_config
misspelt = refl

minute : milliseconds (pos 60) ≡ pos 60000
unfolding milliseconds
minute = refl

abbrev now : ℕ → Call
now t = record { done = false; asked = t; answered = t; result = none }

abbrev untouched : World ℕ
untouched = record {
  response = record { headers = []; status = none; sent = []; body = [] };
  request = 0;
}

abbrev digit : ℕ → String
digit zero = "0"
digit (suc n) = "1"

-- One token for each client: a request without a user has spent its own, twice.
abbrev one_each : TokenBucket ℕ
one_each = new_token_bucket 1 1

abbrev crowd : List (Call × Caller × World ℕ)
crowd = (now 1, nobody, untouched) ∷ (now 2, nobody, untouched) ∷ []

an_ip : (addr id : String) → ip addr ≢ user id
an_ip addr id e = ground (arith, e)

clients_isolated_example :
    (execute_rate_limit digit
      (now 3)
      ann
      untouched
      (after_requests digit crowd (in_memory "per-user" one_each))).0
    ≡ (execute_rate_limit digit (now 3) ann untouched (in_memory "per-user" one_each)).0
unfolding client_of
clients_isolated_example =
    clients_isolated digit "per-user" (now 3) ann untouched crowd one_each
      ((refl, an_ip _ _), ((refl, an_ip _ _), tt))
