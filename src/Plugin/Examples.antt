-- ===== src/Plugin/Examples.antt =====
-- The theorems on plugins at concrete plugins: a request is a number, which a plugin increments.
use go_gateway.Prelude.{
  ℕ, zero, suc, ◌+◌, pos, ◌≡◌, ◌≢◌, refl, ◌↔◌, true, false, List, [], ◌∷◌, Option, none, some,
  arith,
}
use go_gateway.Config.{PluginDef, PluginRef}
use go_gateway.Go.Sample.{sorting}
use go_gateway.Router.{earlier}
use go_gateway.Plugin.{
  World, Outcome, passed, abort_error, panicked, Plugin, Registry, ok, execute_request, build,
  build_each, build_one, name_to_type, set_header,
}
use go_gateway.Plugin.Chain.{Passes, rejected, fail_fast, continues_iff}
use go_gateway.Plugin.Order.{MakesAll, build-ok_iff}

abbrev blank : World ℕ
blank = record {
  response = record { headers = []; status = none; sent = []; body = [] };
  request = 0;
}

abbrev counting : Outcome → World ℕ → Outcome × World ℕ
counting o w = (o, record w { request = w.request + 1 })

abbrev tagging : World ℕ → Outcome × World ℕ
tagging w = (passed, record w { response = set_header "X-Tag" "on" w.response })

abbrev counter : Plugin ℕ
counter = record {
  name = "counter";
  execute_request = counting passed;
  execute_response = tagging;
  close = none;
}

abbrev guard : Plugin ℕ
guard = record {
  name = "guard";
  execute_request = counting (abort_error 401 "missing token");
  execute_response = counting panicked;
  close = none;
}

abbrev counted : World ℕ
counted = record blank { request = 1 }

counter-Passes : Passes (counter ∷ []) blank counted
counter-Passes = Passes.passing refl Passes.finished

guard-fails : (guard.execute_request counted).0 ≢ passed
guard-fails = ground arith

fail_fast_example :
    execute_request (counter ∷ guard ∷ counter ∷ []) blank
    ≡ (true, rejected (guard.execute_request counted))
fail_fast_example =
    fail_fast (counter ∷ []) (counter ∷ []) guard blank counted counter-Passes guard-fails

continues_iff_example :
    (execute_request (counter ∷ []) blank ≡ (false, counted)) ↔ Passes (counter ∷ []) blank counted
continues_iff_example = continues_iff (counter ∷ []) blank counted

-- A factory that refuses the configuration 0.
abbrev new_guard : ℕ → Option (Plugin ℕ)
new_guard zero = none
new_guard (suc n) = some guard

abbrev sample_registry : Registry ℕ ℕ
sample_registry = ("builtin.counter", λ c. some counter) ∷ ("builtin.guard", new_guard) ∷ []

abbrev sample_defs : List PluginDef
sample_defs =
    record { name = "count"; type = "builtin.guard" }
    ∷ record { name = "auth"; type = "builtin.guard" }
    ∷ record { name = "count"; type = "builtin.counter" }
    ∷ []

abbrev auth_ref : PluginRef ℕ
auth_ref = record { name = "auth"; order = pos 2; config = 1 }

abbrev count_ref : PluginRef ℕ
count_ref = record { name = "count"; order = pos 1; config = 0 }

sample_built :
    build sorting sample_registry sample_defs (auth_ref ∷ count_ref ∷ [])
    ≡ ok (counter ∷ guard ∷ [])
unfolding build build_each build_one name_to_type sorting
sample_built = refl

build-ok_iff_example :
    (build sorting sample_registry sample_defs (auth_ref ∷ count_ref ∷ [])
      ≡ ok (counter ∷ guard ∷ []))
    ↔ MakesAll sample_registry sample_defs
        (sorting.sort_slice earlier (auth_ref ∷ count_ref ∷ []))
        (counter ∷ guard ∷ [])
build-ok_iff_example =
    build-ok_iff sorting sample_registry sample_defs (auth_ref ∷ count_ref ∷ [])
      (counter ∷ guard ∷ [])
