-- ===== src/SmartBalancer.antt =====
-- internal/loadbalancer/smart: the balancer that weighs the instances by their telemetry. Numbers of
-- type `F` are floating-point numbers, and the draws of `rand.Float64` and `rand.Intn` are arguments.
-- The pointer of an instance's state is its key in the map, from which nothing is removed. Metrics are
-- left out. A method is one step; the code takes no lock.
pub mod Selection
mod Running
mod Examples
use go_gateway.Prelude.{
  ℕ, ◌/◌, ◌%◌, eqb, ℤ, pos, negsuc, inc_int, dec_int, Bool, true, false, List, [], ◌∷◌, String,
  Option, none, some, Map, lookup, insert, length, get_elem?, if◌then◌else◌, ◌||◌,
}
use go_gateway.Go.Float.{Float}
use go_gateway.Registry.{Instance}
use go_gateway.LoadBalancer.{Skipper, filter_eligible}

pub record InstanceState (F : Type 0) : Type 0 where
  pub inflight : ℤ
  pub ewma_latency : F
  pub ewma_error_rate : F

pub record Weights (F : Type 0) : Type 0 where
  pub latency : F
  pub errors : F
  pub load : F

pub record Config (F : Type 0) : Type 0 where
  pub weights : Weights F
  pub max_tolerable_latency : F
  pub max_concurrent_request : F
  pub exploration_rate : F
  pub latency_alpha : F
  pub error_alpha : F

pub record Balancer (F : Type 0) : Type 0 where
  pub cfg : Config F
  pub states : Map (InstanceState F)

-- The draws of a call of `Next`.
pub record Draws (F : Type 0) : Type 0 where
  pub explore : F
  pub index : ℕ
  pub wheel : F

-- `Milliseconds` of a latency, which is never negative.
abbrev milliseconds : ℕ → ℤ
milliseconds d = pos (d / 1000000)

abbrev pub last_of : Instance → List Instance → Instance
last_of i [] = i
last_of i (j ∷ is) = last_of j is

abbrev pub or_last : Instance → List Instance → Option Instance → Instance
or_last i is none = last_of i is
or_last i is (some j) = j

abbrev pub pick_random : ℕ → Instance → List Instance → Instance
pick_random index i is = or_last i is (get_elem? (i ∷ is) (index % length (i ∷ is)))

module _ {F : Type 0} ⦃fl : Float F⦄ where
  unfoldable pub default_config : Config F
  default_config = record {
    weights = record {
      latency = fl.hundredths 30;
      errors = fl.hundredths 50;
      load = fl.hundredths 20;
    };
    max_tolerable_latency = fl.hundredths 100000;
    max_concurrent_request = fl.hundredths 20000;
    exploration_rate = fl.hundredths 10;
    latency_alpha = fl.hundredths 10;
    error_alpha = fl.hundredths 20;
  }

  -- `NewInstanceState`
  unfoldable pub new_instance_state : InstanceState F
  new_instance_state = record {
    inflight = pos 0;
    ewma_latency = fl.hundredths 5000;
    ewma_error_rate = fl.zero_f;
  }

  abbrev add_states : List Instance → Map (InstanceState F) → Map (InstanceState F)
  add_states [] states = states
  add_states (i ∷ is) states = add_states is (insert i.id new_instance_state states)

  -- `New`
  unfoldable pub new_balancer : Config F → List Instance → Balancer F
  new_balancer cfg instances = record { cfg = cfg; states = add_states instances [] }

  -- `getState`
  unfoldable pub get_state : Instance → Balancer F → InstanceState F × Balancer F
  unfolding new_instance_state
  get_state i b = elim (lookup i.id b.states) [
    | some s ↦ (s, b)
    | none ↦ (new_instance_state, record b { states = insert i.id new_instance_state b.states })
  ]

  -- `RecordStart` of the state of an instance.
  unfoldable pub record_start : Instance → Balancer F → Balancer F
  unfolding get_state
  record_start i b =
      let (s, b') = get_state i b in
      record b' { states = insert i.id (record s { inflight = inc_int s.inflight }) b'.states }

  -- The new average of an old one and a value.
  abbrev ewma : F → F → F → F
  ewma alpha value old = fl.add_f (fl.mul_f alpha value) (fl.mul_f (fl.sub_f fl.one_f alpha) old)

  -- `Record`
  unfoldable pub recorded : ℕ → Bool → F → F → InstanceState F → InstanceState F
  recorded latency is_err lat_alpha err_alpha s = record {
    inflight = dec_int s.inflight;
    ewma_latency = ewma lat_alpha (fl.of_int (milliseconds latency)) s.ewma_latency;
    ewma_error_rate = ewma err_alpha (if is_err then fl.one_f else fl.zero_f) s.ewma_error_rate;
  }

  -- The function `done` that `Next` returns with an instance.
  unfoldable pub done : Instance → ℕ → Bool → Balancer F → Balancer F
  unfolding get_state recorded
  done i latency is_err b =
      let (s, b') = get_state i b in
      record b' {
        states =
            insert i.id (recorded latency is_err b.cfg.latency_alpha b.cfg.error_alpha s) b'.states;
      }

  abbrev at_least_zero : F → F
  at_least_zero x = if fl.less_f x fl.zero_f then fl.zero_f else x

  -- The score of an instance, in the body of the loop.
  unfoldable pub score_of : Config F → InstanceState F → F
  score_of cfg s =
      let lat_score =
        at_least_zero (fl.sub_f fl.one_f (fl.div_f s.ewma_latency cfg.max_tolerable_latency)) in
      let err_score = at_least_zero (fl.sub_f fl.one_f s.ewma_error_rate) in
      let load_score =
        at_least_zero
          (fl.sub_f fl.one_f (fl.div_f (fl.of_int s.inflight) cfg.max_concurrent_request)) in
      let score =
        fl.add_f
          (fl.add_f (fl.mul_f cfg.weights.latency lat_score)
            (fl.mul_f cfg.weights.errors err_score))
          (fl.mul_f cfg.weights.load load_score) in
      if fl.leq_f score (fl.hundredths 1) then fl.hundredths 1 else score

  -- The loop over the eligible instances: each with its score, the total from `total` on, and the
  -- balancer, which may have new states.
  unfoldable pub score_all : List Instance → F → Balancer F → List (Instance × F) × F × Balancer F
  unfolding get_state score_of
  score_all [] total b = ([], total, b)
  score_all (i ∷ is) total b =
      let (s, b') = get_state i b in
      let score = score_of b.cfg s in
      let (scores, total', b'') = score_all is (fl.add_f total score) b' in
      ((i, score) ∷ scores, total', b'')

  -- The wheel: the first instance at which the sum of the scores reaches the target.
  unfoldable pub spin : F → F → List (Instance × F) → Option Instance
  spin target accum [] = none
  spin target accum ((i, score) ∷ rest) =
      let later = spin target (fl.add_f accum score) rest in
      if fl.leq_f target (fl.add_f accum score) then some i else later

  -- The instance that an eligible list, not empty, gives, and the balancer after the scores.
  unfoldable pub choose : Draws F → Instance → List Instance → Balancer F → Instance × Balancer F
  unfolding score_all spin
  choose draws i is b =
      if fl.less_f draws.explore b.cfg.exploration_rate || eqb (length (i ∷ is)) 1
      then (pick_random draws.index i is, b)
      else (let (scores, total, b') = score_all (i ∷ is) fl.zero_f b in
          (or_last i is (spin (fl.mul_f draws.wheel total) fl.zero_f scores), b'))

  -- What follows the filter: none is ErrNoHealthyInstances.
  unfoldable pub select_from : Draws F → List Instance → Balancer F → Option Instance × Balancer F
  unfolding choose record_start
  select_from draws [] b = (none, b)
  select_from draws (i ∷ is) b =
      let (selected, b') = choose draws i is b in (some selected, record_start selected b')

  -- `Next`, with the state of `isSkipped` after it.
  unfoldable pub next :
      {S : Type 0}
      → Draws F
      → Skipper S
      → List Instance
      → S
      → Balancer F
      → (Option Instance × Balancer F) × S
  unfolding select_from
  next draws skip instances s b =
      let (eligible, s') = filter_eligible skip instances s in (select_from draws eligible b, s')
