-- ===== src/Harness/Loadgen.antt =====
-- py/harness/loadgen.py: the arrivals of an open-loop run, the sampling of its queries, and what is made of the
-- records that its workers leave. Times are whole numbers of ticks, from the start of the run or of the clock.
pub mod Arrivals
pub mod Accounts
use Prim.Native.String.{String}
use cascade_search_engine.Prelude.{
  ℕ, zero, suc, ◌+◌, ◌-◌, Bool, true, false, Option, none, some, List, [], ◌∷◌, ◌++◌, length,
  get_elem?, leb, ltb, if◌then◌else◌,
}
use cascade_search_engine.Prelude.Keys.{Order, ◌<=◌}
use cascade_search_engine.Harness.Latency.{LatencyRecorder, Doubles, empty, record_one}

-- The loop of `poisson_arrivals`: `gap i` is the i-th draw of `expovariate`. With no rounds left there is no result.
unfoldable pub arrivals_from : ℕ → (ℕ → ℕ) → ℕ → ℕ → ℕ → List ℕ → Option (List ℕ)
arrivals_from zero gap duration i t arrivals = none
arrivals_from (suc rounds) gap duration i t arrivals =
    let next = t + gap i in
    let rest = arrivals_from rounds gap duration (suc i) next (arrivals ++ next ∷ []) in
    if leb duration next then some arrivals else rest

-- `poisson_arrivals`: without a positive rate it raises.
unfoldable pub poisson_arrivals : ℕ → ℕ → (ℕ → ℕ) → ℕ → Option (List ℕ)
unfolding arrivals_from
poisson_arrivals rounds qps gap duration =
    if leb qps 0 then none else arrivals_from rounds gap duration 0 0 []

-- `1.0 / (rank**s)`, sums and quotients
pub record Weights (Weight : Type 0) : Type 0 where
  pub nil : Weight
  pub of_rank : ℕ → Weight
  pub plus : Weight → Weight → Weight
  pub over : Weight → Weight → Weight

pub record ZipfQuerySampler (Weight : Type 0) : Type 0 where
  pub queries : List String
  pub cumulative : List Weight

module _ {Weight : Type 0} (weights : Weights Weight) where
  -- `[1.0 / (rank**s) for rank in range(1, len(queries) + 1)]`
  unfoldable pub weights_from : ℕ → List String → List Weight
  weights_from rank [] = []
  weights_from rank (_ ∷ queries) = weights.of_rank rank ∷ weights_from (suc rank) queries

  unfoldable pub total_of : Weight → List Weight → Weight
  total_of acc [] = acc
  total_of acc (w ∷ ws) = total_of (weights.plus acc w) ws

  unfoldable pub cumulative_from : Weight → Weight → List Weight → List Weight
  cumulative_from total acc [] = []
  cumulative_from total acc (w ∷ ws) =
      let next = weights.plus acc (weights.over w total) in next ∷ cumulative_from total next ws

  -- `ZipfQuerySampler`; without queries it raises.
  unfoldable pub zipf : List String → Option (ZipfQuerySampler Weight)
  unfolding weights_from total_of cumulative_from
  zipf [] = none
  zipf (query ∷ queries) =
      let ws = weights_from 1 (query ∷ queries) in
      some record {
        queries = query ∷ queries;
        cumulative = cumulative_from (total_of weights.nil ws) weights.nil ws;
      }

module _ {Weight : Type 0} ⦃o : Order Weight⦄ where
  -- `bisect.bisect_left` on a list in order: how many are less
  unfoldable pub bisect_left : List Weight → Weight → ℕ
  bisect_left [] x = 0
  bisect_left (y ∷ ys) x = if x <= y then 0 else suc (bisect_left ys x)

  -- `sample`, the draw of `random` being given: past the last sum it raises.
  unfoldable pub sample : ZipfQuerySampler Weight → Weight → Option String
  unfolding bisect_left
  sample sampler drawn = get_elem? sampler.queries (bisect_left sampler.cumulative drawn)

-- What `work` appends to `records`.
pub record Served : Type 0 where
  pub scheduled_ns : ℕ
  pub start_ns : ℕ
  pub done_ns : ℕ
  pub ok : Bool

-- A recorder has microseconds, as doubles.
pub record LoadResult (F : Type 0) : Type 0 where
  pub arrivals : List ℕ
  pub latency : LatencyRecorder F
  pub service : LatencyRecorder F
  pub queue_delay : LatencyRecorder F
  pub completed : ℕ
  pub errors : ℕ
  pub wall_ns : ℕ
  -- the requests that `achieved_qps` divides by the time
  pub dispatched : ℕ

abbrev pub load_result : {F : Type 0} → List ℕ → LoadResult F
load_result arrivals = record {
  arrivals = arrivals;
  latency = empty;
  service = empty;
  queue_delay = empty;
  completed = 0;
  errors = 0;
  wall_ns = 0;
  dispatched = 0;
}

module _ {F : Type 0} (doubles : Doubles F) where
  -- The loop over the records, and its body.
  unfoldable pub account_one : Served → LoadResult F → LoadResult F
  unfolding record_one
  account_one s r = record r {
    completed = if s.ok then suc r.completed else r.completed;
    errors = if s.ok then r.errors else suc r.errors;
    latency = record_one (doubles.micros (s.done_ns - s.scheduled_ns)) r.latency;
    service = record_one (doubles.micros (s.done_ns - s.start_ns)) r.service;
    queue_delay = record_one (doubles.micros (s.start_ns - s.scheduled_ns)) r.queue_delay;
  }

  unfoldable pub account : List Served → LoadResult F → LoadResult F
  unfolding account_one
  account [] r = r
  account (s ∷ records) r = account records (account_one s r)

  -- `run_open_loop` after the pool is done: the records of its workers, in the order in which they ended.
  unfoldable pub run_open_loop : List ℕ → List Served → ℕ → LoadResult F
  unfolding account
  run_open_loop arrivals records wall_ns = record (account records (load_result arrivals)) {
    wall_ns = wall_ns;
    dispatched = length records;
  }
