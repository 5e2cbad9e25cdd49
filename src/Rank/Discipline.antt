-- ===== src/Rank/Discipline.antt =====
-- py/rank/crossencoder_harness.py, `run_queue_discipline`: a batched open-loop run, and the check of what it shed
-- against what it counts as errors.
pub mod Sheds
pub mod Asserted
use Prim.Native.String.{String}
use cascade_search_engine.Prelude.{
  ℕ, Bool, true, false, not, Option, none, some, List, [], ◌∷◌, ltb, nat_beq, if◌then◌else◌,
}
use cascade_search_engine.Prelude.Keys.{string_eq, ◌==◌}
use cascade_search_engine.Harness.Latency.{LatencyRecorder, Doubles}
use cascade_search_engine.Harness.Loadgen.{Served, LoadResult, run_open_loop}
use cascade_search_engine.Rank.Batcher.{DynamicBatcher}
use cascade_search_engine.Rank.Batched.{
  Item, BatchedRun, Dispatched, waits, queue_full, scorer_failed, no_pair, Event, request,
  late_request, flush_thread, stop_all, dispatch, enqueue, step, run, start,
}

-- What it returns. The two rates are requests over the time of the run.
pub record DisciplineReport (F : Type 0) : Type 0 where
  pub discipline : String
  pub completed : ℕ
  pub dispatched : ℕ
  pub wall_ns : ℕ
  pub latency : LatencyRecorder F
  pub queue_delay : LatencyRecorder F
  pub shed_count : ℕ

-- `max_queue_depth if discipline == "shed" else None`
abbrev pub depth_of : String → ℕ → Option ℕ
depth_of discipline max_queue_depth = if discipline == "shed" then some max_queue_depth else none

-- `run_queue_discipline`: `warmup` has what happens until the warm-up requests are done, `events` what happens
-- until the flusher has stopped, and `records` what the workers of the open loop leave. A warm-up request that is
-- shed raises, a failed score is raised again, and the last check is the assertion.
module _ {A F : Type 0} (doubles : Doubles F) where
  unfoldable pub run_queue_discipline :
      String
      → ℕ
      → DynamicBatcher (Item A)
      → List A
      → List Event
      → List Event
      → List ℕ
      → List Served
      → ℕ
      → Option (DisciplineReport F)
  unfolding run_open_loop run start
  run_queue_discipline discipline max_queue_depth batcher request_pairs warmup events arrivals
        records wall_ns =
      let warm = run warmup (start batcher request_pairs (depth_of discipline max_queue_depth)) in
      let final = run events warm in
      let result = run_open_loop doubles arrivals records wall_ns in
      if ltb 0 warm.shed
      then none
      else if final.failure
      then none
      else if nat_beq result.errors (if discipline == "shed" then final.shed else 0)
      then some record {
        discipline = discipline;
        completed = result.completed;
        dispatched = result.dispatched;
        wall_ns = result.wall_ns;
        latency = result.latency;
        queue_delay = result.queue_delay;
        shed_count = final.shed;
      }
      else none
