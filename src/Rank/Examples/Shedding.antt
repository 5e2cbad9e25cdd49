-- ===== src/Rank/Examples/Shedding.antt =====
-- A run with a queue of one: after a warm-up request that is scored, one request is served and one is shed.
use Prim.Native.String.{String}
use cascade_search_engine.Prelude.{
  ℕ, ◌+◌, ◌<◌, true, false, not, none, some, [], ◌∷◌, List, ◌≡◌, refl, arith, length, count_if,
}
use cascade_search_engine.Harness.Examples.{whole}
use cascade_search_engine.Harness.Loadgen.{Served}
use cascade_search_engine.Rank.Batcher.{DynamicBatcher, add, should_flush, flush}
use cascade_search_engine.Rank.Batched.{
  Item, Event, request, flush_thread, dispatch, enqueue, flush_step, poll, scored, step, run, start,
}
use cascade_search_engine.Rank.Discipline.{DisciplineReport, run_queue_discipline}
use cascade_search_engine.Rank.Discipline.Asserted.{
  warm, final, errors_of_loop, run_queue_discipline-sheds,
}

abbrev pairs : List String
pairs = "a" ∷ "b" ∷ []

abbrev batcher : DynamicBatcher (Item String)
batcher = record { max_batch_size = 2; max_wait_ms = 5; items = []; window_start = none }

abbrev warmup : List Event
warmup = request 1 ∷ flush_thread 9 true ∷ flush_thread 9 true ∷ []

abbrev events : List Event
events = request 10 ∷ request 11 ∷ flush_thread 16 true ∷ flush_thread 17 true ∷ []

abbrev records : List Served
records =
    record { scheduled_ns = 1; start_ns = 1; done_ns = 7; ok = true }
    ∷ record { scheduled_ns = 2; start_ns = 2; done_ns = 2; ok = false }
    ∷ []

some_pair : 0 < length pairs
some_pair = omega arith

warmed : (warm "shed" 1 batcher pairs some_pair warmup events).shed ≡ 0
unfolding run step dispatch enqueue flush_step poll scored start add should_flush flush
warmed = refl

working : (final "shed" 1 batcher pairs some_pair warmup events).failure ≡ false
unfolding run step dispatch enqueue flush_step poll scored start add should_flush flush
working = refl

recorded :
    count_if (λ s. not s.ok) records ≡ errors_of_loop "shed" 1 batcher pairs some_pair warmup events
unfolding run step dispatch enqueue flush_step poll scored start add should_flush flush
recorded = refl

run_queue_discipline-sheds_example :
    (report : DisciplineReport ℕ) × (run_queue_discipline whole "shed" 1 batcher pairs warmup events
        (1 ∷ 2 ∷ [])
        records
        20
      ≡ some report)
    × (report.shed_count ≡ errors_of_loop "shed" 1 batcher pairs some_pair warmup events)
    × (report.completed + report.shed_count ≡ length records)
run_queue_discipline-sheds_example =
    run_queue_discipline-sheds "shed" 1 batcher pairs some_pair warmup events whole (1 ∷ 2 ∷ [])
      records 20 warmed working recorded
