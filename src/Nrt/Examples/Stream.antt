-- ===== src/Nrt/Examples/Stream.antt =====
-- py/nrt/lag_experiment.py on a short stream: four documents, one without a token, in batches of two, while a merge
-- runs.
use cascade_search_engine.Prelude.{
  ℕ, ◌+◌, ◌≤◌, ◌<◌, true, none, some, List, [], ◌∷◌, map, ◌≡◌, refl, ◌⊎◌, arith, length, count_if,
  All,
}
use cascade_search_engine.Prelude.Keys.{nat_order}
use cascade_search_engine.Prelude.Loops.{for_each}
use cascade_search_engine.Harness.Examples.{whole}
use cascade_search_engine.Nrt.Engine.{Engine}
use cascade_search_engine.Nrt.Index.{NrtIndex}
use cascade_search_engine.Nrt.Lag.Threshold.{
  Turn, Tail, Streaming, LagReport, stream_document, stream_all, run_threshold,
}
use cascade_search_engine.Nrt.Lag.Threshold.Accounts.{IsTimely, has_no_token}
use cascade_search_engine.Nrt.Lag.Threshold.Fates.{fates}
use cascade_search_engine.Nrt.Lag.Threshold.Report.{begin, stream-buffered, run_threshold-accounts}
use cascade_search_engine.Nrt.Examples.{Scored, small_engine, policy, seed, seed_files}

-- an index finds the first and the third document
abbrev finder : Engine Scored ℕ
finder = record small_engine { build = λ text. ("d1", 2) ∷ ("d3", 1) ∷ [] }

-- a document is its one word, or has none
abbrev turn : Turn
turn = record {
  document = ("d1", "hen");
  tokens = "hen" ∷ [];
  before_note = true ∷ [];
  before_search = [];
  before_add = true ∷ [];
  write_start = 10;
  now = 11;
  succeeds = true;
  after = 12;
  passes = (15, true ∷ []) ∷ [];
  before_count = true ∷ [];
}

abbrev turns : List Turn
turns =
    turn
    ∷ record turn { document = ("d2", ""); tokens = [] }
    ∷ record turn { document = ("d3", "owl"); tokens = "owl" ∷ [] }
    ∷ record turn { document = ("d4", "jay"); tokens = "jay" ∷ [] }
    ∷ []

turns-IsTimely : All IsTimely turns
turns-IsTimely =
    ((refl, omega arith), ((refl, omega arith), ((refl, omega arith), ((refl, omega arith), tt))))

abbrev tail : Tail
tail = record {
  before_flush = true ∷ [];
  succeeds = true;
  after = 20;
  passes = (21, []) ∷ [];
  before_count = [];
  arrivals = 1 ∷ [];
  records = record { scheduled_ns = 1; start_ns = 2; done_ns = 4; ok = true } ∷ [];
  wall_ns = 5;
  before_close = [];
}

stream-buffered_example :
    (t : Streaming Scored) × (for_each
        (stream_document finder 2)
        turns
        (begin finder 2 seed policy 0 seed_files 1)
      ≡ some t)
    × (map (λ p. p.external_id) t.pending ≡ map (λ d. d.0) t.nrt.buffer)
    × (length t.pending < 2)
    × (length t.lag_recorder.samples
          + t.timed_out_total
          + t.collisions_skipped
          + length t.nrt.buffer
          + count_if has_no_token turns
        ≡ 4)
stream-buffered_example =
    stream-buffered finder 2 seed policy 0 seed_files 1 turns (omega arith) turns-IsTimely

run_threshold-accounts_example :
    ((t : Streaming Scored) × (stream_all finder 2 turns tail
          (begin finder 2 seed policy 0 seed_files 1)
        ≡ some t)
      × (t.lag_recorder.samples ≡ [])
      × (run_threshold finder whole 2 seed policy 0 seed_files 1 turns tail ≡ none))
    ⊎ ((report : LagReport ℕ) × (nrt : NrtIndex Scored) × (run_threshold finder whole 2 seed policy
            0 seed_files 1 turns tail
          ≡ some (report, nrt))
        × (report.lag_samples
              + report.timed_out
              + report.collisions_skipped
              + count_if has_no_token turns
            ≡ 4)
        × (report.collisions_skipped
            ≡ (fates finder 2 turns tail (begin finder 2 seed policy 0 seed_files 1)).0)
        × (report.timed_out
            ≡ (fates finder 2 turns tail (begin finder 2 seed policy 0 seed_files 1)).1)
        × (1 ≤ report.lag_samples)
        × (nrt.buffer ≡ [])
        × (nrt.closed ≡ true))
run_threshold-accounts_example =
    run_threshold-accounts finder 2 seed policy 0 seed_files 1 whole turns tail (omega arith)
      turns-IsTimely refl (omega arith)
