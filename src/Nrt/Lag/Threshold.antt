-- ===== src/Nrt/Lag/Threshold.antt =====
-- py/nrt/lag_experiment.py, `run_threshold`: the documents are streamed through an index, and each batch is drained
-- when it is flushed. What the merge thread does in between is given, piece by piece, with the clock.
pub mod Aligned
pub mod Accounts
pub mod Streamed
pub mod Fates
pub mod Report
use Prim.Native.String.{String}
use cascade_search_engine.Prelude.{
  ℕ, suc, ◌+◌, Bool, true, false, Option, none, some, List, [], ◌∷◌, ◌++◌, map, length, leb, ltb,
  if◌then◌else◌,
}
use cascade_search_engine.Prelude.Keys.{Order, string_eq, nat_order, is_in}
use cascade_search_engine.Prelude.Loops.{for_each}
use cascade_search_engine.Harness.Latency.{LatencyRecorder, Doubles, empty, record_one, percentile}
use cascade_search_engine.Harness.Loadgen.{Served, LoadResult, run_open_loop}
use cascade_search_engine.Nrt.Engine.{blockmax_wand, external_id, Engine}
use cascade_search_engine.Nrt.Segment.{Segment}
use cascade_search_engine.Nrt.MergePolicy.{TieredMergePolicy}
use cascade_search_engine.Nrt.Tsv.{Document}
use cascade_search_engine.Nrt.Files.{Files}
use cascade_search_engine.Nrt.Index.{
  NrtIndex, Outcome, returned, raised, init, flush_locked, add, search, close,
}
use cascade_search_engine.Nrt.Merge.{advance}
use cascade_search_engine.Nrt.Lag.{Probe, longest_token, drain_pending}

-- A pass of a drain: its time, and the pieces of the merge thread before it, with whether a build in them succeeds.
abbrev pub Pass : Type 0
Pass = ℕ × List Bool

-- A document of the stream, the tokens of its text, and what happens around it: the pieces of the merge thread
-- before each of its steps, the clock, whether the build in `add` succeeds, and the passes of a drain.
pub record Turn : Type 0 where
  pub document : Document
  pub tokens : List String
  pub before_note : List Bool
  pub before_search : List Bool
  pub before_add : List Bool
  pub write_start : ℕ
  pub now : ℕ
  pub succeeds : Bool
  pub after : ℕ
  pub passes : List Pass
  pub before_count : List Bool

-- The end of the run: the last flush, its drain, the load and what the merge thread does before each of them.
pub record Tail : Type 0 where
  pub before_flush : List Bool
  pub succeeds : Bool
  pub after : ℕ
  pub passes : List Pass
  pub before_count : List Bool
  pub arrivals : List ℕ
  pub records : List Served
  pub wall_ns : ℕ
  pub before_close : List Bool

-- The variables of `run_threshold`. The trace of the segment counts has the newest first.
pub record Streaming (Index : Type 0) : Type 0 where
  pub nrt : NrtIndex Index
  pub lag_recorder : LatencyRecorder ℕ
  pub collisions_skipped : ℕ
  pub timed_out_total : ℕ
  pub segment_count_trace : List ℕ
  pub merge_before_after : Option (ℕ × ℕ)
  pub pending : List Probe

pub record LagReport (F : Type 0) : Type 0 where
  pub flush_threshold_docs : ℕ
  pub lag_p99_us : ℕ
  pub lag_samples : ℕ
  pub query_p99_us : F
  pub final_segment_count : ℕ
  pub collisions_skipped : ℕ
  pub timed_out : ℕ
  pub merge_before_after : Option (ℕ × ℕ)

-- `set(xs)`
unfoldable pub set_of : List String → List String
set_of [] = []
set_of (x ∷ xs) = let rest = set_of xs in if is_in x rest then rest else x ∷ rest

unfoldable pub record_each : List ℕ → LatencyRecorder ℕ → LatencyRecorder ℕ
unfolding record_one
record_each [] r = r
record_each (lag ∷ lags) r = record_each lags (record_one lag r)

-- The newest count is less than the one before it.
unfoldable pub dropped : List ℕ → Option (ℕ × ℕ)
dropped (after ∷ before ∷ trace) = if ltb after before then some (before, after) else none
dropped _ = none

-- `note_segment_count`
unfoldable pub note_segment_count : {Index : Type 0} → Streaming Index → Streaming Index
unfolding dropped
note_segment_count t =
    let trace = length t.nrt.segments ∷ t.segment_count_trace in
    record t {
      segment_count_trace = trace;
      merge_before_after = elim t.merge_before_after [
        | none ↦ dropped trace
        | some seen ↦ some seen
      ];
    }

module _ {Index Score : Type 0} (engine : Engine Index Score) where
  -- the merge thread goes on by some pieces
  unfoldable pub merge_on : List Bool → NrtIndex Index → NrtIndex Index
  merge_on [] s = s
  merge_on (succeeds ∷ pieces) s = merge_on pieces (advance engine succeeds s.worker s)

  abbrev pub meanwhile : List Bool → Streaming Index → Streaming Index
  meanwhile pieces t = record t { nrt = merge_on pieces t.nrt }

  -- the index after the passes
  unfoldable pub after_passes : List Pass → NrtIndex Index → NrtIndex Index
  unfolding merge_on
  after_passes [] s = s
  after_passes ((found_at, pieces) ∷ passes) s = after_passes passes (merge_on pieces s)

module _ {Index Score : Type 0} ⦃o : Order Score⦄ (engine : Engine Index Score) where
  -- `{eid for eid, _ in nrt.search(probe, k=10)}`
  unfoldable pub hits_of : NrtIndex Index → String → List String
  unfolding set_of
  hits_of s probe = set_of (map external_id (search engine s probe 10 blockmax_wand))

  -- the passes, each with what its searches find
  unfoldable pub searches_of : List Pass → NrtIndex Index → List (ℕ × (Probe → Bool))
  unfolding merge_on
  searches_of [] s = []
  searches_of ((found_at, pieces) ∷ passes) s =
      let s' = merge_on engine pieces s in
      (found_at, λ p. is_in p.external_id (hits_of s' p.probe)) ∷ searches_of passes s'

  -- `timed_out_total += _drain_pending(nrt, pending, lag_recorder)`
  unfoldable pub drain : List Pass → Streaming Index → Streaming Index
  unfolding searches_of after_passes record_each
  drain passes t =
      let (recorded, left) = drain_pending (searches_of passes t.nrt) t.pending in
      record t {
        nrt = after_passes engine passes t.nrt;
        lag_recorder = record_each recorded t.lag_recorder;
        timed_out_total = t.timed_out_total + left;
      }

  -- a batch of `threshold` documents is drained
  unfoldable pub drain_batch : ℕ → Turn → Streaming Index → Streaming Index
  unfolding drain note_segment_count
  drain_batch threshold turn t =
      if leb threshold (length t.pending)
      then note_segment_count
          (meanwhile engine turn.before_count (record (drain turn.passes t) { pending = [] }))
      else t

  -- The document is written and waits for its probe; `none` where `add` raises.
  unfoldable pub write_document : ℕ → Turn → String → Streaming Index → Option (Streaming Index)
  unfolding drain_batch
  write_document threshold turn probe t =
      let (outcome, nrt) = add engine turn.document turn.now turn.succeeds turn.after t.nrt in
      let waiting =
        t.pending
        ++ record { external_id = turn.document.0; probe = probe; write_start = turn.write_start }
          ∷ [] in
      elim outcome [
        | raised ↦ none
        | returned ↦ some (drain_batch threshold turn (record t { nrt = nrt; pending = waiting }))
      ]

  -- the body of the loop
  unfoldable pub stream_document : ℕ → Turn → Streaming Index → Option (Streaming Index)
  unfolding write_document hits_of
  stream_document threshold turn t =
      let noted = note_segment_count (meanwhile engine turn.before_note t) in
      elim (longest_token turn.tokens) [
        | none ↦ some noted
        | some probe ↦
            let s = meanwhile engine turn.before_search noted in
            if leb 10 (length (hits_of s.nrt probe))
            then some (record s { collisions_skipped = suc s.collisions_skipped })
            else write_document threshold turn probe (meanwhile engine turn.before_add s)
      ]

  -- The rest of the documents is flushed and drained.
  unfoldable pub flush_tail : Tail → Streaming Index → Option (Streaming Index)
  unfolding drain
  flush_tail tail t =
      let s = meanwhile engine tail.before_flush t in
      let (outcome, nrt) = flush_locked engine tail.succeeds tail.after s.nrt in
      elim outcome [
        | raised ↦ none
        | returned ↦ some (
            note_segment_count
              (meanwhile engine tail.before_count (drain tail.passes (record s { nrt = nrt }))))
      ]

  -- `run_threshold` up to the load: the loop and the last batch
  unfoldable pub stream_all : ℕ → List Turn → Tail → Streaming Index → Option (Streaming Index)
  unfolding stream_document flush_tail
  stream_all threshold turns tail t = elim (for_each (stream_document threshold) turns t) [
    | none ↦ none
    | some streamed ↦ flush_tail tail streamed
  ]

-- Before the first document: the index is seeded with the base segment. Its interval is never over.
unfoldable pub seeded :
    {Index : Type 0} → ℕ → Segment Index → TieredMergePolicy → ℕ → Files → ℕ → Streaming Index
unfolding init
seeded threshold base_segment policy opened_at files next_identity = record {
  nrt = init threshold 1000000000 (some policy) (base_segment ∷ []) opened_at files next_identity;
  lag_recorder = empty;
  collisions_skipped = 0;
  timed_out_total = 0;
  segment_count_trace = 1 ∷ [];
  merge_before_after = none;
  pending = [];
}

-- What is returned after the load; a percentile without a sample raises.
unfoldable pub report_of :
    {Index F : Type 0}
    → ⦃p : Order F⦄ → Doubles F
    → ℕ
    → Streaming Index
    → LoadResult F
    → NrtIndex Index
    → Option (LagReport F)
unfolding percentile
report_of doubles threshold t query_result nrt =
    elim (percentile doubles.ceil_rank 990 t.lag_recorder).0 [
      | none ↦ none
      | some lag ↦ elim (percentile doubles.ceil_rank 990 query_result.latency).0 [
        | none ↦ none
        | some query ↦ some (record {
          flush_threshold_docs = threshold;
          lag_p99_us = lag;
          lag_samples = length t.lag_recorder.samples;
          query_p99_us = query;
          final_segment_count = length nrt.segments;
          collisions_skipped = t.collisions_skipped;
          timed_out = t.timed_out_total;
          merge_before_after = t.merge_before_after;
        })
      ]
    ]

module _ {Index Score F : Type 0} ⦃o : Order Score⦄ ⦃p : Order F⦄ (engine : Engine Index Score)
    (doubles : Doubles F) where
  -- `run_threshold`: the report, and the index closed.
  unfoldable pub run_threshold :
      ℕ
      → Segment Index
      → TieredMergePolicy
      → ℕ
      → Files
      → ℕ
      → List Turn
      → Tail
      → Option (LagReport F × NrtIndex Index)
  unfolding seeded stream_all run_open_loop report_of
  run_threshold threshold base_segment policy opened_at files next_identity turns tail =
      let begin = seeded threshold base_segment policy opened_at files next_identity in
      elim (stream_all engine threshold turns tail begin) [
        | none ↦ none
        | some t ↦
            let query_result = run_open_loop doubles tail.arrivals tail.records tail.wall_ns in
            let nrt = merge_on engine tail.before_close t.nrt in
            elim (report_of doubles threshold t query_result nrt) [
              | none ↦ none
              | some report ↦ some (report, close nrt)
            ]
      ]
