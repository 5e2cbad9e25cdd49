-- ===== src/Nrt/Lag/Threshold/Report.antt =====
-- What `run_threshold` returns.
use cascade_search_engine.Prelude.{
  ℕ, ◌+◌, ◌≤◌, ◌<◌, true, none, some, List, [], map, ◌≡◌, refl, ap, ◌∙◌, ◌⊎◌, inl, inr, arith,
  length, length-map, count_if, All,
}
use cascade_search_engine.Prelude.Keys.{Order, nat_order}
use cascade_search_engine.Prelude.Loops.{for_each}
use cascade_search_engine.Harness.Latency.Percentiles.{percentile-uncached}
use cascade_search_engine.Harness.Latency.{Doubles}
use cascade_search_engine.Harness.Loadgen.{LoadResult, run_open_loop}
use cascade_search_engine.Harness.Loadgen.Accounts.{run_open_loop-latencies}
use cascade_search_engine.Nrt.Engine.{Engine}
use cascade_search_engine.Nrt.Segment.{Segment}
use cascade_search_engine.Nrt.MergePolicy.{TieredMergePolicy}
use cascade_search_engine.Nrt.Files.{Files}
use cascade_search_engine.Nrt.Index.{NrtIndex, close}
use cascade_search_engine.Nrt.Tsv.{Document}
use cascade_search_engine.Nrt.Lag.{Probe}
use cascade_search_engine.Nrt.Lag.Threshold.{
  Turn, Tail, Streaming, LagReport, merge_on, stream_document, stream_all, seeded, report_of,
  run_threshold,
}
use cascade_search_engine.Nrt.Lag.Threshold.Aligned.{writes-merge_on}
use cascade_search_engine.Nrt.Lag.Threshold.Accounts.{IsTimely, seen, has_no_token}
use cascade_search_engine.Nrt.Lag.Threshold.Fates.{fates, fates-counts}
use cascade_search_engine.Nrt.Lag.Threshold.Streamed.{
  stream-seen, stream_all-settled, seeded-IsAligned,
}

abbrev reported : {Index F : Type 0} → ℕ → Streaming Index → NrtIndex Index → ℕ → F → LagReport F
reported threshold t nrt lag query = record {
  flush_threshold_docs = threshold;
  lag_p99_us = lag;
  lag_samples = length t.lag_recorder.samples;
  query_p99_us = query;
  final_segment_count = length nrt.segments;
  collisions_skipped = t.collisions_skipped;
  timed_out = t.timed_out_total;
  merge_before_after = t.merge_before_after;
}

report_of-samples :
    {Index F : Type 0} ⦃p : Order F⦄ (doubles : Doubles F) (threshold : ℕ) (t : Streaming Index)
    (result : LoadResult F) (nrt : NrtIndex Index)
    → t.lag_recorder.cached ≡ none
    → result.latency.cached ≡ none
    → 1 ≤ length result.latency.samples
    → ((t.lag_recorder.samples ≡ []) × (report_of doubles threshold t result nrt ≡ none))
      ⊎ ((report : LagReport F) × (report_of doubles threshold t result nrt ≡ some report)
          × (report.lag_samples ≡ length t.lag_recorder.samples)
          × (1 ≤ report.lag_samples)
          × (report.timed_out ≡ t.timed_out_total)
          × (report.collisions_skipped ≡ t.collisions_skipped))
unfolding report_of
report_of-samples doubles threshold t result nrt uncached uncached' h =
    elim (percentile-uncached doubles.ceil_rank 990 result.latency uncached') [
      | inl (no_query, _) ↦ absurd (omega (arith, ap length no_query))
      | inr (query, _, measured) ↦
          elim (percentile-uncached doubles.ceil_rank 990 t.lag_recorder uncached) [
            | inl (no_sample, raises) ↦ inl (no_sample, rw (raises, report_of) refl)
            | inr (lag, one, found) ↦ inr (
              reported threshold t nrt lag query,
              rw (found, report_of, measured) refl,
              refl,
              one,
              refl,
              refl,
            )
          ]
    ]

module _ {Index Score : Type 0} ⦃o : Order Score⦄ (engine : Engine Index Score) (threshold : ℕ)
    (base_segment : Segment Index) (policy : TieredMergePolicy) (opened_at : ℕ) (files : Files)
    (next_identity : ℕ) where
  abbrev pub begin : Streaming Index
  begin = seeded threshold base_segment policy opened_at files next_identity

  begin-uncounted : (begin.collisions_skipped ≡ 0) × (begin.timed_out_total ≡ 0)
  unfolding seeded
  begin-uncounted = (refl, refl)

  seen-begin : seen begin ≡ 0
  unfolding seeded
  seen-begin = refl

  -- With a threshold of at least 1, builds that succeed in each add and a clock below the interval of the
  -- index, the loop ends, and whatever the merge thread does, the documents that wait are those in the
  -- index's buffer, in order, and fewer than the threshold: a batch is drained once all of it has been
  -- flushed.
  pub stream-buffered :
      (turns : List Turn)
      → 1 ≤ threshold
      → All IsTimely turns
      → (t : Streaming Index) × (for_each (stream_document engine threshold) turns begin ≡ some t)
        × (map (λ p. p.external_id) t.pending ≡ map (λ d. d.0) t.nrt.buffer)
        × (length t.pending < threshold)
        × (length t.lag_recorder.samples
              + t.timed_out_total
              + t.collisions_skipped
              + length t.nrt.buffer
              + count_if has_no_token turns
            ≡ length turns)
  stream-buffered turns h timely =
      let aligned =
        seeded-IsAligned engine threshold base_segment policy opened_at files next_identity h in
      let (t, looped, a, count) = stream-seen engine threshold turns begin h timely aligned in
      let same : length t.pending ≡ length t.nrt.buffer = omega (
        arith,
        ap length a.waiting,
        length-map (λ (p : Probe). p.external_id) t.pending,
        length-map (λ (d : Document). d.0) t.nrt.buffer,
      ) in
      (t, looped, a.waiting, a.below, omega (arith, same, count, seen-begin))

  -- With a threshold of at least 1, builds that succeed in each add and in the last flush, a clock below
  -- the interval of the index, and a request in the load: the run raises only if no document has a sample.
  -- Otherwise the samples, the time-outs, the collisions and the documents without a token add up to the
  -- stream; the collisions are the documents whose token had ten hits before the document was to be added,
  -- and the time-outs are the documents of each drained batch that no search of its drain finds; and the
  -- index is closed with nothing in its buffer.
  pub run_threshold-accounts :
      {F : Type 0} ⦃p : Order F⦄ (doubles : Doubles F) (turns : List Turn) (tail : Tail)
      → 1 ≤ threshold
      → All IsTimely turns
      → tail.succeeds ≡ true
      → 1 ≤ length tail.records
      → let result =
          run_threshold engine doubles threshold base_segment policy opened_at files next_identity
            turns tail in
        ((t : Streaming Index) × (stream_all engine threshold turns tail begin ≡ some t)
          × (t.lag_recorder.samples ≡ [])
          × (result ≡ none))
        ⊎ ((report : LagReport F) × (nrt : NrtIndex Index) × (result ≡ some (report, nrt))
            × (report.lag_samples
                  + report.timed_out
                  + report.collisions_skipped
                  + count_if has_no_token turns
                ≡ length turns)
            × (report.collisions_skipped ≡ (fates engine threshold turns tail begin).0)
            × (report.timed_out ≡ (fates engine threshold turns tail begin).1)
            × (1 ≤ report.lag_samples)
            × (nrt.buffer ≡ [])
            × (nrt.closed ≡ true))
  unfolding run_threshold
  run_threshold-accounts doubles turns tail h timely succeeds some_record =
      let aligned =
        seeded-IsAligned engine threshold base_segment policy opened_at files next_identity h in
      let (streamed, t, looped, _, all, over, skips, losses, count) =
        stream_all-settled engine threshold turns tail begin h timely succeeds aligned in
      let (skipped_are, lost_are) =
        fates-counts engine threshold turns tail begin streamed looped in
      let result = run_open_loop doubles tail.arrivals tail.records tail.wall_ns in
      let nrt = merge_on engine tail.before_close t.nrt in
      let (latencies, uncached) =
        run_open_loop-latencies doubles tail.arrivals tail.records tail.wall_ns in
      let some_latency : 1 ≤ length result.latency.samples = omega (arith, latencies) in
      elim (report_of-samples doubles threshold t result nrt over.uncached uncached some_latency) [
        | inl (no_sample, raises) ↦ inl (t, all, no_sample, rw (all, run_threshold, raises) refl)
        | inr (report, found, samples, one, timed_out, skipped) ↦ inr (
          report,
          close nrt,
          rw (all, run_threshold, found) refl,
          omega (arith, seen-begin, count, over.total_is, samples, timed_out, skipped),
          skipped ∙ skips ∙ skipped_are ∙ omega (arith, begin-uncounted),
          timed_out ∙ losses ∙ lost_are ∙ omega (arith, begin-uncounted),
          one,
          unfold close in
              ap (λ w. w.0) (writes-merge_on engine tail.before_close t.nrt) ∙ over.buffer_is,
          unfold close in refl,
        )
      ]
