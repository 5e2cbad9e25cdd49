-- ===== src/Nrt/Lag/Threshold/Accounts.antt =====
-- What becomes of the documents of the stream.
use Prim.Native.String.{String}
use cascade_search_engine.Prelude.{
  ℕ, suc, ◌+◌, ◌<◌, ◌≤◌, Bool, true, false, none, some, List, [], ◌∷◌, ◌++◌, map, map-append, ◌≡◌,
  refl, sym, ap, ◌∙◌, ◌⊎◌, inl, inr, arith, length, length-append, length-map, leb, Bool-cases,
  tests, append-nil, append_assoc, ap₂,
}
use cascade_search_engine.Prelude.Keys.{Order}
use cascade_search_engine.Harness.Latency.{LatencyRecorder, record_one}
use cascade_search_engine.Nrt.Engine.{Engine}
use cascade_search_engine.Nrt.Tsv.{Document}
use cascade_search_engine.Nrt.Index.{NrtIndex, returned, add}
use cascade_search_engine.Nrt.Lag.{Probe, longest_token, drain_pending}
use cascade_search_engine.Nrt.Lag.Drain.{drain_pending-counts}
use cascade_search_engine.Nrt.Lag.Threshold.{
  Pass, Turn, Streaming, meanwhile, after_passes, record_each, note_segment_count, searches_of,
  drain, drain_batch, write_document,
}
use cascade_search_engine.Nrt.Lag.Threshold.Aligned.{
  writes, writes-merge_on, writes-after_passes, writes-add,
}

-- the ticks of `flush_interval_s`
abbrev pub interval : ℕ
interval = 1000000000

-- The documents that wait are those in the buffer, fewer than the threshold, of an index that is not closed.
pub record IsAligned {Index : Type 0} (threshold : ℕ) (t : Streaming Index) : Type 0 where
  pub waiting : map (λ p. p.external_id) t.pending ≡ map (λ d. d.0) t.nrt.buffer
  pub below : length t.pending < threshold
  pub same_threshold : t.nrt.flush_threshold_docs ≡ threshold
  pub same_interval : t.nrt.flush_interval_s ≡ interval
  pub running : t.nrt.closed ≡ false
  pub uncached : t.lag_recorder.cached ≡ none

-- the documents that have become something: a sample, a time-out, a collision or one that waits
abbrev pub seen : {Index : Type 0} → Streaming Index → ℕ
seen t = length t.lag_recorder.samples + t.timed_out_total + t.collisions_skipped + length t.pending

abbrev pub has_no_token : Turn → Bool
has_no_token turn = elim turn.tokens [ [] ↦ true | _ ↦ false ]

-- A build in `add` succeeds, and the clock is not beyond the interval.
abbrev pub IsTimely : Turn → Type 0
IsTimely turn = (turn.succeeds ≡ true) × (turn.now < interval)

samples-record_each :
    (lags : List ℕ) (r : LatencyRecorder ℕ) → (record_each lags r).samples ≡ r.samples ++ lags
unfolding record_each record_one
samples-record_each [] r = sym (append-nil r.samples)
samples-record_each (lag ∷ lags) r =
    samples-record_each lags (record_one lag r) ∙ append_assoc r.samples (lag ∷ []) lags

cached-record_each :
    (lags : List ℕ) (r : LatencyRecorder ℕ) → r.cached ≡ none → (record_each lags r).cached ≡ none
unfolding record_each record_one
cached-record_each [] r h = h
cached-record_each (lag ∷ lags) r h = cached-record_each lags (record_one lag r) refl

pub longest_token_cases :
    (tokens : List String)
    → ((tokens ≡ []) × (longest_token tokens ≡ none))
      ⊎ ((probe : String) × (longest_token tokens ≡ some probe)
          × (elim tokens [ [] ↦ true | _ ↦ false ] ≡ false))
unfolding longest_token
longest_token_cases [] = inl (refl, refl)
longest_token_cases (token ∷ tokens) = inr (_, refl, refl)

module _ {Index : Type 0} (threshold : ℕ) where
  -- The invariant reads of the index what the merge thread leaves alone.
  IsAligned-writes :
      (t : Streaming Index) (s : NrtIndex Index)
      → writes s ≡ writes t.nrt
      → IsAligned threshold t
      → IsAligned threshold (record t { nrt = s })
  IsAligned-writes t s same a = record {
    waiting = a.waiting ∙ ap (λ w. map (λ d. d.0) w.0) (sym same);
    below = a.below;
    same_threshold = ap (λ w. w.1.0) same ∙ a.same_threshold;
    same_interval = ap (λ w. w.1.1.0) same ∙ a.same_interval;
    running = ap (λ w. w.1.1.1) same ∙ a.running;
    uncached = a.uncached;
  }

  pub IsAligned-note :
      (t : Streaming Index) → IsAligned threshold t → IsAligned threshold (note_segment_count t)
  unfolding note_segment_count
  IsAligned-note t a = record {
    waiting = a.waiting;
    below = a.below;
    same_threshold = a.same_threshold;
    same_interval = a.same_interval;
    running = a.running;
    uncached = a.uncached;
  }

pub seen-note : {Index : Type 0} (t : Streaming Index) → seen (note_segment_count t) ≡ seen t
unfolding note_segment_count
seen-note t = refl

module _ {Index Score : Type 0} ⦃o : Order Score⦄ (engine : Engine Index Score) where
  pub IsAligned-meanwhile :
      (threshold : ℕ) (pieces : List Bool) (t : Streaming Index)
      → IsAligned threshold t
      → IsAligned threshold (meanwhile engine pieces t)
  IsAligned-meanwhile threshold pieces t =
      IsAligned-writes threshold t _ (writes-merge_on engine pieces t.nrt)

  -- A drain records or gives up what waits.
  pub drain-counts :
      (passes : List Pass) (t : Streaming Index)
      → length (drain engine passes t).lag_recorder.samples
          + (drain engine passes t).timed_out_total
        ≡ length t.lag_recorder.samples + t.timed_out_total + length t.pending
  unfolding drain
  drain-counts passes t =
      let searches = searches_of engine passes t.nrt in
      let recorded = (drain_pending searches t.pending).0 in
      omega (
        arith,
        ap length (samples-record_each recorded t.lag_recorder),
        length-append t.lag_recorder.samples recorded,
        (drain_pending-counts searches t.pending).0,
      )

  pub cached-drain :
      (passes : List Pass) (t : Streaming Index)
      → t.lag_recorder.cached ≡ none
      → (drain engine passes t).lag_recorder.cached ≡ none
  unfolding drain
  cached-drain passes t h =
      cached-record_each (drain_pending (searches_of engine passes t.nrt) t.pending).0
        t.lag_recorder h

  pub drain-rest :
      (passes : List Pass) (t : Streaming Index)
      → ((drain engine passes t).nrt ≡ after_passes engine passes t.nrt)
        × ((drain engine passes t).collisions_skipped ≡ t.collisions_skipped)
  unfolding drain
  drain-rest passes t = (refl, refl)

module _ {Index Score : Type 0} ⦃o : Order Score⦄ (engine : Engine Index Score)
    (threshold : ℕ) where
  -- a full batch, its documents flushed
  drain_batch-full :
      (turn : Turn) (t : Streaming Index)
      → 1 ≤ threshold
      → leb threshold (length t.pending) ≡ true
      → writes t.nrt ≡ ([], (threshold, (interval, false)))
      → t.lag_recorder.cached ≡ none
      → IsAligned threshold (drain_batch engine threshold turn t)
        × (seen (drain_batch engine threshold turn t) ≡ seen t)
  unfolding drain_batch
  drain_batch-full turn t h full flushed uncached =
      let drained = drain engine turn.passes t in
      let emptied = record drained { pending = [] } in
      let later = meanwhile engine turn.before_count emptied in
      let same : writes later.nrt ≡ ([], (threshold, (interval, false))) =
        writes-merge_on engine turn.before_count drained.nrt
        ∙ ap writes (drain-rest engine turn.passes t).0
        ∙ writes-after_passes engine turn.passes t.nrt
        ∙ flushed in
      let aligned : IsAligned threshold later = record {
        waiting = ap (λ w. map (λ d. d.0) w.0) (sym same);
        below = h;
        same_threshold = ap (λ w. w.1.0) same;
        same_interval = ap (λ w. w.1.1.0) same;
        running = ap (λ w. w.1.1.1) same;
        uncached = cached-drain engine turn.passes t uncached;
      } in
      rw full (
        IsAligned-note threshold later aligned,
        seen-note later
            ∙ omega (arith, drain-counts engine turn.passes t, (drain-rest engine turn.passes t).1),
      )

  drain_batch-room :
      (turn : Turn) (t : Streaming Index)
      → leb threshold (length t.pending) ≡ false
      → drain_batch engine threshold turn t ≡ t
  unfolding drain_batch
  drain_batch-room turn t room = rw room refl

  abbrev waits : Turn → String → Streaming Index → NrtIndex Index → Streaming Index
  waits turn probe t s = record t {
    nrt = s;
    pending =
        t.pending
        ++ record { external_id = turn.document.0; probe = probe; write_start = turn.write_start }
          ∷ [];
  }

  -- one more document waits in the buffer
  waits-IsAligned :
      (turn : Turn) (probe : String) (t : Streaming Index) (s : NrtIndex Index)
      → IsAligned threshold t
      → writes s ≡ (t.nrt.buffer ++ turn.document ∷ [], (threshold, (interval, false)))
      → length (waits turn probe t s).pending < threshold
      → IsAligned threshold (waits turn probe t s)
  waits-IsAligned turn probe t s a kept below = record {
    waiting =
        map-append (λ p. p.external_id) t.pending _
        ∙ ap (λ ids. ids ++ turn.document.0 ∷ []) a.waiting
        ∙ sym (map-append (λ d. d.0) t.nrt.buffer _)
        ∙ ap (λ w. map (λ d. d.0) w.0) (sym kept);
    below = below;
    same_threshold = ap (λ w. w.1.0) kept;
    same_interval = ap (λ w. w.1.1.0) kept;
    running = ap (λ w. w.1.1.1) kept;
    uncached = a.uncached;
  }

  write_document-returned :
      (turn : Turn) (probe : String) (t : Streaming Index)
      → (add engine turn.document turn.now turn.succeeds turn.after t.nrt).0 ≡ returned
      → write_document engine threshold turn probe t
        ≡ some (
            drain_batch engine threshold turn (
              waits turn probe t
                (add engine turn.document turn.now turn.succeeds turn.after t.nrt).1))
  unfolding write_document
  write_document-returned turn probe t ok = rw (ok, write_document) refl

  -- A document that is written waits, or is drained with its batch.
  pub write_document-seen :
      (turn : Turn) (probe : String) (t : Streaming Index)
      → 1 ≤ threshold
      → IsTimely turn
      → IsAligned threshold t
      → (t' : Streaming Index) × (write_document engine threshold turn probe t ≡ some t')
        × IsAligned threshold t'
        × (seen t' ≡ suc (seen t))
  write_document-seen turn probe t h (succeeds, early) a =
      let s = (add engine turn.document turn.now turn.succeeds turn.after t.nrt).1 in
      let (ok, same) =
        writes-add engine turn.document turn.now turn.succeeds turn.after t.nrt succeeds a.running
          (omega (arith, early, a.same_interval)) in
      let w = waits turn probe t s in
      let one_more : length w.pending ≡ suc (length t.pending) =
        length-append t.pending _ ∙ omega arith in
      let longer : length w.pending ≡ suc (length t.nrt.buffer) = omega (
        arith,
        one_more,
        ap length a.waiting,
        length-map (λ (p : Probe). p.external_id) t.pending,
        length-map (λ (d : Document). d.0) t.nrt.buffer,
      ) in
      let result = write_document-returned turn probe t ok in
      elim (Bool-cases (leb threshold (length w.pending))) [
        | inl full ↦
            let reached : leb t.nrt.flush_threshold_docs (suc (length t.nrt.buffer)) ≡ true =
              ap₂ leb a.same_threshold (sym longer) ∙ full in
            let flushed : writes s ≡ ([], (threshold, (interval, false))) =
              same ∙ rw (reached, a.same_threshold, a.same_interval, a.running) refl in
            let (aligned, count) = drain_batch-full turn w h full flushed a.uncached in
            (_, result, aligned, count ∙ omega (arith, one_more))
        | inr room ↦
            let below : leb t.nrt.flush_threshold_docs (suc (length t.nrt.buffer)) ≡ false =
              ap₂ leb a.same_threshold (sym longer) ∙ room in
            let kept : writes s
                ≡ (t.nrt.buffer ++ turn.document ∷ [], (threshold, (interval, false))) =
              same ∙ rw (below, a.same_threshold, a.same_interval, a.running) refl in
            (
              w,
              result ∙ ap some (drain_batch-room turn w room),
              waits-IsAligned turn probe t s a kept (omega (tests, room)),
              omega (arith, one_more),
            )
      ]
