-- ===== src/Nrt/Lag/Threshold/Streamed.antt =====
-- The whole stream, from the first document to the report.
use cascade_search_engine.Prelude.{
  ℕ, suc, ◌+◌, ◌≤◌, true, none, some, List, [], ◌∷◌, ◌≡◌, refl, ap, ◌∙◌, inl, inr, arith, length,
  leb, if◌then◌else◌, Bool-cases, count_if, All,
}
use cascade_search_engine.Prelude.Keys.{Order}
use cascade_search_engine.Prelude.Loops.{for_each}
use cascade_search_engine.Nrt.Engine.{Engine}
use cascade_search_engine.Nrt.Segment.{Segment}
use cascade_search_engine.Nrt.MergePolicy.{TieredMergePolicy}
use cascade_search_engine.Nrt.Files.{Files}
use cascade_search_engine.Nrt.Index.{returned, init, flush_locked}
use cascade_search_engine.Nrt.Lag.Threshold.{
  Turn, Tail, Streaming, meanwhile, note_segment_count, drain, hits_of, stream_document, flush_tail,
  stream_all, seeded,
}
use cascade_search_engine.Nrt.Lag.Threshold.Aligned.{
  writes, writes-merge_on, writes-after_passes, writes-flush_locked,
}
use cascade_search_engine.Nrt.Lag.Threshold.Fates.{never_found, last_batch, drain-timed_out}
use cascade_search_engine.Nrt.Lag.Threshold.Accounts.{
  IsAligned, IsTimely, seen, seen-note, has_no_token, longest_token_cases, IsAligned-note,
  IsAligned-meanwhile, drain-counts, drain-rest, cached-drain, write_document-seen,
}

module _ {Index Score : Type 0} ⦃o : Order Score⦄ (engine : Engine Index Score)
    (threshold : ℕ) where
  IsAligned-collision :
      (t : Streaming Index)
      → IsAligned threshold t
      → IsAligned threshold (record t { collisions_skipped = suc t.collisions_skipped })
  IsAligned-collision t a = record {
    waiting = a.waiting;
    below = a.below;
    same_threshold = a.same_threshold;
    same_interval = a.same_interval;
    running = a.running;
    uncached = a.uncached;
  }

  -- One round: the document has no probe, is skipped as a collision, or is written.
  stream_document-seen :
      (turn : Turn) (t : Streaming Index)
      → 1 ≤ threshold
      → IsTimely turn
      → IsAligned threshold t
      → (t' : Streaming Index) × (stream_document engine threshold turn t ≡ some t')
        × IsAligned threshold t'
        × (seen t' + (if has_no_token turn then 1 else 0) ≡ suc (seen t))
  unfolding stream_document
  stream_document-seen turn t h timely a =
      let before = meanwhile engine turn.before_note t in
      let noted = note_segment_count before in
      let aligned =
        IsAligned-note threshold before
          (IsAligned-meanwhile engine threshold turn.before_note t a) in
      elim (longest_token_cases turn.tokens) [
        | inl (empty, missing) ↦ (
          noted,
          rw (missing, stream_document) refl,
          aligned,
          rw empty (omega (arith, seen-note before)),
        )
        | inr (probe, found, some_token) ↦
            let s = meanwhile engine turn.before_search noted in
            let s_aligned = IsAligned-meanwhile engine threshold turn.before_search noted aligned in
            elim (Bool-cases (leb 10 (length (hits_of engine s.nrt probe)))) [
              | inl collides ↦ (
                record s { collisions_skipped = suc s.collisions_skipped },
                rw (found, stream_document, collides) refl,
                IsAligned-collision s s_aligned,
                rw some_token (omega (arith, seen-note before)),
              )
              | inr alone ↦
                  let (t', written, a', count) =
                    write_document-seen engine threshold turn probe
                      (meanwhile engine turn.before_add s) h timely
                      (IsAligned-meanwhile engine threshold turn.before_add s s_aligned) in
                  (
                    t',
                    rw (found, stream_document, alone) written,
                    a',
                    rw some_token (omega (arith, count, seen-note before)),
                  )
            ]
      ]

  pub stream-seen :
      (turns : List Turn) (t : Streaming Index)
      → 1 ≤ threshold
      → All IsTimely turns
      → IsAligned threshold t
      → (t' : Streaming Index) × (for_each (stream_document engine threshold) turns t ≡ some t')
        × IsAligned threshold t'
        × (seen t' + count_if has_no_token turns ≡ seen t + length turns)
  unfolding for_each
  stream-seen [] t h timely a = (t, refl, a, omega arith)
  stream-seen (turn ∷ turns) t h timely a =
      let (t', done, a', count) = stream_document-seen turn t h timely.0 a in
      let (t'', rest, a'', counts) = stream-seen turns t' h timely.1 a' in
      (t'', rw (done, for_each) rest, a'', ground (arith, count, counts))

-- the documents of a stream that is over: a sample, a time-out or a collision
abbrev pub settled : {Index : Type 0} → Streaming Index → ℕ
settled t = length t.lag_recorder.samples + t.timed_out_total + t.collisions_skipped

-- The stream is over, and nothing is left in the buffer.
pub record IsOver {Index : Type 0} (total : ℕ) (t : Streaming Index) : Type 0 where
  pub buffer_is : t.nrt.buffer ≡ []
  pub total_is : settled t ≡ total
  pub uncached : t.lag_recorder.cached ≡ none

module _ {Index Score : Type 0} ⦃o : Order Score⦄ (engine : Engine Index Score) where
  flush_tail-returned :
      (tail : Tail) (t : Streaming Index)
      → let s = meanwhile engine tail.before_flush t in
        let flushed = flush_locked engine tail.succeeds tail.after s.nrt in
        flushed.0 ≡ returned
        → flush_tail engine tail t
          ≡ some (
              note_segment_count (
                meanwhile engine tail.before_count
                  (drain engine tail.passes (record s { nrt = flushed.1 }))))
  unfolding flush_tail
  flush_tail-returned tail t ok = rw (ok, flush_tail) refl

  flush_tail-settled :
      (threshold : ℕ) (tail : Tail) (t : Streaming Index)
      → tail.succeeds ≡ true
      → IsAligned threshold t
      → (t' : Streaming Index) × (flush_tail engine tail t ≡ some t')
        × IsOver (seen t) t'
        × (t'.collisions_skipped ≡ t.collisions_skipped)
        × (t'.timed_out_total
            ≡ t.timed_out_total
              + never_found engine threshold tail.passes (last_batch engine threshold tail t))
  flush_tail-settled threshold tail t succeeds a =
      let s = meanwhile engine tail.before_flush t in
      let b = IsAligned-meanwhile engine threshold tail.before_flush t a in
      let flushed = (flush_locked engine tail.succeeds tail.after s.nrt).1 in
      let (ok, same) =
        writes-flush_locked engine tail.succeeds tail.after s.nrt succeeds b.running in
      let f = record s { nrt = flushed } in
      let drained = drain engine tail.passes f in
      let later = meanwhile engine tail.before_count drained in
      let empty =
        writes-merge_on engine tail.before_count drained.nrt
        ∙ ap writes (drain-rest engine tail.passes f).0
        ∙ writes-after_passes engine tail.passes flushed
        ∙ same in
      (
        note_segment_count later,
        flush_tail-returned tail t ok,
        unfold note_segment_count in
            record {
              buffer_is = ap (λ w. w.0) empty;
              total_is =
                  omega
                    (arith, drain-counts engine tail.passes f, (drain-rest engine tail.passes f).1);
              uncached = cached-drain engine tail.passes f b.uncached;
            },
        unfold note_segment_count in (drain-rest engine tail.passes f).1,
        unfold note_segment_count in drain-timed_out engine threshold tail.passes f,
      )

  pub seeded-IsAligned :
      (threshold : ℕ) (base : Segment Index) (policy : TieredMergePolicy) (opened_at : ℕ)
      (files : Files) (next_identity : ℕ)
      → 1 ≤ threshold
      → IsAligned threshold (seeded threshold base policy opened_at files next_identity)
  unfolding seeded init
  seeded-IsAligned threshold base policy opened_at files next_identity h = record {
    waiting = refl;
    below = h;
    same_threshold = refl;
    same_interval = refl;
    running = refl;
    uncached = refl;
  }

  -- The stream and its tail.
  pub stream_all-settled :
      (threshold : ℕ) (turns : List Turn) (tail : Tail) (t : Streaming Index)
      → 1 ≤ threshold
      → All IsTimely turns
      → tail.succeeds ≡ true
      → IsAligned threshold t
      → (streamed : Streaming Index) × (t' : Streaming Index) × (for_each
            (stream_document engine threshold)
            turns
            t
          ≡ some streamed)
        × IsAligned threshold streamed
        × (stream_all engine threshold turns tail t ≡ some t')
        × IsOver (seen streamed) t'
        × (t'.collisions_skipped ≡ streamed.collisions_skipped)
        × (t'.timed_out_total
            ≡ streamed.timed_out_total
              + never_found engine threshold tail.passes
                  (last_batch engine threshold tail streamed))
        × (seen streamed + count_if has_no_token turns ≡ seen t + length turns)
  unfolding stream_all
  stream_all-settled threshold turns tail t h timely succeeds a =
      let (streamed, looped, a', count) = stream-seen engine threshold turns t h timely a in
      let (t', flushed, over, skips, losses) =
        flush_tail-settled threshold tail streamed succeeds a' in
      (streamed, t', looped, a', rw (looped, stream_all) flushed, over, skips, losses, count)
