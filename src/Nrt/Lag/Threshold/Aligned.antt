-- ===== src/Nrt/Lag/Threshold/Aligned.antt =====
-- The documents that wait are those in the index's buffer.
use cascade_search_engine.Prelude.{
  ℕ, suc, ◌-◌, ◌<◌, Bool, true, false, List, [], ◌∷◌, ◌++◌, ◌≡◌, refl, ap, ◌∙◌, inl, inr, arith,
  length, length-append, leb, Bool-cases, List-cases, if◌then◌else◌,
}
use cascade_search_engine.Nrt.Engine.{Engine}
use cascade_search_engine.Nrt.Segment.{build_segment}
use cascade_search_engine.Nrt.Tsv.{Document}
use cascade_search_engine.Nrt.Index.{
  Job, Worker, NrtIndex, Outcome, returned, raised, maybe_schedule_merge, submit, flush_locked,
  should_flush, add,
}
use cascade_search_engine.Nrt.Merge.{
  advance, start_job, build_merged, swap_in, after_swap, give_up, clean_up,
}
use cascade_search_engine.Nrt.Merge.Flush.{buffered, pushed, flush_locked-true}
use cascade_search_engine.Nrt.Lag.Threshold.{Pass, merge_on, after_passes}

-- What the merge thread leaves to the write side: the buffer, the thresholds, and whether the pool is shut.
abbrev pub writes : {Index : Type 0} → NrtIndex Index → List Document × (ℕ × (ℕ × Bool))
writes s = (s.buffer, (s.flush_threshold_docs, (s.flush_interval_s, s.closed)))

module _ {Index : Type 0} where
  writes-maybe_schedule_merge : (s : NrtIndex Index) → writes (maybe_schedule_merge s).1 ≡ writes s
  unfolding maybe_schedule_merge submit
  writes-maybe_schedule_merge s = ground arith

  -- While the pool is open, scheduling does not raise.
  maybe_schedule_merge-open :
      (s : NrtIndex Index) → s.closed ≡ false → (maybe_schedule_merge s).0 ≡ returned
  unfolding maybe_schedule_merge submit
  maybe_schedule_merge-open s h = ground arith

  writes-after_swap :
      (result : Outcome × NrtIndex Index) → writes (after_swap result.0 result.1) ≡ writes result.1
  unfolding after_swap
  writes-after_swap (returned, s) = refl
  writes-after_swap (raised, s) = refl

module _ {Index Score : Type 0} (engine : Engine Index Score) where
  writes-build_merged :
      (succeeds : Bool) (job : Job Index) (s : NrtIndex Index)
      → writes (build_merged engine succeeds job s) ≡ writes s
  unfolding build_merged build_segment
  writes-build_merged succeeds job s = ground arith

  writes-start_job :
      (succeeds : Bool) (jobs : List (Job Index)) (s : NrtIndex Index)
      → writes (start_job engine succeeds jobs s) ≡ writes s
  unfolding start_job
  writes-start_job succeeds [] s = refl
  writes-start_job succeeds (job ∷ rest) s =
      writes-build_merged succeeds job (record s { merge_queue = rest })

  writes-advance :
      (succeeds : Bool) (w : Worker Index) (s : NrtIndex Index)
      → writes (advance engine succeeds w s) ≡ writes s
  unfolding advance swap_in give_up clean_up
  writes-advance succeeds Worker.idle s = writes-start_job succeeds s.merge_queue s
  writes-advance succeeds (Worker.built chosen merged) s =
      writes-after_swap (maybe_schedule_merge _) ∙ writes-maybe_schedule_merge _
  writes-advance succeeds Worker.failed s = refl
  writes-advance succeeds (Worker.swapped chosen) s = refl

  pub writes-merge_on :
      (pieces : List Bool) (s : NrtIndex Index) → writes (merge_on engine pieces s) ≡ writes s
  unfolding merge_on
  writes-merge_on [] s = refl
  writes-merge_on (succeeds ∷ pieces) s =
      writes-merge_on pieces (advance engine succeeds s.worker s)
      ∙ writes-advance succeeds s.worker s

  pub writes-after_passes :
      (passes : List Pass) (s : NrtIndex Index) → writes (after_passes engine passes s) ≡ writes s
  unfolding after_passes
  writes-after_passes [] s = refl
  writes-after_passes ((found_at, pieces) ∷ passes) s =
      writes-after_passes passes (merge_on engine pieces s) ∙ writes-merge_on pieces s

  -- `add` on an open index, if its build succeeds and the interval is not over: it returns, and the buffer holds
  -- the document too, or is flushed once it is as long as the threshold.
  pub writes-add :
      (document : Document) (now : ℕ) (succeeds : Bool) (after : ℕ) (s : NrtIndex Index)
      → succeeds ≡ true
      → s.closed ≡ false
      → now < s.flush_interval_s
      → let (outcome, t) = add engine document now succeeds after s in
        (outcome ≡ returned)
        × (writes t ≡ (
          if leb s.flush_threshold_docs (suc (length s.buffer))
              then []
              else s.buffer ++ document ∷ [],
          (s.flush_threshold_docs, (s.flush_interval_s, s.closed)),
        ))
  unfolding add
  writes-add document now false after s h running early = absurd (cc h)
  writes-add document now true after s h running early =
      let full = buffered engine document s in
      let grown : length full.buffer ≡ suc (length s.buffer) =
        length-append s.buffer (document ∷ []) ∙ omega arith in
      elim (Bool-cases (leb s.flush_threshold_docs (suc (length s.buffer)))) [
        | inl reached ↦
            let due : should_flush full now ≡ true = rw (grown, reached) refl in
            let flushes = flush_locked-true engine after full (omega (arith, grown)) in
            rw (due, flushes, reached)
              (
                maybe_schedule_merge-open (pushed engine after full) running,
                writes-maybe_schedule_merge (pushed engine after full),
              )
        | inr room ↦
            let soon : leb s.flush_interval_s (now - s.last_flush_time) ≡ false = ground arith in
            let due : should_flush full now ≡ false = rw (grown, room, soon) refl in
            rw (due, room) (refl, refl)
      ]

  -- A flush of an open index whose build succeeds returns, and nothing is left in the buffer.
  pub writes-flush_locked :
      (succeeds : Bool) (after : ℕ) (s : NrtIndex Index)
      → succeeds ≡ true
      → s.closed ≡ false
      → let (outcome, t) = flush_locked engine succeeds after s in
        (outcome ≡ returned)
        × (writes t ≡ ([], (s.flush_threshold_docs, (s.flush_interval_s, s.closed))))
  unfolding flush_locked
  writes-flush_locked false after s h running = absurd (cc h)
  writes-flush_locked true after s h running = elim (List-cases s.buffer) [
    | inl nothing ↦ rw nothing (refl, refl)
    | inr (d, ds, something) ↦
        let flushes = flush_locked-true engine after s (omega (arith, ap length something)) in
        (
          ap (λ r. r.0) flushes ∙ maybe_schedule_merge-open (pushed engine after s) running,
          ap (λ r. writes r.1) flushes ∙ writes-maybe_schedule_merge (pushed engine after s),
        )
  ]
