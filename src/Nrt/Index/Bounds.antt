-- ===== src/Nrt/Index/Bounds.antt =====
-- py/nrt/index.py, `add`: the buffer stays below its threshold.
use cascade_search_engine.Prelude.{
  ℕ, ◌≤◌, ◌<◌, Bool, false, [], ◌≡◌, inl, inr, arith, length, Bool-cases,
}
use cascade_search_engine.Nrt.Engine.{Engine}
use cascade_search_engine.Nrt.Tsv.{Document}
use cascade_search_engine.Nrt.Index.{NrtIndex, returned, flush_locked, should_flush, add}
use cascade_search_engine.Nrt.Merge.Schedule.{maybe_schedule_merge_keeps}
use cascade_search_engine.Nrt.Merge.Flush.{buffered, pushed, flush_locked_cases}

module _ {Index Score : Type 0} (engine : Engine Index Score) where
  buffer-flush_locked :
      (succeeds : Bool) (after : ℕ) (s : NrtIndex Index)
      → (flush_locked engine succeeds after s).0 ≡ returned
      → (flush_locked engine succeeds after s).1.buffer ≡ []
  buffer-flush_locked succeeds after s h = elim (flush_locked_cases engine succeeds after s) [
    | inl (empty, nothing) ↦ rw nothing empty
    | inr (inl failed) ↦ cc
    | inr (inr done) ↦ rw done (maybe_schedule_merge_keeps (pushed engine after s)).1
  ]

  buffer-buffered :
      (document : Document) (now : ℕ) (s : NrtIndex Index)
      → should_flush (buffered engine document s) now ≡ false
      → length (buffered engine document s).buffer < s.flush_threshold_docs
  buffer-buffered document now s h = ground arith

  -- With a flush threshold of at least 1, an add that returns leaves fewer documents in the buffer than the
  -- threshold.
  pub add-buffer-lt :
      (document : Document) (now : ℕ) (succeeds : Bool) (after : ℕ) (s : NrtIndex Index)
      → 1 ≤ s.flush_threshold_docs
      → (add engine document now succeeds after s).0 ≡ returned
      → length (add engine document now succeeds after s).1.buffer < s.flush_threshold_docs
  unfolding add
  add-buffer-lt document now succeeds after s h ok =
      elim (Bool-cases (should_flush (buffered engine document s) now)) [
        | inl full ↦
            let returns : (flush_locked engine succeeds after (buffered engine document s)).0
                ≡ returned =
              rw full at ok in
            rw full (rw (buffer-flush_locked succeeds after (buffered engine document s) returns) h)
        | inr room ↦ rw room (buffer-buffered document now s room)
      ]
