-- ===== src/Nrt/Index/Deletes.antt =====
-- py/nrt/index.py, `delete`: a tombstone holds for every later search, whatever is flushed or merged.
use Prim.Native.String.{String}
use mathlib.Core.Path.{subst}
use cascade_search_engine.Prelude.{
  ℕ, ◌+◌, Bool, true, not, List, [], ◌∷◌, map, ◌≡◌, ◌≢◌, refl, ◌∙◌, arith, inl, inr, concat,
  keep_if, length, All, All-take, All-append, All-imp, Bool-cases,
}
use cascade_search_engine.Prelude.Keys.{Order, string_eq, is_in, beq_refl}
use cascade_search_engine.Sort.{descending}
use cascade_search_engine.Sort.Laws.{All-sort}
use cascade_search_engine.Nrt.Engine.{Algorithm, Hit, external_id, score_of, Engine}
use cascade_search_engine.Nrt.Segment
use cascade_search_engine.Nrt.Segment.Top.{search_lem}
use cascade_search_engine.Nrt.Tsv.{Document}
use cascade_search_engine.Nrt.Merge.Flush.{buffered, add_cases}
use cascade_search_engine.Nrt.Segment.{SegmentSet, is_live, dispatch}
use cascade_search_engine.Nrt.Index.{
  Job, NrtIndex, Outcome, Worker, returned, raised, maybe_schedule_merge, flush_locked, add, delete,
  close, search,
}
use cascade_search_engine.Nrt.Merge.{
  advance, after_swap, swap_in, give_up, clean_up, start_job, Event, add_document, flush_buffer,
  delete_document, close_index, merge_thread, step, run,
}

All-keep_if_self {ℓ} :
    {A : Type ℓ} (p : A → Bool) (xs : List A) → All (λ x. p x ≡ true) (keep_if p xs)
All-keep_if_self p [] = tt
All-keep_if_self p (x ∷ xs) = elim (Bool-cases (p x)) [
  | inl e ↦ rw e (e, All-keep_if_self p xs)
  | inr e ↦ rw e (All-keep_if_self p xs)
]

live_only :
    {Score : Type 0} (tombstones : List String) (hits : List (List (Hit Score)))
    → All (λ h. is_live tombstones h ≡ true) (concat (map (keep_if (is_live tombstones)) hits))
live_only tombstones [] = tt
live_only tombstones (hs ∷ hits) =
    All-append _ (keep_if (is_live tombstones) hs) _ (All-keep_if_self (is_live tombstones) hs)
      (live_only tombstones hits)

module _ {Index Score : Type 0} ⦃o : Order Score⦄ (engine : Engine Index Score) where
  -- A search returns no tombstoned document.
  search-live :
      (set : SegmentSet Index) (query : String) (k : ℕ) (algorithm : Algorithm)
      → All (λ h. is_live set.tombstones h ≡ true) (Segment.search engine set query k algorithm)
  search-live set query k algorithm = rw (search_lem engine set query k algorithm) (
      All-take _ k _ (
        All-sort (descending score_of) _ _ (
          live_only {Score = Score} set.tombstones (
            map (λ s. engine.search s.index query (k + length set.tombstones) algorithm)
              set.segments))))

module _ {Index Score : Type 0} (engine : Engine Index Score) where
  tombstones-maybe_schedule_merge :
      (s : NrtIndex Index) → (maybe_schedule_merge s).1.tombstones ≡ s.tombstones
  unfolding maybe_schedule_merge
  tombstones-maybe_schedule_merge s = ground arith

  tombstones-flush_locked :
      (succeeds : Bool) (after : ℕ) (s : NrtIndex Index)
      → (flush_locked engine succeeds after s).1.tombstones ≡ s.tombstones
  unfolding flush_locked
  tombstones-flush_locked succeeds after s = ground arith

  tombstones-add :
      (document : Document) (now : ℕ) (succeeds : Bool) (after : ℕ) (s : NrtIndex Index)
      → (add engine document now succeeds after s).1.tombstones ≡ s.tombstones
  tombstones-add document now succeeds after s =
      elim (add_cases engine document now succeeds after s) [
        | inl kept ↦ rw kept refl
        | inr flushed ↦
            rw flushed (tombstones-flush_locked succeeds after (buffered engine document s))
      ]

  tombstones-after_swap :
      (outcome : Outcome) (s : NrtIndex Index) → (after_swap outcome s).tombstones ≡ s.tombstones
  unfolding after_swap
  tombstones-after_swap returned s = refl
  tombstones-after_swap raised s = refl

  tombstones-start_job :
      (succeeds : Bool) (queue : List (Job Index)) (s : NrtIndex Index)
      → (start_job engine succeeds queue s).tombstones ≡ s.tombstones
  unfolding start_job
  tombstones-start_job succeeds [] s = refl
  tombstones-start_job succeeds (job ∷ rest) s = ground arith

  tombstones-advance :
      (succeeds : Bool) (w : Worker Index) (s : NrtIndex Index)
      → (advance engine succeeds w s).tombstones ≡ s.tombstones
  unfolding advance
  tombstones-advance succeeds Worker.idle s = tombstones-start_job succeeds s.merge_queue s
  tombstones-advance succeeds (Worker.built chosen m) s =
      unfold swap_in in tombstones-after_swap _ _ ∙ tombstones-maybe_schedule_merge _
  tombstones-advance succeeds Worker.failed s = unfold give_up in refl
  tombstones-advance succeeds (Worker.swapped chosen) s = unfold clean_up in refl

  step-tombstoned :
      (eid : String) (event : Event) (s : NrtIndex Index)
      → is_in eid s.tombstones ≡ true
      → is_in eid (step engine event s).tombstones ≡ true
  unfolding step
  step-tombstoned eid (add_document document now succeeds after) s h =
      rw (tombstones-add document now succeeds after s) h
  step-tombstoned eid (flush_buffer succeeds after) s h =
      rw (tombstones-flush_locked succeeds after s) h
  step-tombstoned eid (delete_document other) s h = unfold delete in ground arith
  step-tombstoned eid close_index s h = unfold close in h
  step-tombstoned eid (merge_thread succeeds) s h = rw (tombstones-advance succeeds s.worker s) h

  run-tombstoned :
      (eid : String) (events : List Event) (s : NrtIndex Index)
      → is_in eid s.tombstones ≡ true
      → is_in eid (run engine events s).tombstones ≡ true
  unfolding run
  run-tombstoned eid [] s h = h
  run-tombstoned eid (event ∷ events) s h =
      run-tombstoned eid events (step engine event s) (step-tombstoned eid event s h)

delete-tombstoned :
    {Index : Type 0} (eid : String) (s : NrtIndex Index)
    → is_in eid (delete eid s).tombstones ≡ true
unfolding delete
delete-tombstoned eid s = ground (arith, beq_refl eid)

live-ne :
    {Score : Type 0} (eid : String) (tombstones : List String)
    → is_in eid tombstones ≡ true
    → (h : Hit Score) → is_live tombstones h ≡ true
    → external_id h ≢ eid
live-ne eid tombstones dead h live e =
    let still : not (is_in eid tombstones) ≡ true =
      subst (λ name. not (is_in name tombstones) ≡ true) e live in
    cc

-- After delete(external_id) on any state, no search of a later state returns that id: not after any adds of
-- the same id, flushes, merges or failures, in any order.
pub delete-search :
    {Index Score : Type 0} ⦃o : Order Score⦄ (engine : Engine Index Score) (eid : String)
    (events : List Event) (s : NrtIndex Index) (query : String) (k : ℕ) (algorithm : Algorithm)
    → All
        (λ h. external_id h ≢ eid)
        (search engine (run engine events (delete eid s)) query k algorithm)
unfolding search
delete-search engine eid events s query k algorithm =
    let t = run engine events (delete eid s) in
    All-imp _ _
      (live-ne eid t.tombstones
        (run-tombstoned engine eid events (delete eid s) (delete-tombstoned eid s)))
      _
      (search-live engine (record { segments = t.segments; tombstones = t.tombstones }) query k
        algorithm)
