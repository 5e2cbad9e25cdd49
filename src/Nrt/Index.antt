-- ===== src/Nrt/Index.antt =====
-- py/nrt/index.py: the write side. A method that holds the lock is one function on the state; the merge
-- thread is the pieces between its lock acquisitions.
pub mod Bounds
pub mod Deletes
use Prim.Native.String.{String}
use cascade_search_engine.Prelude.{
  ℕ, suc, ◌+◌, ◌-◌, Bool, true, false, not, ◌||◌, Option, none, some, List, [], ◌∷◌, ◌++◌, map, leb,
  if◌then◌else◌, length, keep_if,
}
use cascade_search_engine.Prelude.Keys.{Eq, ◌==◌, Order, nat_eq, string_eq, is_in}
use cascade_search_engine.Nrt.Engine.{Algorithm, Hit, Engine}
use cascade_search_engine.Nrt.Segment
use cascade_search_engine.Nrt.Segment.{
  Segment, SegmentSet, SourcePath, numbered, external, build_segment,
}
use cascade_search_engine.Nrt.MergePolicy.{TieredMergePolicy, maybe_merge}
use cascade_search_engine.Nrt.Tsv.{Document, tsv}
use cascade_search_engine.Nrt.Files.{Files, write}

pub record Job (Index : Type 0) : Type 0 where
  pub chosen : List (Segment Index)
  pub merge_id : ℕ

-- Where the merge thread stands in `_run_merge`.
pub data Worker (Index : Type 0) : Type 0 where
  -- no job is running
  idle : Worker Index
  -- the merged segment is built, and the lock is not yet taken
  built : List (Segment Index) → Segment Index → Worker Index
  -- the build raised, and the handler has not yet taken the lock
  failed : Worker Index
  -- the merged segment is in, and the sources are not yet deleted
  swapped : List (Segment Index) → Worker Index

-- `files` is what is on disk of the source texts, and `merge_queue` what `_merge_pool` holds.
pub record NrtIndex (Index : Type 0) : Type 0 where
  pub flush_threshold_docs : ℕ
  pub flush_interval_s : ℕ
  pub merge_policy : Option TieredMergePolicy
  pub merge_in_progress : Bool
  pub segments : List (Segment Index)
  pub tombstones : List String
  pub buffer : List Document
  pub next_segment_id : ℕ
  pub last_flush_time : ℕ
  pub files : Files
  pub merge_queue : List (Job Index)
  pub worker : Worker Index
  pub next_identity : ℕ
  pub closed : Bool

-- How a call ends: an exception leaves what was written before it.
pub data Outcome : Type 0 where
  returned raised : Outcome

module _ {Index : Type 0} where
  -- `__init__`
  unfoldable pub init :
      ℕ → ℕ → Option TieredMergePolicy → List (Segment Index) → ℕ → Files → ℕ → NrtIndex Index
  init flush_threshold_docs flush_interval_s merge_policy initial_segments now files next_identity =
      record {
        flush_threshold_docs = flush_threshold_docs;
        flush_interval_s = flush_interval_s;
        merge_policy = merge_policy;
        merge_in_progress = false;
        segments = initial_segments;
        tombstones = [];
        buffer = [];
        next_segment_id = length initial_segments;
        last_flush_time = now;
        files = files;
        merge_queue = [];
        worker = Worker.idle;
        next_identity = next_identity;
        closed = false;
      }

  -- `_merge_pool.submit` raises once the pool is shut down.
  unfoldable pub submit : List (Segment Index) → NrtIndex Index → Outcome × NrtIndex Index
  submit plan s =
      let merge_id = s.next_segment_id in
      let reserved = record s { merge_in_progress = true; next_segment_id = suc merge_id } in
      if s.closed then (raised, reserved) else (
        returned,
        record reserved {
          merge_queue = s.merge_queue ++ record { chosen = plan; merge_id = merge_id } ∷ [];
        },
      )

  -- `_maybe_schedule_merge_locked`
  unfoldable pub maybe_schedule_merge : NrtIndex Index → Outcome × NrtIndex Index
  unfolding submit
  maybe_schedule_merge s = elim s.merge_policy [
    | none ↦ (returned, s)
    | some policy ↦
        if s.merge_in_progress then (returned, s) else elim (maybe_merge policy s.segments) [
          | none ↦ (returned, s)
          | some plan ↦ submit plan s
        ]
  ]

  -- the test of `add`, the document being in the buffer
  abbrev pub should_flush : NrtIndex Index → ℕ → Bool
  should_flush s now =
      leb s.flush_threshold_docs (length s.buffer)
      || leb s.flush_interval_s (now - s.last_flush_time)

  -- `delete`: `set.add`
  unfoldable pub delete : String → NrtIndex Index → NrtIndex Index
  delete eid s = record s {
    tombstones = if is_in eid s.tombstones then s.tombstones else eid ∷ s.tombstones;
  }

  -- `close`: the jobs that are queued still run.
  unfoldable pub close : NrtIndex Index → NrtIndex Index
  close s = record s { closed = true }

module _ {Index Score : Type 0} (engine : Engine Index Score) where
  -- `_flush_locked`; `after` is the clock when the build is done.
  unfoldable pub flush_locked : Bool → ℕ → NrtIndex Index → Outcome × NrtIndex Index
  unfolding build_segment write maybe_schedule_merge
  flush_locked succeeds after s = elim s.buffer [
    | [] ↦ (returned, s)
    | _ ↦
        let seg_id = s.next_segment_id in
        let text = tsv s.buffer in
        let written = record s {
          next_segment_id = suc seg_id;
          files = write (numbered seg_id) text s.files;
        } in
        elim (build_segment engine succeeds s.next_identity (numbered seg_id) text) [
          | none ↦ (raised, written)
          | some segment ↦ maybe_schedule_merge (record written {
            next_identity = suc s.next_identity;
            segments = s.segments ++ segment ∷ [];
            buffer = [];
            last_flush_time = after;
          })
        ]
  ]

  -- `add`; `now` is the clock at the test.
  unfoldable pub add : Document → ℕ → Bool → ℕ → NrtIndex Index → Outcome × NrtIndex Index
  add document now succeeds after s =
      let buffered = record s { buffer = s.buffer ++ document ∷ [] } in
      if should_flush buffered now
      then flush_locked succeeds after buffered
      else (returned, buffered)

module _ {Index Score : Type 0} ⦃o : Order Score⦄ (engine : Engine Index Score) where
  -- `search`: the segments and the tombstones are read under the lock, and searched outside it.
  unfoldable pub search : NrtIndex Index → String → ℕ → Algorithm → List (Hit Score)
  search s = Segment.search engine (record { segments = s.segments; tombstones = s.tombstones })
