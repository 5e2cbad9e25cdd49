-- ===== src/Nrt/Merge.antt =====
-- py/nrt/index.py, `_run_merge`, cut where other threads can come between: before the lock is taken and
-- after it is released. An event is one such piece, or one call of a method by a client.
pub mod Invariant
pub mod Parts
pub mod Writes
pub mod Schedule
pub mod Flush
pub mod Build
pub mod Swap
pub mod Runs
pub mod Rounds
use Prim.Native.String.{String}
use cascade_search_engine.Prelude.{
  ℕ, suc, Bool, true, false, not, Option, none, some, List, [], ◌∷◌, ◌++◌, map, keep_if,
}
use cascade_search_engine.Prelude.Keys.{nat_eq, is_in}
use cascade_search_engine.Nrt.Engine.{Engine}
use cascade_search_engine.Nrt.Segment.{Segment, SourcePath, numbered, build_segment}
use cascade_search_engine.Nrt.Tsv.{Document, join}
use cascade_search_engine.Nrt.Files.{write, unlink_all, read_all}
use cascade_search_engine.Nrt.Index.{
  Job, Worker, NrtIndex, Outcome, returned, raised, maybe_schedule_merge, flush_locked, add, delete,
  close,
}

module _ {Index : Type 0} where
  abbrev pub identities : List (Segment Index) → List ℕ
  identities = map (λ s. s.identity)

  abbrev pub sources : List (Segment Index) → List SourcePath
  sources = map (λ s. s.source_tsv)

  -- `[s for s in self._segments if id(s) not in chosen_ids]`
  abbrev pub is_other : List (Segment Index) → Segment Index → Bool
  is_other chosen s = not (is_in s.identity (identities chosen))

  -- Where scheduling raises, the sources are not deleted.
  unfoldable pub after_swap : Outcome → NrtIndex Index → NrtIndex Index
  after_swap returned s = s
  after_swap raised s = record s { worker = Worker.idle }

  -- The lock is taken, the merged segment goes in, and the next round is scheduled.
  unfoldable pub swap_in : List (Segment Index) → Segment Index → NrtIndex Index → NrtIndex Index
  swap_in chosen merged s =
      let (outcome, s') = maybe_schedule_merge (record s {
        segments = keep_if (is_other chosen) s.segments ++ merged ∷ [];
        merge_in_progress = false;
        worker = Worker.swapped chosen;
      }) in
      after_swap outcome s'

  -- The handler of a failed build.
  unfoldable pub give_up : NrtIndex Index → NrtIndex Index
  give_up s = record s { merge_in_progress = false; worker = Worker.idle }

  -- The sources of the merged segments are deleted.
  unfoldable pub clean_up : List (Segment Index) → NrtIndex Index → NrtIndex Index
  clean_up chosen s = record s { files = unlink_all (sources chosen) s.files; worker = Worker.idle }

module _ {Index Score : Type 0} (engine : Engine Index Score) where
  -- The `try` block, outside the lock. An exception in it leads to the handler.
  unfoldable pub build_merged : Bool → Job Index → NrtIndex Index → NrtIndex Index
  unfolding build_segment write
  build_merged succeeds job s = elim (read_all s.files (sources job.chosen)) [
    | none ↦ record s { worker = Worker.failed }
    | some texts ↦
        let path = numbered job.merge_id in
        let text = join texts in
        let written = record s { files = write path text s.files } in
        elim (build_segment engine succeeds s.next_identity path text) [
          | none ↦ record written { worker = Worker.failed }
          | some merged ↦ record written {
            next_identity = suc s.next_identity;
            worker = Worker.built job.chosen merged;
          }
        ]
  ]

  -- The pool's one thread takes the next job.
  unfoldable pub start_job : Bool → List (Job Index) → NrtIndex Index → NrtIndex Index
  unfolding build_merged
  start_job succeeds [] s = s
  start_job succeeds (job ∷ rest) s = build_merged succeeds job (record s { merge_queue = rest })

  -- The merge thread goes on to its next piece.
  unfoldable pub advance : Bool → Worker Index → NrtIndex Index → NrtIndex Index
  unfolding start_job swap_in give_up clean_up
  advance succeeds Worker.idle s = start_job succeeds s.merge_queue s
  advance succeeds (Worker.built chosen merged) s = swap_in chosen merged s
  advance succeeds Worker.failed s = give_up s
  advance succeeds (Worker.swapped chosen) s = clean_up chosen s

pub data Event : Type 0 where
  -- `add(external_id, text)` with the clock before and after, and whether a build in it succeeds
  add_document : Document → ℕ → Bool → ℕ → Event
  -- `flush()`
  flush_buffer : Bool → ℕ → Event
  -- `delete(external_id)`
  delete_document : String → Event
  -- `close()`
  close_index : Event
  -- the merge thread
  merge_thread : Bool → Event

module _ {Index Score : Type 0} (engine : Engine Index Score) where
  unfoldable pub step : Event → NrtIndex Index → NrtIndex Index
  step (add_document document now succeeds after) s = (add engine document now succeeds after s).1
  step (flush_buffer succeeds after) s = (flush_locked engine succeeds after s).1
  step (delete_document eid) s = delete eid s
  step close_index s = close s
  step (merge_thread succeeds) s = advance engine succeeds s.worker s

  -- Any interleaving of the clients and the merge thread.
  unfoldable pub run : List Event → NrtIndex Index → NrtIndex Index
  unfolding step
  run [] s = s
  run (event ∷ events) s = run events (step event s)

-- What the clients asked to add, in order.
unfoldable pub added : List Event → List Document
added [] = []
added (add_document document now succeeds after ∷ events) = document ∷ added events
added (_ ∷ events) = added events
