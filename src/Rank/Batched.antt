-- ===== src/Rank/Batched.antt =====
-- py/rank/crossencoder_harness.py, `_run_batched_open_loop`: the threads that dispatch requests and the flusher
-- thread that scores them in batches. A step is what a thread does between two points where others can come in.
pub mod Requests
pub mod Accounting
pub mod Draining
use cascade_search_engine.Prelude.{
  ℕ, suc, ◌+◌, ◌%◌, Bool, true, false, Option, none, some, List, [], ◌∷◌, ◌++◌, map, length, leb,
  get_elem?, if◌then◌else◌,
}
use cascade_search_engine.Rank.Batcher.{DynamicBatcher, add, should_flush, flush}

-- A batched item: the request's event, known by a number, and its pair.
abbrev pub Item : Type 0 → Type 0
Item A = ℕ × A

-- Where the flusher thread stands: in its loop, in `session.score(...)`, in the loop after a failure, or done.
pub data Flusher (A : Type 0) : Type 0 where
  polling : Flusher A
  scoring : List (Item A) → Flusher A
  draining : Flusher A
  finished : Flusher A

-- `woken` has the events that are set, in order.
pub record BatchedRun (A : Type 0) : Type 0 where
  pub batcher : DynamicBatcher (Item A)
  pub request_pairs : List A
  pub max_queue_depth : Option ℕ
  pub shed : ℕ
  pub next_index : ℕ
  pub failure : Bool
  pub stop : Bool
  pub flusher : Flusher A
  pub woken : List ℕ

-- How the part of `dispatch` before `event.wait()` ends: waiting for its event, or raising.
pub data Dispatched : Type 0 where
  waits : ℕ → Dispatched
  queue_full : Dispatched
  scorer_failed : Dispatched
  no_pair : Dispatched

module _ {A : Type 0} where
  abbrev pub events_of : List (Item A) → List ℕ
  events_of = map (λ item. item.0)

  -- `max_queue_depth is not None and len(batcher) >= max_queue_depth`
  abbrev pub is_full : BatchedRun A → Bool
  is_full s = elim s.max_queue_depth [
    | none ↦ false
    | some depth ↦ leb depth (length s.batcher.items)
  ]

  -- What `dispatch` does under the lock. `request_pairs[i % 0]` raises.
  unfoldable pub enqueue : ℕ → BatchedRun A → Dispatched × BatchedRun A
  unfolding add
  enqueue now s =
      if is_full s
      then (queue_full, record s { shed = suc s.shed })
      else elim (get_elem? s.request_pairs (s.next_index % length s.request_pairs)) [
        | none ↦ (no_pair, s)
        | some pair ↦ (
          waits s.next_index,
          record s {
            batcher = add (s.next_index, pair) now s.batcher;
            next_index = suc s.next_index;
          },
        )
      ]

  -- `dispatch` up to its wait
  unfoldable pub dispatch : ℕ → BatchedRun A → Dispatched × BatchedRun A
  unfolding enqueue
  dispatch now s = if s.failure then (scorer_failed, s) else enqueue now s

  -- `batcher.flush() if batcher.should_flush() else None`, and an empty batch is none.
  unfoldable pub poll : ℕ → BatchedRun A → BatchedRun A
  unfolding should_flush flush
  poll now s = elim (should_flush now s.batcher) [
    | none ↦ record s { flusher = Flusher.finished }
    | some due ↦
        if due
        then (let (batch, left) = flush now s.batcher in
            elim batch [
              | [] ↦ record s { batcher = left }
              | item ∷ items ↦ record s { batcher = left; flusher = Flusher.scoring (item ∷ items) }
            ])
        else s
  ]

  -- The scores are there, or `score` raised: the batch's requests are woken either way.
  unfoldable pub scored : Bool → List (Item A) → BatchedRun A → BatchedRun A
  scored succeeds batch s = record s {
    failure = if succeeds then s.failure else true;
    woken = s.woken ++ events_of batch;
    flusher = if succeeds then Flusher.polling else Flusher.draining;
  }

  -- One turn of the loop after a failure.
  unfoldable pub drain : ℕ → BatchedRun A → BatchedRun A
  unfolding flush
  drain now s =
      let (orphans, left) = flush now s.batcher in
      record s { batcher = left; woken = s.woken ++ events_of orphans }

  -- The flusher thread goes on.
  unfoldable pub flush_step : ℕ → Bool → Flusher A → BatchedRun A → BatchedRun A
  unfolding poll scored drain
  flush_step now succeeds Flusher.polling s =
      if s.stop then record s { flusher = Flusher.finished } else poll now s
  flush_step now succeeds (Flusher.scoring batch) s = scored succeeds batch s
  flush_step now succeeds Flusher.draining s =
      if s.stop then record s { flusher = Flusher.finished } else drain now s
  flush_step now succeeds Flusher.finished s = s

pub data Event : Type 0 where
  -- a request, at this time
  request : ℕ → Event
  -- a request that looked for a failure before there was one, and takes the lock only now
  late_request : ℕ → Event
  -- the flusher thread, at this time; whether a score in it succeeds
  flush_thread : ℕ → Bool → Event
  -- `stop.set()`
  stop_all : Event

module _ {A : Type 0} where
  unfoldable pub step : Event → BatchedRun A → BatchedRun A
  unfolding dispatch enqueue flush_step
  step (request now) s = (dispatch now s).1
  step (late_request now) s = (enqueue now s).1
  step (flush_thread now succeeds) s = flush_step now succeeds s.flusher s
  step stop_all s = record s { stop = true }

  unfoldable pub run : List Event → BatchedRun A → BatchedRun A
  unfolding step
  run [] s = s
  run (event ∷ events) s = run events (step event s)

  -- The state in which `_run_batched_open_loop` starts its flusher.
  unfoldable pub start : DynamicBatcher (Item A) → List A → Option ℕ → BatchedRun A
  start batcher request_pairs max_queue_depth = record {
    batcher = batcher;
    request_pairs = request_pairs;
    max_queue_depth = max_queue_depth;
    shed = 0;
    next_index = 0;
    failure = false;
    stop = false;
    flusher = Flusher.polling;
    woken = [];
  }
