-- ===== src/Rank/Batched/Accounting.antt =====
-- Every accepted request is in one place: woken, in the batch that is scored, or in the queue.
use cascade_search_engine.Prelude.{
  ℕ, ◌≤◌, Bool, true, false, Option, none, some, List, [], ◌∷◌, ◌++◌, map-append, append-nil,
  append_assoc, ◌≡◌, refl, sym, ap, ◌∙◌, ◌⊎◌, inl, inr, arith, take, drop, length, length-take,
  length-drop, if_intro, take-append-drop, List-cases,
}
use cascade_search_engine.Rank.Batcher.{DynamicBatcher, init, flush}
use cascade_search_engine.Rank.Batcher.Batches.{
  IsOpen, nothing_waits, add-IsValid, flush-IsValid, should_flush-exact,
}
use cascade_search_engine.Rank.Batcher.Batches
use cascade_search_engine.Rank.Batched.{
  Item, Flusher, BatchedRun, Dispatched, events_of, dispatch, poll, scored, drain, flush_step,
  Event, request, late_request, flush_thread, stop_all, step, run, start,
}
use cascade_search_engine.Rank.Batched.Requests.{
  upto, IsShallow, IsShallow-less, held, IsSound, enqueue-IsSound,
}

module _ {A : Type 0} (max_batch_size : ℕ) (max_queue_depth : Option ℕ) where
  abbrev pub Sound : BatchedRun A → Type 0
  Sound = IsSound max_batch_size max_queue_depth

  -- What a flush takes and what it leaves are the queue, in order.
  flush-accepted :
      (now : ℕ) (b : DynamicBatcher (Item A))
      → events_of (flush now b).0 ++ events_of (flush now b).1.items ≡ events_of b.items
  unfolding flush
  flush-accepted now b =
      sym (
        map-append (λ (i : Item A). i.0) (take b.max_batch_size b.items)
          (drop b.max_batch_size b.items))
      ∙ ap events_of (take-append-drop b.max_batch_size b.items)

  flush-small : (now : ℕ) (b : DynamicBatcher (Item A)) → length (flush now b).0 ≤ b.max_batch_size
  unfolding flush
  flush-small now b = omega (arith, length-take b.max_batch_size b.items)

  left-le : (now : ℕ) (b : DynamicBatcher (Item A)) → length (flush now b).1.items ≤ length b.items
  unfolding flush
  left-le now b = omega (arith, length-drop b.max_batch_size b.items)

  limit-flush :
      (now : ℕ) (b : DynamicBatcher (Item A)) → (flush now b).1.max_batch_size ≡ b.max_batch_size
  unfolding flush
  limit-flush now b = refl

  -- The three ways through the flusher's test, none of which raises.
  poll_cases :
      (now : ℕ) (s : BatchedRun A)
      → Batches.IsValid s.batcher
      → (poll now s ≡ s)
        ⊎ (((flush now s.batcher).0 ≡ [])
            × (poll now s ≡ record s { batcher = (flush now s.batcher).1 }))
        ⊎ (poll now s ≡ record s {
          batcher = (flush now s.batcher).1;
          flusher = Flusher.scoring (flush now s.batcher).0;
        })
  unfolding poll
  poll_cases now s o = elim (should_flush-exact now s.batcher o) [
    | inl (due, _) ↦ elim (List-cases (flush now s.batcher).0) [
      | inl e ↦ inr (inl (e, ground arith))
      | inr (item, items, e) ↦ inr (inr (ground arith))
    ]
    | inr (early, _) ↦ inl (ground arith)
  ]

  taken-IsSound :
      (now : ℕ) (s : BatchedRun A) (flusher : Flusher A) (woken : List ℕ)
      → Sound s
      → woken ++ events_of (held flusher)
        ≡ (s.woken ++ events_of (held s.flusher)) ++ events_of (flush now s.batcher).0
      → length (held flusher) ≤ max_batch_size
      → Sound (record s { batcher = (flush now s.batcher).1; flusher = flusher; woken = woken })
  taken-IsSound now s flusher woken v e h =
      let (batch, left) = flush now s.batcher in
      record {
        opened = flush-IsValid now s.batcher;
        served =
            sym (append_assoc woken (events_of (held flusher)) (events_of left.items))
            ∙ ap (λ l. l ++ events_of left.items) e
            ∙ append_assoc (s.woken ++ events_of (held s.flusher)) (events_of batch)
                (events_of left.items)
            ∙ ap (λ l. (s.woken ++ events_of (held s.flusher)) ++ l) (flush-accepted now s.batcher)
            ∙ append_assoc s.woken (events_of (held s.flusher)) (events_of s.batcher.items)
            ∙ v.served;
        limit = limit-flush now s.batcher ∙ v.limit;
        small = h;
        depth = v.depth;
        shallow = IsShallow-less max_queue_depth _ _ (left-le now s.batcher) v.shallow;
      }

  poll-IsSound :
      (now : ℕ) (s : BatchedRun A)
      → Sound (record s { flusher = Flusher.polling })
      → Sound (poll now (record s { flusher = Flusher.polling }))
  poll-IsSound now s v =
      let t = record s { flusher = Flusher.polling } in
      elim (poll_cases now t v.opened) [
        | inl e ↦ rw e v
        | inr (inl (e, f)) ↦ rw f (
            taken-IsSound now t Flusher.polling s.woken v
              (sym (append-nil (s.woken ++ [])) ∙ ap (λ l. (s.woken ++ []) ++ events_of l) (sym e))
              v.small)
        | inr (inr f) ↦ rw f (
            taken-IsSound now t (Flusher.scoring (flush now s.batcher).0) s.woken v
              (ap (λ l. l ++ events_of (flush now s.batcher).0) (sym (append-nil s.woken)))
              (omega (arith, flush-small now s.batcher, v.limit)))
      ]

  -- The held batch is woken, and the flusher goes on elsewhere.
  woken-IsSound :
      (s : BatchedRun A) (batch : List (Item A)) (failure : Bool) (next : Flusher A)
      → held next ≡ []
      → Sound (record s { flusher = Flusher.scoring batch })
      → Sound (record s { failure = failure; woken = s.woken ++ events_of batch; flusher = next })
  woken-IsSound s batch failure next none_held v = record {
    opened = v.opened;
    served =
        rw none_held
          (append_assoc s.woken (events_of batch) (events_of s.batcher.items) ∙ v.served);
    limit = v.limit;
    small = rw none_held (omega arith);
    depth = v.depth;
    shallow = v.shallow;
  }

  -- The flusher may stop where it holds no batch.
  let_go-IsSound :
      (s : BatchedRun A) (flusher : Flusher A)
      → held flusher ≡ []
      → Sound (record s { flusher = flusher })
      → Sound (record s { flusher = Flusher.finished })
  let_go-IsSound s flusher none_held v = record {
    opened = v.opened;
    served = rw none_held at v.served;
    limit = v.limit;
    small = omega arith;
    depth = v.depth;
    shallow = v.shallow;
  }

  flush_step-IsSound :
      (now : ℕ) (succeeds : Bool) (flusher : Flusher A) (s : BatchedRun A)
      → Sound (record s { flusher = flusher })
      → Sound (flush_step now succeeds flusher (record s { flusher = flusher }))
  unfolding flush_step scored drain
  flush_step-IsSound now succeeds Flusher.polling s v =
      if_intro Sound s.stop (λ e. let_go-IsSound s Flusher.polling refl v)
        (λ e. poll-IsSound now s v)
  flush_step-IsSound now true (Flusher.scoring batch) s v =
      woken-IsSound s batch s.failure Flusher.polling refl v
  flush_step-IsSound now false (Flusher.scoring batch) s v =
      woken-IsSound s batch true Flusher.draining refl v
  flush_step-IsSound now succeeds Flusher.draining s v =
      if_intro Sound s.stop (λ e. let_go-IsSound s Flusher.draining refl v)
        (λ e.
          taken-IsSound now (record s { flusher = Flusher.draining }) Flusher.draining
            (s.woken ++ events_of (flush now s.batcher).0) v
            (append-nil _
              ∙ ap (λ l. l ++ events_of (flush now s.batcher).0) (sym (append-nil s.woken)))
            v.small)
  flush_step-IsSound now succeeds Flusher.finished s v = v

  step-IsSound : (event : Event) (s : BatchedRun A) → Sound s → Sound (step event s)
  unfolding step dispatch
  step-IsSound (request now) s v =
      if_intro (λ (r : Dispatched × BatchedRun A). Sound r.1) s.failure (λ e. v)
        (λ e. enqueue-IsSound max_batch_size max_queue_depth now s v)
  step-IsSound (late_request now) s v = enqueue-IsSound max_batch_size max_queue_depth now s v
  step-IsSound (flush_thread now succeeds) s v = flush_step-IsSound now succeeds s.flusher s v
  step-IsSound stop_all s v = record {
    opened = v.opened;
    served = v.served;
    limit = v.limit;
    small = v.small;
    depth = v.depth;
    shallow = v.shallow;
  }

  pub run-IsSound : (events : List Event) (s : BatchedRun A) → Sound s → Sound (run events s)
  unfolding run
  run-IsSound [] s v = v
  run-IsSound (event ∷ events) s v = run-IsSound events (step event s) (step-IsSound event s v)

no_queue : (depth : Option ℕ) → IsShallow depth 0
no_queue none = tt
no_queue (some depth) = omega arith

module _ {A : Type 0} where
  pub start-IsSound :
      (max_batch_size max_wait_ms : ℕ) (request_pairs : List A) (max_queue_depth : Option ℕ)
      → Sound max_batch_size max_queue_depth
          (start (init max_batch_size max_wait_ms) request_pairs max_queue_depth)
  unfolding start
  start-IsSound max_batch_size max_wait_ms request_pairs max_queue_depth = record {
    opened = nothing_waits;
    served = refl;
    limit = refl;
    small = omega arith;
    depth = refl;
    shallow = no_queue max_queue_depth;
  }

  -- In any interleaving of requests, the flusher thread and the stop, scores failing or not: the events of
  -- the woken requests, those of the batch that is scored and those in the queue are, in this order, those
  -- of all accepted requests in the order in which they came; the batch is no larger than max_batch_size,
  -- and the queue no longer than max_queue_depth, if there is one.
  pub every_request_once :
      (max_batch_size max_wait_ms : ℕ) (request_pairs : List A) (max_queue_depth : Option ℕ)
      (events : List Event)
      → let s =
          run events (start (init max_batch_size max_wait_ms) request_pairs max_queue_depth) in
        (s.woken ++ (events_of (held s.flusher) ++ events_of s.batcher.items) ≡ upto s.next_index)
        × (length (held s.flusher) ≤ max_batch_size)
        × IsShallow max_queue_depth (length s.batcher.items)
  every_request_once max_batch_size max_wait_ms request_pairs max_queue_depth events =
      let v =
        run-IsSound max_batch_size max_queue_depth events _
          (start-IsSound max_batch_size max_wait_ms request_pairs max_queue_depth) in
      (v.served, v.small, v.shallow)
