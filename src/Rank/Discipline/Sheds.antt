-- ===== src/Rank/Discipline/Sheds.antt =====
-- Without a failure, the requests that raise are those that are shed.
use mathlib.Core.Path.{subst}
use cascade_search_engine.Prelude.{
  ℕ, zero, suc, ◌+◌, ◌<◌, ◌%◌, Bool, true, false, Option, none, some, List, [], ◌∷◌, length,
  get_elem?, ◌≡◌, refl, sym, ap, ◌∙◌, inl, inr, arith, Bool-cases, Option-cases, List-cases,
  if_intro, leb, if◌then◌else◌, count_if,
}
use cascade_search_engine.Rank.Batcher.{should_flush, flush}
use cascade_search_engine.Rank.Batched.{
  Flusher, BatchedRun, Dispatched, waits, scorer_failed, Event, request, late_request, flush_thread,
  stop_all, dispatch, enqueue, is_full, poll, scored, drain, flush_step, step, run,
}

-- whether the part of a request before its wait ends with an exception
abbrev pub raises : Dispatched → Bool
raises (waits _) = false
raises _ = true

-- 1 for an exception
abbrev pub one_if : Bool → ℕ
one_if b = if b then 1 else 0

-- how many requests raised
abbrev pub raised : List Bool → ℕ
raised = count_if (λ b. b)

raised-cons : (b : Bool) (bs : List Bool) → raised (b ∷ bs) ≡ one_if b + raised bs
raised-cons true bs = omega arith
raised-cons false bs = omega arith

get_elem?-lt {ℓ} :
    {A : Type ℓ} (xs : List A) (i : ℕ) → i < length xs → (x : A) × (get_elem? xs i ≡ some x)
get_elem?-lt [] i h = absurd (omega arith)
get_elem?-lt (x ∷ xs) zero h = (x, refl)
get_elem?-lt (x ∷ xs) (suc i) h = get_elem?-lt xs i (omega arith)

module _ {A : Type 0} where
  -- the requests of the events, each with whether it raised
  abbrev pub outcomes : List Event → BatchedRun A → List Bool
  outcomes [] s = []
  outcomes (request now ∷ events) s = raises (dispatch now s).0 ∷ outcomes events (dispatch now s).1
  outcomes (late_request now ∷ events) s =
      raises (enqueue now s).0 ∷ outcomes events (enqueue now s).1
  outcomes (flush_thread now succeeds ∷ events) s =
      outcomes events (step (flush_thread now succeeds) s)
  outcomes (stop_all ∷ events) s = outcomes events (step stop_all s)

  -- What a step of the flusher or a request leaves alone. A failure stays.
  pub record Keeps (s t : BatchedRun A) (sheds : ℕ) : Type 0 where
    pub pairs : t.request_pairs ≡ s.request_pairs
    pub depth : t.max_queue_depth ≡ s.max_queue_depth
    pub counted : t.shed ≡ s.shed + sheds
    pub failed : t.failure ≡ false → s.failure ≡ false

  refl-Keeps : (s : BatchedRun A) → Keeps s s 0
  refl-Keeps s = record { pairs = refl; depth = refl; counted = omega arith; failed = λ h. h }

  poll-Keeps : (now : ℕ) (s : BatchedRun A) → Keeps s (poll now s) 0
  unfolding poll
  poll-Keeps now s = elim (Option-cases (should_flush now s.batcher)) [
    | inl e ↦
        rw (e, poll) (record { pairs = refl; depth = refl; counted = omega arith; failed = λ h. h })
    | inr (due, e) ↦
        rw (e, poll)
          (if_intro (λ t. Keeps s t 0) due
            (λ _. elim (List-cases (flush now s.batcher).0) [
              | inl none_due ↦
                  rw none_due
                    (record { pairs = refl; depth = refl; counted = omega arith; failed = λ h. h })
              | inr (item, items, some_due) ↦
                  rw some_due
                    (record { pairs = refl; depth = refl; counted = omega arith; failed = λ h. h })
            ])
            (λ _. refl-Keeps s))
  ]

  flush_step-Keeps :
      (now : ℕ) (succeeds : Bool) (flusher : Flusher A) (s : BatchedRun A)
      → Keeps s (flush_step now succeeds flusher s) 0
  unfolding flush_step scored drain
  flush_step-Keeps now succeeds Flusher.polling s =
      if_intro (λ t. Keeps s t 0) s.stop
        (λ _. record { pairs = refl; depth = refl; counted = omega arith; failed = λ h. h })
        (λ _. poll-Keeps now s)
  flush_step-Keeps now true (Flusher.scoring batch) s = record {
    pairs = refl;
    depth = refl;
    counted = omega arith;
    failed = λ h. h;
  }
  flush_step-Keeps now false (Flusher.scoring batch) s = record {
    pairs = refl;
    depth = refl;
    counted = omega arith;
    failed = λ h. absurd (cc h);
  }
  flush_step-Keeps now succeeds Flusher.draining s =
      if_intro (λ t. Keeps s t 0) s.stop
        (λ _. record { pairs = refl; depth = refl; counted = omega arith; failed = λ h. h })
        (λ _. record { pairs = refl; depth = refl; counted = omega arith; failed = λ h. h })
  flush_step-Keeps now succeeds Flusher.finished s = refl-Keeps s

  -- the round robin finds a pair
  pair_found :
      (i : ℕ) (pairs : List A)
      → 0 < length pairs
      → (pair : A) × (get_elem? pairs (i % length pairs) ≡ some pair)
  pair_found i pairs h = get_elem?-lt pairs (i % length pairs) (grind arith)

  enqueue-Keeps :
      (now : ℕ) (s : BatchedRun A)
      → 0 < length s.request_pairs
      → Keeps s (enqueue now s).1 (one_if (raises (enqueue now s).0))
  unfolding enqueue
  enqueue-Keeps now s h =
      let (pair, found) = pair_found s.next_index s.request_pairs h in
      if_intro (λ (r : Dispatched × BatchedRun A). Keeps s r.1 (one_if (raises r.0))) (is_full s)
        (λ _. record { pairs = refl; depth = refl; counted = omega arith; failed = λ k. k })
        (λ _.
          rw found (record { pairs = refl; depth = refl; counted = omega arith; failed = λ k. k }))

  dispatch_working :
      (now : ℕ) (s : BatchedRun A) → s.failure ≡ false → dispatch now s ≡ enqueue now s
  unfolding dispatch
  dispatch_working now s h = ap (λ b. if b then (scorer_failed, s) else enqueue now s) h

  -- Over a run that does not fail, what was shed grows by the requests that raised.
  abbrev pub Sheds : List Event → BatchedRun A → Type 0
  Sheds events s = (s.failure ≡ false) × ((run events s).shed ≡ s.shed + raised (outcomes events s))

  pub run-Sheds :
      (events : List Event) (s : BatchedRun A)
      → 0 < length s.request_pairs
      → (run events s).failure ≡ false
      → Sheds events s
  unfolding run step dispatch
  run-Sheds [] s h k = (k, omega arith)
  run-Sheds (request now ∷ events) s h k = elim (Bool-cases s.failure) [
    | inl bad ↦
        let e = ap (λ b. if b then (scorer_failed, s) else enqueue now s) bad in
        let (working, _) =
          run-Sheds events s h (subst (λ d. (run events d.1).failure ≡ false) e k) in
        absurd (cc (sym bad ∙ working))
    | inr good ↦
        let e = dispatch_working now s good in
        let kept = enqueue-Keeps now s h in
        let (_, sum) =
          run-Sheds events (enqueue now s).1 (rw kept.pairs h)
            (subst (λ d. (run events d.1).failure ≡ false) e k) in
        (
          good,
          subst (λ d. (run events d.1).shed ≡ s.shed + raised (raises d.0 ∷ outcomes events d.1))
              (sym e)
              (omega (
                arith,
                sum,
                kept.counted,
                raised-cons (raises (enqueue now s).0) (outcomes events (enqueue now s).1),
              )),
        )
  ]
  run-Sheds (late_request now ∷ events) s h k =
      let kept = enqueue-Keeps now s h in
      let (working, sum) = run-Sheds events (enqueue now s).1 (rw kept.pairs h) k in
      (
        kept.failed working,
        omega (
          arith,
          sum,
          kept.counted,
          raised-cons (raises (enqueue now s).0) (outcomes events (enqueue now s).1),
        ),
      )
  run-Sheds (flush_thread now succeeds ∷ events) s h k =
      let kept = flush_step-Keeps now succeeds s.flusher s in
      let (working, sum) =
        run-Sheds events (flush_step now succeeds s.flusher s) (rw kept.pairs h) k in
      (kept.failed working, omega (arith, sum, kept.counted))
  run-Sheds (stop_all ∷ events) s h k = run-Sheds events (record s { stop = true }) h k

  -- Without a limit on the queue no request raises.
  enqueue_unbounded :
      (now : ℕ) (s : BatchedRun A)
      → 0 < length s.request_pairs
      → s.max_queue_depth ≡ none
      → raises (enqueue now s).0 ≡ false
  unfolding enqueue
  enqueue_unbounded now s h open_end =
      let (pair, found) = pair_found s.next_index s.request_pairs h in
      let room : is_full s ≡ false =
        ap
          (λ (d : Option ℕ). elim d [
            | none ↦ false
            | some depth ↦ leb depth (length s.batcher.items)
          ])
          open_end in
      if_intro (λ (r : Dispatched × BatchedRun A). raises r.0 ≡ false) (is_full s)
        (λ full. absurd (cc (sym full ∙ room))) (λ _. rw found refl)

  pub run_unbounded :
      (events : List Event) (s : BatchedRun A)
      → 0 < length s.request_pairs
      → s.max_queue_depth ≡ none
      → (run events s).failure ≡ false
      → raised (outcomes events s) ≡ 0
  unfolding run step
  run_unbounded [] s h open_end k = refl
  run_unbounded (request now ∷ events) s h open_end k =
      let e = dispatch_working now s (run-Sheds (request now ∷ events) s h k).0 in
      let kept = enqueue-Keeps now s h in
      subst (λ d. raised (raises d.0 ∷ outcomes events d.1) ≡ 0) (sym e)
        (raised-cons (raises (enqueue now s).0) (outcomes events (enqueue now s).1)
          ∙ ap (λ b. one_if b + raised (outcomes events (enqueue now s).1))
              (enqueue_unbounded now s h open_end)
          ∙ omega (
            arith,
            run_unbounded events (enqueue now s).1 (rw kept.pairs h) (kept.depth ∙ open_end)
                (subst (λ d. (run events d.1).failure ≡ false) e k),
          ))
  run_unbounded (late_request now ∷ events) s h open_end k =
      let kept = enqueue-Keeps now s h in
      raised-cons (raises (enqueue now s).0) (outcomes events (enqueue now s).1)
      ∙ ap (λ b. one_if b + raised (outcomes events (enqueue now s).1))
          (enqueue_unbounded now s h open_end)
      ∙ omega (
        arith,
        run_unbounded events (enqueue now s).1 (rw kept.pairs h) (kept.depth ∙ open_end) k,
      )
  run_unbounded (flush_thread now succeeds ∷ events) s h open_end k =
      let kept = flush_step-Keeps now succeeds s.flusher s in
      run_unbounded events (flush_step now succeeds s.flusher s) (rw kept.pairs h)
        (kept.depth ∙ open_end) k
  run_unbounded (stop_all ∷ events) s h open_end k =
      run_unbounded events (record s { stop = true }) h open_end k

  -- what a run keeps of its first state
  abbrev pub Same : BatchedRun A → BatchedRun A → Type 0
  Same s t = (t.request_pairs ≡ s.request_pairs) × (t.max_queue_depth ≡ s.max_queue_depth)

  dispatch-Same :
      (now : ℕ) (s : BatchedRun A) → 0 < length s.request_pairs → Same s (dispatch now s).1
  unfolding dispatch
  dispatch-Same now s h =
      if_intro (λ (r : Dispatched × BatchedRun A). Same s r.1) s.failure (λ _. (refl, refl))
        (λ _. let kept = enqueue-Keeps now s h in (kept.pairs, kept.depth))

  step-Same :
      (event : Event) (s : BatchedRun A) → 0 < length s.request_pairs → Same s (step event s)
  unfolding step
  step-Same (request now) s h = dispatch-Same now s h
  step-Same (late_request now) s h = let kept = enqueue-Keeps now s h in (kept.pairs, kept.depth)
  step-Same (flush_thread now succeeds) s h =
      let kept = flush_step-Keeps now succeeds s.flusher s in (kept.pairs, kept.depth)
  step-Same stop_all s h = (refl, refl)

  pub run-Same :
      (events : List Event) (s : BatchedRun A) → 0 < length s.request_pairs → Same s (run events s)
  unfolding run
  run-Same [] s h = (refl, refl)
  run-Same (event ∷ events) s h =
      let first = step-Same event s h in
      let rest = run-Same events (step event s) (rw first.0 h) in
      (rest.0 ∙ first.0, rest.1 ∙ first.1)
