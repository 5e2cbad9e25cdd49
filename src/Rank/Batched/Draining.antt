-- ===== src/Rank/Batched/Draining.antt =====
-- The flusher thread wakes every request that waits: no dispatch blocks for ever.
use mathlib.Core.Path.{subst}
use cascade_search_engine.Prelude.{
  ℕ, zero, suc, ◌+◌, ◌-◌, ◌≤◌, Bool, true, false, Option, none, some, List, [], ◌∷◌, ◌++◌,
  append-nil, ◌≡◌, refl, sym, ap, ◌∙◌, ◌⊎◌, inl, inr, arith, drop, length, length-drop, length-take,
  List-cases, if◌then◌else◌,
}
use cascade_search_engine.Rank.Batcher.{DynamicBatcher, init, window_of, should_flush, flush}
use cascade_search_engine.Rank.Batcher.Batches.{
  IsOpen, nothing_waits, waits_since, flush-IsValid, should_flush-exact, IsDue, IsEarly,
}
use cascade_search_engine.Rank.Batcher.Batches
use cascade_search_engine.Rank.Batched.{
  Item, Flusher, BatchedRun, events_of, poll, scored, drain, flush_step, Event, flush_thread, step,
  run, start,
}
use cascade_search_engine.Rank.Batched.Accounting.{start-IsSound, run-IsSound}
use cascade_search_engine.Rank.Batched.Requests.{held, upto}

-- the window has been open for the wait, if it is open
abbrev pub IsRipe : ℕ → ℕ → Option ℕ → Type 0
IsRipe wait now none = Unit
IsRipe wait now (some start) = start + wait ≤ now

window_of-IsRipe :
    {A : Type 0} (wait now : ℕ) (xs : List A) → IsRipe wait (now + wait) (window_of xs now)
window_of-IsRipe wait now [] = tt
window_of-IsRipe wait now (x ∷ xs) = omega arith

IsRipe-later :
    (wait now : ℕ) (window : Option ℕ) → IsRipe wait now window → IsRipe wait (now + wait) window
IsRipe-later wait now none r = tt
IsRipe-later wait now (some start) r = omega arith

-- `n` turns of the flusher, two pieces of work each, one wait apart; `outcomes` says which scores succeed.
abbrev pub turns : ℕ → ℕ → ℕ → (ℕ → Bool) → List Event
turns wait zero now outcomes = []
turns wait (suc n) now outcomes =
    flush_thread now (outcomes (n + n))
    ∷ flush_thread now (outcomes (suc (n + n)))
    ∷ turns wait n (now + wait) outcomes

module _ {A : Type 0} where
  -- The flusher is between two batches, and what waits is due.
  pub record IsCalm (wait now : ℕ) (s : BatchedRun A) : Type 0 where
    pub idle : (s.flusher ≡ Flusher.polling) ⊎ (s.flusher ≡ Flusher.draining)
    pub going : s.stop ≡ false
    pub opened : Batches.IsValid s.batcher
    pub waits : s.batcher.max_wait_ms ≡ wait
    pub ripe : IsRipe wait now s.batcher.window_start
    pub wide : 1 ≤ s.batcher.max_batch_size

  -- the state after a flush whose batch is woken
  abbrev flushed : ℕ → BatchedRun A → Flusher A → Bool → List ℕ → BatchedRun A
  flushed now s flusher failure woken = record s {
    batcher = (flush now s.batcher).1;
    flusher = flusher;
    failure = failure;
    woken = woken;
  }

  flushed-IsCalm :
      (wait before now : ℕ) (s : BatchedRun A) (flusher : Flusher A) (failure : Bool)
      (woken : List ℕ)
      → IsCalm wait before s
      → (flusher ≡ Flusher.polling) ⊎ (flusher ≡ Flusher.draining)
      → IsCalm wait (now + wait) (flushed now s flusher failure woken)
  unfolding flush
  flushed-IsCalm wait before now s flusher failure woken c idle = record {
    idle = idle;
    going = c.going;
    opened = flush-IsValid now s.batcher;
    waits = c.waits;
    ripe = window_of-IsRipe wait now (drop s.batcher.max_batch_size s.batcher.items);
    wide = c.wide;
  }

  left-lt :
      (now : ℕ) (b : DynamicBatcher (Item A))
      → 1 ≤ b.max_batch_size
      → length (flush now b).1.items ≤ length b.items - 1
  unfolding flush
  left-lt now b h = omega (arith, length-drop b.max_batch_size b.items)

  not_early :
      (wait now : ℕ) (s : BatchedRun A)
      → IsCalm wait now s
      → 1 ≤ length s.batcher.items
      → IsEarly now s.batcher
      → ⊥
  unfolding IsEarly
  not_early wait now s c h (inl empty) = omega (arith, ap length empty)
  not_early wait now s c h (inr (_, start, open_since, soon)) =
      let ripe : IsRipe wait now (some start) = subst (IsRipe wait now) open_since c.ripe in
      omega (arith, c.waits)

  batch-ne :
      (now : ℕ) (b : DynamicBatcher (Item A))
      → 1 ≤ b.max_batch_size
      → 1 ≤ length b.items
      → 1 ≤ length (flush now b).0
  unfolding flush
  batch-ne now b h k = omega (arith, length-take b.max_batch_size b.items)

  -- Something waits: the flusher takes it.
  poll_due :
      (wait now : ℕ) (s : BatchedRun A)
      → IsCalm wait now s
      → 1 ≤ length s.batcher.items
      → poll now s ≡ record s {
        batcher = (flush now s.batcher).1;
        flusher = Flusher.scoring (flush now s.batcher).0;
      }
  unfolding poll
  poll_due wait now s c h = elim (should_flush-exact now s.batcher c.opened) [
    | inl (due, _) ↦ elim (List-cases (flush now s.batcher).0) [
      | inl empty ↦ absurd (omega (arith, ap length empty, batch-ne now s.batcher c.wide h))
      | inr (item, items, e) ↦ ground arith
    ]
    | inr (_, early) ↦ absurd (not_early wait now s c h early)
  ]

  -- Nothing waits: the flusher stays.
  poll_empty : (now : ℕ) (s : BatchedRun A) → s.batcher.items ≡ [] → poll now s ≡ s
  unfolding poll should_flush
  poll_empty now s e = ground arith

  -- The flusher's piece of work, by where it stands, while nobody stops it.
  step_polling :
      (now : ℕ) (succeeds : Bool) (s : BatchedRun A)
      → s.stop ≡ false
      → s.flusher ≡ Flusher.polling
      → step (flush_thread now succeeds) s ≡ poll now s
  unfolding step flush_step
  step_polling now succeeds s going e =
      ap (λ f. flush_step now succeeds f s) e
      ∙ ap (λ b. if b then record s { flusher = Flusher.finished } else poll now s) going

  step_draining :
      (now : ℕ) (succeeds : Bool) (s : BatchedRun A)
      → s.stop ≡ false
      → s.flusher ≡ Flusher.draining
      → step (flush_thread now succeeds) s
        ≡ flushed now s s.flusher s.failure (s.woken ++ events_of (flush now s.batcher).0)
  unfolding step flush_step drain
  step_draining now succeeds s going e =
      ap (λ f. flush_step now succeeds f s) e
      ∙ ap (λ b. if b then record s { flusher = Flusher.finished } else drain now s) going

  step_scoring :
      (now : ℕ) (succeeds : Bool) (batch : List (Item A)) (s : BatchedRun A)
      → step (flush_thread now succeeds) (record s { flusher = Flusher.scoring batch })
        ≡ scored succeeds batch (record s { flusher = Flusher.scoring batch })
  unfolding step flush_step
  step_scoring now succeeds batch s = refl

  -- what a turn does to the queue
  abbrev Turned : ℕ → ℕ → BatchedRun A → BatchedRun A → Type 0
  Turned wait now s t =
      IsCalm wait (now + wait) t × (length t.batcher.items ≤ length s.batcher.items - 1)

  scored-Turned :
      (wait now : ℕ) (succeeds : Bool) (s : BatchedRun A)
      → IsCalm wait now s
      → Turned wait now s (
          scored succeeds (flush now s.batcher).0 (record s {
            batcher = (flush now s.batcher).1;
            flusher = Flusher.scoring (flush now s.batcher).0;
          }))
  unfolding scored
  scored-Turned wait now true s c = (
    flushed-IsCalm wait now now s Flusher.polling s.failure _ c (inl refl),
    left-lt now s.batcher c.wide,
  )
  scored-Turned wait now false s c = (
    flushed-IsCalm wait now now s Flusher.draining true _ c (inr refl),
    left-lt now s.batcher c.wide,
  )

  stays-Turned :
      (wait now : ℕ) (s : BatchedRun A)
      → IsCalm wait now s
      → s.batcher.items ≡ []
      → Turned wait now s s
  stays-Turned wait now s c e = (
    record {
      idle = c.idle;
      going = c.going;
      opened = c.opened;
      waits = c.waits;
      ripe = IsRipe-later wait now s.batcher.window_start c.ripe;
      wide = c.wide;
    },
    omega (arith, ap length e),
  )

  turn :
      (wait now : ℕ) (first second : Bool) (s : BatchedRun A)
      → IsCalm wait now s
      → Turned wait now s (step (flush_thread now second) (step (flush_thread now first) s))
  turn wait now first second s c = elim c.idle [
    | inl polls ↦ elim (List-cases s.batcher.items) [
      | inl empty ↦
          let same = step_polling now first s c.going polls ∙ poll_empty now s empty in
          let same_again = step_polling now second s c.going polls ∙ poll_empty now s empty in
          subst (Turned wait now s) (sym (ap (step (flush_thread now second)) same ∙ same_again))
            (stays-Turned wait now s c empty)
      | inr (x, xs, some_wait) ↦
          let taken =
            step_polling now first s c.going polls
            ∙ poll_due wait now s c (omega (arith, ap length some_wait)) in
          subst (Turned wait now s)
            (sym (
              ap (step (flush_thread now second)) taken
              ∙ step_scoring now second (flush now s.batcher).0
                  (record s { batcher = (flush now s.batcher).1 })))
            (scored-Turned wait now second s c)
    ]
    | inr drains ↦
        let t = flushed now s s.flusher s.failure (s.woken ++ events_of (flush now s.batcher).0) in
        let once = step_draining now first s c.going drains in
        let twice = step_draining now second t c.going drains in
        subst (Turned wait now s) (sym (ap (step (flush_thread now second)) once ∙ twice)) (
          flushed-IsCalm wait (now + wait) now t s.flusher s.failure _
              (flushed-IsCalm wait now now s s.flusher s.failure _ c (inr drains)) (inr drains),
          omega (
            arith,
            left-lt now t.batcher
                (flushed-IsCalm wait now now s s.flusher s.failure [] c (inr drains)).wide,
            left-lt now s.batcher c.wide,
          ),
        )
  ]

  held_idle :
      (flusher : Flusher A)
      → (flusher ≡ Flusher.polling) ⊎ (flusher ≡ Flusher.draining)
      → held flusher ≡ []
  held_idle flusher (inl e) = ap held e
  held_idle flusher (inr e) = ap held e

  turns_empty :
      (n wait now : ℕ) (outcomes : ℕ → Bool) (s : BatchedRun A)
      → IsCalm wait now s
      → length s.batcher.items ≤ n
      → let t = run (turns wait n now outcomes) s in (t.batcher.items ≡ []) × (held t.flusher ≡ [])
  unfolding run
  turns_empty zero wait now outcomes s c h = elim (List-cases s.batcher.items) [
    | inl empty ↦ (empty, held_idle s.flusher c.idle)
    | inr (x, xs, some_wait) ↦ absurd (omega (arith, ap length some_wait))
  ]
  turns_empty (suc n) wait now outcomes s c h =
      let (calm, shorter) = turn wait now (outcomes (n + n)) (outcomes (suc (n + n))) s c in
      turns_empty n wait (now + wait) outcomes _ calm (omega arith)

module _ {A : Type 0} (max_batch_size max_wait_ms : ℕ) (request_pairs : List A)
    (max_queue_depth : Option ℕ) (events : List Event) where
  abbrev pub reached : BatchedRun A
  reached = run events (start (init max_batch_size max_wait_ms) request_pairs max_queue_depth)

  -- In any state that can be reached: if the flusher is between two batches, nobody has set the stop, the
  -- batch size is at least 1 and the window, if it is open, has been open for the wait, then as many turns
  -- of the flusher as requests wait, one wait apart, wake every accepted request, whether scores fail in
  -- them or not.
  pub every_request_woken :
      (now : ℕ) (outcomes : ℕ → Bool)
      → IsCalm max_wait_ms now reached
      → let t = run (turns max_wait_ms (length reached.batcher.items) now outcomes) reached in
        t.woken ≡ upto t.next_index
  every_request_woken now outcomes c =
      let plan = turns max_wait_ms (length reached.batcher.items) now outcomes in
      let t = run plan reached in
      let sound = run-IsSound max_batch_size max_queue_depth plan reached (
        run-IsSound max_batch_size max_queue_depth events _
          (start-IsSound max_batch_size max_wait_ms request_pairs max_queue_depth)) in
      let (empty, none_held) =
        turns_empty (length reached.batcher.items) max_wait_ms now outcomes reached c
          (omega arith) in
      sym (append-nil t.woken)
      ∙ ap (λ l. t.woken ++ events_of l) (sym empty)
      ∙ ap (λ l. t.woken ++ (events_of l ++ events_of t.batcher.items)) (sym none_held)
      ∙ sound.served
