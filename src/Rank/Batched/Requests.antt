-- ===== src/Rank/Batched/Requests.antt =====
-- The invariant of the batched run, and the requests that come.
use cascade_search_engine.Prelude.{
  ℕ, zero, suc, ◌%◌, ◌≤◌, false, Option, none, some, List, [], ◌∷◌, ◌++◌, map-append, append_assoc,
  ◌≡◌, refl, sym, ap, ◌∙◌, ◌⊎◌, inl, inr, arith, length, length-append, get_elem?, Bool-cases,
  Option-cases,
}
use cascade_search_engine.Rank.Batcher.{DynamicBatcher, add}
use cascade_search_engine.Rank.Batcher.Batches.{
  IsOpen, nothing_waits, add-IsValid, flush-IsValid, should_flush-exact,
}
use cascade_search_engine.Rank.Batcher.Batches
use cascade_search_engine.Rank.Batched.{Item, Flusher, BatchedRun, events_of, is_full, enqueue}

-- 0, 1, ..., n - 1
abbrev pub upto : ℕ → List ℕ
upto zero = []
upto (suc n) = upto n ++ n ∷ []

-- the queue is no longer than its limit, if there is one
abbrev pub IsShallow : Option ℕ → ℕ → Type 0
IsShallow none n = Unit
IsShallow (some depth) n = n ≤ depth

pub IsShallow-less : (depth : Option ℕ) (m n : ℕ) → m ≤ n → IsShallow depth n → IsShallow depth m
IsShallow-less none m n h k = tt
IsShallow-less (some depth) m n h k = omega arith

module _ {A : Type 0} where
  -- the batch that is scored
  abbrev pub held : Flusher A → List (Item A)
  held Flusher.polling = []
  held (Flusher.scoring batch) = batch
  held Flusher.draining = []
  held Flusher.finished = []

  abbrev pub accepted : BatchedRun A → List ℕ
  accepted s = s.woken ++ (events_of (held s.flusher) ++ events_of s.batcher.items)

module _ {A : Type 0} (max_batch_size : ℕ) (max_queue_depth : Option ℕ) where
  pub record IsSound (s : BatchedRun A) : Type 0 where
    pub opened : Batches.IsValid s.batcher
    pub served : accepted s ≡ upto s.next_index
    pub limit : s.batcher.max_batch_size ≡ max_batch_size
    pub small : length (held s.flusher) ≤ max_batch_size
    pub depth : s.max_queue_depth ≡ max_queue_depth
    pub shallow : IsShallow max_queue_depth (length s.batcher.items)

  IsShallow-more :
      (s : BatchedRun A) (depth : Option ℕ)
      → s.max_queue_depth ≡ depth
      → is_full s ≡ false
      → IsShallow depth (suc (length s.batcher.items))
  IsShallow-more s none e room = tt
  IsShallow-more s (some depth) e room = ground arith

  enqueue_cases :
      (now : ℕ) (s : BatchedRun A)
      → ((enqueue now s).1 ≡ s)
        ⊎ ((enqueue now s).1 ≡ record s { shed = suc s.shed })
        ⊎ ((is_full s ≡ false)
            × (pair : A) × ((enqueue now s).1 ≡ record s {
              batcher = add (s.next_index, pair) now s.batcher;
              next_index = suc s.next_index;
            }))
  unfolding enqueue
  enqueue_cases now s = elim (Bool-cases (is_full s)) [
    | inl full ↦ inr (inl (rw full refl))
    | inr room ↦
        elim (Option-cases (get_elem? s.request_pairs (s.next_index % length s.request_pairs))) [
          | inl e ↦ inl (rw (room, e) refl)
          | inr (pair, e) ↦ inr (inr (room, pair, rw (room, e) refl))
        ]
  ]

  items-add :
      (item : Item A) (now : ℕ) (b : DynamicBatcher (Item A))
      → (add item now b).items ≡ b.items ++ item ∷ []
  unfolding add
  items-add item now b = refl

  limit-add :
      (item : Item A) (now : ℕ) (b : DynamicBatcher (Item A))
      → (add item now b).max_batch_size ≡ b.max_batch_size
  unfolding add
  limit-add item now b = refl

  add-IsSound :
      (pair : A) (now : ℕ) (s : BatchedRun A)
      → is_full s ≡ false
      → IsSound s
      → IsSound (record s {
        batcher = add (s.next_index, pair) now s.batcher;
        next_index = suc s.next_index;
      })
  add-IsSound pair now s room v =
      let item : Item A = (s.next_index, pair) in
      record {
        opened = add-IsValid item now s.batcher v.opened;
        served =
            ap (λ l. s.woken ++ (events_of (held s.flusher) ++ events_of l))
              (items-add item now s.batcher)
            ∙ ap (λ l. s.woken ++ (events_of (held s.flusher) ++ l))
                (map-append (λ (i : Item A). i.0) s.batcher.items (item ∷ []))
            ∙ ap (λ l. s.woken ++ l)
                (sym (
                  append_assoc (events_of (held s.flusher)) (events_of s.batcher.items)
                    (s.next_index ∷ [])))
            ∙ sym (append_assoc s.woken _ (s.next_index ∷ []))
            ∙ ap (λ l. l ++ s.next_index ∷ []) v.served;
        limit = limit-add item now s.batcher ∙ v.limit;
        small = v.small;
        depth = v.depth;
        shallow = rw (items-add item now s.batcher) (
            IsShallow-less max_queue_depth _ _
              (omega (arith, length-append s.batcher.items (item ∷ [])))
              (IsShallow-more s max_queue_depth v.depth room));
      }

  pub enqueue-IsSound : (now : ℕ) (s : BatchedRun A) → IsSound s → IsSound (enqueue now s).1
  enqueue-IsSound now s v = elim (enqueue_cases now s) [
    | inl e ↦ rw e v
    | inr (inl e) ↦ rw e (record {
      opened = v.opened;
      served = v.served;
      limit = v.limit;
      small = v.small;
      depth = v.depth;
      shallow = v.shallow;
    })
    | inr (inr (room, pair, e)) ↦ rw e (add-IsSound pair now s room v)
  ]
