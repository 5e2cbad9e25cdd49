-- ===== src/Rank/Batcher/Batches.antt =====
-- What the batcher's operations do to the queue, in any state that it can be in.
use cascade_search_engine.Prelude.{
  ℕ, ◌+◌, ◌≤◌, ◌<◌, true, false, Option, none, some, List, [], ◌∷◌, ◌++◌, ◌≡◌, refl, ◌⊎◌, inl, inr,
  arith, tests, drop, length, leb, Bool-cases,
}
use cascade_search_engine.Rank.Batcher.{DynamicBatcher, window_of, add, should_flush, flush}

module _ {A : Type 0} where
  -- The window is open exactly while something waits.
  pub data IsOpen : List A → Option ℕ → Type 0 where
    nothing_waits : IsOpen [] none
    waits_since : {x : A} {xs : List A} {start : ℕ} → IsOpen (x ∷ xs) (some start)

  abbrev pub IsValid : DynamicBatcher A → Type 0
  IsValid b = IsOpen b.items b.window_start

  window_of-IsOpen : (xs : List A) (now : ℕ) → IsOpen xs (window_of xs now)
  window_of-IsOpen [] now = nothing_waits
  window_of-IsOpen (x ∷ xs) now = waits_since

  pub flush-IsValid : (now : ℕ) (b : DynamicBatcher A) → IsValid (flush now b).1
  unfolding flush
  flush-IsValid now b = window_of-IsOpen (drop b.max_batch_size b.items) now

  add-IsOpen :
      (item : A) (now : ℕ) (items : List A) (window : Option ℕ)
      → IsOpen items window
      → IsOpen (items ++ item ∷ []) (elim items [ [] ↦ some now | _ ↦ window ])
  add-IsOpen item now [] none nothing_waits = waits_since
  add-IsOpen item now (x ∷ xs) (some start) waits_since = waits_since
  add-IsOpen item now [] (some start) o = elim o [ ]
  add-IsOpen item now (x ∷ xs) none o = elim o [ ]

  pub add-IsValid :
      (item : A) (now : ℕ) (b : DynamicBatcher A) → IsValid b → IsValid (add item now b)
  unfolding add
  add-IsValid item now b o = add-IsOpen item now b.items b.window_start o

  -- The batch is full, or its first request has waited long enough.
  pub IsDue : ℕ → DynamicBatcher A → Type 0
  IsDue now b =
      (1 ≤ length b.items)
      × ((b.max_batch_size ≤ length b.items)
          ⊎ ((start : ℕ) × (b.window_start ≡ some start) × (start + b.max_wait_ms ≤ now)))

  -- Nothing waits, or the batch is not full and its first request has waited less.
  unfoldable pub IsEarly : ℕ → DynamicBatcher A → Type 0
  IsEarly now b =
      (b.items ≡ [])
      ⊎ ((length b.items < b.max_batch_size)
          × (start : ℕ) × (b.window_start ≡ some start)
          × (now < start + b.max_wait_ms))

  should_flush_open :
      (now : ℕ) (b : DynamicBatcher A) (items : List A) (window : Option ℕ)
      → IsOpen items window
      → b.items ≡ items
      → b.window_start ≡ window
      → ((should_flush now b ≡ some true) × IsDue now b)
        ⊎ ((should_flush now b ≡ some false) × IsEarly now b)
  unfolding should_flush IsDue IsEarly
  should_flush_open now b [] none nothing_waits e f = inr (rw e refl, inl e)
  should_flush_open now b (x ∷ xs) (some start) waits_since e f =
      elim (Bool-cases (leb b.max_batch_size (length b.items))) [
        | inl full ↦ inl (ground arith, (ground arith, inl (omega tests)))
        | inr room ↦ elim (Bool-cases (leb (start + b.max_wait_ms) now)) [
          | inl late ↦ inl (ground arith, (ground arith, inr (start, f, omega tests)))
          | inr soon ↦ inr (ground arith, inr (omega tests, start, f, omega tests))
        ]
      ]
  should_flush_open now b [] (some start) o e f = elim o [ ]
  should_flush_open now b (x ∷ xs) none o e f = elim o [ ]

  -- If the window is open exactly while something waits, the test does not raise, and it says yes exactly
  -- if something waits and the batch is full or its first request has waited max_wait_ms.
  pub should_flush-exact :
      (now : ℕ) (b : DynamicBatcher A)
      → IsValid b
      → ((should_flush now b ≡ some true) × IsDue now b)
        ⊎ ((should_flush now b ≡ some false) × IsEarly now b)
  should_flush-exact now b o = should_flush_open now b b.items b.window_start o refl refl
