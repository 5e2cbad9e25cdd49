-- ===== src/Rank/Batcher.antt =====
-- py/rank/batcher.py: requests wait until a batch is full or the first of them has waited long enough.
pub mod Batches
use cascade_search_engine.Prelude.{
  ℕ, ◌+◌, Bool, true, false, Option, none, some, List, [], ◌∷◌, ◌++◌, take, drop, length, leb,
  if◌then◌else◌,
}

pub record DynamicBatcher (A : Type 0) : Type 0 where
  pub max_batch_size : ℕ
  pub max_wait_ms : ℕ
  pub items : List A
  pub window_start : Option ℕ

module _ {A : Type 0} where
  -- `__init__`
  abbrev pub init : ℕ → ℕ → DynamicBatcher A
  init max_batch_size max_wait_ms = record {
    max_batch_size = max_batch_size;
    max_wait_ms = max_wait_ms;
    items = [];
    window_start = none;
  }

  -- `self._clock() if self._items else None`
  abbrev pub window_of : List A → ℕ → Option ℕ
  window_of [] now = none
  window_of (x ∷ xs) now = some now

  -- `add`; `now` is what the clock shows.
  unfoldable pub add : A → ℕ → DynamicBatcher A → DynamicBatcher A
  add item now b = record b {
    window_start = elim b.items [ [] ↦ some now | _ ↦ b.window_start ];
    items = b.items ++ item ∷ [];
  }

  -- `should_flush`: `none` is the exception of a subtraction from `None`.
  unfoldable pub should_flush : ℕ → DynamicBatcher A → Option Bool
  should_flush now b = elim b.items [
    | [] ↦ some false
    | _ ↦ if leb b.max_batch_size (length b.items) then some true else elim b.window_start [
      | none ↦ none
      | some start ↦ some (leb (start + b.max_wait_ms) now)
    ]
  ]

  -- `flush`: the batch, and what is left.
  unfoldable pub flush : ℕ → DynamicBatcher A → List A × DynamicBatcher A
  flush now b =
      let left = drop b.max_batch_size b.items in
      (take b.max_batch_size b.items, record b { items = left; window_start = window_of left now })
