-- ===== src/Nrt/Lag.antt =====
-- py/nrt/lag_experiment.py: the slice of the corpus, the probe of a document, and the drain of the documents that
-- are not yet searchable.
pub mod Drain
pub mod Slices
pub mod Threshold
use Prim.Native.String.{String, len}
use cascade_search_engine.Prelude.{
  ℕ, zero, suc, ◌+◌, ◌-◌, Bool, true, false, not, Option, none, some, List, [], ◌∷◌, ◌++◌, map,
  length, keep_if, leb, ltb, if◌then◌else◌,
}
use cascade_search_engine.Nrt.Tsv.{Document}

-- The loop of `_read_tsv_slice` over the lines from number `i` on, each split into its two fields.
unfoldable pub slice_from : ℕ → ℕ → ℕ → List Document → List Document
slice_from start count i [] = []
slice_from start count i (line ∷ lines) =
    let rest = slice_from start count (suc i) lines in
    if ltb i start then rest else if leb (start + count) i then [] else line ∷ rest

unfoldable pub read_tsv_slice : ℕ → ℕ → List Document → List Document
unfolding slice_from
read_tsv_slice start count lines = slice_from start count 0 lines

-- `max(tokens, key=len)`: only a longer token takes the place of the best so far.
unfoldable pub longest_from : String → List String → String
longest_from best [] = best
longest_from best (token ∷ tokens) =
    longest_from (if ltb (len best) (len token) then token else best) tokens

-- `_longest_token`, on the text's tokens
unfoldable pub longest_token : List String → Option String
unfolding longest_from
longest_token [] = none
longest_token (token ∷ tokens) = some (longest_from token tokens)

-- A document that waits: its id, its probe and when it was written. Times are in microseconds.
pub record Probe : Type 0 where
  pub external_id : String
  pub probe : String
  pub write_start : ℕ

-- One pass of `_drain_pending`: `is_found` tells which searches return their document now.
unfoldable pub still_remaining : (Probe → Bool) → List Probe → List Probe
still_remaining is_found remaining = keep_if (λ p. not (is_found p)) remaining

unfoldable pub lags : (Probe → Bool) → ℕ → List Probe → List ℕ
lags is_found found_at remaining = map (λ p. found_at - p.write_start) (keep_if is_found remaining)

-- The passes until the deadline, each at its time and with what is found then. What is recorded, and how many
-- documents are left.
unfoldable pub drain_pending : List (ℕ × (Probe → Bool)) → List Probe → List ℕ × ℕ
unfolding still_remaining lags
drain_pending [] remaining = ([], length remaining)
drain_pending ((found_at, is_found) ∷ passes) [] = ([], 0)
drain_pending ((found_at, is_found) ∷ passes) (p ∷ remaining) =
    let (recorded, left) = drain_pending passes (still_remaining is_found (p ∷ remaining)) in
    (lags is_found found_at (p ∷ remaining) ++ recorded, left)
