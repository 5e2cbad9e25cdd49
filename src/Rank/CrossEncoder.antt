-- ===== src/Rank/CrossEncoder.antt =====
-- py/rank/crossencoder_harness.py, `CrossEncoderSession.score`: the pairs are scored in chunks. What the tokenizer
-- and the session make of a chunk is given.
pub mod Chunks
use Prim.Native.String.{String}
use cascade_search_engine.Prelude.{
  ℕ, zero, suc, ◌+◌, Option, none, some, List, [], ◌∷◌, ◌++◌, take, drop, length, ltb,
  if◌then◌else◌,
}

abbrev pub Pair : Type 0
Pair = String × String

module _ {Score : Type 0} (session : List Pair → List Score) where
  -- The loop from `start` on, with the scores so far and the chunks that the session was handed.
  unfoldable pub score_from :
      ℕ → List Pair → ℕ → ℕ → List Score → List (List Pair) → Option (List Score × List (List Pair))
  score_from zero pairs chunk_size start scores handed = none
  score_from (suc rounds) pairs chunk_size start scores handed =
      let chunk = take chunk_size (drop start pairs) in
      let rest =
        score_from rounds pairs chunk_size (start + chunk_size) (scores ++ session chunk)
          (handed ++ chunk ∷ []) in
      if ltb start (length pairs) then rest else some (scores, handed)

  -- `score`: a `range` with step 0 raises.
  unfoldable pub score : ℕ → List Pair → ℕ → Option (List Score × List (List Pair))
  unfolding score_from
  score rounds pairs zero = none
  score rounds pairs (suc n) = score_from rounds pairs (suc n) 0 [] []
