-- ===== src/Dense/Fusion.antt =====
-- py/dense/fusion.py: the fusion of channels. The arithmetic of scores is given.
pub mod Ranks
pub mod Normal
pub mod Methods
use Prim.Native.String.{String}
use cascade_search_engine.Prelude.{
  ℕ, suc, ◌+◌, Bool, ◌&&◌, not, Option, none, some, List, [], ◌∷◌, map, if◌then◌else◌,
}
use cascade_search_engine.Prelude.Keys.{◌==◌, Order, ◌<=◌, string_eq}
use cascade_search_engine.Sort.{sort}
use cascade_search_engine.Harness.Runs.{Candidates, Run, set_item, bucket_of}

-- `RRF_K`
abbrev pub rrf_k : ℕ
rrf_k = 60

-- `0.0`, `a + b`, `a - b`, `a / b` and `1.0 / n`
pub record Arithmetic (Score : Type 0) : Type 0 where
  pub nil : Score
  pub plus : Score → Score → Score
  pub minus : Score → Score → Score
  pub over : Score → Score → Score
  pub reciprocal : ℕ → Score

module _ {Score : Type 0} (scores : Arithmetic Score) where
  -- `fused[docid] = fused.get(docid, 0.0) + score`: a new key comes last, an old one keeps its place.
  unfoldable pub add_score : String → Score → Candidates Score → Candidates Score
  add_score docid score [] = (docid, scores.plus scores.nil score) ∷ []
  add_score docid score ((other, old) ∷ fused) =
      if other == docid
      then (other, scores.plus old score) ∷ fused
      else (other, old) ∷ add_score docid score fused

  -- The inner loop from `rank` on.
  unfoldable pub add_ranks : ℕ → ℕ → Candidates Score → Candidates Score → Candidates Score
  unfolding add_score
  add_ranks k rank [] fused = fused
  add_ranks k rank ((docid, _) ∷ ranked) fused =
      add_ranks k (suc rank) ranked (add_score docid (scores.reciprocal (k + rank)) fused)

-- `sorted(channel.items(), key=lambda kv: kv[1], reverse=True)`
abbrev pub by_score : {Score : Type 0} ⦃o : Order Score⦄ → Candidates Score → Candidates Score
by_score = sort (λ a b. b.1 <= a.1)

module _ {Score : Type 0} ⦃o : Order Score⦄ (scores : Arithmetic Score) where
  -- The outer loop, which adds to `fused`.
  unfoldable pub add_channels : ℕ → List (Candidates Score) → Candidates Score → Candidates Score
  unfolding add_ranks
  add_channels k [] fused = fused
  add_channels k (channel ∷ channels) fused =
      add_channels k channels (add_ranks scores k 1 (by_score channel) fused)

  abbrev pub reciprocal_rank_fusion : ℕ → List (Candidates Score) → Candidates Score
  reciprocal_rank_fusion k channels = add_channels k channels []

module _ {Score : Type 0} ⦃o : Order Score⦄ where
  -- `min` and `max` of the first and the rest: an earlier one stays if a later one is equal
  unfoldable pub min_from : Score → Candidates Score → Score
  min_from best [] = best
  min_from best ((_, score) ∷ channel) = min_from (if best <= score then best else score) channel

  unfoldable pub max_from : Score → Candidates Score → Score
  max_from best [] = best
  max_from best ((_, score) ∷ channel) = max_from (if score <= best then best else score) channel

  -- `lo == hi`: no NaN, so this is when each is at most the other
  abbrev pub is_equal : Score → Score → Bool
  is_equal a b = a <= b && b <= a

module _ {Score : Type 0} ⦃o : Order Score⦄ (scores : Arithmetic Score) where
  -- `(score - lo) / (hi - lo)`
  abbrev pub scaled : Score → Score → Score → Score
  scaled lo hi score = scores.over (scores.minus score lo) (scores.minus hi lo)

  -- `_min_max_normalize`
  unfoldable pub min_max_normalize : Candidates Score → Candidates Score
  min_max_normalize [] = []
  min_max_normalize ((docid, score) ∷ rest) =
      let lo = min_from score rest in
      let hi = max_from score rest in
      if is_equal lo hi
      then map (λ (e : String × Score). (e.0, scores.nil)) ((docid, score) ∷ rest)
      else map (λ (e : String × Score). (e.0, scaled lo hi e.1)) ((docid, score) ∷ rest)

  -- The inner loop of `normalized_score_fusion`.
  unfoldable pub add_scores : Candidates Score → Candidates Score → Candidates Score
  unfolding add_score
  add_scores [] fused = fused
  add_scores ((docid, score) ∷ items) fused = add_scores items (add_score scores docid score fused)

  unfoldable pub add_normalized : List (Candidates Score) → Candidates Score → Candidates Score
  unfolding add_scores
  add_normalized [] fused = fused
  add_normalized (channel ∷ channels) fused =
      add_normalized channels (add_scores (min_max_normalize channel) fused)

  abbrev pub normalized_score_fusion : List (Candidates Score) → Candidates Score
  normalized_score_fusion channels = add_normalized channels []

  -- The body of the loop of `fuse_run`. An unknown method raises.
  unfoldable pub fuse_channels : String → List (Candidates Score) → Option (Candidates Score)
  fuse_channels method channels =
      if method == "rrf"
      then some (reciprocal_rank_fusion scores rrf_k channels)
      else if method == "score"
      then some (normalized_score_fusion channels)
      else none

  -- The loop, in whatever order the set of query ids gives them.
  unfoldable pub fuse_qids :
      String → Run Score → Run Score → List String → Run Score → Option (Run Score)
  unfolding fuse_channels
  fuse_qids method lexical dense [] fused = some fused
  fuse_qids method lexical dense (qid ∷ qids) fused =
      elim (fuse_channels method (bucket_of qid lexical ∷ bucket_of qid dense ∷ [])) [
        | none ↦ none
        | some docs ↦ fuse_qids method lexical dense qids (set_item qid docs fused)
      ]

  -- `fuse_run`; the list is an order of `all_qids`
  unfoldable pub fuse_run : Run Score → Run Score → String → List String → Option (Run Score)
  unfolding fuse_qids
  fuse_run lexical dense method all_qids = fuse_qids method lexical dense all_qids []
