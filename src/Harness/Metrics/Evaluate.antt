-- ===== src/Harness/Metrics/Evaluate.antt =====
-- py/harness/metrics.py, `ndcg_at_k` and `evaluate`. The operations on floats are given.
use cascade_search_engine.Prelude.{
  ℕ, suc, ◌+◌, Bool, Option, none, some, List, [], ◌∷◌, ◌++◌, map, take, length, keep_if, ltb,
  if◌then◌else◌,
}
use cascade_search_engine.Prelude.Keys.{Order, nat_order}
use cascade_search_engine.Sort.{sort, descending}
use Prim.Native.String.{String}
use cascade_search_engine.Harness.Runs.{Candidates, Run, get_item}
use cascade_search_engine.Harness.Metrics.{
  Judgments, Qrels, get_or, ranked_docids, mrr_at_k, recall_at_k, run_depth,
}

-- The operations on floats, and `math.log2` of a rank and 1.
pub record Gains (F : Type 0) : Type 0 where
  pub nil : F
  pub of_nat : ℕ → F
  pub plus : F → F → F
  pub over : F → F → F
  pub log2 : ℕ → F
  pub is_nil : F → Bool

-- The names of the metrics, `ndcg_cut_{k}`, `mrr_{k}` and `recall_{k}`.
pub data Metric : Type 0 where
  ndcg_cut mrr recall : ℕ → Metric

abbrev pub cutoff : Metric → ℕ
cutoff (ndcg_cut k) = k
cutoff (mrr k) = k
cutoff (recall k) = k

module _ {F : Type 0} (gains : Gains F) where
  -- `sum(g / math.log2(rank + 1) for rank, g in enumerate(ideal, start=rank))`
  unfoldable pub discounted_from : ℕ → F → List ℕ → F
  discounted_from rank acc [] = acc
  discounted_from rank acc (g ∷ ideal) =
      discounted_from (suc rank)
        (gains.plus acc (gains.over (gains.of_nat g) (gains.log2 (rank + 1)))) ideal

  -- `idcg`
  unfoldable pub idcg_of : ℕ → Judgments → F
  unfolding discounted_from
  idcg_of k judgments =
      let positive = keep_if (λ rel. ltb 0 rel) (map (λ (j : String × ℕ). j.1) judgments) in
      discounted_from 1 gains.nil (take k (sort (descending (λ rel. rel)) positive))

  -- The loop that adds up `dcg`.
  unfoldable pub dcg_from : ℕ → F → Judgments → List String → F
  unfolding get_item
  dcg_from rank acc judgments [] = acc
  dcg_from rank acc judgments (docid ∷ docids) =
      let rel = get_or 0 docid judgments in
      dcg_from (suc rank)
        (if ltb 0 rel
          then gains.plus acc (gains.over (gains.of_nat rel) (gains.log2 (rank + 1)))
          else acc)
        judgments docids

  -- `scores.get(...)` of a metric for one query: the rank and the hits as quotients
  abbrev pub mrr_value : Option ℕ → F
  mrr_value none = gains.nil
  mrr_value (some rank) = gains.over (gains.of_nat 1) (gains.of_nat rank)

  unfoldable pub recall_value : ℕ × ℕ → F
  recall_value (hits, relevant) =
      if ltb 0 relevant then gains.over (gains.of_nat hits) (gains.of_nat relevant) else gains.nil

  -- `sum(scores.values())`
  unfoldable pub added_from : F → List F → F
  added_from acc [] = acc
  added_from acc (x ∷ xs) = added_from (gains.plus acc x) xs

  -- `sum(scores.values()) / len(scores) if scores else 0.0`
  unfoldable pub mean_score : List F → F
  unfolding added_from
  mean_score [] = gains.nil
  mean_score (x ∷ xs) = gains.over (added_from gains.nil (x ∷ xs)) (gains.of_nat (length (x ∷ xs)))

pub record EvalResult (F : Type 0) : Type 0 where
  pub mean : List (Metric × F)
  pub per_query : List (Metric × List F)
  pub depth : ℕ
  pub num_queries : ℕ
  pub rel_threshold : ℕ
  pub shallow_metrics : List Metric

module _ {F : Type 0} ⦃o : Order F⦄ ⦃strings : Order String⦄ (gains : Gains F) where
  -- `ndcg_at_k` of one query
  unfoldable pub ndcg_of : ℕ → Judgments → Candidates F → F
  unfolding idcg_of dcg_from ranked_docids
  ndcg_of k judgments doc_scores =
      let idcg = idcg_of gains k judgments in
      if gains.is_nil idcg
      then gains.nil
      else gains.over (dcg_from gains 1 gains.nil judgments (take k (ranked_docids doc_scores)))
          idcg

  unfoldable pub ndcg_at_k : Qrels → Run F → ℕ → List F
  unfolding ndcg_of get_item
  ndcg_at_k qrels run k = map (λ q. ndcg_of k q.1 (get_or [] q.0 run)) qrels

  -- the values of a metric for the queries
  unfoldable pub values_of : Qrels → Run F → ℕ → Metric → List F
  unfolding ndcg_at_k mrr_at_k recall_at_k recall_value
  values_of qrels run rel_threshold (ndcg_cut k) = ndcg_at_k qrels run k
  values_of qrels run rel_threshold (mrr k) =
      map (λ (e : String × Option ℕ). mrr_value gains e.1) (mrr_at_k qrels run k rel_threshold)
  values_of qrels run rel_threshold (recall k) =
      map (λ (e : String × (ℕ × ℕ)). recall_value gains e.1) (recall_at_k qrels run k rel_threshold)

  unfoldable pub evaluate : Qrels → Run F → List ℕ → List ℕ → List ℕ → ℕ → EvalResult F
  unfolding values_of mean_score run_depth
  evaluate qrels run ndcg_k mrr_k recall_k rel_threshold =
      let metrics = map ndcg_cut ndcg_k ++ (map mrr mrr_k ++ map recall recall_k) in
      record {
        mean = map (λ m. (m, mean_score gains (values_of qrels run rel_threshold m))) metrics;
        per_query = map (λ m. (m, values_of qrels run rel_threshold m)) metrics;
        depth = run_depth run;
        num_queries = length qrels;
        rel_threshold = rel_threshold;
        shallow_metrics = keep_if (λ m. ltb (run_depth run) (cutoff m)) metrics;
      }
