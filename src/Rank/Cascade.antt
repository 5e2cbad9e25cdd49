-- ===== src/Rank/Cascade.antt =====
-- kaggle/phase4_driver.py: the cascade of the two rankers over the query sets, its evaluation, and the stream of
-- requests. The trained network, the session and the texts are given; a dictionary is its list of entries. `none` is
-- an exception.
pub mod Query
pub mod Depth
pub mod Whole
pub mod Asserted
pub mod Stream
use Prim.Native.String.{String}
use cascade_search_engine.Prelude.{
  ℕ, zero, suc, ◌+◌, ◌%◌, Bool, true, false, Option, none, some, List, [], ◌∷◌, ◌++◌, map, take,
  length, keep_if, get_elem?, if◌then◌else◌,
}
use cascade_search_engine.Prelude.Keys.{Order, ◌<=◌, string_eq, is_in}
use cascade_search_engine.Prelude.Loops.{for_each, collect}
use cascade_search_engine.Sort.{sort}
use cascade_search_engine.Harness.Runs.{Candidates, Run, get_item, set_item}
use cascade_search_engine.Harness.Metrics.{Qrels}
use cascade_search_engine.Harness.Metrics.Evaluate.{
  Gains, Metric, EvalResult, evaluate, mean_score, recall_value,
}
use cascade_search_engine.Rank.CrossEncoder.{Pair, score}
use cascade_search_engine.Rank.Prerank.{
  Floats, FeatureVector, FeatureScaler, survivors_for_query, prerank_consistency,
}

-- `zip(xs, ys)`
unfoldable pub zip : {A B : Type 0} → List A → List B → List (A × B)
zip [] ys = []
zip (x ∷ xs) [] = []
zip (x ∷ xs) (y ∷ ys) = (x, y) ∷ zip xs ys

-- `d.update(e)`
unfoldable pub update : {V : Type 0} → List (String × V) → List (String × V) → List (String × V)
unfolding set_item
update d [] = d
update d ((key, value) ∷ e) = update (set_item key value d) e

abbrev pub Texts : Type 0
Texts = List (String × String)

-- `(queries[qid], candidate_texts[docid])`
unfoldable pub pair_of : Texts → Texts → String → String → Option Pair
unfolding get_item
pair_of queries candidate_texts qid docid = elim (get_item qid queries) [
  | none ↦ none
  | some query ↦ elim (get_item docid candidate_texts) [
    | none ↦ none
    | some passage ↦ some (query, passage)
  ]
]

-- `run`, `qrels` and `queries` of a query set
pub record QuerySet (F : Type 0) : Type 0 where
  pub run : Run F
  pub qrels : Qrels
  pub queries : Texts

pub record Fused (F : Type 0) : Type 0 where
  pub consistency_scores : List (ℕ × ℕ)
  pub fused_qrels : Qrels
  pub fused_run : Run F

-- What is written and what is returned.
pub record CascadeResult (F : Type 0) : Type 0 where
  pub mean_prerank_consistency : F
  pub num_queries : ℕ
  pub eval_result : EvalResult F
  pub qrels : Qrels
  pub survivors_by_qid : List (String × List String)

module _ {F : Type 0} ⦃o : Order F⦄ where
  -- `true_top_k`
  unfoldable pub top_docids : ℕ → List String → List F → List String
  unfolding zip
  top_docids k docids scores =
      map (λ (e : String × F). e.0) (take k (sort (λ a b. b.1 <= a.1) (zip docids scores)))

  -- `{docid: score for docid, score in zip(docids, all_scores) if docid in survivors}`
  unfoldable pub survivors_scored : List String → List String → List F → Candidates F
  unfolding zip
  survivors_scored survivors docids scores =
      keep_if (λ (e : String × F). is_in e.0 survivors) (zip docids scores)

module _ {F : Type 0} ⦃o : Order F⦄ (floats : Floats F) (logit : FeatureVector F → F)
    (dense_scores : String → String → Option F) (doc_lengths : String → String → Option ℕ)
    (scaler : FeatureScaler F) (session : List Pair → List F) (chunk_size : ℕ)
    (candidate_texts : Texts) (k : ℕ) where
  -- The body of the loop over the queries of a set.
  unfoldable pub cascade_query : Texts → String × Candidates F → Fused F → Option (Fused F)
  unfolding pair_of collect score survivors_for_query prerank_consistency top_docids
      survivors_scored set_item
  cascade_query queries (qid, candidates) s =
      let docids = map (λ (e : String × F). e.0) candidates in
      elim (collect (pair_of queries candidate_texts qid) docids) [
        | none ↦ none
        | some pairs ↦ elim (score session (suc (length pairs)) pairs chunk_size) [
          | none ↦ none
          | some (all_scores, handed) ↦
              elim (survivors_for_query floats logit dense_scores doc_lengths scaler candidates qid
                k) [
                  | none ↦ none
                  | some survivors ↦ some (record s {
                    consistency_scores =
                        s.consistency_scores
                        ++ prerank_consistency (top_docids k docids all_scores) survivors ∷ [];
                    fused_run =
                        set_item qid (survivors_scored survivors docids all_scores) s.fused_run;
                  })
                ]
        ]
      ]

  unfoldable pub cascade_set : QuerySet F → Fused F → Option (Fused F)
  unfolding cascade_query for_each update
  cascade_set set s =
      for_each (cascade_query set.queries) set.run
        (record s { fused_qrels = update s.fused_qrels set.qrels })

-- `... / len(consistency_scores)` raises if there is none.
unfoldable pub divide_by_count : {A B : Type 0} → List A → Option B → Option B
divide_by_count [] result = none
divide_by_count (_ ∷ _) result = result

-- `assert not eval_result.shallow_metrics`
unfoldable pub assert_deep : {B : Type 0} → List Metric → B → Option B
assert_deep [] result = some result
assert_deep (_ ∷ _) result = none

module _ {F : Type 0} ⦃o : Order F⦄ ⦃strings : Order String⦄ (gains : Gains F) (k : ℕ) where
  -- what is written and returned
  abbrev pub concluded : Fused F → CascadeResult F
  concluded s = record {
    mean_prerank_consistency = mean_score gains (map (recall_value gains) s.consistency_scores);
    num_queries = length s.consistency_scores;
    eval_result = evaluate gains s.fused_qrels s.fused_run (10 ∷ []) (10 ∷ []) (k ∷ []) 2;
    qrels = s.fused_qrels;
    survivors_by_qid =
        map (λ (e : String × Candidates F). (e.0, map (λ (c : String × F). c.0) e.1)) s.fused_run;
  }

  -- after the loop
  unfoldable pub conclude : Fused F → Option (CascadeResult F)
  unfolding evaluate mean_score recall_value divide_by_count assert_deep
  conclude s =
      let result = concluded s in
      divide_by_count s.consistency_scores (assert_deep result.eval_result.shallow_metrics result)

module _ {F : Type 0} ⦃o : Order F⦄ ⦃strings : Order String⦄ (gains : Gains F) (floats : Floats F)
    (logit : FeatureVector F → F) (dense_scores : String → String → Option F)
    (doc_lengths : String → String → Option ℕ) (scaler : FeatureScaler F)
    (session : List Pair → List F) (chunk_size : ℕ) (candidate_texts : Texts) (k : ℕ) where
  -- `run_prerank_and_consistency` with a trained network and a session
  unfoldable pub run_prerank_and_consistency : List (QuerySet F) → Option (CascadeResult F)
  unfolding cascade_set for_each conclude
  run_prerank_and_consistency sets =
      elim (for_each
        (cascade_set floats logit dense_scores doc_lengths scaler session chunk_size candidate_texts
          k)
        sets (record { consistency_scores = []; fused_qrels = []; fused_run = [] })) [
          | none ↦ none
          | some s ↦ conclude gains k s
        ]

-- `build_request_pairs` on the values of the queries and the candidate texts, for so many requests from i on
unfoldable pub request_pairs_from : ℕ → ℕ → List String → List String → Option (List Pair)
request_pairs_from zero i query_list passages = some []
request_pairs_from (suc count) i [] passages = none
request_pairs_from (suc count) i query_list [] = none
request_pairs_from (suc count) i query_list passages =
    elim (get_elem? query_list (i % length query_list)) [
      | none ↦ none
      | some query ↦ elim (get_elem? passages (i % length passages)) [
        | none ↦ none
        | some passage ↦ elim (request_pairs_from count (suc i) query_list passages) [
          | none ↦ none
          | some pairs ↦ some ((query, passage) ∷ pairs)
        ]
      ]
    ]
