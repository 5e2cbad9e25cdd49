-- ===== src/Rank/Prerank.antt =====
-- py/rank/prerank_features.py, prerank_mlp.py and prerank_consistency.py: the features of a candidate, the
-- examples that the MLP is trained on, and the candidates that it lets through. The network and numpy's generator
-- are given. A dictionary with keys (qid, docid) is a function. `none` is an exception.
pub mod Survivors
pub mod Training
use Prim.Native.String.{String}
use cascade_search_engine.Prelude.{
  ℕ, Bool, true, false, not, ◌&&◌, Option, none, some, List, [], ◌∷◌, ◌++◌, map, take, length, min,
  keep_if, count_if, ltb, leb, if◌then◌else◌,
}
use cascade_search_engine.Prelude.Keys.{Order, ◌<=◌, string_eq, ◌==◌, is_in}
use cascade_search_engine.Prelude.Loops.{for_each, collect}
use cascade_search_engine.Sort.{sort}
use cascade_search_engine.Harness.Runs.{Candidates, Run, get_item}
use cascade_search_engine.Harness.Metrics.{Judgments, Qrels, get_or}

-- The operations on floats that the features take.
pub record Floats (F : Type 0) : Type 0 where
  pub nil : F
  pub of_nat : ℕ → F
  pub plus : F → F → F
  pub minus : F → F → F
  pub times : F → F → F
  pub over : F → F → F
  pub root : F → F
  pub is_nil : F → Bool

-- `tuple[float, float, float]`
pub record FeatureVector (F : Type 0) : Type 0 where
  pub bm25_score : F
  pub dense_score : F
  pub doc_length : F

pub record FeatureScaler (F : Type 0) : Type 0 where
  pub mean : FeatureVector F
  pub std : FeatureVector F

module _ {F : Type 0} (floats : Floats F) where
  unfoldable pub build_feature_vector : F → F → ℕ → FeatureVector F
  build_feature_vector bm25_score dense_score doc_length = record {
    bm25_score = bm25_score;
    dense_score = dense_score;
    doc_length = floats.of_nat doc_length;
  }

  -- one component of `transform`
  abbrev pub standardized : F → F → F → F
  standardized value mean std =
      if floats.is_nil std then floats.nil else floats.over (floats.minus value mean) std

  unfoldable pub transform : FeatureScaler F → FeatureVector F → FeatureVector F
  transform scaler v = record {
    bm25_score = standardized v.bm25_score scaler.mean.bm25_score scaler.std.bm25_score;
    dense_score = standardized v.dense_score scaler.mean.dense_score scaler.std.dense_score;
    doc_length = standardized v.doc_length scaler.mean.doc_length scaler.std.doc_length;
  }

  -- `sum(...)`
  unfoldable pub sum_from : F → List F → F
  sum_from acc [] = acc
  sum_from acc (x ∷ xs) = sum_from (floats.plus acc x) xs

  abbrev pub mean_of : (FeatureVector F → F) → List (FeatureVector F) → F
  mean_of part vectors =
      floats.over (sum_from floats.nil (map part vectors)) (floats.of_nat (length vectors))

  abbrev pub std_of : (FeatureVector F → F) → List (FeatureVector F) → F
  std_of part vectors =
      let mean = mean_of part vectors in
      floats.root (
        mean_of (λ v. floats.times (floats.minus (part v) mean) (floats.minus (part v) mean))
          vectors)

  -- `fit_scaler`; of no vectors, the division raises.
  unfoldable pub fit_scaler : List (FeatureVector F) → Option (FeatureScaler F)
  unfolding sum_from
  fit_scaler [] = none
  fit_scaler (v ∷ vs) =
      let vectors = v ∷ vs in
      some record {
        mean = record {
          bm25_score = mean_of (λ w. w.bm25_score) vectors;
          dense_score = mean_of (λ w. w.dense_score) vectors;
          doc_length = mean_of (λ w. w.doc_length) vectors;
        };
        std = record {
          bm25_score = std_of (λ w. w.bm25_score) vectors;
          dense_score = std_of (λ w. w.dense_score) vectors;
          doc_length = std_of (λ w. w.doc_length) vectors;
        };
      }

  module _ (dense_scores : String → String → Option F)
      (doc_lengths : String → String → Option ℕ) where
    -- `build_feature_vector(...)` of a candidate of a query, with the lookups in its arguments
    unfoldable pub features_of : String → String → F → Option (FeatureVector F)
    unfolding build_feature_vector
    features_of qid docid bm25_score = elim (dense_scores qid docid) [
      | none ↦ none
      | some dense ↦ elim (doc_lengths qid docid) [
        | none ↦ none
        | some long ↦ some (build_feature_vector bm25_score dense long)
      ]
    ]

    -- `(qid, d) in dense_scores`
    abbrev pub is_encoded : String → String → Bool
    is_encoded qid docid = elim (dense_scores qid docid) [ none ↦ false | some _ ↦ true ]

  -- The parts of the features and labels so far, and the generator.
  pub record Examples (Rng : Type 0) : Type 0 where
    pub rng : Rng
    pub features : List (FeatureVector F)
    pub labels : List Bool

-- `rng.choice(pool, size=size, replace=False)`: what is drawn, and the generator after it
abbrev pub Choice : Type 0 → Type 0
Choice Rng = Rng → List String → ℕ → List String × Rng

module _ {F : Type 0} {Rng : Type 0} (floats : Floats F) (choice : Choice Rng) where
  module _ (dense_scores : String → String → Option F)
      (doc_lengths : String → String → Option ℕ) where
    -- The body of the inner loop.
    unfoldable pub add_example :
        String → Candidates F → String × Bool → Examples floats Rng → Option (Examples floats Rng)
    unfolding features_of get_item
    add_example qid candidates (docid, label) s = elim (get_item docid candidates) [
      | none ↦ none
      | some bm25_score ↦ elim (features_of floats dense_scores doc_lengths qid docid bm25_score) [
        | none ↦ none
        | some f ↦
            some (record s { features = s.features ++ f ∷ []; labels = s.labels ++ label ∷ [] })
      ]
    ]

    -- `available` and `positives`
    abbrev pub available_of : String → Candidates F → List String
    available_of qid candidates =
        keep_if (is_encoded floats dense_scores doc_lengths qid) (map (λ e. e.0) candidates)

    abbrev pub positives_of : Judgments → List String → List String
    positives_of judgments available = keep_if (λ d. ltb 0 (get_or 0 d judgments)) available

    -- `negative_pool`
    abbrev pub pool_of : String → List String → List String
    pool_of positive available = keep_if (λ d. not (d == positive)) available

    -- What a query adds, its positives and available candidates being known.
    unfoldable pub add_positive :
        String
        → Candidates F
        → ℕ
        → List String
        → List String
        → Examples floats Rng
        → Option (Examples floats Rng)
    unfolding add_example for_each
    add_positive qid candidates num_negatives available [] s = some s
    add_positive qid candidates num_negatives available (positive ∷ _) s =
        let pool = pool_of positive available in
        let (negatives, rng) = choice s.rng pool (min num_negatives (length pool)) in
        for_each (add_example qid candidates) ((positive, true) ∷ map (λ d. (d, false)) negatives)
          (record s { rng = rng })

    -- The body of the loop over the queries.
    unfoldable pub add_query :
        Qrels → ℕ → String × Candidates F → Examples floats Rng → Option (Examples floats Rng)
    unfolding add_positive get_item
    add_query dev_qrels num_negatives (qid, candidates) s =
        let available = available_of qid candidates in
        add_positive qid candidates num_negatives available
          (positives_of (get_or [] qid dev_qrels) available) s

    -- `build_training_examples`
    unfoldable pub build_training_examples :
        Run F → Qrels → Rng → ℕ → Option (List (FeatureVector F) × List Bool)
    unfolding add_query for_each
    build_training_examples dev_run dev_qrels rng num_negatives =
        elim (for_each (add_query dev_qrels num_negatives) dev_run
          (record { rng = rng; features = []; labels = [] })) [
            | none ↦ none
            | some s ↦ some (s.features, s.labels)
          ]

module _ {F : Type 0} ⦃o : Order F⦄ (floats : Floats F) (logit : FeatureVector F → F) where
  -- `score_candidates`: the network gives each row its logit.
  unfoldable pub score_candidates : FeatureScaler F → List (String × FeatureVector F) → Candidates F
  unfolding transform
  score_candidates scaler query_features =
      map (λ e. (e.0, logit (transform floats scaler e.1))) query_features

  module _ (dense_scores : String → String → Option F)
      (doc_lengths : String → String → Option ℕ) where
    -- An entry of `query_features`.
    unfoldable pub feature_entry : String → String × F → Option (String × FeatureVector F)
    unfolding features_of
    feature_entry qid (docid, bm25_score) =
        elim (features_of floats dense_scores doc_lengths qid docid bm25_score) [
          | none ↦ none
          | some f ↦ some (docid, f)
        ]

    -- `survivors_for_query`
    unfoldable pub survivors_for_query :
        FeatureScaler F → Candidates F → String → ℕ → Option (List String)
    unfolding feature_entry collect score_candidates
    survivors_for_query scaler candidates qid top_k =
        elim (collect (feature_entry qid) candidates) [
          | none ↦ none
          | some query_features ↦
              let ranked = sort (λ a b. b.1 <= a.1) (score_candidates scaler query_features) in
              some (map (λ e. e.0) (take top_k ranked))
        ]

-- `prerank_consistency`, as the numbers that it divides; of none it is 0.0
unfoldable pub prerank_consistency : List String → List String → ℕ × ℕ
prerank_consistency true_top_k survivors =
    (count_if (λ docid. is_in docid survivors) true_top_k, length true_top_k)
