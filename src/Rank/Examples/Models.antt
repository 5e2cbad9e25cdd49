-- ===== src/Rank/Examples/Models.antt =====
-- The cross-encoder and the pre-ranker on three documents of one query.
use Prim.Native.Nat.{ℕ, ◌+◌, ◌-◌, ◌*◌, ◌/◌, ◌≤◌, ◌<◌}
use Prim.Native.String.{String, len}
use mathlib.Core.List.{Permᴰ}
use cascade_search_engine.Prelude.{
  true, Option, some, [], ◌∷◌, List, ◌≡◌, refl, arith, length, length-take, take, drop, concat, map,
  min, All, All-take, nat_beq,
}
use cascade_search_engine.Prelude.Keys.{nat_order, string_eq, is_in, ◌<=◌}
use cascade_search_engine.Prelude.Loops.{collect}
use cascade_search_engine.Harness.Runs.{Candidates, Run}
use cascade_search_engine.Harness.Metrics.{Qrels}
use cascade_search_engine.Rank.CrossEncoder.{Pair, score}
use cascade_search_engine.Rank.CrossEncoder.Chunks.{score-chunks}
use cascade_search_engine.Rank.Prerank.{
  Floats, FeatureVector, FeatureScaler, Choice, is_encoded, build_training_examples,
  survivors_for_query, prerank_consistency, feature_entry, transform,
}
use cascade_search_engine.Rank.Prerank.Training.{
  IsChoice, labels_of, build_training_examples-labels, All-same,
}
use cascade_search_engine.Rank.Prerank.Survivors.{survivors_for_query-consistency}

abbrev pairs : List Pair
pairs = ("q", "one") ∷ ("q", "three") ∷ ("q", "seven") ∷ []

abbrev pub passage_length : Pair → ℕ
passage_length pair = len pair.1

score-chunks_example :
    (chunks : List (List Pair)) × (score (map passage_length) 4 pairs 2
      ≡ some (concat (map (map passage_length) chunks), chunks))
    × (concat chunks ≡ pairs)
    × All (λ chunk. (0 < length chunk) × (length chunk ≤ 2)) chunks
score-chunks_example = score-chunks (map passage_length) 2 (omega arith) pairs

abbrev pub numbers : Floats ℕ
numbers = record {
  nil = 0;
  of_nat = λ n. n;
  plus = λ a b. a + b;
  minus = λ a b. a - b;
  times = λ a b. a * b;
  over = λ a b. a / b;
  root = λ a. a;
  is_nil = λ a. nat_beq a 0;
}

abbrev pub dense_scores : String → String → Option ℕ
dense_scores qid docid = some (len docid)

abbrev pub doc_lengths : String → String → Option ℕ
doc_lengths qid docid = some 7

pub encoded :
    (qid docid : String)
    → is_encoded numbers dense_scores doc_lengths qid docid ≡ true
    → (n : ℕ) × (doc_lengths qid docid ≡ some n)
encoded qid docid h = (7, refl)

-- a generator that draws the first of the pool
abbrev first_of : Choice ℕ
first_of rng pool n = (take n pool, rng + 1)

first_of-IsChoice : IsChoice first_of
first_of-IsChoice rng pool n h =
    (omega (arith, length-take n pool), All-take (λ d. is_in d pool ≡ true) n pool (All-same pool))

abbrev candidates : Candidates ℕ
candidates = ("d1", 5) ∷ ("d22", 9) ∷ ("d3", 7) ∷ []

abbrev dev_run : Run ℕ
dev_run = ("q", candidates) ∷ ("r", ("d1", 2) ∷ []) ∷ []

abbrev dev_qrels : Qrels
dev_qrels = ("q", ("d3", 1) ∷ []) ∷ []

build_training_examples-labels_example :
    (features : List (FeatureVector ℕ)) × (build_training_examples numbers first_of dense_scores
        doc_lengths dev_run dev_qrels 0 4
      ≡ some (
        features,
        concat (
            map
              (labels_of numbers first_of dense_scores doc_lengths encoded first_of-IsChoice
                dev_qrels 4)
              dev_run),
      ))
    × (length features
        ≡ length (
            concat (
              map
                (labels_of numbers first_of dense_scores doc_lengths encoded first_of-IsChoice
                  dev_qrels 4)
                dev_run)))
build_training_examples-labels_example =
    build_training_examples-labels numbers first_of dense_scores doc_lengths encoded
      first_of-IsChoice dev_qrels 4 dev_run 0

abbrev unit_vector : FeatureVector ℕ
unit_vector = record { bm25_score = 1; dense_score = 1; doc_length = 1 }

abbrev pub scaler : FeatureScaler ℕ
scaler = record { mean = unit_vector; std = unit_vector }

abbrev pub logit : FeatureVector ℕ → ℕ
logit v = v.bm25_score + v.dense_score

survivors_for_query-consistency_example :
    (ranked : Candidates ℕ) × (survivors : List String) × (survivors_for_query numbers logit
        dense_scores doc_lengths scaler candidates "q" 2
      ≡ some survivors)
    × Permᴰ (map (λ e. e.0) ranked) (map (λ e. e.0) candidates)
    × (query_features : List (String × FeatureVector ℕ)) × (collect
          (feature_entry numbers logit dense_scores doc_lengths "q")
          candidates
        ≡ some query_features)
    × Permᴰ ranked (map (λ e. (e.0, logit (transform numbers scaler e.1))) query_features)
    × (survivors ≡ map (λ e. e.0) (take 2 ranked))
    × (length survivors ≡ min 2 (length candidates))
    × All (λ low. All (λ high. (low.1 <= high.1) ≡ true) (take 2 ranked)) (drop 2 ranked)
    × (prerank_consistency (take 1 (map (λ e. e.0) ranked)) survivors
        ≡ (length (take 1 (map (λ e. e.0) ranked)), length (take 1 (map (λ e. e.0) ranked))))
survivors_for_query-consistency_example =
    survivors_for_query-consistency numbers logit dense_scores doc_lengths encoded scaler "q"
      candidates 2 1 (refl, (refl, (refl, tt))) (omega arith)
