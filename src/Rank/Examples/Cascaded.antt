-- ===== src/Rank/Examples/Cascaded.antt =====
-- The cascade on one query with ten candidates.
use Prim.Native.String.{String}
use cascade_search_engine.Prelude.{
  ℕ, ◌+◌, ◌/◌, true, false, none, some, List, [], ◌∷◌, map, length, ◌≡◌, refl, ◌⊎◌, arith, nat_beq,
}
use cascade_search_engine.Prelude.Keys.{nat_order, string_eq}
use cascade_search_engine.Harness.Runs.{get_item, Candidates, set_item}
use cascade_search_engine.Harness.Metrics.Evaluate.{Gains}
use cascade_search_engine.Rank.Prerank.{survivors_for_query}
use cascade_search_engine.Rank.Cascade.{
  Texts, QuerySet, Fused, CascadeResult, cascade_query, run_prerank_and_consistency,
}
use cascade_search_engine.Rank.Cascade.Query.{IsPresent, rescored, cascade_query-adds}
use cascade_search_engine.Rank.Cascade.Depth.{all_of, is_deep}
use cascade_search_engine.Rank.Cascade.Asserted.{run_prerank-depth}
use cascade_search_engine.Rank.Examples.Models.{
  numbers, dense_scores, doc_lengths, encoded, scaler, logit, passage_length,
}
use cascade_search_engine.Harness.Examples.{by_length}

abbrev gains : Gains ℕ
gains = record {
  nil = 0;
  of_nat = λ n. n;
  plus = λ a b. a + b;
  over = λ a b. a / b;
  log2 = λ n. n;
  is_nil = λ a. nat_beq a 0;
}

abbrev candidates : Candidates ℕ
candidates =
    ("d1", 30)
    ∷ ("d2", 29)
    ∷ ("d3", 28)
    ∷ ("d4", 27)
    ∷ ("d5", 26)
    ∷ ("d6", 25)
    ∷ ("d7", 24)
    ∷ ("d8", 23)
    ∷ ("d9", 22)
    ∷ ("d10", 21)
    ∷ []

-- a text is its own id
abbrev texts : Texts
texts = map (λ (c : String × ℕ). (c.0, c.0)) candidates

abbrev query_set : QuerySet ℕ
query_set = record {
  run = ("q", candidates) ∷ [];
  qrels = ("q", ("d3", 2) ∷ []) ∷ [];
  queries = ("q", "what") ∷ [];
}

abbrev query_of : String → String
query_of qid = "what"

abbrev passage_of : String → String
passage_of docid = docid

candidates-IsPresent :
    IsPresent numbers logit dense_scores doc_lengths texts query_of passage_of query_set.queries
      ("q", candidates)
unfolding get_item
candidates-IsPresent = record {
  asked = refl;
  passages = (refl, (refl, (refl, (refl, (refl, (refl, (refl, (refl, (refl, (refl, tt))))))))));
  candidates_encoded =
      (refl, (refl, (refl, (refl, (refl, (refl, (refl, (refl, (refl, (refl, tt))))))))));
  distinct = (refl, (refl, (refl, (refl, (refl, (refl, (refl, (refl, (refl, (refl, tt))))))))));
}

abbrev nothing : Fused ℕ
nothing = record { consistency_scores = []; fused_qrels = []; fused_run = [] }

cascade_query-adds_example :
    (survivors : List String) × (consistency : ℕ × ℕ) × (s' : Fused ℕ) × (survivors_for_query
        numbers logit dense_scores doc_lengths scaler candidates "q" 4
      ≡ some survivors)
    × (cascade_query numbers logit dense_scores doc_lengths scaler
          (map passage_length)
          3
          texts
          4
          query_set.queries
          ("q", candidates)
          nothing
        ≡ some s')
    × (s'.fused_run
        ≡ set_item "q"
            (rescored 4 passage_length query_of passage_of "q" survivors
              (map (λ c. c.0) candidates))
            [])
    × (s'.consistency_scores ≡ consistency ∷ [])
    × (s'.fused_qrels ≡ [])
    × (length
          (rescored 4 passage_length query_of passage_of "q" survivors (map (λ c. c.0) candidates))
        ≡ 4)
cascade_query-adds_example =
    cascade_query-adds numbers logit dense_scores doc_lengths encoded scaler (map passage_length)
      passage_length (λ chunk. refl) 3 (omega arith) texts 4 query_of passage_of query_set.queries
      ("q", candidates) nothing candidates-IsPresent

abbrev sets : List (QuerySet ℕ)
sets = query_set ∷ []

run_prerank-depth_example :
    ((is_deep 10 (all_of sets) ≡ true)
      × (r : CascadeResult ℕ) × (run_prerank_and_consistency ⦃strings = by_length⦄ gains numbers
            logit dense_scores doc_lengths scaler
            (map passage_length)
            3
            texts
            10
            sets
          ≡ some r)
      × (r.eval_result.shallow_metrics ≡ [])
      × (r.eval_result.depth ≡ 10)
      × (r.num_queries ≡ 1)
      × (map (λ e. e.0) r.survivors_by_qid ≡ "q" ∷ [])
      × (map (λ e. length e.1) r.survivors_by_qid ≡ 10 ∷ []))
    ⊎ ((is_deep 10 (all_of sets) ≡ false)
        × (run_prerank_and_consistency ⦃strings = by_length⦄ gains numbers logit dense_scores
              doc_lengths scaler
              (map passage_length)
              3
              texts
              10
              sets
            ≡ none))
run_prerank-depth_example =
    run_prerank-depth ⦃strings = by_length⦄ gains numbers logit dense_scores doc_lengths encoded
      scaler (map passage_length) passage_length (λ chunk. refl) 3 (omega arith) texts 10 query_of
      passage_of sets (omega arith) (omega arith) (refl, tt) ((candidates-IsPresent, tt), tt)
