-- ===== src/Rank/Cascade/Asserted.antt =====
-- What `run_prerank_and_consistency` returns, and when its assertion fails.
use Prim.Native.String.{String}
use cascade_search_engine.Prelude.{
  ℕ, ◌<◌, ◌≤◌, true, false, Option, none, some, List, [], ◌∷◌, map, length, min, ◌≡◌, refl, sym, ap,
  ap₂, length-map, ◌∙◌, ◌⊎◌, inl, inr, arith, All, leb, leb→le,
}
use cascade_search_engine.Prelude.Keys.{Order, string_eq, Distinct}
use cascade_search_engine.Harness.Runs.{Candidates, Run}
use cascade_search_engine.Harness.Metrics.{run_depth}
use cascade_search_engine.Harness.Metrics.Evaluate.{Gains, evaluate}
use cascade_search_engine.Rank.CrossEncoder.{Pair}
use cascade_search_engine.Rank.Prerank.{Floats, FeatureVector, FeatureScaler, is_encoded}
use cascade_search_engine.Rank.Cascade.{
  Texts, QuerySet, CascadeResult, Fused, concluded, run_prerank_and_consistency,
}
use cascade_search_engine.Rank.Cascade.Query.{IsPresent}
use cascade_search_engine.Rank.Cascade.Depth.{
  all_of, qids_of, sizes_of, cut_sizes, is_deep, run_depth-greatest, greatest-le, greatest-deep,
  greatest,
}
use cascade_search_engine.Rank.Cascade.Whole.{set_loop, conclude_cases}

-- the ids and how many survivors each has
survivors-ids :
    {F : Type 0} (run : Run F)
    → map
        (λ (e : String × List String). e.0)
        (map (λ (e : String × Candidates F). (e.0, map (λ (c : String × F). c.0) e.1)) run)
      ≡ qids_of run
survivors-ids [] = refl
survivors-ids (e ∷ run) = ap (◌∷◌ e.0) (survivors-ids run)

survivors-sizes :
    {F : Type 0} (run : Run F)
    → map
        (λ (e : String × List String). length e.1)
        (map (λ (e : String × Candidates F). (e.0, map (λ (c : String × F). c.0) e.1)) run)
      ≡ sizes_of run
survivors-sizes [] = refl
survivors-sizes (e ∷ run) = ap₂ ◌∷◌ (length-map {0, 0} (λ c. c.0) e.1) (survivors-sizes run)

module _ {F : Type 0} ⦃o : Order F⦄ ⦃strings : Order String⦄ (gains : Gains F) (floats : Floats F)
    (logit : FeatureVector F → F) (dense_scores : String → String → Option F)
    (doc_lengths : String → String → Option ℕ)
    (encoded : (qid docid : String)
      → is_encoded floats dense_scores doc_lengths qid docid ≡ true
      → (n : ℕ) × (doc_lengths qid docid ≡ some n))
    (scaler : FeatureScaler F) (session : List Pair → List F) (f : Pair → F)
    (alone : (chunk : List Pair) → session chunk ≡ map f chunk) (chunk_size : ℕ)
    (chunked : 0 < chunk_size) (candidate_texts : Texts) (k : ℕ)
    (query_of passage_of : String → String) where
  -- All lookups succeed, no query comes twice and no candidate of a query, there is a query, the session
  -- scores each pair by itself and k is at least 10. If some query has k candidates, the run returns, no
  -- metric is too deep, the run is k deep, and each query has its own survivors, k of them or all its
  -- candidates. If none has, the assertion fails.
  pub run_prerank-depth :
      (sets : List (QuerySet F))
      → 10 ≤ k
      → 1 ≤ length (all_of sets)
      → Distinct (qids_of (all_of sets))
      → All
          (λ set.
            All
              (IsPresent floats logit dense_scores doc_lengths candidate_texts query_of passage_of
                set.queries)
              set.run)
          sets
      → let all = all_of sets in
        let result =
          run_prerank_and_consistency gains floats logit dense_scores doc_lengths scaler session
            chunk_size candidate_texts k sets in
        ((is_deep k all ≡ true)
          × (r : CascadeResult F) × (result ≡ some r)
          × (r.eval_result.shallow_metrics ≡ [])
          × (r.eval_result.depth ≡ k)
          × (r.num_queries ≡ length all)
          × (map (λ e. e.0) r.survivors_by_qid ≡ map (λ q. q.0) all)
          × (map (λ e. length e.1) r.survivors_by_qid ≡ map (λ q. min k (length q.1)) all))
        ⊎ ((is_deep k all ≡ false) × (result ≡ none))
  unfolding run_prerank_and_consistency
  run_prerank-depth sets h counted d present =
      let all = all_of sets in
      let nothing : Fused F = record {
        consistency_scores = [];
        fused_qrels = [];
        fused_run = [];
      } in
      let (s, looped, adds) =
        set_loop floats logit dense_scores doc_lengths encoded scaler session f alone chunk_size
          chunked candidate_texts k query_of passage_of sets nothing present d in
      let depth : run_depth s.fused_run ≡ greatest (cut_sizes k all) =
        run_depth-greatest s.fused_run ∙ ap greatest adds.sizes_are in
      let deep : leb k (run_depth s.fused_run) ≡ is_deep k all =
        ap (leb k) depth ∙ greatest-deep k all (omega arith) in
      elim (conclude_cases gains k s h (omega (arith, adds.count_is))) [
        | inl (reached, returns, fine) ↦ inl (
          sym deep ∙ reached,
          concluded gains k s,
          rw (looped, run_prerank_and_consistency) returns,
          fine,
          unfold evaluate in omega (arith, depth, greatest-le k all, leb→le k _ reached),
          omega (arith, adds.count_is),
          survivors-ids s.fused_run ∙ adds.qids_are,
          survivors-sizes s.fused_run ∙ adds.sizes_are,
        )
        | inr (low, raises) ↦ inr (sym deep ∙ low, rw (looped, run_prerank_and_consistency) raises)
      ]
