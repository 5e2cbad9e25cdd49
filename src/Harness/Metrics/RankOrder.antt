-- ===== src/Harness/Metrics/RankOrder.antt =====
-- The metrics rank a run as `write_run` does.
use Prim.Native.String.{String}
use cascade_search_engine.Prelude.{not, map, ◌≡◌, arith}
use cascade_search_engine.Prelude.Keys.{Order}
use cascade_search_engine.Sort.{sort}
use cascade_search_engine.Harness.Runs.{Candidates, outranks, ranked}
use cascade_search_engine.Harness.Metrics.{key_lt, ranked_docids}

module _ {Score : Type 0} ⦃scores : Order Score⦄ ⦃strings : Order String⦄ where
  key_lt-outranks : (a b : String × Score) → not (key_lt b a) ≡ outranks a b
  key_lt-outranks a b = ground (arith, scores.total a.1 b.1, scores.total b.1 a.1)

  -- The metrics rank the documents of a query as write_run does, by two keys that are written differently.
  pub ranked_docids-ranked :
      (doc_scores : Candidates Score)
      → ranked_docids doc_scores ≡ map (λ e. e.0) (ranked doc_scores)
  unfolding ranked_docids ranked
  ranked_docids-ranked doc_scores =
      λ i. map (λ e. e.0) (sort (λ a b. key_lt-outranks a b i) doc_scores)
