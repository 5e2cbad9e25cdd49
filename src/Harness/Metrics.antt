-- ===== src/Harness/Metrics.antt =====
-- py/harness/metrics.py: the order of a run's documents, the reciprocal rank and the recall. A score of a query is
-- kept as the numbers that its division takes: the rank of the first relevant document, and hits of how many.
pub mod RankOrder
pub mod Scores
pub mod Evaluate
use Prim.Native.String.{String}
use cascade_search_engine.Prelude.{
  ℕ, suc, ◌+◌, Bool, true, false, not, ◌&&◌, Option, none, some, List, [], ◌∷◌, map, take, length,
  keep_if, count_if, leb, ltb, max, if◌then◌else◌,
}
use cascade_search_engine.Prelude.Keys.{Order, ◌<=◌, string_eq, is_in}
use cascade_search_engine.Sort.{sort}
use cascade_search_engine.Harness.Runs.{Candidates, Run, get_item}

-- `dict[docid, rel]` and the qrels
abbrev pub Judgments : Type 0
Judgments = List (String × ℕ)

abbrev pub Qrels : Type 0
Qrels = List (String × Judgments)

-- `d.get(key, default)`
abbrev pub get_or : {V : Type 0} → V → String → List (String × V) → V
get_or default key d = elim (get_item key d) [ none ↦ default | some value ↦ value ]

-- `judgments.get(docid, 0) >= rel_threshold`
unfoldable pub is_relevant : ℕ → Judgments → String → Bool
unfolding get_item
is_relevant rel_threshold judgments docid = leb rel_threshold (get_or 0 docid judgments)

-- The loop of `mrr_at_k` over the documents from `rank` on.
unfoldable pub first_rank : ℕ → Judgments → ℕ → List String → Option ℕ
unfolding is_relevant
first_rank rel_threshold judgments rank [] = none
first_rank rel_threshold judgments rank (docid ∷ docids) =
    let rest = first_rank rel_threshold judgments (suc rank) docids in
    if is_relevant rel_threshold judgments docid then some rank else rest

-- `{d for d, rel in judgments.items() if rel >= rel_threshold}`
abbrev pub relevant_of : ℕ → Judgments → List String
relevant_of rel_threshold judgments =
    map (λ j. j.0) (keep_if (λ (j : String × ℕ). leb rel_threshold j.1) judgments)

module _ {Score : Type 0} where
  -- `max((len(docs) for docs in run.values()), default=0)`
  unfoldable pub run_depth : Run Score → ℕ
  run_depth [] = 0
  run_depth ((qid, docs) ∷ run) = max (length docs) (run_depth run)

  -- the cutoffs that `evaluate` lists as shallow
  unfoldable pub shallow_cutoffs : List ℕ → Run Score → List ℕ
  unfolding run_depth
  shallow_cutoffs ks run = keep_if (λ k. ltb (run_depth run) k) ks

module _ {Score : Type 0} ⦃scores : Order Score⦄ ⦃strings : Order String⦄ where
  -- `(-a.score, _NegStr(a.docid)) < (-b.score, _NegStr(b.docid))`
  abbrev pub key_lt : String × Score → String × Score → Bool
  key_lt a b = if a.1 <= b.1 && b.1 <= a.1 then not (a.0 <= b.0) else not (a.1 <= b.1)

  -- `_ranked_docids`
  unfoldable pub ranked_docids : Candidates Score → List String
  ranked_docids doc_scores = map (λ e. e.0) (sort (λ a b. not (key_lt b a)) doc_scores)

  -- `mrr_at_k` of one query
  unfoldable pub mrr_of : ℕ → ℕ → Judgments → Candidates Score → Option ℕ
  unfolding ranked_docids first_rank
  mrr_of rel_threshold k judgments doc_scores =
      first_rank rel_threshold judgments 1 (take k (ranked_docids doc_scores))

  -- `recall_at_k` of one query: hits, and of how many
  unfoldable pub recall_of : ℕ → ℕ → Judgments → Candidates Score → ℕ × ℕ
  unfolding ranked_docids
  recall_of rel_threshold k judgments doc_scores =
      let relevant = relevant_of rel_threshold judgments in
      (count_if (λ d. is_in d relevant) (take k (ranked_docids doc_scores)), length relevant)

  unfoldable pub mrr_at_k : Qrels → Run Score → ℕ → ℕ → List (String × Option ℕ)
  unfolding mrr_of get_item
  mrr_at_k qrels run k rel_threshold =
      map (λ q. (q.0, mrr_of rel_threshold k q.1 (get_or [] q.0 run))) qrels

  unfoldable pub recall_at_k : Qrels → Run Score → ℕ → ℕ → List (String × (ℕ × ℕ))
  unfolding recall_of get_item
  recall_at_k qrels run k rel_threshold =
      map (λ q. (q.0, recall_of rel_threshold k q.1 (get_or [] q.0 run))) qrels
