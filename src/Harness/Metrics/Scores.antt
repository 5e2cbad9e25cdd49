-- ===== src/Harness/Metrics/Scores.antt =====
-- What the reciprocal rank and the recall say of a query, and what a cutoff beyond the run's depth does.
use Prim.Native.String.{String}
use mathlib.Core.List.Permᴰ
use cascade_search_engine.Prelude.{
  ℕ, suc, ◌+◌, ◌≤◌, ◌<◌, true, false, not, none, some, List, [], ◌∷◌, map, take, length, count_if,
  ◌≡◌, refl, sym, ap, ap₂, ◌∙◌, ◌⊎◌, inl, inr, arith, All, length-map, take-map, count_if-map,
  Bool-cases, get_elem?, take_all,
}
use cascade_search_engine.Prelude.Keys.{Order, string_eq, is_in, Distinct}
use cascade_search_engine.Prelude.Counting.{count_if-is_in-le}
use cascade_search_engine.Prelude.Perms.{Distinct-perm}
use cascade_search_engine.Sort.{sort}
use cascade_search_engine.Sort.Laws.{length-sort, sort-permᴰ}
use cascade_search_engine.Harness.Runs.{Candidates, Run, get_item}
use cascade_search_engine.Harness.Runs.RoundTrip.{Distinct-take}
use cascade_search_engine.Harness.Metrics.{
  Judgments, Qrels, get_or, key_lt, is_relevant, ranked_docids, first_rank, mrr_of, relevant_of,
  recall_of, mrr_at_k, recall_at_k, run_depth,
}

-- Nothing is relevant, or the rank is the one of the first that is.
first_rank-exact :
    (rel_threshold : ℕ) (judgments : Judgments) (start : ℕ) (docids : List String)
    → ((first_rank rel_threshold judgments start docids ≡ none)
        × All (λ d. is_relevant rel_threshold judgments d ≡ false) docids)
      ⊎ ((i : ℕ) × (d : String) × (first_rank rel_threshold judgments start docids
            ≡ some (start + i))
          × (get_elem? docids i ≡ some d)
          × (is_relevant rel_threshold judgments d ≡ true)
          × All (λ x. is_relevant rel_threshold judgments x ≡ false) (take i docids))
unfolding first_rank
first_rank-exact t j start [] = inl (refl, tt)
first_rank-exact t j start (docid ∷ docids) = elim (Bool-cases (is_relevant t j docid)) [
  | inl fits ↦ inr (0, docid, rw fits (ap some (omega arith)), refl, fits, tt)
  | inr fails ↦ elim (first_rank-exact t j (suc start) docids) [
    | inl (e, none_relevant) ↦ inl (rw fails e, (fails, none_relevant))
    | inr (i, d, e, at, fits, before) ↦
        inr (suc i, d, rw fails (e ∙ ap some (omega arith)), at, fits, (fails, before))
  ]
]

module _ {Score : Type 0} ⦃scores : Order Score⦄ ⦃strings : Order String⦄ where
  length-ranked_docids : (docs : Candidates Score) → length (ranked_docids docs) ≡ length docs
  unfolding ranked_docids
  length-ranked_docids docs = length-map _ _ ∙ length-sort _ docs

  get_or-depth : (qid : String) (run : Run Score) → length (get_or [] qid run) ≤ run_depth run
  unfolding get_item run_depth
  get_or-depth qid [] = omega arith
  get_or-depth qid ((q, docs) ∷ run) = ground (arith, get_or-depth qid run)

  take-depth :
      (k : ℕ) (qid : String) (run : Run Score)
      → run_depth run < k
      → take k (ranked_docids (get_or [] qid run))
        ≡ take (run_depth run) (ranked_docids (get_or [] qid run))
  take-depth k qid run h =
      let few = get_or-depth qid run in
      let count = length-ranked_docids (get_or [] qid run) in
      take_all k (ranked_docids (get_or [] qid run)) (omega arith)
      ∙ sym (take_all (run_depth run) (ranked_docids (get_or [] qid run)) (omega arith))

  -- The reciprocal rank of a query within the first k documents: there is none and none of them is
  -- relevant, or it is 1 / (i + 1) for the relevant document at place i of them, and none before it is
  -- relevant.
  mrr_of-first :
      (rel_threshold k : ℕ) (judgments : Judgments) (doc_scores : Candidates Score)
      → let found = mrr_of rel_threshold k judgments doc_scores in
        let docids = take k (ranked_docids doc_scores) in
        ((found ≡ none) × All (λ d. is_relevant rel_threshold judgments d ≡ false) docids)
        ⊎ ((i : ℕ) × (d : String) × (found ≡ some (1 + i))
            × (get_elem? docids i ≡ some d)
            × (is_relevant rel_threshold judgments d ≡ true)
            × All (λ x. is_relevant rel_threshold judgments x ≡ false) (take i docids))
  unfolding mrr_of
  mrr_of-first rel_threshold k judgments doc_scores =
      first_rank-exact rel_threshold judgments 1 (take k (ranked_docids doc_scores))

  -- A cutoff beyond the run's depth gives, for every query, the MRR and the recall of the depth.
  shallow-eq :
      (qrels : Qrels) (run : Run Score) (k rel_threshold : ℕ)
      → run_depth run < k
      → (mrr_at_k qrels run k rel_threshold ≡ mrr_at_k qrels run (run_depth run) rel_threshold)
        × (recall_at_k qrels run k rel_threshold
            ≡ recall_at_k qrels run (run_depth run) rel_threshold)
  unfolding mrr_at_k recall_at_k mrr_of recall_of
  shallow-eq [] run k t h = (refl, refl)
  shallow-eq ((qid, judgments) ∷ qrels) run k t h =
      let (same_mrr, same_recall) = shallow-eq qrels run k t h in
      let same = take-depth k qid run h in
      let relevant = relevant_of t judgments in
      (
        ap₂ ◌∷◌ (ap (λ l. (qid, first_rank t judgments 1 l)) same) same_mrr,
        ap₂ ◌∷◌ (ap (λ l. (qid, (count_if (λ d. is_in d relevant) l, length relevant))) same)
            same_recall,
      )

  -- A run without a document twice has no more hits than there are relevant documents: a recall is at most
  -- 1.
  recall_of-le :
      (rel_threshold k : ℕ) (judgments : Judgments) (doc_scores : Candidates Score)
      → Distinct (map (λ e. e.0) doc_scores)
      → let (hits, relevant) = recall_of rel_threshold k judgments doc_scores in hits ≤ relevant
  unfolding recall_of ranked_docids
  recall_of-le rel_threshold k judgments doc_scores h =
      let relevant = relevant_of rel_threshold judgments in
      let sorted = sort (λ a b. not (key_lt b a)) doc_scores in
      let apart : Distinct (map (λ e. e.0) (take k sorted)) =
        Distinct-take k sorted
          (Distinct-perm (Permᴰ.map (λ e. e.0) (Permᴰ.symm (sort-permᴰ _ doc_scores))) h) in
      let few = count_if-is_in-le (λ (e : String × Score). e.0) relevant (take k sorted) apart in
      omega (
        arith,
        ap (count_if (λ d. is_in d relevant)) (take-map (λ (e : String × Score). e.0) k sorted),
        count_if-map (λ d. is_in d relevant) (λ (e : String × Score). e.0) (take k sorted),
      )
