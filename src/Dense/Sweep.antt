-- ===== src/Dense/Sweep.antt =====
-- py/dense/ann_sweep.py: the recall of the approximate indexes over their parameters, and the exact ranking of
-- py/dense/ground_truth.py that it is measured against. The indexes, their answers and the mean of the
-- recalls against 0.9 are given; latency and memory are measured and not modelled. `none` is an exception.
pub mod Grid
use Prim.Native.String.{String}
use cascade_search_engine.Prelude.{
  ℕ, Bool, true, false, not, ◌&&◌, keep_if, Option, none, some, List, [], ◌∷◌, ◌++◌, map, take,
  length, get_elem?, count_if, nat_beq, if◌then◌else◌, max,
}
use cascade_search_engine.Prelude.Keys.{nat_eq, string_eq, is_in, Order, ◌<=◌}
use cascade_search_engine.Prelude.Loops.{for_each, collect}
use cascade_search_engine.Harness.Runs.{set_item, get_item}

-- `set(xs)`
unfoldable pub set_of : List ℕ → List ℕ
set_of [] = []
set_of (x ∷ xs) = let rest = set_of xs in if is_in x rest then rest else x ∷ rest

-- `recall_at_k`, as the numbers that it divides; of none it is 0.0
unfoldable pub recall_at_k : List ℕ → List ℕ → ℕ → ℕ × ℕ
unfolding set_of
recall_at_k candidate_ids exact_ids k =
    let exact_top_k = set_of (take k exact_ids) in
    (count_if (λ d. is_in d candidate_ids) exact_top_k, length exact_top_k)

-- the JSON of `ground_truth.py`: pairs of a docid and a score for each query
abbrev pub GroundTruth : Type 0 → Type 0
GroundTruth Score = List (String × List (ℕ × Score))

-- `p != -1`
abbrev pub is_some : Option ℕ → Bool
is_some none = false
is_some (some _) = true

-- `docids[p]`, where -1, which faiss puts where it found no more, is the last one
unfoldable pub docid_at : List ℕ → Option ℕ → Option ℕ
docid_at docids (some position) = get_elem? docids position
docid_at [] none = none
docid_at (d ∷ []) none = some d
docid_at (d ∷ e ∷ docids) none = docid_at (e ∷ docids) none

module _ {Score : Type 0} where
  -- `[int(docids[positions[row, col]]), round(float(scores[row, col]), 6)]`
  unfoldable pub exact_pair : (Score → Score) → List ℕ → Score × Option ℕ → Option (ℕ × Score)
  unfolding docid_at
  exact_pair round docids (score, position) = elim (docid_at docids position) [
    | none ↦ none
    | some d ↦ some (d, round score)
  ]

  -- `exact_search` after `index.search`, whose rows of scores and positions are given with how they are rounded
  unfoldable pub exact_rows :
      (Score → Score)
      → List ℕ
      → List (List (Score × Option ℕ))
      → List String
      → GroundTruth Score
      → Option (GroundTruth Score)
  unfolding exact_pair collect set_item
  exact_rows round docids rows [] results = some results
  exact_rows round docids [] (qid ∷ qids) results = none
  exact_rows round docids (row ∷ rows) (qid ∷ qids) results =
      elim (collect (exact_pair round docids) row) [
        | none ↦ none
        | some pairs ↦ exact_rows round docids rows qids (set_item qid pairs results)
      ]

  abbrev pub exact_search :
      (Score → Score)
      → List ℕ
      → List (List (Score × Option ℕ))
      → List String
      → Option (GroundTruth Score)
  exact_search round docids rows query_ids = exact_rows round docids rows query_ids []

  -- the recall of each query, whose candidates stand in the row of its number
  unfoldable pub recalls_at_k :
      GroundTruth Score → ℕ → List String → List (List ℕ) → Option (List (ℕ × ℕ))
  unfolding recall_at_k get_item
  recalls_at_k ground_truth k [] labels = some []
  recalls_at_k ground_truth k (qid ∷ qids) [] = none
  recalls_at_k ground_truth k (qid ∷ qids) (row ∷ labels) = elim (get_item qid ground_truth) [
    | none ↦ none
    | some exact ↦ elim (recalls_at_k ground_truth k qids labels) [
      | none ↦ none
      | some rest ↦ some (recall_at_k row (map (λ e. e.0) exact) k ∷ rest)
    ]
  ]

-- `[int(docids[p]) for p in positions[row] if p != -1]`, row by row
unfoldable pub candidates_of : List ℕ → List (List (Option ℕ)) → Option (List (List ℕ))
unfolding docid_at collect
candidates_of docids positions =
    collect (λ row. collect (docid_at docids) (keep_if is_some row)) positions

-- `sum(recalls) / len(recalls)`, and the values that it is compared with
pub record Mean (Score : Type 0) : Type 0 where
  pub mean : List (ℕ × ℕ) → Score
  pub nil : Score
  pub one : Score
  pub nine_tenths : Score

pub record HnswPoint (Score : Type 0) : Type 0 where
  pub m : ℕ
  pub ef_search : ℕ
  pub recall_at_100 : Score

pub record IvfpqPoint (Score : Type 0) : Type 0 where
  pub nlist : ℕ
  pub m : ℕ
  pub nprobe : ℕ
  pub recall_at_100 : Score

-- `max(xs)` of values that are not negative
abbrev pub max_of : List ℕ → ℕ
max_of [] = 0
max_of (x ∷ xs) = max x (max_of xs)

module _ {Score : Type 0} ⦃o : Order Score⦄ (means : Mean Score) where
  -- `sum(recalls) / len(recalls)`, which raises if there is no query, and the assertion on it
  unfoldable pub mean_recall : Option (List (ℕ × ℕ)) → Option Score
  mean_recall none = none
  mean_recall (some []) = none
  mean_recall (some (r ∷ rs)) =
      let mean = means.mean (r ∷ rs) in
      if means.nil <= mean && mean <= means.one then some mean else none

  module _ (ground_truth : GroundTruth Score) (k : ℕ) (dev_qids : List String) where
    -- The loop over `ef_search`: the points so far, and the recall at the largest.
    unfoldable pub sweep_ef :
        (ℕ → ℕ → List (List ℕ))
        → ℕ
        → ℕ
        → ℕ
        → List (HnswPoint Score) × Option Score
        → Option (List (HnswPoint Score) × Option Score)
    unfolding mean_recall recalls_at_k
    sweep_ef knn_query max_ef_search m ef_search (points, at_max) =
        elim (mean_recall (recalls_at_k ground_truth k dev_qids (knn_query m ef_search))) [
          | none ↦ none
          | some recall ↦ some (
            points ++ record { m = m; ef_search = ef_search; recall_at_100 = recall } ∷ [],
            if nat_beq ef_search max_ef_search then some recall else at_max,
          )
        ]

    unfoldable pub sweep_m :
        (ℕ → ℕ → List (List ℕ))
        → List ℕ
        → ℕ
        → List (HnswPoint Score)
        → Option (List (HnswPoint Score))
    unfolding sweep_ef for_each
    sweep_m knn_query ef_values m points =
        elim (for_each (sweep_ef knn_query (max_of ef_values) m) ef_values (points, none)) [
          | some (swept, some recall) ↦
              if not (recall <= means.nine_tenths) then some swept else none
          | _ ↦ none
        ]

    -- `sweep_hnsw`: `knn_query m ef_search` is what the index with these parameters answers.
    unfoldable pub sweep_hnsw :
        (ℕ → ℕ → List (List ℕ)) → List ℕ → List ℕ → Option (List (HnswPoint Score))
    unfolding sweep_m for_each
    sweep_hnsw knn_query m_values ef_values = for_each (sweep_m knn_query ef_values) m_values []

    unfoldable pub sweep_nprobe :
        List ℕ
        → (ℕ → ℕ → ℕ → List (List (Option ℕ)))
        → ℕ
        → ℕ
        → ℕ
        → List (IvfpqPoint Score)
        → Option (List (IvfpqPoint Score))
    unfolding candidates_of mean_recall recalls_at_k
    sweep_nprobe docids search nlist m nprobe points =
        elim (candidates_of docids (search nlist m nprobe)) [
          | none ↦ none
          | some candidate_ids ↦
              elim (mean_recall (recalls_at_k ground_truth k dev_qids candidate_ids)) [
                | none ↦ none
                | some recall ↦ some (
                    points
                    ++ record { nlist = nlist; m = m; nprobe = nprobe; recall_at_100 = recall }
                      ∷ [])
              ]
        ]

    -- `sweep_ivfpq`, where a low recall is only printed
    unfoldable pub sweep_ivfpq :
        List ℕ
        → (ℕ → ℕ → ℕ → List (List (Option ℕ)))
        → List ℕ
        → List ℕ
        → List ℕ
        → Option (List (IvfpqPoint Score))
    unfolding sweep_nprobe for_each
    sweep_ivfpq docids search nlist_values m_values nprobe_values =
        for_each
          (λ nlist.
            for_each (λ m. for_each (sweep_nprobe docids search nlist m) nprobe_values) m_values)
          nlist_values []
