-- ===== src/Dense/Sweep/Grid.antt =====
-- What the two sweeps return.
use Prim.Native.String.{String}
use cascade_search_engine.Prelude.{
  ℕ, ◌≤◌, Bool, true, false, not, ◌&&◌, ◌||◌, Option, none, some, List, [], ◌∷◌, ◌++◌, map, length,
  concat, any, All, All-of_forall, count_if-le-length, append-nil, append_assoc, nat_beq, ◌≡◌, refl,
  sym, ap, ◌∙◌, inl, inr, arith, Bool-cases, if◌then◌else◌,
}
use cascade_search_engine.Prelude.Keys.{Order, ◌<=◌, nat_eq, is_in}
use cascade_search_engine.Prelude.Loops.{for_each, for_each-append}
use cascade_search_engine.Harness.Runs.{get_item}
use cascade_search_engine.Dense.Sweep.{
  recall_at_k, GroundTruth, recalls_at_k, Mean, HnswPoint, IvfpqPoint, max_of, mean_recall,
  sweep_ef, sweep_m, sweep_hnsw, candidates_of, sweep_nprobe, sweep_ivfpq,
}

-- The mean of numbers between 0 and 1 is one.
abbrev pub IsMean : {Score : Type 0} ⦃o : Order Score⦄ → Mean Score → Type 0
IsMean means =
    (r : ℕ × ℕ) (rs : List (ℕ × ℕ))
    → All (λ (q : ℕ × ℕ). q.0 ≤ q.1) (r ∷ rs)
    → ((means.nil <= means.mean (r ∷ rs)) ≡ true) × ((means.mean (r ∷ rs) <= means.one) ≡ true)

if_not : {A : Type 0} (b : Bool) (x y : A) → (if not b then x else y) ≡ (if b then y else x)
if_not true x y = refl
if_not false x y = refl

recall_at_k-le :
    (candidates exact : List ℕ) (k : ℕ)
    → (recall_at_k candidates exact k).0 ≤ (recall_at_k candidates exact k).1
unfolding recall_at_k
recall_at_k-le candidates exact k = count_if-le-length (λ d. is_in d candidates) _

max_of-in : (x : ℕ) (xs : List ℕ) → is_in (max_of (x ∷ xs)) (x ∷ xs) ≡ true
max_of-in x [] = ground arith
max_of-in x (y ∷ xs) = ground (arith, max_of-in y xs)

module _ {Score : Type 0} (ground_truth : GroundTruth Score) where
  -- the docids of the exact ranking of a query
  abbrev exact_of : String → List ℕ
  exact_of qid = elim (get_item qid ground_truth) [ none ↦ [] | some exact ↦ map (λ e. e.0) exact ]

  abbrev pub Known : List String → Type 0
  Known = All (λ qid. (exact : List (ℕ × Score)) × (get_item qid ground_truth ≡ some exact))

module _ {Score : Type 0} (ground_truth : GroundTruth Score) (k : ℕ) where
  -- each query's recall of its own row
  abbrev pub recalls : List String → List (List ℕ) → List (ℕ × ℕ)
  recalls (qid ∷ qids) (row ∷ labels) =
      recall_at_k row (exact_of ground_truth qid) k ∷ recalls qids labels
  recalls _ _ = []

  recalls_at_k-eq :
      (qids : List String) (labels : List (List ℕ))
      → Known ground_truth qids
      → length labels ≡ length qids
      → recalls_at_k ground_truth k qids labels ≡ some (recalls qids labels)
  unfolding recalls_at_k
  recalls_at_k-eq [] labels known e = refl
  recalls_at_k-eq (qid ∷ qids) [] known e = absurd (omega arith)
  recalls_at_k-eq (qid ∷ qids) (row ∷ labels) known e =
      let (exact, found) = known.0 in
      rw (found, recalls_at_k)
        (rw (recalls_at_k-eq qids labels known.1 (omega arith)) (
          ap (λ ids. some (recall_at_k row ids k ∷ recalls qids labels))
            (sym (ap (λ r. elim r [ none ↦ [] | some e ↦ map (λ p. p.0) e ]) found))))

  recalls-le :
      (qids : List String) (labels : List (List ℕ)) → All (λ q. q.0 ≤ q.1) (recalls qids labels)
  recalls-le [] labels = tt
  recalls-le (qid ∷ qids) [] = tt
  recalls-le (qid ∷ qids) (row ∷ labels) =
      (recall_at_k-le row (exact_of ground_truth qid) k, recalls-le qids labels)

module _ {Score : Type 0} ⦃o : Order Score⦄ (means : Mean Score) (mean : IsMean means)
    (ground_truth : GroundTruth Score) (k : ℕ) (qid : String) (qids : List String)
    (known : Known ground_truth (qid ∷ qids)) where
  -- the mean recall of answers to the queries
  abbrev pub mean_of : List (List ℕ) → Score
  mean_of labels = means.mean (recalls ground_truth k (qid ∷ qids) labels)

  mean_recall-eq :
      (labels : List (List ℕ))
      → length labels ≡ length (qid ∷ qids)
      → mean_recall means (recalls_at_k ground_truth k (qid ∷ qids) labels) ≡ some (mean_of labels)
  unfolding mean_recall
  mean_recall-eq [] e = absurd (omega arith)
  mean_recall-eq (row ∷ labels) e =
      let rs = recalls ground_truth k qids labels in
      let r = recall_at_k row (exact_of ground_truth qid) k in
      let (low, high) = mean r rs (recalls-le ground_truth k (qid ∷ qids) (row ∷ labels)) in
      ap (mean_recall means) (recalls_at_k-eq ground_truth k (qid ∷ qids) (row ∷ labels) known e)
      ∙ ap
          (λ b.
            if b && (means.mean (r ∷ rs) <= means.one) then some (means.mean (r ∷ rs)) else none)
          low
      ∙ ap (λ b. if b then some (means.mean (r ∷ rs)) else none) high

  module _ (knn_query : ℕ → ℕ → List (List ℕ))
      (answers : (m ef : ℕ) → length (knn_query m ef) ≡ length (qid ∷ qids)) where
    abbrev pub hnsw_point : ℕ → ℕ → HnswPoint Score
    hnsw_point m ef = record { m = m; ef_search = ef; recall_at_100 = mean_of (knn_query m ef) }

    sweep_ef-eq :
        (largest m ef : ℕ) (points : List (HnswPoint Score)) (at_max : Option Score)
        → sweep_ef means ground_truth k (qid ∷ qids) knn_query largest m ef (points, at_max)
          ≡ some (
            points ++ hnsw_point m ef ∷ [],
            if nat_beq ef largest then some (mean_of (knn_query m ef)) else at_max,
          )
    unfolding sweep_ef
    sweep_ef-eq largest m ef points at_max =
        rw (mean_recall-eq (knn_query m ef) (answers m ef), sweep_ef) refl

    -- the recall at the largest value, if a value before or among these is the largest
    abbrev recall_at : ℕ → ℕ → List ℕ → Option Score → Option Score
    recall_at largest m [] at_max = at_max
    recall_at largest m (ef ∷ efs) at_max =
        recall_at largest m efs
          (if nat_beq ef largest then some (mean_of (knn_query m ef)) else at_max)

    sweep_efs-eq :
        (largest m : ℕ) (efs : List ℕ) (points : List (HnswPoint Score)) (at_max : Option Score)
        → for_each
            (sweep_ef means ground_truth k (qid ∷ qids) knn_query largest m)
            efs
            (points, at_max)
          ≡ some (points ++ map (hnsw_point m) efs, recall_at largest m efs at_max)
    unfolding for_each
    sweep_efs-eq largest m [] points at_max = ap (λ p. some (p, at_max)) (sym (append-nil points))
    sweep_efs-eq largest m (ef ∷ efs) points at_max =
        let next : Option Score =
          if nat_beq ef largest then some (mean_of (knn_query m ef)) else at_max in
        rw (sweep_ef-eq largest m ef points at_max, for_each)
          (sweep_efs-eq largest m efs (points ++ hnsw_point m ef ∷ []) next
            ∙ ap (λ p. some (p, recall_at largest m efs next))
                (append_assoc points (hnsw_point m ef ∷ []) (map (hnsw_point m) efs)))

    recall_at_seen :
        (largest m : ℕ) (efs : List ℕ)
        → recall_at largest m efs (some (mean_of (knn_query m largest)))
          ≡ some (mean_of (knn_query m largest))
    recall_at_seen largest m [] = refl
    recall_at_seen largest m (ef ∷ efs) = elim (Bool-cases (nat_beq ef largest)) [
      | inl same ↦
          ap
            (λ b.
              recall_at largest m efs (
                if b
                then some (mean_of (knn_query m ef))
                else some (mean_of (knn_query m largest))))
            same
          ∙ ap (λ e. recall_at largest m efs (some (mean_of (knn_query m e))))
              ((nat_eq.is_same-iff ef largest).0 same)
          ∙ recall_at_seen largest m efs
      | inr other ↦
          ap
            (λ b.
              recall_at largest m efs (
                if b
                then some (mean_of (knn_query m ef))
                else some (mean_of (knn_query m largest))))
            other
          ∙ recall_at_seen largest m efs
    ]

    recall_at-in :
        (largest m : ℕ) (efs : List ℕ) (at_max : Option Score)
        → is_in largest efs ≡ true
        → recall_at largest m efs at_max ≡ some (mean_of (knn_query m largest))
    recall_at-in largest m [] at_max h = absurd (cc h)
    recall_at-in largest m (ef ∷ efs) at_max h = elim (Bool-cases (nat_beq ef largest)) [
      | inl same ↦
          ap (λ b. recall_at largest m efs (if b then some (mean_of (knn_query m ef)) else at_max))
            same
          ∙ ap (λ e. recall_at largest m efs (some (mean_of (knn_query m e))))
              ((nat_eq.is_same-iff ef largest).0 same)
          ∙ recall_at_seen largest m efs
      | inr other ↦
          ap (λ b. recall_at largest m efs (if b then some (mean_of (knn_query m ef)) else at_max))
            other
          ∙ recall_at-in largest m efs at_max (ground arith)
    ]

    module _ (ef : ℕ) (efs : List ℕ) where
      -- the recall of the index with this m at the largest ef is not above 0.9
      abbrev pub is_low : ℕ → Bool
      is_low m = mean_of (knn_query m (max_of (ef ∷ efs))) <= means.nine_tenths

      sweep_m-eq :
          (m : ℕ) (points : List (HnswPoint Score))
          → sweep_m means ground_truth k (qid ∷ qids) knn_query (ef ∷ efs) m points
            ≡ (if is_low m then none else some (points ++ map (hnsw_point m) (ef ∷ efs)))
      unfolding sweep_m
      sweep_m-eq m points =
          rw (sweep_efs-eq (max_of (ef ∷ efs)) m (ef ∷ efs) points none, sweep_m)
            (rw (recall_at-in (max_of (ef ∷ efs)) m (ef ∷ efs) none (max_of-in ef efs))
              (if_not (is_low m) _ _))

      sweep_ms-eq :
          (ms : List ℕ) (points : List (HnswPoint Score))
          → for_each (sweep_m means ground_truth k (qid ∷ qids) knn_query (ef ∷ efs)) ms points ≡ (
              if any is_low ms
              then none
              else some (points ++ concat (map (λ m. map (hnsw_point m) (ef ∷ efs)) ms)))
      unfolding for_each
      sweep_ms-eq [] points = ap some (sym (append-nil points))
      sweep_ms-eq (m ∷ ms) points =
          let swept = points ++ map (hnsw_point m) (ef ∷ efs) in
          let rest = concat (map (λ n. map (hnsw_point n) (ef ∷ efs)) ms) in
          let goal : Bool → Option (List (HnswPoint Score)) = λ b.
            if b || any is_low ms
            then none
            else some (points ++ (map (hnsw_point m) (ef ∷ efs) ++ rest)) in
          elim (Bool-cases (is_low m)) [
            | inl low ↦
                rw (sweep_m-eq m points ∙ ap (λ b. if b then none else some swept) low, for_each)
                  (sym (ap goal low))
            | inr high ↦
                rw (sweep_m-eq m points ∙ ap (λ b. if b then none else some swept) high, for_each)
                  (sweep_ms-eq ms swept
                    ∙ ap (λ p. if any is_low ms then none else some p)
                        (append_assoc points (map (hnsw_point m) (ef ∷ efs)) rest)
                    ∙ sym (ap goal high))
          ]

      -- If the index answers each query, and each has an exact ranking, no assertion on a mean fails; the
      -- sweep raises exactly if for some m the recall at the largest ef is not above 0.9, and returns
      -- otherwise a point for each m and each ef, in this order, with the mean recall of its own answers.
      pub sweep_hnsw-eq :
          (ms : List ℕ)
          → sweep_hnsw means ground_truth k (qid ∷ qids) knn_query ms (ef ∷ efs) ≡ (
              if any is_low ms
              then none
              else some (concat (map (λ m. map (hnsw_point m) (ef ∷ efs)) ms)))
      unfolding sweep_hnsw
      sweep_hnsw-eq ms = sweep_ms-eq ms []

  module _ (docids : List ℕ) (search : ℕ → ℕ → ℕ → List (List (Option ℕ)))
      (rows : ℕ → ℕ → ℕ → List (List ℕ))
      (found : (nlist m nprobe : ℕ)
        → candidates_of docids (search nlist m nprobe) ≡ some (rows nlist m nprobe))
      (answers : (nlist m nprobe : ℕ) → length (rows nlist m nprobe) ≡ length (qid ∷ qids)) where
    abbrev ivfpq_point : ℕ → ℕ → ℕ → IvfpqPoint Score
    ivfpq_point nlist m nprobe = record {
      nlist = nlist;
      m = m;
      nprobe = nprobe;
      recall_at_100 = mean_of (rows nlist m nprobe);
    }

    sweep_nprobe-eq :
        (nlist m nprobe : ℕ) (points : List (IvfpqPoint Score))
        → sweep_nprobe means ground_truth k (qid ∷ qids) docids search nlist m nprobe points
          ≡ some (points ++ ivfpq_point nlist m nprobe ∷ [])
    unfolding sweep_nprobe
    sweep_nprobe-eq nlist m nprobe points =
        rw (found nlist m nprobe, sweep_nprobe)
          (rw (mean_recall-eq (rows nlist m nprobe) (answers nlist m nprobe)) refl)

    -- Where the positions are those of documents and each query has a row and an exact ranking, the sweep returns
    -- a point for each nlist, each m and each nprobe, in this order, with the mean recall of its own answers.
    sweep_ivfpq-eq :
        (nlists ms nprobes : List ℕ)
        → sweep_ivfpq means ground_truth k (qid ∷ qids) docids search nlists ms nprobes
          ≡ some (
              concat (
                map
                  (λ nlist. concat (
                    map (λ m. concat (map (λ nprobe. ivfpq_point nlist m nprobe ∷ []) nprobes)) ms))
                  nlists))
    unfolding sweep_ivfpq
    sweep_ivfpq-eq nlists ms nprobes = for_each-append _ _ nlists [] (
        All-of_forall _
          (λ nlist points. for_each-append _ _ ms points (
            All-of_forall _
              (λ m points.
                for_each-append _ _ nprobes points
                  (All-of_forall _ (sweep_nprobe-eq nlist m) nprobes))
              ms))
          nlists)
