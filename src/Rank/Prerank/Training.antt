-- ===== src/Rank/Prerank/Training.antt =====
-- The examples that the MLP is trained on.
use Prim.Native.String.{String}
use cascade_search_engine.Prelude.{
  ℕ, suc, ◌≤◌, Bool, true, false, not, Option, none, some, List, [], ◌∷◌, ◌++◌, map, take, length,
  concat, min, ltb, ◌||◌, ◌≡◌, refl, sym, ap, ◌∙◌, inl, inr, arith, All, All-imp, keep_if,
  length-append, length-take, append-nil, append_assoc, Bool-cases, Option-cases, if◌then◌else◌,
}
use cascade_search_engine.Prelude.Keys.{string_eq, ◌==◌, is_in}
use cascade_search_engine.Prelude.Counting.{is_in-of_keep_if}
use cascade_search_engine.Prelude.Perms.{All-in}
use mathlib.Core.Path.{subst}
use cascade_search_engine.Prelude.Loops.{for_each}
use cascade_search_engine.Harness.Runs.{Candidates, Run, get_item}
use cascade_search_engine.Harness.Metrics.{Qrels, get_or}
use cascade_search_engine.Rank.Prerank.{
  Floats, FeatureVector, Examples, Choice, is_encoded, features_of, add_example, available_of,
  positives_of, pool_of, add_positive, add_query, build_training_examples,
}

-- numpy draws as many as it is asked for, from the pool.
abbrev pub IsChoice : {Rng : Type 0} → Choice Rng → Type 0
IsChoice {Rng} choice =
    (rng : Rng) (pool : List String) (n : ℕ)
    → n ≤ length pool
    → (length (choice rng pool n).0 ≡ n) × All (λ d. is_in d pool ≡ true) (choice rng pool n).0

get_item-in :
    {V : Type 0} (key : String) (d : List (String × V))
    → is_in key (map (λ e. e.0) d) ≡ true
    → (v : V) × (get_item key d ≡ some v)
unfolding get_item
get_item-in key [] h = absurd (cc h)
get_item-in key ((k, v) ∷ d) h = elim (Bool-cases (k == key)) [
  | inl same ↦ (v, ap (λ b. if b then some v else get_item key d) same)
  | inr other ↦
      let (w, found) =
        get_item-in key d (ap (λ b. b || is_in key (map (λ e. e.0) d)) (sym other) ∙ h) in
      (w, ap (λ b. if b then some v else get_item key d) other ∙ found)
]

same_zeros :
    (xs ys : List String) → length xs ≡ length ys → map (λ _. false) xs ≡ map (λ _. false) ys
same_zeros [] [] e = refl
same_zeros [] (y ∷ ys) e = absurd (omega arith)
same_zeros (x ∷ xs) [] e = absurd (omega arith)
same_zeros (x ∷ xs) (y ∷ ys) e = ap (λ l. false ∷ l) (same_zeros xs ys (omega arith))

All-negatives :
    (available ds : List String)
    → All (λ d. is_in d available ≡ true) ds
    → All (λ (e : String × Bool). is_in e.0 available ≡ true) (map (λ d. (d, false)) ds)
All-negatives available [] h = tt
All-negatives available (d ∷ ds) h = (h.0, All-negatives available ds h.1)

map-negatives :
    (ds : List String)
    → map (λ (e : String × Bool). e.1) (map (λ d. (d, false)) ds) ≡ map (λ _. false) ds
map-negatives [] = refl
map-negatives (d ∷ ds) = ap (λ l. false ∷ l) (map-negatives ds)

map_self : (ds : List String) → map (λ (d : String). d) ds ≡ ds
map_self [] = refl
map_self (d ∷ ds) = ap (λ l. d ∷ l) (map_self ds)

pub All-same : (ds : List String) → All (λ d. is_in d ds ≡ true) ds
All-same ds = subst (λ l. All (λ d. is_in d l ≡ true) ds) (map_self ds) (All-in (λ d. d) ds)

module _ {F : Type 0} (floats : Floats F) (dense_scores : String → String → Option F)
    (doc_lengths : String → String → Option ℕ)
    (encoded : (qid docid : String)
      → is_encoded floats dense_scores doc_lengths qid docid ≡ true
      → (n : ℕ) × (doc_lengths qid docid ≡ some n)) where
  pub features_of_encoded :
      (qid docid : String) (bm25_score : F)
      → is_encoded floats dense_scores doc_lengths qid docid ≡ true
      → (f : FeatureVector F) × (features_of floats dense_scores doc_lengths qid docid bm25_score
          ≡ some f)
  unfolding features_of
  features_of_encoded qid docid bm25_score h =
      let (n, long) = encoded qid docid h in
      elim (Option-cases (dense_scores qid docid)) [
        | inl missing ↦
            absurd (
              cc (ap (λ (o : Option F). elim o [ none ↦ false | some _ ↦ true ]) (sym missing) ∙ h))
        | inr (dense, found) ↦ (
          record { bm25_score = bm25_score; dense_score = dense; doc_length = floats.of_nat n },
          rw (found, features_of) (rw long refl),
        )
      ]

module _ {F Rng : Type 0} (floats : Floats F) (choice : Choice Rng)
    (dense_scores : String → String → Option F) (doc_lengths : String → String → Option ℕ)
    (encoded : (qid docid : String)
      → is_encoded floats dense_scores doc_lengths qid docid ≡ true
      → (n : ℕ) × (doc_lengths qid docid ≡ some n)) where
  -- the examples so far with more behind them
  abbrev more : Examples floats Rng → List (FeatureVector F) → List Bool → Examples floats Rng
  more s fs ls = record s { features = s.features ++ fs; labels = s.labels ++ ls }

  more-more :
      (s : Examples floats Rng) (fs gs : List (FeatureVector F)) (ls ms : List Bool)
      → more (more s fs ls) gs ms ≡ more s (fs ++ gs) (ls ++ ms)
  more-more s fs gs ls ms =
      ground (arith, append_assoc s.features fs gs, append_assoc s.labels ls ms)

  more_nil : (s : Examples floats Rng) → s ≡ more s [] []
  more_nil s = ground (arith, append-nil s.features, append-nil s.labels)

  -- what a loop that does not raise adds, as many features as labels
  abbrev Adds : Option (Examples floats Rng) → Examples floats Rng → List Bool → Type 0
  Adds result s ls =
      (fs : List (FeatureVector F)) × (result ≡ some (more s fs ls)) × (length fs ≡ length ls)

  add_example-Adds :
      (qid : String) (candidates : Candidates F) (docid : String) (label : Bool)
      (s : Examples floats Rng)
      → is_in docid (available_of floats choice dense_scores doc_lengths qid candidates) ≡ true
      → Adds
          (add_example floats choice dense_scores doc_lengths qid candidates (docid, label) s)
          s
          (label ∷ [])
  unfolding add_example
  add_example-Adds qid candidates docid label s h =
      let test : String → Bool = is_encoded floats dense_scores doc_lengths qid in
      let (known, listed) = is_in-of_keep_if test docid (map (λ e. e.0) candidates) h in
      let (bm25_score, scored) = get_item-in docid candidates listed in
      let (f, built) =
        features_of_encoded floats dense_scores doc_lengths encoded qid docid bm25_score known in
      (f ∷ [], rw (scored, add_example) (rw built refl), refl)

  add_examples-Adds :
      (qid : String) (candidates : Candidates F) (docs : List (String × Bool))
      (s : Examples floats Rng)
      → All
          (λ d.
            is_in d.0 (available_of floats choice dense_scores doc_lengths qid candidates) ≡ true)
          docs
      → Adds
          (for_each (add_example floats choice dense_scores doc_lengths qid candidates) docs s)
          s
          (map (λ d. d.1) docs)
  unfolding for_each
  add_examples-Adds qid candidates [] s h = ([], ap some (more_nil s), refl)
  add_examples-Adds qid candidates ((docid, label) ∷ docs) s h =
      let (fs, added, one) = add_example-Adds qid candidates docid label s h.0 in
      let (gs, then_added, rest) =
        add_examples-Adds qid candidates docs (more s fs (label ∷ [])) h.1 in
      (
        fs ++ gs,
        rw (added, for_each) then_added
            ∙ ap some (more-more s fs gs (label ∷ []) (map (λ d. d.1) docs)),
        omega (arith, length-append fs gs, one, rest),
      )

  -- One label of a positive, and those of its negatives, if there is a positive.
  abbrev pub labels_for : ℕ → List String → List String → List Bool
  labels_for num_negatives available [] = []
  labels_for num_negatives available (positive ∷ _) =
      true
      ∷ map (λ _. false)
          (take num_negatives (pool_of floats choice dense_scores doc_lengths positive available))

  abbrev AddsDrawn : Option (Examples floats Rng) → Examples floats Rng → List Bool → Type 0
  AddsDrawn result s ls =
      (rng : Rng) × (fs : List (FeatureVector F)) × (result
        ≡ some (more (record s { rng = rng }) fs ls))
      × (length fs ≡ length ls)

  add_positive-AddsDrawn :
      IsChoice choice
      → (qid : String) (candidates : Candidates F) (num_negatives : ℕ) (positives : List String)
        (s : Examples floats Rng)
      → All
          (λ d. is_in d (available_of floats choice dense_scores doc_lengths qid candidates) ≡ true)
          positives
      → let available = available_of floats choice dense_scores doc_lengths qid candidates in
        AddsDrawn
          (add_positive floats choice dense_scores doc_lengths qid candidates num_negatives
            available positives s)
          s
          (labels_for num_negatives available positives)
  unfolding add_positive
  add_positive-AddsDrawn drawn qid candidates num_negatives [] s h =
      (s.rng, [], ap some (more_nil s), refl)
  add_positive-AddsDrawn drawn qid candidates num_negatives (positive ∷ others) s h =
      let available = available_of floats choice dense_scores doc_lengths qid candidates in
      let pool = pool_of floats choice dense_scores doc_lengths positive available in
      let size = min num_negatives (length pool) in
      let negatives = (choice s.rng pool size).0 in
      let rng = (choice s.rng pool size).1 in
      let (long, inside) = drawn s.rng pool size (ground arith) in
      let there : All (λ d. is_in d available ≡ true) negatives =
        All-imp (λ d. is_in d pool ≡ true) (λ d. is_in d available ≡ true)
          (λ d k. (is_in-of_keep_if (λ x. not (x == positive)) d available k).1) negatives inside in
      let (fs, added, many) =
        add_examples-Adds qid candidates ((positive, true) ∷ map (λ d. (d, false)) negatives)
          (record s { rng = rng }) (h.0, All-negatives available negatives there) in
      let zeros : map (λ d. d.1) (map (λ d. (d, false)) negatives)
          ≡ map (λ _. false) (take num_negatives pool) =
        map-negatives negatives
        ∙ same_zeros negatives (take num_negatives pool)
            (omega (arith, long, length-take num_negatives pool)) in
      (
        rng,
        fs,
        added ∙ ap (λ l. some (more (record s { rng = rng }) fs (true ∷ l))) zeros,
        many ∙ ap (λ l. suc (length l)) zeros,
      )

  module _ (drawn : IsChoice choice) (dev_qrels : Qrels) (num_negatives : ℕ) where
    -- the labels of a query, whose positives are its encoded candidates that are judged above 0
    abbrev pub labels_of : String × Candidates F → List Bool
    labels_of (qid, candidates) =
        let available = available_of floats choice dense_scores doc_lengths qid candidates in
        labels_for num_negatives available
          (positives_of floats choice dense_scores doc_lengths (get_or [] qid dev_qrels) available)

    add_queries-AddsDrawn :
        (run : Run F) (s : Examples floats Rng)
        → AddsDrawn
            (for_each
              (add_query floats choice dense_scores doc_lengths dev_qrels num_negatives)
              run
              s)
            s
            (concat (map labels_of run))
    unfolding for_each add_query
    add_queries-AddsDrawn [] s = (s.rng, [], ap some (more_nil s), refl)
    add_queries-AddsDrawn ((qid, candidates) ∷ run) s =
        let available = available_of floats choice dense_scores doc_lengths qid candidates in
        let judged : String → Bool = λ d. ltb 0 (get_or 0 d (get_or [] qid dev_qrels)) in
        let positives = keep_if judged available in
        let here : All (λ d. is_in d available ≡ true) positives =
          All-imp (λ d. is_in d positives ≡ true) (λ d. is_in d available ≡ true)
            (λ d k. (is_in-of_keep_if judged d available k).1) positives (All-same positives) in
        let (rng, fs, added, one) =
          add_positive-AddsDrawn drawn qid candidates num_negatives positives s here in
        let (rng', gs, then_added, rest) =
          add_queries-AddsDrawn run
            (more (record s { rng = rng }) fs (labels_for num_negatives available positives)) in
        (
          rng',
          fs ++ gs,
          rw (added, for_each) then_added
              ∙ ap some (
                  more-more (record s { rng = rng' }) fs gs
                    (labels_for num_negatives available positives) (concat (map labels_of run))),
          omega (
            arith,
            length-append fs gs,
            one,
            rest,
            length-append (labels_for num_negatives available positives)
                (concat (map labels_of run)),
          ),
        )

    -- If the dense scores come with lengths and numpy draws from the pool as many as it is asked for, no
    -- lookup fails: the features and labels are as many, and the labels are, for each query with an encoded
    -- candidate that is judged above 0, in order, one of a positive and up to num_negatives of others, as
    -- far as there are.
    pub build_training_examples-labels :
        (dev_run : Run F) (rng : Rng)
        → (features : List (FeatureVector F)) × (build_training_examples floats choice dense_scores
              doc_lengths dev_run dev_qrels rng num_negatives
            ≡ some (features, concat (map labels_of dev_run)))
          × (length features ≡ length (concat (map labels_of dev_run)))
    unfolding build_training_examples
    build_training_examples-labels dev_run rng =
        let (rng', fs, added, many) =
          add_queries-AddsDrawn dev_run (record { rng = rng; features = []; labels = [] }) in
        (fs, rw (added, build_training_examples) refl, many)
