-- ===== src/Rank/Prerank/Survivors.antt =====
-- The candidates that the MLP lets through.
use Prim.Native.String.{String}
use mathlib.Core.Path.{subst}
use mathlib.Core.List.{Permᴰ}
use cascade_search_engine.Prelude.{
  ℕ, zero, suc, ◌≤◌, Bool, true, Option, some, List, [], ◌∷◌, map, take, drop, length, min, ◌≡◌,
  refl, sym, ap, ◌∙◌, arith, All, All-both, All-drop, All-take, All-of_forall, count_if, length-map,
  length-take, take-map, take-take,
}
use cascade_search_engine.Prelude.Keys.{Order, ◌<=◌, string_eq, is_in}
use cascade_search_engine.Prelude.Loops.{collect}
use cascade_search_engine.Sort.{sort, IsSorted, descending-IsTotal}
use cascade_search_engine.Sort.Laws.{sort-IsSorted, sort-permᴰ, length-sort}
use cascade_search_engine.Harness.Runs.{Candidates}
use cascade_search_engine.Rank.Prerank.{
  Floats, FeatureVector, FeatureScaler, is_encoded, score_candidates, feature_entry,
  survivors_for_query, prerank_consistency, transform,
}
use cascade_search_engine.Rank.Prerank.Training.{features_of_encoded, All-same}

-- In a sorted list, each of the first k may precede each of the others.
take-before-drop :
    {A : Type 0} (before : A → A → Bool) (k : ℕ) (xs : List A)
    → IsSorted before xs
    → All (λ low. All (λ high. before high low ≡ true) (take k xs)) (drop k xs)
take-before-drop before zero xs s = All-of_forall (λ low. Unit) (λ _. tt) xs
take-before-drop before (suc k) [] s = tt
take-before-drop before (suc k) (x ∷ xs) s =
    All-both (λ low. before x low ≡ true) (λ low. All (λ high. before high low ≡ true) (take k xs))
      (λ low. All (λ high. before high low ≡ true) (x ∷ take k xs)) (λ low a b. (a, b)) (drop k xs)
      (All-drop (λ low. before x low ≡ true) k xs s.0) (take-before-drop before k xs s.1)

map-perm : {A B : Type 0} (f : A → B) {xs ys : List A} → Permᴰ xs ys → Permᴰ (map f xs) (map f ys)
map-perm f Permᴰ.nil = Permᴰ.nil
map-perm f (Permᴰ.cons e p) = Permᴰ.cons (ap f e) (map-perm f p)
map-perm f (Permᴰ.swap e g) = Permᴰ.swap (ap f e) (ap f g)
map-perm f (Permᴰ.trans p q) = Permᴰ.trans (map-perm f p) (map-perm f q)

-- All are counted if each passes.
count_if-all :
    (p : String → Bool) (xs : List String) → All (λ x. p x ≡ true) xs → count_if p xs ≡ length xs
count_if-all p [] h = refl
count_if-all p (x ∷ xs) h = ground (arith, count_if-all p xs h.1)

module _ {F : Type 0} ⦃o : Order F⦄ (floats : Floats F) (logit : FeatureVector F → F)
    (dense_scores : String → String → Option F) (doc_lengths : String → String → Option ℕ)
    (encoded : (qid docid : String)
      → is_encoded floats dense_scores doc_lengths qid docid ≡ true
      → (n : ℕ) × (doc_lengths qid docid ≡ some n))
    (scaler : FeatureScaler F) (qid : String) where
  entries :
      (candidates : Candidates F)
      → All
          (λ (e : String × F). is_encoded floats dense_scores doc_lengths qid e.0 ≡ true)
          candidates
      → (query_features : List (String × FeatureVector F)) × (collect
            (feature_entry floats logit dense_scores doc_lengths qid)
            candidates
          ≡ some query_features)
        × (map (λ e. e.0) query_features ≡ map (λ e. e.0) candidates)
  unfolding collect feature_entry
  entries [] h = ([], refl, refl)
  entries ((docid, bm25_score) ∷ candidates) h =
      let (f, built) =
        features_of_encoded floats dense_scores doc_lengths encoded qid docid bm25_score h.0 in
      let (rest, collected, same) = entries candidates h.1 in
      (
        (docid, f) ∷ rest,
        rw (built, collect, feature_entry) (rw collected refl),
        ap (λ ids. docid ∷ ids) same,
      )

  score_candidates-docids :
      (query_features : List (String × FeatureVector F))
      → map (λ e. e.0) (score_candidates floats logit scaler query_features)
        ≡ map (λ e. e.0) query_features
  unfolding score_candidates
  score_candidates-docids [] = refl
  score_candidates-docids (e ∷ es) = ap (λ ids. e.0 ∷ ids) (score_candidates-docids es)

  -- of the best j, all are among the best k
  abbrev docids_of : Candidates F → List String
  docids_of = map (λ e. e.0)

  prefix-consistency :
      (j k : ℕ) (ids : List String)
      → j ≤ k
      → prerank_consistency (take j ids) (take k ids) ≡ (length (take j ids), length (take j ids))
  unfolding prerank_consistency
  prefix-consistency j k ids h =
      ap (λ n. (n, length (take j ids)))
        (count_if-all (λ d. is_in d (take k ids)) (take j ids)
          (subst (λ l. All (λ d. is_in d (take k ids) ≡ true) l) (take-take j k ids h)
            (All-take (λ d. is_in d (take k ids) ≡ true) j (take k ids) (All-same (take k ids)))))

  -- If all candidates have features, no lookup fails. The candidates are ranked by the logits of their
  -- scaled features, and the survivors are the first top_k of that order, or all: none that is left out has
  -- a greater logit than a survivor, and the consistency with the best j by that order is whole for each j
  -- up to top_k.
  pub survivors_for_query-consistency :
      (candidates : Candidates F) (top_k j : ℕ)
      → All
          (λ (e : String × F). is_encoded floats dense_scores doc_lengths qid e.0 ≡ true)
          candidates
      → j ≤ top_k
      → (ranked : Candidates F) × (survivors : List String) × (survivors_for_query floats logit
            dense_scores doc_lengths scaler candidates qid top_k
          ≡ some survivors)
        × Permᴰ (map (λ e. e.0) ranked) (map (λ e. e.0) candidates)
        × (query_features : List (String × FeatureVector F)) × (collect
              (feature_entry floats logit dense_scores doc_lengths qid)
              candidates
            ≡ some query_features)
        × Permᴰ ranked (map (λ e. (e.0, logit (transform floats scaler e.1))) query_features)
        × (survivors ≡ map (λ e. e.0) (take top_k ranked))
        × (length survivors ≡ min top_k (length candidates))
        × All
            (λ low. All (λ high. (low.1 <= high.1) ≡ true) (take top_k ranked))
            (drop top_k ranked)
        × (prerank_consistency (take j (map (λ e. e.0) ranked)) survivors
            ≡ (length (take j (map (λ e. e.0) ranked)), length (take j (map (λ e. e.0) ranked))))
  unfolding survivors_for_query
  survivors_for_query-consistency candidates top_k j h k =
      let (query_features, collected, same) = entries candidates h in
      let scored = score_candidates floats logit scaler query_features in
      let before : String × F → String × F → Bool = λ a b. b.1 <= a.1 in
      let ranked = sort before scored in
      (
        ranked,
        map (λ e. e.0) (take top_k ranked),
        rw (collected, survivors_for_query) refl,
        subst (λ ids. Permᴰ (docids_of ranked) ids) (score_candidates-docids query_features ∙ same)
            (map-perm (λ e. e.0) (sort-permᴰ before scored)),
        query_features,
        collected,
        unfold score_candidates in sort-permᴰ before scored,
        refl,
        omega (
          arith,
          length-map {0, 0} (λ (e : String × F). e.0) (take top_k ranked),
          length-take {0} top_k ranked,
          length-sort before scored,
          length-map {0, 0} (λ (e : String × F). e.0) scored,
          length-map {0, 0} (λ (e : String × F). e.0) candidates,
          ap length (score_candidates-docids query_features ∙ same),
        ),
        take-before-drop before top_k ranked
            (sort-IsSorted (descending-IsTotal (λ (e : String × F). e.1)) scored),
        ap (prerank_consistency (take j (docids_of ranked)))
              (sym (take-map (λ e. e.0) top_k ranked))
            ∙ prefix-consistency j top_k (docids_of ranked) k,
      )
