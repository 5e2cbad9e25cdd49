-- ===== src/Rank/Cascade/Query.antt =====
-- What one query adds to the cascade's run.
use Prim.Native.String.{String}
use mathlib.Core.Path.{subst}
use mathlib.Core.List.{Permᴰ}
use mathlib.Core.List.Permᴰ
use cascade_search_engine.Prelude.{
  ℕ, ◌<◌, true, Option, some, List, [], ◌∷◌, ◌++◌, map, take, length, min, keep_if, ◌≡◌, refl, sym,
  ap, ◌∙◌, arith, All, All-imp, All-take, length-keep_if, take-map,
}
use cascade_search_engine.Prelude.Keys.{Order, string_eq, is_in, Distinct}
use cascade_search_engine.Prelude.Perms.{Distinct-perm, is_in-perm}
use cascade_search_engine.Prelude.Counting.{count_if-is_in}
use cascade_search_engine.Prelude.Loops.{collect, collect-map}
use cascade_search_engine.Harness.Runs.{Candidates, get_item, set_item}
use cascade_search_engine.Harness.Runs.RoundTrip.{Distinct-take}
use cascade_search_engine.Rank.CrossEncoder.{Pair}
use cascade_search_engine.Rank.CrossEncoder.Chunks.{score-alone}
use cascade_search_engine.Rank.Prerank.{
  Floats, FeatureVector, FeatureScaler, is_encoded, survivors_for_query, prerank_consistency,
}
use cascade_search_engine.Rank.Prerank.Training.{All-same}
use cascade_search_engine.Rank.Prerank.Survivors.{survivors_for_query-consistency}
use cascade_search_engine.Rank.Cascade.{
  zip, Texts, pair_of, Fused, top_docids, survivors_scored, cascade_query,
}

abbrev add_entry : {F : Type 0} → String → ℕ × ℕ → Candidates F → Fused F → Fused F
add_entry qid consistency entry s = record s {
  consistency_scores = s.consistency_scores ++ consistency ∷ [];
  fused_run = set_item qid entry s.fused_run;
}

zip-map :
    {A B C : Type 0} (f : B → C) (g : A → B) (xs : List A)
    → zip xs (map f (map g xs)) ≡ map (λ x. (x, f (g x))) xs
unfolding zip
zip-map f g [] = refl
zip-map f g (x ∷ xs) = ap (◌∷◌ (x, f (g x))) (zip-map f g xs)

map-first :
    {A B : Type 0} (f : A → B) (xs : List A)
    → map (λ (e : A × B). e.0) (map (λ x. (x, f x)) xs) ≡ xs
map-first f [] = refl
map-first f (x ∷ xs) = ap (◌∷◌ x) (map-first f xs)

pair_of-some :
    (queries candidate_texts : Texts) (qid docid query passage : String)
    → get_item qid queries ≡ some query
    → get_item docid candidate_texts ≡ some passage
    → pair_of queries candidate_texts qid docid ≡ some (query, passage)
unfolding pair_of
pair_of-some queries candidate_texts qid docid query passage h k = rw (h, pair_of, k) refl

module _ {F : Type 0} ⦃o : Order F⦄ (floats : Floats F) (logit : FeatureVector F → F)
    (dense_scores : String → String → Option F) (doc_lengths : String → String → Option ℕ)
    (candidate_texts : Texts) (query_of passage_of : String → String) where
  -- Every lookup that the query needs succeeds, and no candidate comes twice.
  pub record IsPresent (queries : Texts) (q : String × Candidates F) : Type 0 where
    pub asked : get_item q.0 queries ≡ some (query_of q.0)
    pub passages :
        All (λ (d : String). get_item d candidate_texts ≡ some (passage_of d)) (map (λ e. e.0) q.1)
    pub candidates_encoded :
        All (λ (e : String × F). is_encoded floats dense_scores doc_lengths q.0 e.0 ≡ true) q.1
    pub distinct : Distinct (map (λ (e : String × F). e.0) q.1)

module _ {F : Type 0} ⦃o : Order F⦄ (k : ℕ) (f : Pair → F)
    (query_of passage_of : String → String) where
  -- the score of a candidate by the full ranker
  abbrev pub full_score : String → String → F
  full_score qid docid = f (query_of qid, passage_of docid)

  -- The survivors, in the order of the candidates, each with its score by the full ranker.
  abbrev pub rescored : String → List String → List String → Candidates F
  rescored qid survivors docids =
      keep_if (λ (e : String × F). is_in e.0 survivors) (map (λ d. (d, full_score qid d)) docids)

  -- As many are kept as there are survivors.
  length-rescored :
      (qid : String) (ranked : Candidates F) (docids : List String)
      → Permᴰ (map (λ e. e.0) ranked) docids
      → Distinct docids
      → length (rescored qid (map (λ e. e.0) (take k ranked)) docids)
        ≡ length (map (λ (e : String × F). e.0) (take k ranked))
  length-rescored qid ranked docids p d =
      let ids = map (λ (e : String × F). e.0) ranked in
      let survivors = map (λ (e : String × F). e.0) (take k ranked) in
      let xs = map (λ d. (d, full_score qid d)) docids in
      let same = map-first (full_score qid) docids in
      let found : All (λ a. is_in a (map (λ (e : String × F). e.0) xs) ≡ true) survivors =
        All-imp (λ a. is_in a ids ≡ true) _ (λ a h. ap (is_in a) same ∙ sym (is_in-perm a p) ∙ h)
          survivors
          (subst (All (λ a. is_in a ids ≡ true)) (take-map (λ (e : String × F). e.0) k ranked)
            (All-take (λ a. is_in a ids ≡ true) k ids (All-same ids))) in
      length-keep_if (λ (e : String × F). is_in e.0 survivors) xs
      ∙ count_if-is_in (λ (e : String × F). e.0) survivors xs
          (Distinct-take k ranked (Distinct-perm (Permᴰ.symm p) d)) (subst Distinct (sym same) d)
          found

module _ {F : Type 0} ⦃o : Order F⦄ (floats : Floats F) (logit : FeatureVector F → F)
    (dense_scores : String → String → Option F) (doc_lengths : String → String → Option ℕ)
    (encoded : (qid docid : String)
      → is_encoded floats dense_scores doc_lengths qid docid ≡ true
      → (n : ℕ) × (doc_lengths qid docid ≡ some n))
    (scaler : FeatureScaler F) (session : List Pair → List F) (f : Pair → F)
    (alone : (chunk : List Pair) → session chunk ≡ map f chunk) (chunk_size : ℕ)
    (chunked : 0 < chunk_size) (candidate_texts : Texts) (k : ℕ)
    (query_of passage_of : String → String) where
  abbrev docids_of : Candidates F → List String
  docids_of = map (λ (e : String × F). e.0)

  -- If the lookups of a query succeed, none of its candidates comes twice and the session scores each pair
  -- by itself, the body of the loop returns. It adds one consistency, and the query's entry in the run: the
  -- survivors of the pre-ranker, k of them or all candidates, in the order of the candidates, each with its
  -- own score by the full ranker.
  pub cascade_query-adds :
      (queries : Texts) (q : String × Candidates F) (s : Fused F)
      → IsPresent floats logit dense_scores doc_lengths candidate_texts query_of passage_of queries
          q
      → (survivors : List String) × (consistency : ℕ × ℕ) × (s' : Fused F) × (survivors_for_query
            floats logit dense_scores doc_lengths scaler q.1 q.0 k
          ≡ some survivors)
        × (cascade_query floats logit dense_scores doc_lengths scaler session chunk_size
              candidate_texts k queries q s
            ≡ some s')
        × (s'.fused_run
            ≡ set_item q.0
                (rescored k f query_of passage_of q.0 survivors (docids_of q.1))
                s.fused_run)
        × (s'.consistency_scores ≡ s.consistency_scores ++ consistency ∷ [])
        × (s'.fused_qrels ≡ s.fused_qrels)
        × (length (rescored k f query_of passage_of q.0 survivors (docids_of q.1))
            ≡ min k (length q.1))
  unfolding cascade_query survivors_scored
  cascade_query-adds queries q s h =
      let docids = docids_of q.1 in
      let pair : String → Pair = λ d. (query_of q.0, passage_of d) in
      let pairs = map pair docids in
      let looked_up : collect (pair_of queries candidate_texts q.0) docids ≡ some pairs =
        collect-map (pair_of queries candidate_texts q.0) pair docids (
          All-imp (λ d. get_item d candidate_texts ≡ some (passage_of d)) _
            (λ d found. pair_of-some queries candidate_texts q.0 d _ _ h.asked found) docids
            h.passages) in
      let (chunks, scores) = score-alone session f alone chunk_size chunked pairs in
      let (ranked, survivors, lets_through, perm, _, _, _, are, count, _, _) =
        survivors_for_query-consistency floats logit dense_scores doc_lengths encoded scaler q.0 q.1
          k 0 h.candidates_encoded (omega arith) in
      let all_scores = map f pairs in
      let entry = rescored k f query_of passage_of q.0 survivors docids in
      let consistency = prerank_consistency (top_docids k docids all_scores) survivors in
      let zipped : survivors_scored survivors docids all_scores ≡ entry =
        ap (keep_if (λ (e : String × F). is_in e.0 survivors)) (zip-map f pair docids) in
      (
        survivors,
        consistency,
        add_entry q.0 consistency entry s,
        lets_through,
        rw (looked_up, cascade_query, scores, lets_through)
            (ap (λ entries. some (add_entry q.0 consistency entries s)) zipped),
        refl,
        refl,
        refl,
        ap (λ l. length (rescored k f query_of passage_of q.0 l docids)) are
            ∙ length-rescored k f query_of passage_of q.0 ranked docids perm h.distinct
            ∙ ap length (sym are)
            ∙ count,
      )
