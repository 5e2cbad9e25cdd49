-- ===== src/Rank/Cascade/Whole.antt =====
-- The cascade over all query sets.
use Prim.Native.String.{String}
use mathlib.Core.Path.{subst}
use cascade_search_engine.Prelude.{
  ℕ, ◌<◌, ◌≤◌, true, false, Option, none, some, List, [], ◌∷◌, ◌++◌, map, length, ◌≡◌, refl, sym,
  ap, ◌∙◌, ◌⊎◌, inl, inr, arith, All, Bool-cases, append_assoc, length-append, leb, ltb, map-append,
  keep_if,
}
use cascade_search_engine.Prelude.Keys.{Order, string_eq, is_in, Distinct}
use cascade_search_engine.Prelude.Perms.{is_in-append, beq_comm}
use cascade_search_engine.Prelude.Loops.{for_each}
use cascade_search_engine.Harness.Runs.{Candidates, Run}
use cascade_search_engine.Harness.Metrics.{run_depth}
use cascade_search_engine.Harness.Metrics.Evaluate.{Gains, Metric, cutoff, evaluate}
use cascade_search_engine.Rank.CrossEncoder.{Pair}
use cascade_search_engine.Rank.Prerank.{Floats, FeatureVector, FeatureScaler, is_encoded}
use cascade_search_engine.Rank.Cascade.{
  Texts, QuerySet, Fused, cascade_query, cascade_set, concluded, conclude, divide_by_count,
  assert_deep, update,
}
use cascade_search_engine.Rank.Cascade.Query.{IsPresent, cascade_query-adds}
use cascade_search_engine.Rank.Cascade.Depth.{
  all_of, qids_of, sizes_of, set_item-sizes, Adds, Adds-none, Adds-append,
}

Distinct-fresh : (xs ys : List String) (y : String) → Distinct (xs ++ y ∷ ys) → is_in y xs ≡ false
Distinct-fresh [] ys y h = refl
Distinct-fresh (x ∷ xs) ys y h =
    ground (arith, is_in-append x xs (y ∷ ys), beq_comm x y, Distinct-fresh xs ys y h.1)

Distinct-of_append_left : (xs ys : List String) → Distinct (xs ++ ys) → Distinct xs
Distinct-of_append_left [] ys h = tt
Distinct-of_append_left (x ∷ xs) ys h =
    (ground (arith, is_in-append x xs ys), Distinct-of_append_left xs ys h.1)

module _ {F : Type 0} ⦃o : Order F⦄ (floats : Floats F) (logit : FeatureVector F → F)
    (dense_scores : String → String → Option F) (doc_lengths : String → String → Option ℕ)
    (encoded : (qid docid : String)
      → is_encoded floats dense_scores doc_lengths qid docid ≡ true
      → (n : ℕ) × (doc_lengths qid docid ≡ some n))
    (scaler : FeatureScaler F) (session : List Pair → List F) (f : Pair → F)
    (alone : (chunk : List Pair) → session chunk ≡ map f chunk) (chunk_size : ℕ)
    (chunked : 0 < chunk_size) (candidate_texts : Texts) (k : ℕ)
    (query_of passage_of : String → String) where
  abbrev pub Present : Texts → String × Candidates F → Type 0
  Present = IsPresent floats logit dense_scores doc_lengths candidate_texts query_of passage_of

  query_loop :
      (queries : Texts) (run : Run F) (s : Fused F)
      → All (Present queries) run
      → Distinct (qids_of s.fused_run ++ qids_of run)
      → (t : Fused F) × (for_each
            (cascade_query floats logit dense_scores doc_lengths scaler session chunk_size
              candidate_texts k queries)
            run
            s
          ≡ some t)
        × Adds k run s t
  unfolding for_each
  query_loop queries [] s h d = (s, refl, Adds-none k s s refl refl)
  query_loop queries (q ∷ run) s h d =
      let (_, consistency, s', _, done, entered, counted, _, size) =
        cascade_query-adds floats logit dense_scores doc_lengths encoded scaler session f alone
          chunk_size chunked candidate_texts k query_of passage_of queries q s h.0 in
      let (qids, sizes) =
        set_item-sizes q.0 _ s.fused_run
          (Distinct-fresh (qids_of s.fused_run) (qids_of run) q.0 d) in
      let one : Adds k (q ∷ []) s s' = record {
        qids_are = ap qids_of entered ∙ qids;
        sizes_are = ap sizes_of entered ∙ sizes ∙ ap (λ n. sizes_of s.fused_run ++ n ∷ []) size;
        count_is = ap length counted ∙ length-append s.consistency_scores (consistency ∷ []);
      } in
      let apart : Distinct (qids_of s'.fused_run ++ qids_of run) =
        subst Distinct
          (sym (
            ap (λ l. l ++ qids_of run) one.qids_are
            ∙ append_assoc (qids_of s.fused_run) (q.0 ∷ []) (qids_of run)))
          d in
      let (t, rest, more) = query_loop queries run s' h.1 apart in
      (t, rw (done, for_each) rest, Adds-append k (q ∷ []) run s s' t one more)

  pub set_loop :
      (sets : List (QuerySet F)) (s : Fused F)
      → All (λ set. All (Present set.queries) set.run) sets
      → Distinct (qids_of s.fused_run ++ qids_of (all_of sets))
      → (t : Fused F) × (for_each
            (cascade_set floats logit dense_scores doc_lengths scaler session chunk_size
              candidate_texts k)
            sets
            s
          ≡ some t)
        × Adds k (all_of sets) s t
  unfolding for_each cascade_set
  set_loop [] s h d = (s, refl, Adds-none k s s refl refl)
  set_loop (set ∷ sets) s h d =
      let begun = record s { fused_qrels = update s.fused_qrels set.qrels } in
      let regrouped : qids_of s.fused_run ++ qids_of (set.run ++ all_of sets)
          ≡ (qids_of s.fused_run ++ qids_of set.run) ++ qids_of (all_of sets) =
        ap (λ l. qids_of s.fused_run ++ l) (map-append (λ q. q.0) set.run (all_of sets))
        ∙ sym (append_assoc (qids_of s.fused_run) (qids_of set.run) (qids_of (all_of sets))) in
      let apart = subst Distinct regrouped d in
      let (s', looped, one) = query_loop set.queries set.run begun h.0 (
        Distinct-of_append_left (qids_of s.fused_run ++ qids_of set.run) (qids_of (all_of sets))
          apart) in
      let one' : Adds k set.run s s' = record {
        qids_are = one.qids_are;
        sizes_are = one.sizes_are;
        count_is = one.count_is;
      } in
      let (t, rest, more) =
        set_loop sets s' h.1
          (subst Distinct (ap (λ l. l ++ qids_of (all_of sets)) (sym one.qids_are)) apart) in
      (
        t,
        rw (looped, for_each, cascade_set) rest,
        Adds-append k set.run (all_of sets) s s' t one' more,
      )

divide_by_count-some :
    {A B : Type 0} (xs : List A) (result : Option B)
    → 1 ≤ length xs
    → divide_by_count xs result ≡ result
unfolding divide_by_count
divide_by_count-some [] result h = absurd (omega arith)
divide_by_count-some (x ∷ xs) result h = refl

-- Whether a metric is too deep for a run.
shallow-of :
    (k depth : ℕ)
    → 10 ≤ k
    → let shallow =
        keep_if
          (λ m. ltb depth (cutoff m))
          (Metric.ndcg_cut 10 ∷ Metric.mrr 10 ∷ Metric.recall k ∷ []) in
      ((leb k depth ≡ true) × (shallow ≡ []))
      ⊎ ((leb k depth ≡ false) × (m : Metric) × (ms : List Metric) × (shallow ≡ m ∷ ms))
shallow-of k depth h = elim (Bool-cases (leb k depth)) [
  | inl deep ↦
      let far : ltb depth k ≡ false = ground arith in
      let near : ltb depth 10 ≡ false = ground arith in inl (deep, rw (near, far) refl)
  | inr low ↦
      let far : ltb depth k ≡ true = ground arith in
      elim (Bool-cases (ltb depth 10)) [
        | inl small ↦
            inr
              (low, Metric.ndcg_cut 10, Metric.mrr 10 ∷ Metric.recall k ∷ [], rw (small, far) refl)
        | inr big ↦ inr (low, Metric.recall k, [], rw (big, far) refl)
      ]
]

module _ {F : Type 0} ⦃o : Order F⦄ ⦃strings : Order String⦄ (gains : Gains F) (k : ℕ) where
  conclude-assert :
      (s : Fused F)
      → 1 ≤ length s.consistency_scores
      → conclude gains k s
        ≡ assert_deep (concluded gains k s).eval_result.shallow_metrics (concluded gains k s)
  unfolding conclude
  conclude-assert s counted = divide_by_count-some s.consistency_scores _ counted

  pub conclude_cases :
      (s : Fused F)
      → 10 ≤ k
      → 1 ≤ length s.consistency_scores
      → ((leb k (run_depth s.fused_run) ≡ true)
          × (conclude gains k s ≡ some (concluded gains k s))
          × ((concluded gains k s).eval_result.shallow_metrics ≡ []))
        ⊎ ((leb k (run_depth s.fused_run) ≡ false) × (conclude gains k s ≡ none))
  unfolding conclude evaluate
  conclude_cases s h counted = elim (shallow-of k (run_depth s.fused_run) h) [
    | inl (deep, fine) ↦ inl (
      deep,
      conclude-assert s counted
          ∙ ap (λ l. assert_deep l (concluded gains k s)) fine
          ∙ unfold assert_deep in refl,
      fine,
    )
    | inr (low, m, ms, too_deep) ↦ inr (
      low,
      conclude-assert s counted
          ∙ ap (λ l. assert_deep l (concluded gains k s)) too_deep
          ∙ unfold assert_deep in refl,
    )
  ]
