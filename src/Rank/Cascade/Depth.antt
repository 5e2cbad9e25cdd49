-- ===== src/Rank/Cascade/Depth.antt =====
-- The depth of the cascade's run, and the assertion on its metrics.
use Prim.Native.String.{String}
use cascade_search_engine.Prelude.{
  ℕ, ◌+◌, ◌<◌, ◌≤◌, Bool, false, List, [], ◌∷◌, ◌++◌, map, length, min, max, any, concat, leb,
  le→leb, leb→le, not-leb→lt, ◌≡◌, refl, sym, ap, ◌∙◌, inl, inr, arith, Bool-cases, length-append,
  map-append, append-nil, append_assoc,
}
use cascade_search_engine.Prelude.Keys.{string_eq, is_in}
use cascade_search_engine.Harness.Runs.{Candidates, Run, set_item}
use cascade_search_engine.Harness.Runs.Files.{set_item_new}
use cascade_search_engine.Harness.Metrics.{run_depth}
use cascade_search_engine.Rank.Cascade.{QuerySet, Fused}

-- the greatest, or 0
abbrev pub greatest : List ℕ → ℕ
greatest [] = 0
greatest (n ∷ ns) = max n (greatest ns)

leb-max : (k a b : ℕ) → a < k → leb k (max a b) ≡ leb k b
leb-max k a b h = ground arith

module _ {F : Type 0} where
  abbrev pub qids_of : Run F → List String
  qids_of = map (λ (q : String × Candidates F). q.0)

  abbrev pub sizes_of : Run F → List ℕ
  sizes_of = map (λ (q : String × Candidates F). length q.1)

  -- the sizes of the entries that survive
  abbrev pub cut_sizes : ℕ → Run F → List ℕ
  cut_sizes k = map (λ (q : String × Candidates F). min k (length q.1))

  -- the queries of all sets
  abbrev pub all_of : List (QuerySet F) → Run F
  all_of sets = concat (map (λ set. set.run) sets)

  -- some query has k candidates
  abbrev pub is_deep : ℕ → Run F → Bool
  is_deep k = any (λ (q : String × Candidates F). leb k (length q.1))

  pub run_depth-greatest : (run : Run F) → run_depth run ≡ greatest (sizes_of run)
  unfolding run_depth
  run_depth-greatest [] = refl
  run_depth-greatest ((qid, docs) ∷ run) = ap (max (length docs)) (run_depth-greatest run)

  pub greatest-le : (k : ℕ) (run : Run F) → greatest (cut_sizes k run) ≤ k
  greatest-le k [] = omega arith
  greatest-le k (q ∷ run) = omega (arith, greatest-le k run)

  pub greatest-deep :
      (k : ℕ) (run : Run F) → 1 ≤ k → leb k (greatest (cut_sizes k run)) ≡ is_deep k run
  greatest-deep k [] h = ground arith
  greatest-deep k (q ∷ run) h = elim (Bool-cases (leb k (length q.1))) [
    | inl deep ↦ rw deep (le→leb k _ (omega (arith, leb→le k (length q.1) deep)))
    | inr shallow ↦ rw shallow (
        leb-max k (min k (length q.1)) (greatest (cut_sizes k run))
          (omega (arith, not-leb→lt k (length q.1) shallow))
        ∙ greatest-deep k run h)
  ]

  -- A new query's entry is put last.
  pub set_item-sizes :
      (qid : String) (entry : Candidates F) (run : Run F)
      → is_in qid (qids_of run) ≡ false
      → (qids_of (set_item qid entry run) ≡ qids_of run ++ qid ∷ [])
        × (sizes_of (set_item qid entry run) ≡ sizes_of run ++ length entry ∷ [])
  set_item-sizes qid entry run h =
      let last = set_item_new qid entry run h in
      (
        ap qids_of last ∙ map-append (λ (q : String × Candidates F). q.0) run _,
        ap sizes_of last ∙ map-append (λ (q : String × Candidates F). length q.1) run _,
      )

-- What the loops add for some queries.
pub record Adds {F : Type 0} (k : ℕ) (all : Run F) (s t : Fused F) : Type 0 where
  pub qids_are : qids_of t.fused_run ≡ qids_of s.fused_run ++ qids_of all
  pub sizes_are : sizes_of t.fused_run ≡ sizes_of s.fused_run ++ cut_sizes k all
  pub count_is : length t.consistency_scores ≡ length s.consistency_scores + length all

pub Adds-none :
    {F : Type 0} (k : ℕ) (s t : Fused F)
    → t.fused_run ≡ s.fused_run
    → t.consistency_scores ≡ s.consistency_scores
    → Adds k [] s t
Adds-none k s t h c = record {
  qids_are = ap qids_of h ∙ sym (append-nil (qids_of s.fused_run));
  sizes_are = ap sizes_of h ∙ sym (append-nil (sizes_of s.fused_run));
  count_is = omega (arith, ap length c);
}

pub Adds-append :
    {F : Type 0} (k : ℕ) (xs ys : Run F) (s t u : Fused F)
    → Adds k xs s t
    → Adds k ys t u
    → Adds k (xs ++ ys) s u
Adds-append k xs ys s t u a b = record {
  qids_are =
      b.qids_are
      ∙ ap (λ l. l ++ qids_of ys) a.qids_are
      ∙ append_assoc (qids_of s.fused_run) (qids_of xs) (qids_of ys)
      ∙ ap (λ l. qids_of s.fused_run ++ l) (sym (map-append (λ q. q.0) xs ys));
  sizes_are =
      b.sizes_are
      ∙ ap (λ l. l ++ cut_sizes k ys) a.sizes_are
      ∙ append_assoc (sizes_of s.fused_run) (cut_sizes k xs) (cut_sizes k ys)
      ∙ ap (λ l. sizes_of s.fused_run ++ l) (sym (map-append (λ q. min k (length q.1)) xs ys));
  count_is = omega (arith, a.count_is, b.count_is, length-append xs ys);
}
