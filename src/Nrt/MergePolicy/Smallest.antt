-- ===== src/Nrt/MergePolicy/Smallest.antt =====
-- The policy chooses the smallest segments, and only of a list that is over budget.
use mathlib.Core.List.Permᴰ
use cascade_search_engine.Prelude.{
  ℕ, ◌≤◌, ◌<◌, true, false, none, some, List, ◌++◌, Perm, ◌≡◌, ◌⊎◌, inl, inr, arith, length, take,
  drop, min, leb, leb→le, take-append-drop, length-take, All, All-imp, Bool-cases, tests,
}
use cascade_search_engine.Prelude.Keys.{nat_order}
use cascade_search_engine.Sort.{sort, ascending, ascending-IsTotal}
use cascade_search_engine.Sort.Laws.{sort-permᴰ, sort-IsSorted, cut-IsSorted, length-sort}
use cascade_search_engine.Nrt.Segment.{Segment}
use cascade_search_engine.Nrt.MergePolicy.{TieredMergePolicy, maybe_merge}

module _ {Index : Type 0} where
  abbrev pub by_doc_count : List (Segment Index) → List (Segment Index)
  by_doc_count = sort (ascending (λ s. s.doc_count))

  pub maybe_merge_large :
      (policy : TieredMergePolicy) (segments : List (Segment Index))
      → leb (length segments) policy.max_segments ≡ false
      → maybe_merge policy segments
        ≡ some (
            take (min policy.merge_factor (length (by_doc_count segments))) (by_doc_count segments))
  unfolding maybe_merge
  maybe_merge_large policy segments h = rw h

  maybe_merge_small :
      (policy : TieredMergePolicy) (segments : List (Segment Index))
      → leb (length segments) policy.max_segments ≡ true
      → maybe_merge policy segments ≡ none
  unfolding maybe_merge
  maybe_merge_small policy segments h = rw h

  -- `left` and `right` share `segments` out, and no segment of `left` is larger than one of `right`.
  pub record IsSplit (segments left right : List (Segment Index)) : Type 0 where
    pub shared : Perm segments (left ++ right)
    pub smaller : All (λ g. All (λ r. g.doc_count ≤ r.doc_count) right) left

  cut-IsSplit :
      (n : ℕ) (segments : List (Segment Index))
      → IsSplit segments (take n (by_doc_count segments)) (drop n (by_doc_count segments))
  cut-IsSplit n segments =
      let sorted = by_doc_count segments in
      let cut =
        cut-IsSorted (ascending (λ s. s.doc_count)) n sorted
          (sort-IsSorted (ascending-IsTotal (λ s. s.doc_count)) segments) in
      record {
        shared =
            ∣ rw take-append-drop
              (Permᴰ.symm (sort-permᴰ (ascending (λ s. s.doc_count)) segments)) ∣₁;
        smaller =
            All-imp _ _ (λ g. All-imp _ _ (λ r h. leb→le g.doc_count r.doc_count h) (drop n sorted))
              (take n sorted) cut;
      }

  -- Either the list is within the budget and the policy answers nothing; or it is over it, and the answer
  -- is merge_factor segments, or all if there are fewer: they are of the list, and none that is left out is
  -- smaller than one of them.
  pub maybe_merge-smallest :
      (policy : TieredMergePolicy) (segments : List (Segment Index))
      → ((length segments ≤ policy.max_segments) × (maybe_merge policy segments ≡ none))
        ⊎ ((policy.max_segments < length segments)
            × (plan : List (Segment Index)) × (rest : List (Segment Index)) × (maybe_merge policy
                  segments
                ≡ some plan)
            × (length plan ≡ min policy.merge_factor (length segments))
            × IsSplit segments plan rest)
  maybe_merge-smallest policy segments =
      elim (Bool-cases (leb (length segments) policy.max_segments)) [
        | inl small ↦ inl (omega tests, maybe_merge_small policy segments small)
        | inr big ↦
            let sorted = by_doc_count segments in
            let n = min policy.merge_factor (length sorted) in
            inr (
              omega tests,
              take n sorted,
              drop n sorted,
              maybe_merge_large policy segments big,
              omega (
                arith,
                length-take n sorted,
                length-sort (ascending (λ s. s.doc_count)) segments,
              ),
              cut-IsSplit n segments,
            )
      ]
