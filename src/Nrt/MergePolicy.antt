-- ===== src/Nrt/MergePolicy.antt =====
-- py/nrt/merge_policy.py
pub mod Smallest
use cascade_search_engine.Prelude.{
  ℕ, Option, none, some, List, take, length, leb, min, if◌then◌else◌,
}
use cascade_search_engine.Prelude.Keys.{nat_order}
use cascade_search_engine.Sort.{sort, ascending}
use cascade_search_engine.Nrt.Segment.{Segment}

pub record TieredMergePolicy : Type 0 where
  pub merge_factor : ℕ
  pub max_segments : ℕ

unfoldable pub maybe_merge :
    {Index : Type 0} → TieredMergePolicy → List (Segment Index) → Option (List (Segment Index))
maybe_merge policy segments =
    if leb (length segments) policy.max_segments
    then none
    else let by_size = sort (ascending (λ s. s.doc_count)) segments in
      some (take (min policy.merge_factor (length by_size)) by_size)
