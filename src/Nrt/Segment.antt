-- ===== src/Nrt/Segment.antt =====
-- py/nrt/segment.py: a segment, and the search over a set of segments.
pub mod Top
use Prim.Native.String.{String}
use cascade_search_engine.Prelude.{
  ℕ, ◌+◌, Bool, not, Option, none, some, List, [], ◌∷◌, map, take, length, concat, keep_if,
  if◌then◌else◌,
}
use cascade_search_engine.Prelude.Keys.{Order, string_eq, is_in}
use cascade_search_engine.Sort.{sort, descending}
use cascade_search_engine.Nrt.Engine.{Algorithm, Hit, external_id, score_of, Engine}

-- A file of source text: `segments_dir / f"seg_{n}.tsv"`, or one that the caller brought.
pub data SourcePath : Type 0 where
  numbered : ℕ → SourcePath
  external : String → SourcePath

-- `identity` is what `id(s)` tells apart: two objects alive at once have different ones.
-- A segment's `index_dir` stands beside its source and has the same number.
pub record Segment (Index : Type 0) : Type 0 where
  pub identity : ℕ
  pub index : Index
  pub source_tsv : SourcePath
  pub doc_count : ℕ

module _ {Index Score : Type 0} (engine : Engine Index Score) where
  -- `build_segment` on a source with this text. The binary may be missing or fail (`check=True` raises):
  -- whether it succeeds this time is the environment's choice, and `none` is the exception.
  unfoldable pub build_segment : Bool → ℕ → SourcePath → String → Option (Segment Index)
  build_segment succeeds identity path text =
      let index = engine.build text in
      if succeeds
      then some (record {
        identity = identity;
        index = index;
        source_tsv = path;
        doc_count = engine.doc_count index;
      })
      else none

-- The pool changes who runs the searches and not what they return.
pub record SegmentSet (Index : Type 0) : Type 0 where
  pub segments : List (Segment Index)
  pub tombstones : List String

-- `eid not in self._tombstones`
abbrev pub is_live : {Score : Type 0} → List String → Hit Score → Bool
is_live tombstones h = not (is_in (external_id h) tombstones)

module _ {Index Score : Type 0} ⦃o : Order Score⦄ (engine : Engine Index Score) where
  -- The futures are read in the order in which they were submitted.
  unfoldable pub dispatch : SegmentSet Index → String → ℕ → Algorithm → List (List (Hit Score))
  dispatch set query over_fetch_k algorithm =
      map (λ segment. engine.search segment.index query over_fetch_k algorithm) set.segments

  unfoldable pub search : SegmentSet Index → String → ℕ → Algorithm → List (Hit Score)
  unfolding dispatch
  search set query k algorithm = elim set.segments [
    | [] ↦ []
    | _ ↦
        let over_fetch_k = k + length set.tombstones in
        let per_segment_pairs = dispatch set query over_fetch_k algorithm in
        let merged = concat (map (keep_if (is_live set.tombstones)) per_segment_pairs) in
        take k (sort (descending score_of) merged)
  ]
