-- ===== src/Nrt/Merge/Invariant.antt =====
-- What holds of an `NrtIndex` and its disk between any two pieces of work of its threads.
use Prim.Native.String.{String}
use cascade_search_engine.Prelude.{
  ℕ, ◌<◌, ◌≤◌, false, some, List, [], ◌∷◌, ◌++◌, map, ◌≡◌, ◌⊎◌, length, concat, All,
}
use mathlib.Core.List.{Permᴰ}
use cascade_search_engine.Prelude.Keys.{nat_eq, is_in, Distinct}
use cascade_search_engine.Nrt.Engine.{Engine}
use cascade_search_engine.Nrt.Segment.{Segment, SourcePath, numbered, external}
use cascade_search_engine.Nrt.Newlines.{universal}
use cascade_search_engine.Nrt.Tsv.{Document, tsv}
use cascade_search_engine.Nrt.Files.{Files, path_eq}
use cascade_search_engine.Nrt.Index.{Worker, NrtIndex}
use cascade_search_engine.Nrt.Merge.{identities, sources}

-- the path's number is given out already
abbrev pub IsBelow : ℕ → SourcePath → Type 0
IsBelow n (numbered m) = m < n
IsBelow n (external name) = Unit

module _ {Index : Type 0} where
  -- the segments that the merge thread holds beside the live ones
  abbrev pub in_hand : Worker Index → List (Segment Index)
  in_hand Worker.idle = []
  in_hand (Worker.built chosen merged) = merged ∷ []
  in_hand Worker.failed = []
  in_hand (Worker.swapped chosen) = chosen

  abbrev pub tracked : NrtIndex Index → List (Segment Index)
  tracked s = in_hand s.worker ++ s.segments

  -- the plans that are not carried out yet
  abbrev pub claims : Worker Index → List (List (Segment Index))
  claims Worker.idle = []
  claims (Worker.built chosen merged) = chosen ∷ []
  claims Worker.failed = [] ∷ []
  claims (Worker.swapped chosen) = []

  abbrev pub pending : NrtIndex Index → List (List (Segment Index))
  pending s = map (λ job. job.chosen) s.merge_queue ++ claims s.worker

  -- `plan` is part of `segments`
  abbrev pub IsPlan : List (Segment Index) → List (Segment Index) → Type 0
  IsPlan segments plan = (rest : List (Segment Index)) × Permᴰ segments (plan ++ rest)

-- `docs` says which documents a segment, known by its identity, was built from.
module _ {Index Score : Type 0} (engine : Engine Index Score) (docs : ℕ → List Document) where
  -- The source text is on disk, and the index is the one of that text: the text of the documents, as it was
  -- written or as it is read.
  pub record IsStored (files : Files) (g : Segment Index) : Type 0 where
    pub text : String
    pub on_disk : files g.source_tsv ≡ some text
    pub indexed : g.index ≡ engine.build text
    pub written : (text ≡ tsv (docs g.identity)) ⊎ (text ≡ universal false (tsv (docs g.identity)))
    pub counted : g.doc_count ≡ engine.doc_count g.index

  abbrev pub docs_of : List (Segment Index) → List Document
  docs_of segments = concat (map (λ g. docs g.identity) segments)

  abbrev pub IsMerged : Worker Index → Type 0
  IsMerged (Worker.built chosen merged) = docs merged.identity ≡ docs_of chosen
  IsMerged Worker.idle = Unit
  IsMerged Worker.failed = Unit
  IsMerged (Worker.swapped chosen) = Unit

  pub record IsValid (s : NrtIndex Index) : Type 0 where
    pub distinct : Distinct (identities (tracked s))
    pub identified : All (λ g. g.identity < s.next_identity) (tracked s)
    pub apart : Distinct (sources (tracked s))
    pub below : All (λ g. IsBelow s.next_segment_id g.source_tsv) (tracked s)
    pub reserved :
        All
          (λ job.
            (job.merge_id < s.next_segment_id)
            × (is_in (numbered job.merge_id) (sources (tracked s)) ≡ false))
          s.merge_queue
    pub stored : All (IsStored s.files) (tracked s)
    pub plans : All (IsPlan s.segments) (pending s)
    pub alone : length (pending s) ≤ 1
    pub guarded : s.merge_in_progress ≡ false → pending s ≡ []
    pub merged : IsMerged s.worker

  -- Every document of `all` is in one live segment or in the buffer, as often as in `all`.
  abbrev pub Holds : NrtIndex Index → List Document → Type 0
  Holds s all = Permᴰ (docs_of s.segments ++ s.buffer) all
