-- ===== src/Nrt/Merge/Writes.antt =====
-- What a write to a fresh path keeps of the segments that are stored.
use cascade_search_engine.Prelude.{
  ℕ, ◌<◌, false, some, List, [], ◌∷◌, map, ◌≡◌, refl, ap, ◌∙◌, inl, inr, arith, All,
}
use Prim.Native.String.{String}
use cascade_search_engine.Prelude.Keys.{nat_eq, is_in}
use cascade_search_engine.Prelude.Perms.{beq_comm}
use cascade_search_engine.Nrt.Engine.{Engine}
use cascade_search_engine.Nrt.Segment.{Segment, SourcePath}
use cascade_search_engine.Nrt.Newlines.{universal, universal_idem}
use cascade_search_engine.Nrt.Tsv.{Document, tsv}
use cascade_search_engine.Nrt.Files.{
  Files, same_path, path_eq, write, write_other, unlink_all, unlink_all_other, read_all,
}
use cascade_search_engine.Nrt.Merge.{sources}
use cascade_search_engine.Nrt.Merge.Invariant.{IsStored}
use cascade_search_engine.Nrt.Merge.Parts.{update}

module _ {Index Score : Type 0} (engine : Engine Index Score) where
  IsStored-write_one :
      (docs : ℕ → List Document) (n : ℕ) (d : List Document) (path : SourcePath) (text : String)
      (files : Files) (x : Segment Index)
      → x.identity < n
      → same_path path x.source_tsv ≡ false
      → IsStored engine docs files x
      → IsStored engine (update docs n d) (write path text files) x
  IsStored-write_one docs n d path text files x h other s =
      let same : update docs n d x.identity ≡ docs x.identity = ground arith in
      record {
        text = s.text;
        on_disk = write_other path x.source_tsv text files other ∙ s.on_disk;
        indexed = s.indexed;
        written = rw same s.written;
        counted = s.counted;
      }

  -- A write to a path that no segment has, and documents for an identity that none has.
  pub IsStored-write :
      (docs : ℕ → List Document) (n : ℕ) (d : List Document) (path : SourcePath) (text : String)
      (files : Files) (xs : List (Segment Index))
      → All (λ g. g.identity < n) xs
      → is_in path (sources xs) ≡ false
      → All (IsStored engine docs files) xs
      → All (IsStored engine (update docs n d) (write path text files)) xs
  IsStored-write docs n d path text files [] h fresh s = tt
  IsStored-write docs n d path text files (x ∷ xs) h fresh s = (
    IsStored-write_one docs n d path text files x h.0 (beq_comm path x.source_tsv ∙ ground arith)
        s.0,
    IsStored-write docs n d path text files xs h.1 (ground arith) s.1,
  )

  -- The same where no segment is new.
  pub IsStored-write_only :
      (docs : ℕ → List Document) (path : SourcePath) (text : String) (files : Files)
      (xs : List (Segment Index))
      → is_in path (sources xs) ≡ false
      → All (IsStored engine docs files) xs
      → All (IsStored engine docs (write path text files)) xs
  IsStored-write_only docs path text files [] fresh s = tt
  IsStored-write_only docs path text files (x ∷ xs) fresh s = (
    record {
      text = s.0.text;
      on_disk =
          write_other path x.source_tsv text files (beq_comm path x.source_tsv ∙ ground arith)
          ∙ s.0.on_disk;
      indexed = s.0.indexed;
      written = s.0.written;
      counted = s.0.counted;
    },
    IsStored-write_only docs path text files xs (ground arith) s.1,
  )

  pub IsStored-unlink_all :
      (docs : ℕ → List Document) (paths : List SourcePath) (files : Files)
      (xs : List (Segment Index))
      → All (λ g. is_in g.source_tsv paths ≡ false) xs
      → All (IsStored engine docs files) xs
      → All (IsStored engine docs (unlink_all paths files)) xs
  IsStored-unlink_all docs paths files [] fresh s = tt
  IsStored-unlink_all docs paths files (x ∷ xs) fresh s = (
    record {
      text = s.0.text;
      on_disk = unlink_all_other paths x.source_tsv files fresh.0 ∙ s.0.on_disk;
      indexed = s.0.indexed;
      written = s.0.written;
      counted = s.0.counted;
    },
    IsStored-unlink_all docs paths files xs fresh.1 s.1,
  )

  as_read :
      (docs : ℕ → List Document) (files : Files) (x : Segment Index)
      (s : IsStored engine docs files x)
      → universal false s.text ≡ universal false (tsv (docs x.identity))
  as_read docs files x s = elim s.written [
    | inl same ↦ ap (universal false) same
    | inr same ↦ ap (universal false) same ∙ universal_idem false (tsv (docs x.identity))
  ]

  -- The merge thread finds all sources of stored segments.
  pub read_all-stored :
      (docs : ℕ → List Document) (files : Files) (xs : List (Segment Index))
      → All (IsStored engine docs files) xs
      → read_all files (sources xs)
        ≡ some (map (λ ds. universal false (tsv ds)) (map (λ g. docs g.identity) xs))
  unfolding read_all
  read_all-stored docs files [] s = refl
  read_all-stored docs files (x ∷ xs) s =
      rw (s.0.on_disk, read_all-stored docs files xs s.1, as_read docs files x s.0) refl
