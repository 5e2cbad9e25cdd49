-- ===== src/Nrt/Merge/Build.antt =====
-- Building the merged segment keeps the invariant, and finds every source that it reads.
use Prim.Native.String.{String}
use mathlib.Core.List.Permᴰ
use cascade_search_engine.Prelude.{
  ℕ, suc, ◌<◌, Bool, true, false, List, [], ◌∷◌, map, ◌≡◌, refl, sym, ap, ◌∙◌, inr, arith, All,
  All-of_append_left, if◌then◌else◌,
}
use cascade_search_engine.Prelude.Keys.{nat_eq}
use cascade_search_engine.Prelude.Perms.{All-perm}
use cascade_search_engine.Nrt.Engine.{Engine}
use cascade_search_engine.Nrt.Segment.{Segment, numbered}
use cascade_search_engine.Nrt.Newlines.{universal, join-universal}
use cascade_search_engine.Nrt.Tsv.{Document, tsv}
use cascade_search_engine.Nrt.Files.{path_eq, write, write_same}
use cascade_search_engine.Nrt.Index.{Job, Worker, NrtIndex}
use cascade_search_engine.Nrt.Merge.{build_merged}
use cascade_search_engine.Nrt.Merge.Invariant.{IsStored, IsValid, docs_of, Holds}
use cascade_search_engine.Nrt.Merge.Parts.{update, is_in-identified, identified_suc, docs_of-update}
use cascade_search_engine.Nrt.Merge.Writes.{IsStored-write, IsStored-write_only, read_all-stored}

module _ {Index Score : Type 0} (engine : Engine Index Score) (docs : ℕ → List Document)
    (s : NrtIndex Index) (job : Job Index) where
  -- the state in which the pool's thread takes its one job
  abbrev pub taking : NrtIndex Index
  taking = record s { merge_queue = job ∷ []; worker = Worker.idle }

  abbrev pub merged_documents : List Document
  merged_documents = docs_of engine docs job.chosen

  -- their texts, read and joined
  abbrev pub merged_text : String
  merged_text = universal false (tsv merged_documents)

  abbrev pub file_written : NrtIndex Index
  file_written = record s {
    merge_queue = [];
    files = write (numbered job.merge_id) merged_text s.files;
  }

  abbrev pub merged_segment : Segment Index
  merged_segment = record {
    identity = s.next_identity;
    index = engine.build merged_text;
    source_tsv = numbered job.merge_id;
    doc_count = engine.doc_count (engine.build merged_text);
  }

  abbrev pub after_failure : NrtIndex Index
  after_failure = record file_written { worker = Worker.failed }

  abbrev pub after_build : NrtIndex Index
  after_build = record file_written {
    next_identity = suc s.next_identity;
    worker = Worker.built job.chosen merged_segment;
  }

  module _ (v : IsValid engine docs taking) where
    pub chosen-IsStored : All (IsStored engine docs s.files) job.chosen
    chosen-IsStored =
        let (rest, p) = v.plans.0 in All-of_append_left _ job.chosen rest (All-perm _ p v.stored)

    chosen_identified : All (λ g. g.identity < s.next_identity) job.chosen
    chosen_identified =
        let (rest, p) = v.plans.0 in
        All-of_append_left _ job.chosen rest (All-perm _ p v.identified)

    -- No source is missing, and their texts, read and joined, are the text of their documents, read.
    pub build_merged_lem :
        (succeeds : Bool)
        → build_merged engine succeeds job (record s { merge_queue = [] })
          ≡ (if succeeds then after_build else after_failure)
    unfolding build_merged
    build_merged_lem true =
        rw (read_all-stored engine docs s.files job.chosen chosen-IsStored, build_merged)
          (rw (join-universal (map (λ g. docs g.identity) job.chosen)) refl)
    build_merged_lem false =
        rw (read_all-stored engine docs s.files job.chosen chosen-IsStored, build_merged)
          (rw (join-universal (map (λ g. docs g.identity) job.chosen)) refl)

    after_failure-IsValid : IsValid engine docs after_failure
    after_failure-IsValid = record {
      distinct = v.distinct;
      identified = v.identified;
      apart = v.apart;
      below = v.below;
      reserved = tt;
      stored =
          IsStored-write_only engine docs (numbered job.merge_id) merged_text s.files s.segments
            v.reserved.0.1 v.stored;
      plans = ((s.segments, Permᴰ.refl s.segments), tt);
      alone = omega arith;
      guarded = λ e. cc (v.guarded e);
      merged = tt;
    }

    abbrev pub docs_built : ℕ → List Document
    docs_built = update docs s.next_identity merged_documents

    pub after_build-IsValid : IsValid engine docs_built after_build
    after_build-IsValid =
        let own : docs_built s.next_identity ≡ merged_documents = ground arith in
        record {
          distinct = (is_in-identified s.next_identity s.segments v.identified, v.distinct);
          identified = (omega arith, identified_suc s.next_identity s.segments v.identified);
          apart = (v.reserved.0.1, v.apart);
          below = (v.reserved.0.0, v.below);
          reserved = tt;
          stored = (
            record {
              text = merged_text;
              on_disk = write_same (numbered job.merge_id) merged_text s.files;
              indexed = refl;
              written = inr (ap (λ ds. universal false (tsv ds)) (sym own));
              counted = refl;
            },
            IsStored-write engine docs s.next_identity merged_documents (numbered job.merge_id)
                merged_text s.files s.segments v.identified v.reserved.0.1 v.stored,
          );
          plans = (v.plans.0, tt);
          alone = omega arith;
          guarded = λ e. cc (v.guarded e);
          merged =
              own
              ∙ sym (
                  docs_of-update docs s.next_identity merged_documents job.chosen
                    chosen_identified);
        }

    after_build-Holds :
        (all : List Document) → Holds engine docs s all → Holds engine docs_built after_build all
    after_build-Holds all h =
        rw (docs_of-update docs s.next_identity merged_documents s.segments v.identified) h

    -- The `try` block keeps the invariant and the documents.
    pub build_merged-IsValid :
        (succeeds : Bool) (all : List Document)
        → Holds engine docs s all
        → let s' = build_merged engine succeeds job (record s { merge_queue = [] }) in
          (docs' : ℕ → List Document) × IsValid engine docs' s' × Holds engine docs' s' all
    build_merged-IsValid true all h =
        rw (build_merged_lem true) (docs_built, after_build-IsValid, after_build-Holds all h)
    build_merged-IsValid false all h = rw (build_merged_lem false) (docs, after_failure-IsValid, h)

    -- If the binary succeeds, the merged segment is built: the sources are all there.
    pub build_merged_finds :
        (build_merged engine true job (record s { merge_queue = [] })).worker
        ≡ Worker.built job.chosen merged_segment
    build_merged_finds = rw (build_merged_lem true) refl
