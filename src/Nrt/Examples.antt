-- ===== src/Nrt/Examples.antt =====
-- The write side on small inputs: an engine whose index is a list of scored ids, and states of it.
pub mod Stream
use cascade_search_engine.Prelude.{
  ℕ, suc, true, false, inl, none, some, List, [], ◌∷◌, ◌++◌, ◌≡◌, ◌≢◌, refl, ◌⊎◌, ◌<◌, ◌≤◌, arith,
  length, take, min, All, Perm, keep_if, concat,
}
use cascade_search_engine.Prelude.Keys.{string_eq, nat_order}
use cascade_search_engine.Sort.{insert, sort, descending, descending-IsTotal}
use cascade_search_engine.Sort.Laws.{sort-IsSorted}
use cascade_search_engine.Nrt.Lag.{read_tsv_slice, longest_token, Probe, drain_pending}
use cascade_search_engine.Nrt.Lag.Slices.{read_tsv_slice-eq}
use cascade_search_engine.Nrt.Lag.Drain.{Passes, is_never_found, drain_pending-counts}
use cascade_search_engine.Prelude.{drop, false, count_if, ◌+◌}
use cascade_search_engine.Prelude.Keys.{◌==◌}
use Prim.Native.String.{String}
use cascade_search_engine.Nrt.Engine.{wand, Hit, external_id, score_of, Engine, IsExact}
use cascade_search_engine.Nrt.Segment
use cascade_search_engine.Nrt.Segment.{SourcePath, Segment, SegmentSet, is_live, numbered, external}
use cascade_search_engine.Nrt.Segment.Top.{search-eq-top, rankings}
use cascade_search_engine.Nrt.MergePolicy.{TieredMergePolicy, maybe_merge}
use cascade_search_engine.Nrt.MergePolicy.Smallest.{maybe_merge-smallest, IsSplit}
use cascade_search_engine.Nrt.Newlines.{universal}
use cascade_search_engine.Nrt.Tsv.{Document, tsv}
use cascade_search_engine.Nrt.Files.{Files, path_eq}
use cascade_search_engine.Nrt.Index.{
  Job, Worker, NrtIndex, add, flush_locked, delete, search, init, submit, maybe_schedule_merge,
}
use cascade_search_engine.Nrt.Index.Bounds.{add-buffer-lt}
use cascade_search_engine.Nrt.Index.Deletes.{delete-search}
use cascade_search_engine.Nrt.Merge.{
  Event, add_document, flush_buffer, delete_document, close_index, merge_thread, step, run, added,
}
use cascade_search_engine.Nrt.Merge.Invariant.{IsStored, docs_of}
use cascade_search_engine.Nrt.Merge.Runs.{IsReady, conservation, merge_finds_sources}
use cascade_search_engine.Nrt.Merge.Rounds.{rounds, flush-converges}

abbrev pub Scored : Type 0
Scored = List (Hit ℕ)

-- A text is indexed as one document, named by the text.
abbrev pub small_engine : Engine Scored ℕ
small_engine = record {
  build = λ text. (text, 1) ∷ [];
  search = λ index query k algorithm. take k (sort (descending score_of) index);
  doc_count = length;
}

small_engine-IsExact : IsExact small_engine
small_engine-IsExact = record {
  ranking = λ index query. sort (descending score_of) index;
  search-eq = λ index query k algorithm. refl;
  ranked = λ index query. sort-IsSorted (descending-IsTotal score_of) index;
}

abbrev segment : ℕ → Scored → Segment Scored
segment n index = record {
  identity = n;
  index = index;
  source_tsv = numbered n;
  doc_count = length index;
}

abbrev two_segments : SegmentSet Scored
two_segments = record {
  segments = segment 0 (("a", 5) ∷ ("b", 3) ∷ []) ∷ segment 1 (("c", 4) ∷ ("d", 9) ∷ []) ∷ [];
  tombstones = "d" ∷ [];
}

search-eq-top_example :
    Segment.search small_engine two_segments "q" 2 wand
    ≡ take 2 (
        keep_if (is_live two_segments.tombstones) (
          sort
            (descending score_of)
            (concat (rankings small_engine-IsExact two_segments.segments "q"))))
unfolding small_engine-IsExact sort insert
search-eq-top_example =
    search-eq-top small_engine-IsExact two_segments "q" 2 wand
      (((refl, (refl, tt))), ((refl, (refl, tt)), tt))

abbrev pub policy : TieredMergePolicy
policy = record { merge_factor = 2; max_segments = 2 }

abbrev three_segments : List (Segment Scored)
three_segments =
    segment 0 (("a", 5) ∷ ("b", 3) ∷ []) ∷ segment 1 (("c", 4) ∷ []) ∷ segment 2 [] ∷ []

maybe_merge-smallest_example :
    ((3 ≤ 2) × (maybe_merge policy three_segments ≡ none))
    ⊎ ((2 < 3)
        × (plan : List (Segment Scored)) × (rest : List (Segment Scored)) × (maybe_merge policy
              three_segments
            ≡ some plan)
        × (length plan ≡ min 2 3)
        × IsSplit three_segments plan rest)
maybe_merge-smallest_example = maybe_merge-smallest policy three_segments

abbrev pub seed : Segment Scored
seed = segment 0 ((tsv (("d0", "red fox") ∷ []), 1) ∷ [])

abbrev seed_docs : ℕ → List Document
seed_docs n = ("d0", "red fox") ∷ []

abbrev pub seed_files : Files
seed_files path = some (tsv (("d0", "red fox") ∷ []))

abbrev opened : NrtIndex Scored
opened = init 2 60 (some policy) (seed ∷ []) 0 seed_files 1

seed-IsReady : IsReady small_engine seed_docs (seed ∷ []) seed_files 1
seed-IsReady = record {
  distinct = (refl, tt);
  identified = (omega arith, tt);
  apart = (refl, tt);
  below = (omega arith, tt);
  stored = (
    record {
      text = tsv (seed_docs 0);
      on_disk = refl;
      indexed = refl;
      written = inl refl;
      counted = refl;
    },
    tt,
  );
}

add-buffer-lt_example : length (add small_engine ("d1", "cat") 5 true 6 opened).1.buffer < 2
unfolding init add
add-buffer-lt_example = add-buffer-lt small_engine ("d1", "cat") 5 true 6 opened (omega arith) refl

delete-search_example :
    All
      (λ h. external_id h ≢ "d0")
      (search small_engine
        (run small_engine (add_document ("d0", "red") 1 true 2 ∷ []) (delete "d0" opened))
        "q"
        3
        wand)
delete-search_example =
    delete-search small_engine "d0" (add_document ("d0", "red") 1 true 2 ∷ []) opened "q" 3 wand

-- Two flushes take the list over budget; the merge then runs while another document comes.
abbrev events : List Event
events =
    add_document ("d1", "cat") 1 true 2
    ∷ flush_buffer true 3
    ∷ add_document ("d2", "dog") 4 true 5
    ∷ flush_buffer true 6
    ∷ []

abbrev more_events : List Event
more_events =
    add_document ("d1", "cat") 1 true 2
    ∷ flush_buffer true 3
    ∷ add_document ("d2", "dog") 4 true 5
    ∷ flush_buffer true 6
    ∷ merge_thread true
    ∷ delete_document "d1"
    ∷ add_document ("d3", "owl") 7 true 8
    ∷ merge_thread true
    ∷ merge_thread true
    ∷ close_index
    ∷ []

conservation_example :
    let s = run small_engine more_events opened in
    (docs' : ℕ → List Document) × Perm
      (docs_of small_engine docs' s.segments ++ s.buffer)
      (docs_of small_engine seed_docs (seed ∷ []) ++ added more_events)
    × All (IsStored small_engine docs' s.files) s.segments
conservation_example =
    conservation small_engine seed_docs 2 60 (some policy) (seed ∷ []) 0 seed_files 1 seed-IsReady
      more_events

-- the job that waits after `events`: the seed and the first new segment
abbrev flushed : ℕ → Document → Segment Scored
flushed n document = segment n ((tsv (document ∷ []), 1) ∷ [])

abbrev waiting : Job Scored
waiting = record { chosen = seed ∷ flushed 1 ("d1", "cat") ∷ []; merge_id = 3 }

merge_finds_sources_example :
    (docs' : ℕ → List Document) × (m : Segment Scored) × ((step small_engine
        (merge_thread true)
        (run small_engine events opened)).worker
      ≡ Worker.built waiting.chosen m)
    × (m.index
        ≡ small_engine.build (universal false (tsv (docs_of small_engine docs' waiting.chosen))))
    × All (IsStored small_engine docs' (run small_engine events opened).files) waiting.chosen
unfolding init run step add flush_locked maybe_schedule_merge maybe_merge submit sort
merge_finds_sources_example =
    merge_finds_sources small_engine seed_docs 2 60 (some policy) (seed ∷ []) 0 seed_files 1
      seed-IsReady events waiting [] refl refl

abbrev narrow : TieredMergePolicy
narrow = record { merge_factor = 2; max_segments = 1 }

abbrev one_added : List Event
one_added = add_document ("d1", "cat") 1 true 2 ∷ []

flush-converges_example :
    let s = run small_engine one_added (init 2 60 (some narrow) (seed ∷ []) 0 seed_files 1) in
    length (run small_engine (flush_buffer true 3 ∷ rounds (suc (length s.segments))) s).segments
    ≤ 1
unfolding init run step add
flush-converges_example =
    flush-converges small_engine narrow seed_docs 2 60 (seed ∷ []) 0 seed_files 1 seed-IsReady
      one_added 3
      (record { has_policy = refl; is_open = refl; joins = omega arith; allows = omega arith }) refl
      refl refl (omega arith)

abbrev lines : List Document
lines = ("d0", "a") ∷ ("d1", "b") ∷ ("d2", "c") ∷ []

read_tsv_slice-eq_example : read_tsv_slice 1 1 lines ≡ take 1 (drop 1 lines)
read_tsv_slice-eq_example = read_tsv_slice-eq 1 1 lines

abbrev waiting_probes : List Probe
waiting_probes =
    record { external_id = "d1"; probe = "foxes"; write_start = 3 }
    ∷ record { external_id = "d2"; probe = "owl"; write_start = 4 }
    ∷ []

abbrev passes : Passes
passes = (9, λ p. p.external_id == "d1") ∷ (12, λ p. false) ∷ []

drain_pending-counts_example :
    let (recorded, left) = drain_pending passes waiting_probes in
    (length recorded + left ≡ length waiting_probes)
    × (left ≡ count_if (is_never_found passes) waiting_probes)
drain_pending-counts_example = drain_pending-counts passes waiting_probes
