-- ===== src/Nrt/Merge/Runs.antt =====
-- Whatever the clients and the merge thread do, and in whatever order, no document is lost or doubled.
use mathlib.Core.Path.{subst}
use mathlib.Core.List.{Permᴰ}
use mathlib.Core.List.Permᴰ
use cascade_search_engine.Prelude.{
  ℕ, ◌<◌, Bool, true, false, Option, List, [], ◌∷◌, ◌++◌, map, append-nil, append_assoc, ◌≡◌, refl,
  sym, ap, ◌∙◌, arith, length, length-append, All, All-of_append_right, Perm,
}
use cascade_search_engine.Prelude.Keys.{nat_eq, Distinct}
use cascade_search_engine.Nrt.Engine.{Engine}
use cascade_search_engine.Nrt.Segment.{Segment}
use cascade_search_engine.Nrt.MergePolicy.{TieredMergePolicy}
use cascade_search_engine.Nrt.Newlines.{universal}
use cascade_search_engine.Nrt.Tsv.{Document, tsv}
use cascade_search_engine.Nrt.Files.{Files, path_eq}
use cascade_search_engine.Nrt.Index.{Job, Worker, NrtIndex, init, delete, close}
use cascade_search_engine.Nrt.Merge.{
  identities, sources, advance, give_up, clean_up, Event, add_document, flush_buffer,
  delete_document, close_index, merge_thread, step, run, added,
}
use cascade_search_engine.Nrt.Merge.Invariant.{IsBelow, in_hand, IsStored, IsValid, docs_of, Holds}
use cascade_search_engine.Nrt.Merge.Schedule.{delete-IsValid, close-IsValid}
use cascade_search_engine.Nrt.Merge.Flush.{flush_locked-IsValid, add-IsValid}
use cascade_search_engine.Nrt.Merge.Build.{
  build_merged-IsValid, build_merged_finds, merged_segment, chosen-IsStored,
}
use cascade_search_engine.Nrt.Merge.Swap.{swap_in-IsValid, give_up-IsValid, clean_up-IsValid}

added-append :
    (event : Event) (events : List Event)
    → added (event ∷ []) ++ added events ≡ added (event ∷ events)
unfolding added
added-append (add_document document now succeeds after) events = refl
added-append (flush_buffer succeeds after) events = refl
added-append (delete_document eid) events = refl
added-append close_index events = refl
added-append (merge_thread succeeds) events = refl

module _ {Index Score : Type 0} (engine : Engine Index Score) where
  -- What the segments given to `__init__` must be: on disk, apart, and numbered below the next one.
  pub record IsReady (docs : ℕ → List Document) (segments : List (Segment Index)) (files : Files)
      (next_identity : ℕ) : Type 0 where
    pub distinct : Distinct (identities segments)
    pub identified : All (λ g. g.identity < next_identity) segments
    pub apart : Distinct (sources segments)
    pub below : All (λ g. IsBelow (length segments) g.source_tsv) segments
    pub stored : All (IsStored engine docs files) segments

  -- The state is as `docs` says, and holds the documents of `all`.
  pub record Keeps (s : NrtIndex Index) (all : List Document) : Type 0 where
    pub docs : ℕ → List Document
    pub valid : IsValid engine docs s
    pub held : Holds engine docs s all

  to_Keeps :
      {s : NrtIndex Index} {all : List Document}
      → (docs : ℕ → List Document) × IsValid engine docs s × Holds engine docs s all
      → Keeps s all
  to_Keeps (docs, v, h) = record { docs = docs; valid = v; held = h }

  pub at_work :
      (s : NrtIndex Index) (w : Worker Index) (queue : List (Job Index))
      → s.worker ≡ w
      → s.merge_queue ≡ queue
      → s ≡ record s { merge_queue = queue; worker = w }
  at_work s w queue e f = λ i. record s { merge_queue = f i; worker = e i }

  -- The next piece of the merge thread, by what it has in hand and what is queued.
  pub advance-Keeps_at :
      (succeeds : Bool) (s : NrtIndex Index) (w : Worker Index) (queue : List (Job Index))
      (all : List Document)
      → Keeps (record s { merge_queue = queue; worker = w }) all
      → Keeps (advance engine succeeds w (record s { merge_queue = queue; worker = w })) all
  unfolding advance give_up clean_up
  advance-Keeps_at succeeds s Worker.idle [] all k = k
  advance-Keeps_at succeeds s Worker.idle (job ∷ []) all k = to_Keeps (
      build_merged-IsValid engine k.docs (record s { worker = Worker.idle }) job k.valid succeeds
        all k.held)
  advance-Keeps_at succeeds s Worker.idle (job ∷ job' ∷ rest) all k =
      absurd (omega (arith, k.valid.alone))
  advance-Keeps_at succeeds s (Worker.built chosen m) [] all k =
      let (v, h) = swap_in-IsValid engine k.docs s chosen m k.valid all k.held in
      record { docs = k.docs; valid = v; held = h }
  advance-Keeps_at succeeds s (Worker.built chosen m) (job ∷ rest) all k = absurd (
      omega (
        arith,
        k.valid.alone,
        length-append (map (λ (j : Job Index). j.chosen) rest) (chosen ∷ []),
      ))
  advance-Keeps_at succeeds s Worker.failed queue all k = record {
    docs = k.docs;
    valid =
        give_up-IsValid engine k.docs (record s { merge_queue = queue; worker = Worker.failed })
          k.valid;
    held = k.held;
  }
  advance-Keeps_at succeeds s (Worker.swapped chosen) queue all k = record {
    docs = k.docs;
    valid =
        clean_up-IsValid engine k.docs
          (record s { merge_queue = queue; worker = Worker.swapped chosen }) chosen k.valid;
    held = k.held;
  }

  advance-Keeps :
      (succeeds : Bool) (s : NrtIndex Index) (all : List Document)
      → Keeps s all
      → Keeps (advance engine succeeds s.worker s) all
  advance-Keeps succeeds s all k = advance-Keeps_at succeeds s s.worker s.merge_queue all k

  step-Keeps :
      (event : Event) (s : NrtIndex Index) (all : List Document)
      → Keeps s all
      → Keeps (step engine event s) (all ++ added (event ∷ []))
  unfolding step added
  step-Keeps (add_document document now succeeds after) s all k =
      to_Keeps (add-IsValid engine document now succeeds after k.docs s all k.valid k.held)
  step-Keeps (flush_buffer succeeds after) s all k =
      rw append-nil
        (to_Keeps (flush_locked-IsValid engine succeeds after k.docs s all k.valid k.held))
  step-Keeps (delete_document eid) s all k = rw append-nil (record {
    docs = k.docs;
    valid = delete-IsValid eid s k.valid;
    held = unfold delete in k.held;
  })
  step-Keeps close_index s all k =
      rw append-nil
        (record { docs = k.docs; valid = close-IsValid s k.valid; held = unfold close in k.held })
  step-Keeps (merge_thread succeeds) s all k = rw append-nil (advance-Keeps succeeds s all k)

  pub run-Keeps :
      (events : List Event) (s : NrtIndex Index) (all : List Document)
      → Keeps s all
      → Keeps (run engine events s) (all ++ added events)
  unfolding run added
  run-Keeps [] s all k = rw append-nil k
  run-Keeps (event ∷ events) s all k =
      subst (Keeps (run engine events (step engine event s)))
        (append_assoc all (added (event ∷ [])) (added events)
          ∙ ap (λ l. all ++ l) (added-append event events))
        (run-Keeps events (step engine event s) (all ++ added (event ∷ []))
          (step-Keeps event s all k))

  -- What the merge thread makes of a job.
  abbrev Finds : (ℕ → List Document) → Job Index → NrtIndex Index → Type 0
  Finds docs job s =
      (m : Segment Index) × ((advance engine true s.worker s).worker ≡ Worker.built job.chosen m)
      × (m.index ≡ engine.build (universal false (tsv (docs_of engine docs job.chosen))))
      × All (IsStored engine docs s.files) job.chosen

  Finds-at :
      (docs : ℕ → List Document) (s : NrtIndex Index) (job : Job Index) (rest : List (Job Index))
      → IsValid engine docs (record s { merge_queue = job ∷ rest; worker = Worker.idle })
      → Finds docs job (record s { merge_queue = job ∷ rest; worker = Worker.idle })
  unfolding advance
  Finds-at docs s job [] v =
      let t = record s { worker = Worker.idle } in
      (
        merged_segment engine docs t job,
        build_merged_finds engine docs t job v,
        refl,
        chosen-IsStored engine docs t job v,
      )
  Finds-at docs s job (other ∷ rest) v = absurd (omega (arith, v.alone))

  module _ (docs : ℕ → List Document) (flush_threshold_docs flush_interval_s : ℕ)
      (policy : Option TieredMergePolicy) (segments : List (Segment Index)) (now : ℕ)
      (files : Files) (next_identity : ℕ) (ready : IsReady docs segments files next_identity) where
    abbrev pub start : NrtIndex Index
    start = init flush_threshold_docs flush_interval_s policy segments now files next_identity

    start-Keeps : Keeps start (docs_of engine docs segments)
    unfolding init
    start-Keeps = record {
      docs = docs;
      valid = record {
        distinct = ready.distinct;
        identified = ready.identified;
        apart = ready.apart;
        below = ready.below;
        reserved = tt;
        stored = ready.stored;
        plans = tt;
        alone = omega arith;
        guarded = λ e. refl;
        merged = tt;
      };
      held =
          subst (λ l. Permᴰ l (docs_of engine docs segments)) (sym (append-nil _)) (Permᴰ.refl _);
    }

    -- Every state that the clients and the merge thread can reach keeps the invariant.
    pub reachable-Keeps :
        (events : List Event)
        → Keeps (run engine events start) (docs_of engine docs segments ++ added events)
    reachable-Keeps events = run-Keeps events start (docs_of engine docs segments) start-Keeps

    -- After any interleaving of adds, flushes, deletes, a close and the pieces of the merge thread, builds
    -- failing or not, started with segments that are ready (distinct, numbered below the next one, on disk
    -- with the index of their text): the documents in the live segments and the buffer are, as often as
    -- they came, those of the first segments and those added, and each live segment has on disk the text of
    -- its documents, as written or as Python reads it (a newline for each carriage return), and the index
    -- built from that text.
    pub conservation :
        (events : List Event)
        → let s = run engine events start in
          (docs' : ℕ → List Document) × Perm
            (docs_of engine docs' s.segments ++ s.buffer)
            (docs_of engine docs segments ++ added events)
          × All (IsStored engine docs' s.files) s.segments
    conservation events =
        let s = run engine events start in
        let k = reachable-Keeps events in
        (k.docs, ∣ k.held ∣₁, All-of_append_right _ (in_hand s.worker) s.segments k.valid.stored)

    -- In any state that can be reached from segments that are ready, a job that the idle merge thread takes
    -- finds all its sources on disk: if the binary succeeds, the thread goes on with a segment built from
    -- the text of the documents of the chosen ones, in their order, as Python reads it (a newline for each
    -- carriage return).
    pub merge_finds_sources :
        (events : List Event) (job : Job Index) (rest : List (Job Index))
        → (run engine events start).worker ≡ Worker.idle
        → (run engine events start).merge_queue ≡ job ∷ rest
        → (docs' : ℕ → List Document) × (m : Segment Index) × ((step engine
              (merge_thread true)
              (run engine events start)).worker
            ≡ Worker.built job.chosen m)
          × (m.index ≡ engine.build (universal false (tsv (docs_of engine docs' job.chosen))))
          × All (IsStored engine docs' (run engine events start).files) job.chosen
    merge_finds_sources events job rest idle queued =
        let k = reachable-Keeps events in
        let s = run engine events start in
        let same = at_work s Worker.idle (job ∷ rest) idle queued in
        let (m, made, indexed, stored) =
          subst (Finds k.docs job) (sym same)
            (Finds-at k.docs s job rest (subst (IsValid engine k.docs) same k.valid)) in
        (k.docs, m, unfold step in made, indexed, stored)
