-- ===== src/Nrt/Merge/Flush.antt =====
-- Adding and flushing keep the invariant, and move documents from the buffer into a new segment.
use mathlib.Core.List.{Permᴰ}
use mathlib.Core.List.Permᴰ
use mathlib.Core.Path.{subst}
use cascade_search_engine.Prelude.{
  List-cases, length, ◌≤◌, ℕ, suc, ◌<◌, Bool, true, false, List, [], ◌∷◌, ◌++◌, map, map-append,
  ◌≡◌, refl, sym, ap, ap₂, ◌∙◌, ◌⊎◌, inl, inr, arith, All, All-imp, All-of_append_left,
  All-of_append_right, append_assoc, append-nil, concat, concat-append, Bool-cases,
}
use cascade_search_engine.Prelude.Keys.{nat_eq, is_in}
use cascade_search_engine.Prelude.Perms.{All-perm, Distinct-perm, is_in-perm}
use cascade_search_engine.Nrt.Engine.{Engine}
use cascade_search_engine.Nrt.Segment.{Segment, numbered}
use cascade_search_engine.Nrt.Tsv.{Document, tsv}
use cascade_search_engine.Nrt.Files.{path_eq, write, write_same}
use cascade_search_engine.Nrt.Index.{
  Job, Worker, NrtIndex, returned, raised, maybe_schedule_merge, flush_locked, should_flush, add,
}
use cascade_search_engine.Nrt.Merge.{sources}
use cascade_search_engine.Nrt.Merge.Invariant.{
  in_hand, tracked, claims, pending, IsPlan, IsStored, IsMerged, IsValid, docs_of, Holds,
}
use cascade_search_engine.Nrt.Merge.Parts.{
  update, is_in-below, is_in-identified, IsBelow-suc, identified_suc, docs_of-update, IsPlan-push,
  push-perm,
}
use cascade_search_engine.Nrt.Merge.Writes.{IsStored-write, IsStored-write_only}
use cascade_search_engine.Nrt.Merge.Schedule.{
  maybe_schedule_merge-IsValid, maybe_schedule_merge_keeps,
}

IsMerged-update :
    {Index Score : Type 0} (engine : Engine Index Score) (docs : ℕ → List Document) (n : ℕ)
    (d : List Document) (segments : List (Segment Index)) (w : Worker Index)
    → All (λ g. g.identity < n) (in_hand w ++ segments)
    → All (IsPlan segments) (claims w)
    → IsMerged engine docs w
    → IsMerged engine (update docs n d) w
IsMerged-update engine docs n d segments Worker.idle i p h = tt
IsMerged-update engine docs n d segments Worker.failed i p h = tt
IsMerged-update engine docs n d segments (Worker.swapped chosen) i p h = tt
IsMerged-update engine docs n d segments (Worker.built chosen merged) i p h =
    let (rest, q) = p.0 in
    let chosen_identified = All-of_append_left _ chosen rest (All-perm _ q i.1) in
    let same : update docs n d merged.identity ≡ docs merged.identity = ground arith in
    same ∙ h ∙ sym (docs_of-update docs n d chosen chosen_identified)

module _ {Index Score : Type 0} (engine : Engine Index Score) where
  -- the file is written, and its number used up
  abbrev pub written : NrtIndex Index → NrtIndex Index
  written s = record s {
    next_segment_id = suc s.next_segment_id;
    files = write (numbered s.next_segment_id) (tsv s.buffer) s.files;
  }

  abbrev pub flushed_segment : NrtIndex Index → Segment Index
  flushed_segment s = record {
    identity = s.next_identity;
    index = engine.build (tsv s.buffer);
    source_tsv = numbered s.next_segment_id;
    doc_count = engine.doc_count (engine.build (tsv s.buffer));
  }

  abbrev pub pushed : ℕ → NrtIndex Index → NrtIndex Index
  pushed after s = record (written s) {
    next_identity = suc s.next_identity;
    segments = s.segments ++ flushed_segment s ∷ [];
    buffer = [];
    last_flush_time = after;
  }

  -- The three ways through `_flush_locked`.
  pub flush_locked_cases :
      (succeeds : Bool) (after : ℕ) (s : NrtIndex Index)
      → ((s.buffer ≡ []) × (flush_locked engine succeeds after s ≡ (returned, s)))
        ⊎ ((flush_locked engine succeeds after s ≡ (raised, written s))
            ⊎ (flush_locked engine succeeds after s ≡ maybe_schedule_merge (pushed after s)))
  unfolding flush_locked
  flush_locked_cases true after s = elim (List-cases s.buffer) [
    | inl none_buffered ↦ inl (none_buffered, ground arith)
    | inr (d, ds, some_buffered) ↦ inr (inr (ground arith))
  ]
  flush_locked_cases false after s = elim (List-cases s.buffer) [
    | inl none_buffered ↦ inl (none_buffered, ground arith)
    | inr (d, ds, some_buffered) ↦ inr (inl (ground arith))
  ]

  -- With documents in the buffer and a build that succeeds.
  pub flush_locked-true :
      (after : ℕ) (s : NrtIndex Index)
      → 1 ≤ length s.buffer
      → flush_locked engine true after s ≡ maybe_schedule_merge (pushed after s)
  unfolding flush_locked
  flush_locked-true after s h = elim (List-cases s.buffer) [
    | inl none_buffered ↦ absurd (omega (arith, ap length none_buffered))
    | inr (d, ds, some_buffered) ↦ ground arith
  ]

  module _ (docs : ℕ → List Document) (s : NrtIndex Index) (v : IsValid engine docs s) where
    written-IsValid : IsValid engine docs (written s)
    written-IsValid = record {
      distinct = v.distinct;
      identified = v.identified;
      apart = v.apart;
      below = IsBelow-suc s.next_segment_id (tracked s) v.below;
      reserved = All-imp _ _ (λ job h. (omega arith, h.1)) s.merge_queue v.reserved;
      stored =
          IsStored-write_only engine docs (numbered s.next_segment_id) (tsv s.buffer) s.files
            (tracked s) (is_in-below s.next_segment_id (tracked s) v.below) v.stored;
      plans = v.plans;
      alone = v.alone;
      guarded = v.guarded;
      merged = v.merged;
    }

    abbrev pub docs_after : ℕ → List Document
    docs_after = update docs s.next_identity s.buffer

    -- how the tracked segments grow
    grown :
        Permᴰ
          (flushed_segment s ∷ tracked s)
          (in_hand s.worker ++ (s.segments ++ flushed_segment s ∷ []))
    grown = push-perm (flushed_segment s) (in_hand s.worker) s.segments

    live_identified : All (λ g. g.identity < s.next_identity) s.segments
    live_identified = All-of_append_right _ (in_hand s.worker) s.segments v.identified

    job_apart :
        (job : Job Index)
        → (job.merge_id < s.next_segment_id)
          × (is_in (numbered job.merge_id) (sources (tracked s)) ≡ false)
        → (job.merge_id < suc s.next_segment_id)
          × (is_in
                (numbered job.merge_id)
                (sources (in_hand s.worker ++ (s.segments ++ flushed_segment s ∷ [])))
              ≡ false)
    job_apart job h = (
      omega arith,
      sym (is_in-perm (numbered job.merge_id) (Permᴰ.map (λ g. g.source_tsv) grown))
          ∙ (rw h.1 (ground arith)),
    )

    new-IsStored :
        IsStored engine docs_after
          (write (numbered s.next_segment_id) (tsv s.buffer) s.files)
          (flushed_segment s)
    new-IsStored =
        let own : docs_after s.next_identity ≡ s.buffer = ground arith in
        record {
          text = tsv s.buffer;
          on_disk = write_same (numbered s.next_segment_id) (tsv s.buffer) s.files;
          indexed = refl;
          written = inl (ap tsv (sym own));
          counted = refl;
        }

    pushed-IsValid : (after : ℕ) → IsValid engine docs_after (pushed after s)
    pushed-IsValid after = record {
      distinct =
          Distinct-perm (Permᴰ.map (λ g. g.identity) grown)
            (is_in-identified s.next_identity (tracked s) v.identified, v.distinct);
      identified =
          All-perm _ grown (omega arith, identified_suc s.next_identity (tracked s) v.identified);
      apart =
          Distinct-perm (Permᴰ.map (λ g. g.source_tsv) grown)
            (is_in-below s.next_segment_id (tracked s) v.below, v.apart);
      below = All-perm _ grown (omega arith, IsBelow-suc s.next_segment_id (tracked s) v.below);
      reserved = All-imp _ _ job_apart s.merge_queue v.reserved;
      stored = All-perm _ grown (
        new-IsStored,
        IsStored-write engine docs s.next_identity s.buffer (numbered s.next_segment_id)
            (tsv s.buffer) s.files (tracked s) v.identified
            (is_in-below s.next_segment_id (tracked s) v.below) v.stored,
      );
      plans =
          All-imp _ _ (λ plan. IsPlan-push s.segments plan (flushed_segment s)) (pending s) v.plans;
      alone = v.alone;
      guarded = v.guarded;
      merged =
          IsMerged-update engine docs s.next_identity s.buffer s.segments s.worker v.identified
            (All-of_append_right _ (map (λ job. job.chosen) s.merge_queue) (claims s.worker)
              v.plans)
            v.merged;
    }

    pushed-Holds :
        (after : ℕ) (all : List Document)
        → Holds engine docs s all
        → Holds engine docs_after (pushed after s) all
    pushed-Holds after all h =
        let x = flushed_segment s in
        let own : docs_after s.next_identity ≡ s.buffer = ground arith in
        subst (λ l. Permᴰ l all)
          (sym (
            append-nil _
            ∙ ap concat (map-append (λ g. docs_after g.identity) s.segments (x ∷ []))
            ∙ concat-append (map (λ g. docs_after g.identity) s.segments) _
            ∙ ap₂ ◌++◌ (docs_of-update docs s.next_identity s.buffer s.segments live_identified)
                (append-nil _ ∙ own)))
          h

  -- A flush keeps the invariant and the documents, whether it builds, fails or has nothing to do.
  pub flush_locked-IsValid :
      (succeeds : Bool) (after : ℕ) (docs : ℕ → List Document) (s : NrtIndex Index)
      (all : List Document)
      → IsValid engine docs s
      → Holds engine docs s all
      → (docs' : ℕ → List Document) × IsValid engine docs' (flush_locked engine succeeds after s).1
        × Holds engine docs' (flush_locked engine succeeds after s).1 all
  flush_locked-IsValid succeeds after docs s all v h = elim (flush_locked_cases succeeds after s) [
    | inl (_, nothing) ↦ rw nothing (docs, v, h)
    | inr (inl failed) ↦ rw failed (docs, written-IsValid docs s v, h)
    | inr (inr done) ↦
        let t = pushed after s in
        let (live, left, _) = maybe_schedule_merge_keeps t in
        rw done (
          docs_after docs s v,
          maybe_schedule_merge-IsValid t (pushed-IsValid docs s v after),
          rw (live, left) (pushed-Holds docs s v after all h),
        )
  ]

  abbrev pub buffered : Document → NrtIndex Index → NrtIndex Index
  buffered document s = record s { buffer = s.buffer ++ document ∷ [] }

  pub add_cases :
      (document : Document) (now : ℕ) (succeeds : Bool) (after : ℕ) (s : NrtIndex Index)
      → (add engine document now succeeds after s ≡ (returned, buffered document s))
        ⊎ (add engine document now succeeds after s
            ≡ flush_locked engine succeeds after (buffered document s))
  unfolding add
  add_cases document now succeeds after s =
      elim (Bool-cases (should_flush (buffered document s) now)) [
        | inl full ↦ inr (rw full refl)
        | inr room ↦ inl (rw room refl)
      ]

  buffered-IsValid :
      (document : Document) (docs : ℕ → List Document) (s : NrtIndex Index)
      → IsValid engine docs s
      → IsValid engine docs (buffered document s)
  buffered-IsValid document docs s v = record {
    distinct = v.distinct;
    identified = v.identified;
    apart = v.apart;
    below = v.below;
    reserved = v.reserved;
    stored = v.stored;
    plans = v.plans;
    alone = v.alone;
    guarded = v.guarded;
    merged = v.merged;
  }

  -- A call of `add` keeps the invariant, and adds its document and no other.
  pub add-IsValid :
      (document : Document) (now : ℕ) (succeeds : Bool) (after : ℕ) (docs : ℕ → List Document)
      (s : NrtIndex Index) (all : List Document)
      → IsValid engine docs s
      → Holds engine docs s all
      → (docs' : ℕ → List Document) × IsValid engine docs'
          (add engine document now succeeds after s).1
        × Holds engine docs' (add engine document now succeeds after s).1 (all ++ document ∷ [])
  add-IsValid document now succeeds after docs s all v h =
      let v' = buffered-IsValid document docs s v in
      let h' : Holds engine docs (buffered document s) (all ++ document ∷ []) =
        subst (λ l. Permᴰ l (all ++ document ∷ []))
          (append_assoc (docs_of engine docs s.segments) s.buffer (document ∷ []))
          (Permᴰ.append_right (document ∷ []) h) in
      elim (add_cases document now succeeds after s) [
        | inl kept ↦ rw kept (docs, v', h')
        | inr flushed ↦ rw flushed (flush_locked-IsValid succeeds after docs _ _ v' h')
      ]
