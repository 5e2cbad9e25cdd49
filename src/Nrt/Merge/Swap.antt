-- ===== src/Nrt/Merge/Swap.antt =====
-- Swapping the merged segment in, giving up and cleaning up keep the invariant.
use mathlib.Core.Path.{subst}
use mathlib.Core.List.{Permᴰ}
use mathlib.Core.List.Permᴰ
use cascade_search_engine.Prelude.{
  ℕ, ◌≤◌, false, List, [], ◌∷◌, ◌++◌, map, map-append, append-nil, ◌≡◌, refl, ap, ap₂, ◌∙◌, ◌⊎◌,
  inl, inr, arith, length, length-append, keep_if, keep_if-append, All-imp, All-of_append_left,
  All-of_append_right, concat, concat-append,
}
use cascade_search_engine.Prelude.Keys.{nat_eq, Distinct}
use cascade_search_engine.Prelude.Perms.{
  All-perm, Distinct-perm, Distinct-apart, Distinct-of_append_right, is_in_of_append_right, All-in,
  keep_if-not_in, keep_if-All_in, keep_if-perm, concat-perm,
}
use cascade_search_engine.Nrt.Engine.{Engine}
use cascade_search_engine.Nrt.Segment.{Segment, numbered}
use cascade_search_engine.Nrt.Tsv.{Document}
use cascade_search_engine.Nrt.Files.{path_eq}
use cascade_search_engine.Nrt.Index.{
  Job, Worker, NrtIndex, Outcome, returned, raised, maybe_schedule_merge,
}
use cascade_search_engine.Nrt.Merge.{
  identities, sources, is_other, after_swap, swap_in, give_up, clean_up,
}
use cascade_search_engine.Nrt.Merge.Invariant.{in_hand, claims, IsValid, docs_of, Holds}
use cascade_search_engine.Nrt.Merge.Parts.{push-perm}
use cascade_search_engine.Nrt.Merge.Writes.{IsStored-unlink_all}
use cascade_search_engine.Nrt.Merge.Schedule.{
  append-eq-nil, maybe_schedule_merge-IsValid, maybe_schedule_merge_keeps,
}

module _ {Index : Type 0} where
  -- What is not chosen stays, and what is chosen goes.
  others-perm :
      (segments chosen rest : List (Segment Index))
      → Permᴰ segments (chosen ++ rest)
      → Distinct (identities (chosen ++ rest))
      → Permᴰ (keep_if (is_other chosen) segments) rest
  others-perm segments chosen rest p d =
      let kept = keep_if-perm (is_other chosen) p in
      let id_of = λ (g : Segment Index). g.identity in
      subst (Permᴰ (keep_if (is_other chosen) segments))
        (keep_if-append (is_other chosen) chosen rest
          ∙ ap₂ ◌++◌ (keep_if-All_in id_of (identities chosen) chosen (All-in id_of chosen))
              (keep_if-not_in id_of (identities chosen) rest (Distinct-apart id_of chosen rest d)))
        kept

  after_swap_cases :
      (outcome : Outcome) (s : NrtIndex Index)
      → (after_swap outcome s ≡ s) ⊎ (after_swap outcome s ≡ record s { worker = Worker.idle })
  unfolding after_swap
  after_swap_cases returned s = inl refl
  after_swap_cases raised s = inr refl

pub nil_of_short {ℓ} : {A : Type ℓ} (xs : List A) (y : A) → length (xs ++ y ∷ []) ≤ 1 → xs ≡ []
nil_of_short [] y h = refl
nil_of_short (x ∷ []) y h = absurd (omega arith)
nil_of_short (x ∷ z ∷ xs) y h = absurd (omega arith)

module _ {Index Score : Type 0} (engine : Engine Index Score) (docs : ℕ → List Document) where
  -- The merge thread may let go of what it holds.
  drop_worker-IsValid :
      (s : NrtIndex Index)
      → IsValid engine docs s
      → IsValid engine docs (record s { worker = Worker.idle })
  drop_worker-IsValid s v =
      let held = in_hand s.worker in
      record {
        distinct = Distinct-of_append_right (λ g. g.identity) held s.segments v.distinct;
        identified = All-of_append_right _ held s.segments v.identified;
        apart = Distinct-of_append_right (λ g. g.source_tsv) held s.segments v.apart;
        below = All-of_append_right _ held s.segments v.below;
        reserved =
            All-imp _ _
              (λ job h. (
                h.0,
                is_in_of_append_right (numbered job.merge_id) (sources held) (sources s.segments)
                    (rw (map-append (λ g. g.source_tsv) held s.segments) at h.1),
              ))
              s.merge_queue v.reserved;
        stored = All-of_append_right _ held s.segments v.stored;
        plans = rw append-nil (
            All-of_append_left _ (map (λ job. job.chosen) s.merge_queue) (claims s.worker) v.plans);
        alone = omega (
          arith,
          v.alone,
          length-append (map (λ job. job.chosen) s.merge_queue) (claims s.worker),
          length-append (map (λ job. job.chosen) s.merge_queue) [],
        );
        guarded = λ e. rw append-nil (
            (append-eq-nil (map (λ job. job.chosen) s.merge_queue) (claims s.worker)
              (v.guarded e)).0);
        merged = tt;
      }

  module _ (s : NrtIndex Index) (chosen : List (Segment Index)) (m : Segment Index) where
    -- the state in which the merge thread takes the lock, no other job being queued
    abbrev pub locked : NrtIndex Index
    locked = record s { merge_queue = []; worker = Worker.built chosen m }

    abbrev pub swapped_in : NrtIndex Index
    swapped_in = record s {
      merge_queue = [];
      segments = keep_if (is_other chosen) s.segments ++ m ∷ [];
      merge_in_progress = false;
      worker = Worker.swapped chosen;
    }

    swap_in_cases :
        (swap_in chosen m locked ≡ (maybe_schedule_merge swapped_in).1)
        ⊎ (swap_in chosen m locked
            ≡ record (maybe_schedule_merge swapped_in).1 { worker = Worker.idle })
    unfolding swap_in
    swap_in_cases =
        after_swap_cases (maybe_schedule_merge swapped_in).0 (maybe_schedule_merge swapped_in).1

    module _ (v : IsValid engine docs locked) where
      pub rest_perm :
          (rest : List (Segment Index)) × Permᴰ s.segments (chosen ++ rest)
          × Permᴰ (keep_if (is_other chosen) s.segments) rest
      rest_perm =
          let (rest, p) = v.plans.0 in
          (
            rest,
            p,
            others-perm s.segments chosen rest p
                (Distinct-perm (Permᴰ.map (λ g. g.identity) p) v.distinct.1),
          )

      moved : Permᴰ (m ∷ s.segments) (chosen ++ (keep_if (is_other chosen) s.segments ++ m ∷ []))
      moved =
          let (rest, p, q) = rest_perm in
          Permᴰ.trans (Permᴰ.cons refl p) (
            Permᴰ.trans (push-perm m chosen rest)
              (Permᴰ.append_left chosen (Permᴰ.append_right (m ∷ []) (Permᴰ.symm q))))

      swapped_in-IsValid : IsValid engine docs swapped_in
      swapped_in-IsValid = record {
        distinct = Distinct-perm (Permᴰ.map (λ g. g.identity) moved) v.distinct;
        identified = All-perm _ moved v.identified;
        apart = Distinct-perm (Permᴰ.map (λ g. g.source_tsv) moved) v.apart;
        below = All-perm _ moved v.below;
        reserved = tt;
        stored = All-perm _ moved v.stored;
        plans = tt;
        alone = omega arith;
        guarded = λ e. refl;
        merged = tt;
      }

      docs_moved :
          Permᴰ
            (docs_of engine docs (keep_if (is_other chosen) s.segments ++ m ∷ []))
            (docs_of engine docs s.segments)
      docs_moved =
          let (rest, p, q) = rest_perm in
          let documents = λ (g : Segment Index). docs g.identity in
          let others = keep_if (is_other chosen) s.segments in
          let split : docs_of engine docs (others ++ m ∷ [])
              ≡ docs_of engine docs others ++ docs_of engine docs chosen =
            ap concat (map-append documents others (m ∷ []))
            ∙ concat-append (map documents others) _
            ∙ ap (λ l. docs_of engine docs others ++ l) (append-nil _ ∙ v.merged) in
          let joined : docs_of engine docs (chosen ++ rest)
              ≡ docs_of engine docs chosen ++ docs_of engine docs rest =
            ap concat (map-append documents chosen rest) ∙ concat-append (map documents chosen) _ in
          rw split (
            Permᴰ.trans
              (Permᴰ.append_right (docs_of engine docs chosen)
                (concat-perm (Permᴰ.map documents q)))
              (Permᴰ.trans
                (Permᴰ.append_comm (docs_of engine docs rest) (docs_of engine docs chosen))
                (rw (← joined) (Permᴰ.symm (concat-perm (Permᴰ.map documents p))))))

      -- The swap loses no document and doubles none.
      pub swap_in-IsValid :
          (all : List Document)
          → Holds engine docs s all
          → IsValid engine docs (swap_in chosen m locked)
            × Holds engine docs (swap_in chosen m locked) all
      swap_in-IsValid all h =
          let valid = maybe_schedule_merge-IsValid swapped_in swapped_in-IsValid in
          let (live, left, _) = maybe_schedule_merge_keeps swapped_in in
          let moved_h : Holds engine docs (maybe_schedule_merge swapped_in).1 all =
            rw (live, left) (Permᴰ.trans (Permᴰ.append_right s.buffer docs_moved) h) in
          elim swap_in_cases [
            | inl done ↦ rw done (valid, moved_h)
            | inr refused ↦
                rw refused (drop_worker-IsValid (maybe_schedule_merge swapped_in).1 valid, moved_h)
          ]

  pub give_up-IsValid :
      (s : NrtIndex Index)
      → IsValid engine docs (record s { worker = Worker.failed })
      → IsValid engine docs (give_up s)
  unfolding give_up
  give_up-IsValid s v =
      let d = drop_worker-IsValid (record s { worker = Worker.failed }) v in
      let no_jobs = nil_of_short (map (λ (job : Job Index). job.chosen) s.merge_queue) [] v.alone in
      record {
        distinct = d.distinct;
        identified = d.identified;
        apart = d.apart;
        below = d.below;
        reserved = d.reserved;
        stored = d.stored;
        plans = d.plans;
        alone = d.alone;
        guarded = λ e. append-nil _ ∙ no_jobs;
        merged = tt;
      }

  pub clean_up-IsValid :
      (s : NrtIndex Index) (chosen : List (Segment Index))
      → IsValid engine docs (record s { worker = Worker.swapped chosen })
      → IsValid engine docs (clean_up chosen s)
  unfolding clean_up
  clean_up-IsValid s chosen v =
      let d = drop_worker-IsValid (record s { worker = Worker.swapped chosen }) v in
      record {
        distinct = d.distinct;
        identified = d.identified;
        apart = d.apart;
        below = d.below;
        reserved = d.reserved;
        stored =
            IsStored-unlink_all engine docs (sources chosen) s.files s.segments
              (Distinct-apart (λ g. g.source_tsv) chosen s.segments v.apart) d.stored;
        plans = d.plans;
        alone = d.alone;
        guarded = d.guarded;
        merged = tt;
      }
