-- ===== src/Nrt/Merge/Schedule.antt =====
-- Scheduling a merge, and the calls of clients, keep the invariant.
use Prim.Native.String.{String}
use cascade_search_engine.Prelude.{
  ℕ, suc, true, false, some, List, [], ◌∷◌, ◌++◌, map, ◌≡◌, refl, sym, ◌⊎◌, inl, inr, arith, leb,
  length, take, drop, min, take-append-drop, All, All-append, All-imp, Bool-cases, Option-cases,
}
use mathlib.Core.Path.{subst}
use mathlib.Core.List.{Permᴰ}
use mathlib.Core.List.Permᴰ
use cascade_search_engine.Prelude.Keys.{nat_eq, nat_order}
use cascade_search_engine.Sort.{sort, ascending}
use cascade_search_engine.Sort.Laws.{sort-permᴰ}
use cascade_search_engine.Nrt.Engine.{Engine}
use cascade_search_engine.Nrt.Segment.{Segment}
use cascade_search_engine.Nrt.MergePolicy.{TieredMergePolicy, maybe_merge}
use cascade_search_engine.Nrt.Tsv.{Document}
use cascade_search_engine.Nrt.Files.{path_eq}
use cascade_search_engine.Nrt.Index.{
  NrtIndex, returned, raised, submit, maybe_schedule_merge, delete, close,
}
use cascade_search_engine.Nrt.Merge.Invariant.{tracked, claims, pending, IsPlan, IsValid}
use cascade_search_engine.Nrt.Merge.Parts.{is_in-below, IsBelow-suc}

pub append-eq-nil {ℓ} : {A : Type ℓ} (xs ys : List A) → xs ++ ys ≡ [] → (xs ≡ []) × (ys ≡ [])
append-eq-nil [] ys h = (refl, h)
append-eq-nil (x ∷ xs) ys h = cc

pub map-eq-nil {ℓ κ} : {A : Type ℓ} {B : Type κ} (f : A → B) (xs : List A) → map f xs ≡ [] → xs ≡ []
map-eq-nil f [] h = refl
map-eq-nil f (x ∷ xs) h = cc

module _ {Index : Type 0} where
  maybe_merge-eq :
      (policy : TieredMergePolicy) (segments : List (Segment Index))
      → leb (length segments) policy.max_segments ≡ false
      → maybe_merge policy segments
        ≡ some (
            take
              (min policy.merge_factor (length (sort (ascending (λ s. s.doc_count)) segments)))
              (sort (ascending (λ s. s.doc_count)) segments))
  unfolding maybe_merge
  maybe_merge-eq policy segments h = rw h

  cut-IsPlan :
      (n : ℕ) (segments by_size : List (Segment Index))
      → Permᴰ segments by_size
      → IsPlan segments (take n by_size)
  cut-IsPlan n segments by_size p = (drop n by_size, rw take-append-drop p)

  -- What the policy returns is part of the list that it was given.
  pub maybe_merge-IsPlan :
      (policy : TieredMergePolicy) (segments plan : List (Segment Index))
      → maybe_merge policy segments ≡ some plan
      → IsPlan segments plan
  maybe_merge-IsPlan policy segments plan h =
      elim (Bool-cases (leb (length segments) policy.max_segments)) [
        | inl small ↦ unfold maybe_merge in absurd (ground arith)
        | inr big ↦
            let by_size = sort (ascending (λ s. s.doc_count)) segments in
            let n = min policy.merge_factor (length by_size) in
            let plan_is : take n by_size ≡ plan = cc (maybe_merge-eq policy segments big) in
            subst (IsPlan segments) plan_is (
              cut-IsPlan n segments by_size
                (Permᴰ.symm (sort-permᴰ (ascending (λ s. s.doc_count)) segments)))
      ]

  abbrev pub reserve : NrtIndex Index → NrtIndex Index
  reserve s = record s { merge_in_progress = true; next_segment_id = suc s.next_segment_id }

  abbrev pub enqueue : List (Segment Index) → NrtIndex Index → NrtIndex Index
  enqueue plan s = record s {
    merge_in_progress = true;
    next_segment_id = suc s.next_segment_id;
    merge_queue = s.merge_queue ++ record { chosen = plan; merge_id = s.next_segment_id } ∷ [];
  }

  -- The pool refuses the job or queues it.
  pub submit_cases :
      (plan : List (Segment Index)) (s : NrtIndex Index)
      → (submit plan s ≡ (raised, reserve s)) ⊎ (submit plan s ≡ (returned, enqueue plan s))
  unfolding submit
  submit_cases plan s = elim (Bool-cases s.closed) [
    | inl shut ↦ inl (ground arith)
    | inr running ↦ inr (ground arith)
  ]

  -- Nothing is scheduled, or the plan of the policy is.
  pub maybe_schedule_merge_cases :
      (s : NrtIndex Index)
      → (maybe_schedule_merge s ≡ (returned, s))
        ⊎ ((policy : TieredMergePolicy) × (plan : List (Segment Index)) × (s.merge_in_progress
              ≡ false)
            × (maybe_merge policy s.segments ≡ some plan)
            × (maybe_schedule_merge s ≡ submit plan s))
  unfolding maybe_schedule_merge
  maybe_schedule_merge_cases s = elim (Option-cases s.merge_policy) [
    | inl off ↦ inl (ground arith)
    | inr (policy, on) ↦ elim (Bool-cases s.merge_in_progress) [
      | inl busy ↦ inl (ground arith)
      | inr free ↦ elim (Option-cases (maybe_merge policy s.segments)) [
        | inl small ↦ inl (ground arith)
        | inr (plan, found) ↦ inr (policy, plan, free, found, ground arith)
      ]
    ]
  ]

module _ {Index Score : Type 0} {engine : Engine Index Score} {docs : ℕ → List Document} where
  -- A number is given out, and the flag is set.
  reserve-IsValid : (s : NrtIndex Index) → IsValid engine docs s → IsValid engine docs (reserve s)
  reserve-IsValid s v = record {
    distinct = v.distinct;
    identified = v.identified;
    apart = v.apart;
    below = IsBelow-suc s.next_segment_id (tracked s) v.below;
    reserved = All-imp _ _ (λ job h. (omega arith, h.1)) s.merge_queue v.reserved;
    stored = v.stored;
    plans = v.plans;
    alone = v.alone;
    guarded = λ e. cc;
    merged = v.merged;
  }

  enqueue-IsValid :
      (plan : List (Segment Index)) (s : NrtIndex Index)
      → IsPlan s.segments plan
      → pending s ≡ []
      → IsValid engine docs s
      → IsValid engine docs (enqueue plan s)
  enqueue-IsValid plan s p none_pending v =
      let r = reserve-IsValid s v in
      let (no_jobs, no_claims) =
        append-eq-nil (map (λ job. job.chosen) s.merge_queue) (claims s.worker) none_pending in
      let pend : pending (enqueue plan s) ≡ plan ∷ [] =
        rw no_claims (rw (map-eq-nil _ s.merge_queue no_jobs) refl) in
      record {
        distinct = v.distinct;
        identified = v.identified;
        apart = v.apart;
        below = r.below;
        reserved =
            All-append _ s.merge_queue _ r.reserved
              ((omega arith, is_in-below s.next_segment_id (tracked s) v.below), tt);
        stored = v.stored;
        plans = subst (All (IsPlan s.segments)) (sym pend) (p, tt);
        alone = rw pend (omega arith);
        guarded = λ e. cc;
        merged = v.merged;
      }

  submit-IsValid :
      (plan : List (Segment Index)) (s : NrtIndex Index)
      → IsPlan s.segments plan
      → pending s ≡ []
      → IsValid engine docs s
      → IsValid engine docs (submit plan s).1
  submit-IsValid plan s p none_pending v = elim (submit_cases plan s) [
    | inl refused ↦ rw refused (reserve-IsValid s v)
    | inr queued ↦ rw queued (enqueue-IsValid plan s p none_pending v)
  ]

  pub maybe_schedule_merge-IsValid :
      (s : NrtIndex Index) → IsValid engine docs s → IsValid engine docs (maybe_schedule_merge s).1
  maybe_schedule_merge-IsValid s v = elim (maybe_schedule_merge_cases s) [
    | inl stays ↦ rw stays v
    | inr (policy, plan, free, found, submitted) ↦
        rw submitted (
          submit-IsValid plan s (maybe_merge-IsPlan policy s.segments plan found) (v.guarded free)
            v)
  ]

  pub delete-IsValid :
      (eid : String) (s : NrtIndex Index)
      → IsValid engine docs s
      → IsValid engine docs (delete eid s)
  unfolding delete
  delete-IsValid eid s v = record {
    distinct = v.distinct;
    identified = v.identified;
    apart = v.apart;
    below = v.below;
    reserved = v.reserved;
    stored = v.stored;
    plans = v.plans;
    alone = v.alone;
    guarded = v.guarded;
    merged = v.merged;
  }

  pub close-IsValid : (s : NrtIndex Index) → IsValid engine docs s → IsValid engine docs (close s)
  unfolding close
  close-IsValid s v = record {
    distinct = v.distinct;
    identified = v.identified;
    apart = v.apart;
    below = v.below;
    reserved = v.reserved;
    stored = v.stored;
    plans = v.plans;
    alone = v.alone;
    guarded = v.guarded;
    merged = v.merged;
  }

-- Scheduling leaves the documents where they are, and the merge thread too.
pub maybe_schedule_merge_keeps :
    {Index : Type 0} (s : NrtIndex Index)
    → ((maybe_schedule_merge s).1.segments ≡ s.segments)
      × ((maybe_schedule_merge s).1.buffer ≡ s.buffer)
      × ((maybe_schedule_merge s).1.worker ≡ s.worker)
unfolding maybe_schedule_merge
maybe_schedule_merge_keeps s = ground arith
