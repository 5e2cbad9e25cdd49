-- ===== src/Nrt/Merge/Rounds.antt =====
-- Merge rounds follow one another until the number of segments is within the budget.
use mathlib.Core.Path.{subst}
use cascade_search_engine.Prelude.{
  ℕ, zero, suc, ◌≤◌, ◌<◌, true, false, some, List, [], ◌∷◌, ◌++◌, ◌≡◌, refl, sym, ap, ◌∙◌, ◌⊎◌, inl,
  inr, arith, length, length-append, keep_if,
}
use cascade_search_engine.Prelude.Perms.{length-perm}
use cascade_search_engine.Nrt.Engine.{Engine}
use cascade_search_engine.Nrt.Segment.{Segment}
use cascade_search_engine.Nrt.MergePolicy.{TieredMergePolicy}
use cascade_search_engine.Nrt.MergePolicy.Smallest.{maybe_merge-smallest}
use cascade_search_engine.Nrt.Tsv.{Document}
use cascade_search_engine.Nrt.Files.{Files}
use cascade_search_engine.Nrt.Index.{Job, Worker, NrtIndex, returned, maybe_schedule_merge, init}
use cascade_search_engine.Nrt.Merge.{
  advance, after_swap, swap_in, clean_up, is_other, Event, flush_buffer, merge_thread, step, run,
  start_job, added,
}
use cascade_search_engine.Nrt.Merge.Invariant.{IsValid}
use cascade_search_engine.Nrt.Merge.Schedule.{enqueue}
use cascade_search_engine.Nrt.Merge.Flush.{pushed, flush_locked-true}
use cascade_search_engine.Nrt.Merge.Build.{
  taking, after_build, after_build-IsValid, docs_built, merged_segment, build_merged_lem,
}
use cascade_search_engine.Nrt.Merge.Swap.{locked, swapped_in, rest_perm}
use cascade_search_engine.Nrt.Merge.Runs.{Keeps, run-Keeps, at_work, IsReady, reachable-Keeps}

-- A policy by which every merge makes the list shorter, on an index that is open.
pub record IsActive {Index : Type 0} (policy : TieredMergePolicy) (s : NrtIndex Index)
    : Type 0 where
  pub has_policy : s.merge_policy ≡ some policy
  pub is_open : s.closed ≡ false
  pub joins : 2 ≤ policy.merge_factor
  pub allows : 1 ≤ policy.max_segments

module _ {Index : Type 0} (policy : TieredMergePolicy) where
  carry :
      (s t : NrtIndex Index)
      → s.merge_policy ≡ t.merge_policy
      → s.closed ≡ t.closed
      → IsActive policy s
      → IsActive policy t
  carry s t e f a = record {
    has_policy = cc a.has_policy;
    is_open = cc a.is_open;
    joins = a.joins;
    allows = a.allows;
  }

  -- With no merge in progress, one is scheduled exactly if the list is over budget.
  maybe_schedule_merge_active :
      (s : NrtIndex Index)
      → IsActive policy s
      → s.merge_in_progress ≡ false
      → ((maybe_schedule_merge s ≡ (returned, s)) × (length s.segments ≤ policy.max_segments))
        ⊎ ((plan : List (Segment Index)) × (maybe_schedule_merge s ≡ (returned, enqueue plan s))
            × (2 ≤ length plan))
  unfolding maybe_schedule_merge
  maybe_schedule_merge_active s a free = elim (maybe_merge-smallest policy s.segments) [
    | inl (within, nothing) ↦ inl (ground (arith, a.has_policy), within)
    | inr (over, plan, rest, found, count, _) ↦
        inr (plan, ground (arith, a.has_policy, a.is_open), omega (arith, a.joins, a.allows))
  ]

  -- No piece of a merge is running: the list is within the budget, or a merge that shortens it waits.
  record IsCalm (s : NrtIndex Index) : Type 0 where
    active : IsActive policy s
    resting : s.worker ≡ Worker.idle
    waiting :
        ((s.merge_queue ≡ []) × (length s.segments ≤ policy.max_segments))
        ⊎ ((job : Job Index) × (s.merge_queue ≡ job ∷ []) × (2 ≤ length job.chosen))

  schedule-IsCalm :
      (s : NrtIndex Index)
      → IsActive policy s
      → s.merge_in_progress ≡ false
      → s.worker ≡ Worker.idle
      → s.merge_queue ≡ []
      → IsCalm (maybe_schedule_merge s).1
        × (length (maybe_schedule_merge s).1.segments ≡ length s.segments)
  schedule-IsCalm s a free rest empty = elim (maybe_schedule_merge_active s a free) [
    | inl (e, within) ↦
        rw e (record { active = a; resting = rest; waiting = inl (empty, within) }, refl)
    | inr (plan, e, two) ↦ rw e (
      record {
        active = carry _ _ refl refl a;
        resting = rest;
        waiting = inr (record { chosen = plan; merge_id = s.next_segment_id }, rw empty refl, two);
      },
      refl,
    )
  ]

module _ {Index Score : Type 0} (engine : Engine Index Score) (policy : TieredMergePolicy) where
  -- The swap and the clean-up of a merge.
  finish :
      (docs : ℕ → List Document) (s : NrtIndex Index) (chosen : List (Segment Index))
      (m : Segment Index)
      → IsValid engine docs (locked engine docs s chosen m)
      → IsActive policy s
      → 2 ≤ length chosen
      → let t =
          run engine (merge_thread true ∷ merge_thread true ∷ []) (locked engine docs s chosen m) in
        IsCalm policy t × (length t.segments < length s.segments)
  unfolding run step advance swap_in after_swap clean_up
  finish docs s chosen m v a two =
      let u = swapped_in engine docs s chosen m in
      let (rest, p, q) = rest_perm engine docs s chosen m v in
      let shorter : length u.segments < length s.segments = omega (
        arith,
        length-perm p,
        length-perm q,
        length-append chosen rest,
        length-append (keep_if (is_other chosen) s.segments) (m ∷ []),
      ) in
      let still : IsActive policy u = carry policy _ _ refl refl a in
      elim (maybe_schedule_merge_active policy u still refl) [
        | inl (e, within) ↦ rw e (
          record {
            active = carry policy _ _ refl refl a;
            resting = refl;
            waiting = inl (refl, within);
          },
          shorter,
        )
        | inr (plan, e, big) ↦ rw e (
          record {
            active = carry policy _ _ refl refl a;
            resting = refl;
            waiting = inr (record { chosen = plan; merge_id = s.next_segment_id }, refl, big);
          },
          shorter,
        )
      ]

  first_piece :
      (docs : ℕ → List Document) (s : NrtIndex Index) (job : Job Index)
      → IsValid engine docs (taking engine docs s job)
      → step engine (merge_thread true) (taking engine docs s job) ≡ after_build engine docs s job
  unfolding step advance start_job
  first_piece docs s job v = build_merged_lem engine docs s job v true

  -- The three pieces of a merge whose build succeeds.
  one_round :
      (docs : ℕ → List Document) (s : NrtIndex Index) (job : Job Index)
      → IsValid engine docs (taking engine docs s job)
      → IsActive policy s
      → 2 ≤ length job.chosen
      → let t =
          run engine
            (merge_thread true ∷ merge_thread true ∷ merge_thread true ∷ [])
            (taking engine docs s job) in
        IsCalm policy t × (length t.segments < length s.segments)
  unfolding run
  one_round docs s job v a two =
      let built = first_piece docs s job v in
      let u = record s {
        files = (after_build engine docs s job).files;
        next_identity = suc s.next_identity;
      } in
      let still : IsActive policy u = carry policy s u refl refl a in
      subst
        (λ t.
          IsCalm policy (run engine (merge_thread true ∷ merge_thread true ∷ []) t)
          × (length (run engine (merge_thread true ∷ merge_thread true ∷ []) t).segments
              < length s.segments))
        (sym built)
        (finish (docs_built engine docs s job v) u job.chosen (merged_segment engine docs s job)
          (after_build-IsValid engine docs s job v) still two)

-- `n` merges, one after the other, whose builds succeed.
abbrev pub rounds : ℕ → List Event
rounds zero = []
rounds (suc n) = merge_thread true ∷ merge_thread true ∷ merge_thread true ∷ rounds n

module _ {Index Score : Type 0} (engine : Engine Index Score) (policy : TieredMergePolicy) where
  run-append :
      (xs ys : List Event) (s : NrtIndex Index)
      → run engine (xs ++ ys) s ≡ run engine ys (run engine xs s)
  unfolding run
  run-append [] ys s = refl
  run-append (x ∷ xs) ys s = run-append xs ys (step engine x s)

  stays :
      (s : NrtIndex Index)
      → s.worker ≡ Worker.idle
      → s.merge_queue ≡ []
      → step engine (merge_thread true) s ≡ s
  unfolding step advance start_job
  stays s rest empty = rw (rest, advance, empty, start_job) refl

  rounds-stays :
      (n : ℕ) (s : NrtIndex Index)
      → s.worker ≡ Worker.idle
      → s.merge_queue ≡ []
      → run engine (rounds n) s ≡ s
  unfolding run
  rounds-stays zero s rest empty = refl
  rounds-stays (suc n) s rest empty =
      let same = stays s rest empty in
      ap (λ t. run engine (merge_thread true ∷ merge_thread true ∷ rounds n) t) same
      ∙ ap (λ t. run engine (merge_thread true ∷ rounds n) t) same
      ∙ ap (λ t. run engine (rounds n) t) same
      ∙ rounds-stays n s rest empty

  -- One round from a state in which a job waits.
  one_round_at :
      (s : NrtIndex Index) (all : List Document) (job : Job Index)
      → Keeps engine s all
      → IsCalm policy s
      → s.merge_queue ≡ job ∷ []
      → 2 ≤ length job.chosen
      → let t = run engine (merge_thread true ∷ merge_thread true ∷ merge_thread true ∷ []) s in
        IsCalm policy t × (length t.segments < length s.segments)
  one_round_at s all job k c queued two =
      let same = at_work engine s Worker.idle (job ∷ []) c.resting queued in
      let three = merge_thread true ∷ merge_thread true ∷ merge_thread true ∷ [] in
      subst
        (λ t.
          IsCalm policy (run engine three t)
          × (length (run engine three t).segments < length s.segments))
        (sym same)
        (one_round engine policy k.docs s job (subst (IsValid engine k.docs) same k.valid)
          (carry policy _ _ refl refl c.active) two)

  calm-converges :
      (n : ℕ) (s : NrtIndex Index) (all : List Document)
      → Keeps engine s all
      → IsCalm policy s
      → length s.segments ≤ n
      → length (run engine (rounds n) s).segments ≤ policy.max_segments
  unfolding run
  calm-converges zero s all k c h = elim c.waiting [
    | inl (empty, within) ↦ within
    | inr (job, queued, two) ↦ omega (arith, c.active.allows)
  ]
  calm-converges (suc n) s all k c h = elim c.waiting [
    | inl (empty, within) ↦ rw (rounds-stays (suc n) s c.resting empty) within
    | inr (job, queued, two) ↦
        let three = merge_thread true ∷ merge_thread true ∷ merge_thread true ∷ [] in
        let (calm, shorter) = one_round_at s all job k c queued two in
        calm-converges n (run engine three s) (all ++ added three) (run-Keeps engine three s all k)
          calm (omega arith)
  ]

  flush-IsCalm :
      (after : ℕ) (s : NrtIndex Index)
      → IsActive policy s
      → s.merge_in_progress ≡ false
      → s.worker ≡ Worker.idle
      → s.merge_queue ≡ []
      → 1 ≤ length s.buffer
      → let t = step engine (flush_buffer true after) s in
        IsCalm policy t × (length t.segments ≡ suc (length s.segments))
  unfolding step
  flush-IsCalm after s a free rest empty full =
      let u = pushed engine after s in
      let still : IsActive policy u = carry policy _ _ refl refl a in
      let (calm, same) = schedule-IsCalm policy u still free rest empty in
      rw (step, flush_locked-true engine after s full)
        (calm, same ∙ length-append s.segments _ ∙ omega arith)

  module _ (docs : ℕ → List Document) (flush_threshold_docs flush_interval_s : ℕ)
      (segments : List (Segment Index)) (now : ℕ) (files : Files) (next_identity : ℕ)
      (ready : IsReady engine docs segments files next_identity) (events : List Event) where
    abbrev pub reached : NrtIndex Index
    reached =
        run engine events (
          init flush_threshold_docs flush_interval_s (some policy) segments now files next_identity)

    -- A flush in any reachable state of an open index whose policy shortens the list with every merge
    -- (merge_factor at least 2, max_segments at least 1), with documents in the buffer and no merge in
    -- progress, queued or at work: as many merges as there are segments then, their builds not failing and
    -- nothing else happening, bring the list within max_segments.
    pub flush-converges :
        (after : ℕ)
        → IsActive policy reached
        → reached.merge_in_progress ≡ false
        → reached.worker ≡ Worker.idle
        → reached.merge_queue ≡ []
        → 1 ≤ length reached.buffer
        → length
            (run engine
              (flush_buffer true after ∷ rounds (suc (length reached.segments)))
              reached).segments
          ≤ policy.max_segments
    unfolding run
    flush-converges after active free rest empty full =
        let k =
          reachable-Keeps engine docs flush_threshold_docs flush_interval_s (some policy) segments
            now files next_identity ready events in
        let (calm, count) = flush-IsCalm after reached active free rest empty full in
        calm-converges (suc (length reached.segments))
          (step engine (flush_buffer true after) reached) _
          (run-Keeps engine (flush_buffer true after ∷ []) reached _ k) calm (omega (arith, count))
