-- ===== src/Rank/Discipline/Asserted.antt =====
-- The assertion of `run_queue_discipline` holds.
use Prim.Native.String.{String}
use cascade_search_engine.Prelude.{
  ℕ, ◌+◌, ◌<◌, true, false, not, Option, none, some, List, length, ◌≡◌, sym, ap, ◌∙◌, inl, inr,
  arith, count_if, Bool-cases, ltb, nat_beq, nat_beq_iff, if◌then◌else◌,
}
use cascade_search_engine.Prelude.Keys.{string_eq, ◌==◌}
use cascade_search_engine.Harness.Latency.{Doubles}
use cascade_search_engine.Harness.Loadgen.{Served, run_open_loop, load_result}
use cascade_search_engine.Harness.Loadgen.Accounts.{account-counts, count_if-all}
use cascade_search_engine.Rank.Batcher.{DynamicBatcher}
use cascade_search_engine.Rank.Batched.{Item, BatchedRun, Event, run, start}
use cascade_search_engine.Rank.Discipline.{DisciplineReport, depth_of, run_queue_discipline}
use cascade_search_engine.Rank.Discipline.Sheds.{
  outcomes, raised, run-Sheds, run_unbounded, run-Same,
}

module _ {A : Type 0} (discipline : String) (max_queue_depth : ℕ)
    (batcher : DynamicBatcher (Item A)) (request_pairs : List A)
    (some_pair : 0 < length request_pairs) (warmup events : List Event) where
  -- the run after its warm-up, and at its end
  abbrev pub warm : BatchedRun A
  warm = run warmup (start batcher request_pairs (depth_of discipline max_queue_depth))

  abbrev pub final : BatchedRun A
  final = run events warm

  -- the requests of the open loop that raised
  abbrev pub errors_of_loop : ℕ
  errors_of_loop = raised (outcomes events warm)

  module _ {F : Type 0} (doubles : Doubles F) (arrivals : List ℕ) (records : List Served)
      (wall_ns : ℕ) (warmed : warm.shed ≡ 0) (working : final.failure ≡ false)
      (recorded : count_if (λ s. not s.ok) records ≡ errors_of_loop) where
    warm-pairs : 0 < length warm.request_pairs
    unfolding start
    warm-pairs =
        rw
          (run-Same warmup (start batcher request_pairs (depth_of discipline max_queue_depth))
            some_pair).0
          some_pair

    shed-eq : final.shed ≡ errors_of_loop
    shed-eq = omega (arith, (run-Sheds events warm warm-pairs working).1, warmed)

    asserted : count_if (λ s. not s.ok) records ≡ (if discipline == "shed" then final.shed else 0)
    unfolding start
    asserted = elim (Bool-cases (discipline == "shed")) [
      | inl shedding ↦ recorded ∙ sym shed-eq ∙ sym (ap (λ b. if b then final.shed else 0) shedding)
      | inr unbounded ↦
          let open_end : warm.max_queue_depth ≡ none =
            (run-Same warmup (start batcher request_pairs (depth_of discipline max_queue_depth))
              some_pair).1
            ∙ ap (λ b. if b then some max_queue_depth else none) unbounded in
          recorded
          ∙ run_unbounded events warm warm-pairs open_end working
          ∙ sym (ap (λ b. if b then final.shed else 0) unbounded)
    ]

    -- There is a pair, no request of the warm-up is shed and no score fails, and each request of the open
    -- loop that raised left a record that says so, as no other did: then the assertion holds and the run
    -- reports. It has shed exactly the requests that raised, and completed the others.
    pub run_queue_discipline-sheds :
        (report : DisciplineReport F) × (run_queue_discipline doubles discipline max_queue_depth
            batcher request_pairs warmup events arrivals records wall_ns
          ≡ some report)
        × (report.shed_count ≡ errors_of_loop)
        × (report.completed + report.shed_count ≡ length records)
    unfolding run_queue_discipline run_open_loop
    run_queue_discipline-sheds =
        let result = run_open_loop doubles arrivals records wall_ns in
        let counts = account-counts doubles records (load_result arrivals) in
        let right : nat_beq result.errors (if discipline == "shed" then final.shed else 0) ≡ true =
          (nat_beq_iff result.errors (if discipline == "shed" then final.shed else 0)).1
            (counts.1 ∙ omega (arith, asserted)) in
        let report : DisciplineReport F = record {
          discipline = discipline;
          completed = result.completed;
          dispatched = result.dispatched;
          wall_ns = result.wall_ns;
          latency = result.latency;
          queue_delay = result.queue_delay;
          shed_count = final.shed;
        } in
        let checked : Option (DisciplineReport F) =
          if nat_beq result.errors (if discipline == "shed" then final.shed else 0)
          then some report
          else none in
        (
          report,
          ap (λ n. if ltb 0 n then none else (if final.failure then none else checked)) warmed
              ∙ ap (λ b. if b then none else checked) working
              ∙ ap (λ b. if b then some report else none) right,
          shed-eq,
          omega (arith, counts.0, counts.1, count_if-all (λ s. s.ok) records, shed-eq, recorded),
        )
