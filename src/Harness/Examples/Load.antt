-- ===== src/Harness/Examples/Load.antt =====
-- An open-loop run of ten ticks, with two requests.
use Prim.Native.Nat.{ℕ, ◌+◌, ◌-◌, ◌*◌, ◌/◌, ◌<◌}
use cascade_search_engine.Prelude.{
  true, false, none, some, ◌⊎◌, [], ◌∷◌, List, ◌≡◌, arith, length, map, count_if,
}
use cascade_search_engine.Harness.Latency.{Doubles}
use cascade_search_engine.Harness.Loadgen.{Served, poisson_arrivals, run_open_loop}
use cascade_search_engine.Harness.Loadgen.Arrivals.{
  sums, time_of, StopsAt, poisson_arrivals-StopsAt,
}
use cascade_search_engine.Harness.Loadgen.Accounts.{run_open_loop-accounts}

-- a draw of three ticks, then one of four, five and so on
abbrev gap : ℕ → ℕ
gap i = i + 3

poisson_arrivals-StopsAt_example :
    ((time_of gap 0 0 3 < 10) × (poisson_arrivals 3 20 gap 10 ≡ none))
    ⊎ ((n : ℕ) × (n < 3)
        × (poisson_arrivals 3 20 gap 10 ≡ some (sums gap 0 0 n))
        × StopsAt gap 10 0 0 n)
poisson_arrivals-StopsAt_example = poisson_arrivals-StopsAt gap 10 3 20 (omega arith) (omega arith)

abbrev records : List Served
records =
    record { scheduled_ns = 3000; start_ns = 3000; done_ns = 9000; ok = true }
    ∷ record { scheduled_ns = 7000; start_ns = 9000; done_ns = 11500; ok = false }
    ∷ []

abbrev doubles : Doubles ℕ
doubles = record { micros = λ ns. ns / 1000; ceil_rank = λ tenths n. (tenths * n + 999) / 1000 }

run_open_loop-accounts_example :
    let r = run_open_loop doubles (3000 ∷ 7000 ∷ []) records 12000 in
    (r.completed ≡ count_if (λ s. s.ok) records)
    × (r.completed + r.errors ≡ length records)
    × (r.queue_delay.samples ≡ map (λ s. (s.start_ns - s.scheduled_ns) / 1000) records)
    × (r.service.samples ≡ map (λ s. (s.done_ns - s.start_ns) / 1000) records)
    × (r.latency.samples
        ≡ map (λ s. ((s.start_ns - s.scheduled_ns) + (s.done_ns - s.start_ns)) / 1000) records)
run_open_loop-accounts_example =
    run_open_loop-accounts doubles (3000 ∷ 7000 ∷ []) records 12000 (omega arith)
