-- ===== src/Server/Examples/Measured.antt =====
-- A load of four requests on a server that keeps every query, and fails on one.
use Prim.Native.String.{String}
use cascade_search_engine.Prelude.{
  ℕ, ◌+◌, ◌≤◌, none, some, List, [], ◌∷◌, length, take, ◌≡◌, refl, ◌⊎◌, if◌then◌else◌,
}
use cascade_search_engine.Prelude.Keys.{nat_order, string_eq, ◌==◌, is_in}
use cascade_search_engine.Harness.Examples.{whole}
use cascade_search_engine.Harness.Loadgen.{Weights, ZipfQuerySampler, zipf, sample, bisect_left}
use cascade_search_engine.Server.Measure.{
  Client, Request, Piece, arrive, go_on, settle, advance_at, step_load, serve, count_response,
  measure_cache, KneeSummary, note_response, warm_up, measure_knee,
}
use cascade_search_engine.Server.Measure.Workers.{arrivals_in}
use cascade_search_engine.Server.Measure.Counts.{one_by_one, measure_cache-counts}
use cascade_search_engine.Server.Measure.Knee.{measure_knee-counts}

abbrev caching : Client (List String)
caching cached query =
    if query == "bad"
    then (cached, none)
    else (query ∷ cached, some (record { cache_hit = is_in query cached; queue_wait_us = 3 }))

abbrev request : String → Request
request query = record {
  query = query;
  scheduled_ns = 1;
  start_ns = 2;
  done_ns = 5;
  elapsed_us = 3;
}

abbrev requests : List Request
requests = request "fox" ∷ request "bad" ∷ request "hen" ∷ request "fox" ∷ []

-- the worker that asks for "hen" comes between the read and the write of the one before it
abbrev pieces : List Piece
pieces =
    arrive (request "fox")
    ∷ arrive (request "bad")
    ∷ arrive (request "hen")
    ∷ go_on 0
    ∷ go_on 1
    ∷ go_on 0
    ∷ go_on 0
    ∷ go_on 0
    ∷ go_on 0
    ∷ go_on 0
    ∷ go_on 0
    ∷ []

abbrev harmonic : Weights ℕ
harmonic = record { nil = 0; of_rank = λ rank. rank; plus = λ a b. a + b; over = λ a b. a }

measure_cache-counts_example :
    let point = measure_cache whole caching (1 ∷ []) pieces 9 [] in
    let exact = measure_cache whole caching (1 ∷ []) (one_by_one requests) 9 [] in
    (length point.hit_latency.samples + length point.miss_latency.samples ≡ point.overall.completed)
    × (point.overall.completed + point.overall.errors ≡ 3)
    × (point.hit_count ≤ length point.hit_latency.samples)
    × (point.misses ≤ length point.miss_latency.samples)
    × ((length point.hit_latency.samples ≡ 0) ⊎ (1 ≤ point.hit_count))
    × ((length point.miss_latency.samples ≡ 0) ⊎ (1 ≤ point.misses))
    × (exact.hit_count ≡ length exact.hit_latency.samples)
    × (exact.misses ≡ length exact.miss_latency.samples)
unfolding serve step_load advance_at settle count_response arrivals_in
measure_cache-counts_example = measure_cache-counts whole caching (1 ∷ []) pieces requests 9 [] refl

-- two requests are answered, one miss is lost
lost_update : (measure_cache whole caching (1 ∷ []) pieces 9 []).misses ≡ 1
unfolding measure_cache
lost_update = refl

abbrev queries : List String
queries = "fox" ∷ "hen" ∷ []

abbrev draws : List ℕ
draws = 1 ∷ 3 ∷ 9 ∷ []

abbrev sampler : ZipfQuerySampler ℕ
sampler = record { queries = queries; cumulative = 1 ∷ 3 ∷ [] }

measure_knee-counts_example :
    (summary : KneeSummary ℕ) × (measure_knee whole caching harmonic queries draws
        (1 ∷ [])
        pieces
        9
        []
      ≡ some summary)
    × (measure_knee whole caching harmonic queries []
          (1 ∷ [])
          pieces
          9
          (warm_up caching sampler (take 75 draws) [])
        ≡ some summary)
    × (length summary.server_queue_wait.samples ≡ summary.result.completed)
    × (summary.result.completed + summary.result.errors ≡ 3)
    × (summary.cache_hit_rate.1 ≤ summary.result.completed)
    × (summary.cache_hit_rate.0 ≤ summary.result.completed)
    × ((summary.result.completed ≡ 0) ⊎ (1 ≤ summary.cache_hit_rate.1))
unfolding zipf serve step_load advance_at settle note_response arrivals_in warm_up sample
    bisect_left
measure_knee-counts_example =
    measure_knee-counts whole caching harmonic queries draws (1 ∷ []) pieces 9 [] sampler refl refl
