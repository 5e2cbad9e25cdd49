-- ===== src/Harness/Examples.antt =====
-- The harness on small inputs: a run of two queries, strings being compared by their lengths.
pub mod Load
use Prim.Native.String.{String, len}
use cascade_search_engine.Prelude.{
  ℕ, suc, ◌+◌, ◌*◌, ◌/◌, length, ◌≤◌, ◌<◌, true, false, none, some, List, [], ◌∷◌, ◌≡◌, ◌⊎◌, refl,
  arith, take, leb, All, get_elem?, map,
}
use cascade_search_engine.Prelude.Keys.{Order, nat_order, string_eq, leb_total, leb_trans}
use cascade_search_engine.Sort.{sort}
use cascade_search_engine.Harness.Runs.{
  Candidates, Run, ranked, read_run, read_run_truncated, write_run, truncate_to_top_k,
}
use cascade_search_engine.Harness.Runs.RoundTrip.{
  written, read_run-write_run, read_run_truncated-write_run,
}
use cascade_search_engine.Harness.Metrics.{
  Judgments, Qrels, is_relevant, ranked_docids, mrr_of, recall_of, mrr_at_k, recall_at_k, run_depth,
}
use cascade_search_engine.Harness.Metrics.RankOrder.{ranked_docids-ranked}
use cascade_search_engine.Harness.Latency.{
  Doubles, Call, record_call, record_many_call, percentile_call, empty, percentile, calls, summary,
}
use cascade_search_engine.Harness.Latency.Percentiles.{recorded, in_order, percentile-nearest_rank}

instance abbrev pub by_length : Order String
by_length = record {
  le = λ a b. leb (len a) (len b);
  total = λ a b. leb_total (len a) (len b);
  trans = λ a b c. leb_trans (len a) (len b) (len c);
}

abbrev candidates : Candidates ℕ
candidates = ("d1", 3) ∷ ("d22", 8) ∷ ("d3", 8) ∷ []

abbrev run : Run ℕ
run = ("q1", candidates) ∷ ("q2", []) ∷ []

read_run-write_run_example : read_run (write_run run "tag" (some 2)) ≡ written run (some 2)
read_run-write_run_example =
    read_run-write_run "tag" (some 2) run (refl, (refl, tt)) ((refl, (refl, (refl, tt))), (tt, tt))

read_run_truncated-write_run_example :
    read_run_truncated 1 (write_run run "tag" none)
    ≡ truncate_to_top_k (read_run (write_run run "tag" none)) 1
read_run_truncated-write_run_example =
    read_run_truncated-write_run "tag" none 1 run (refl, (refl, tt))
      ((refl, (refl, (refl, tt))), (tt, tt))

ranked_docids-ranked_example : ranked_docids candidates ≡ map (λ e. e.0) (ranked candidates)
ranked_docids-ranked_example = ranked_docids-ranked candidates

abbrev judgments : Judgments
judgments = ("d3", 2) ∷ ("d9", 1) ∷ ("d1", 0) ∷ []

abbrev samples : List (Call ℕ)
samples = record_many_call (30 ∷ 10 ∷ 20 ∷ []) ∷ percentile_call 500 ∷ record_call 40 ∷ []

-- whole microseconds, and the exact rank
abbrev pub whole : Doubles ℕ
whole = record { micros = λ ns. ns / 1000; ceil_rank = λ tenths n. (tenths * n + 999) / 1000 }

-- its rank
abbrev pub exact_rank : ℕ → ℕ → ℕ
exact_rank = whole.ceil_rank

percentile-nearest_rank_example :
    let all = in_order (recorded samples) in
    let found = (percentile exact_rank 500 (calls exact_rank samples empty)).0 in
    ((recorded samples ≡ []) × (found ≡ none))
    ⊎ ((rank : ℕ) × (v : ℕ) × (found ≡ some v)
        × (get_elem? all rank ≡ some v)
        × (500 * length all ≤ 1000 * suc rank)
        × ((rank ≡ 0) ⊎ (1000 * rank < 500 * length all)))
unfolding recorded
percentile-nearest_rank_example =
    percentile-nearest_rank exact_rank samples 500 (λ tenths n h k. refl) (omega arith)
      (omega arith)

-- five numbers of three samples, and the key of none
summary_of_three :
    let (s, r) =
      summary {Score = ℕ} exact_rank (record { samples = 30 ∷ 10 ∷ 20 ∷ []; cached = none }) in
    (s.count ≡ 3)
    × (s.min_us ≡ some 10)
    × (s.p50_us ≡ some 20)
    × (s.p999_us ≡ some 30)
    × (s.max_us ≡ some 30)
    × (r.cached ≡ some (10 ∷ 20 ∷ 30 ∷ []))
    × ((summary exact_rank (empty {Score = ℕ})).0.min_us ≡ none)
unfolding summary sort
summary_of_three = (refl, refl, refl, refl, refl, refl, refl)
