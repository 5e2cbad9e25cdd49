-- ===== src/Harness/Latency.antt =====
-- py/harness/histogram.py: latency samples and their nearest-rank percentiles. A percentile is given in tenths of
-- a percent, so p99.9 is 999. The arithmetic of doubles is given.
pub mod Percentiles
use cascade_search_engine.Prelude.{
  ℕ, suc, ◌+◌, ◌-◌, ◌*◌, ◌/◌, ◌≤◌, ◌≡◌, Bool, true, false, Option, none, some, List, [], ◌∷◌, ◌++◌,
  length, min, max, get_elem?,
}
use cascade_search_engine.Prelude.Keys.{Order}
use cascade_search_engine.Sort.{sort, ascending}

-- `_samples`, and `_sorted` as the cache that it is
pub record LatencyRecorder (Score : Type 0) : Type 0 where
  pub samples : List Score
  pub cached : Option (List Score)

module _ {Score : Type 0} where
  abbrev pub empty : LatencyRecorder Score
  empty = record { samples = []; cached = none }

  unfoldable pub record_one : Score → LatencyRecorder Score → LatencyRecorder Score
  record_one latency r = record { samples = r.samples ++ latency ∷ []; cached = none }

  unfoldable pub record_many : List Score → LatencyRecorder Score → LatencyRecorder Score
  record_many latencies r = record { samples = r.samples ++ latencies; cached = none }

-- What is computed in doubles: `ns / 1000`, and `ceil(round(p / 100.0 * n, 9))` from the tenths of p and from n.
pub record Doubles (F : Type 0) : Type 0 where
  pub micros : ℕ → F
  pub ceil_rank : ℕ → ℕ → ℕ

-- The rank is the exact one up to a million samples: the three roundings to 53 bits before `round` then err by less
-- than half of its last digit. From some number above that on it is not.
abbrev pub IsExact : (ℕ → ℕ → ℕ) → Type 0
IsExact ceil_rank =
    (tenths n : ℕ) → tenths ≤ 1000 → n ≤ 1000000 → ceil_rank tenths n ≡ (tenths * n + 999) / 1000

-- `max(1, ceil(...))`, and no more than n
abbrev pub nearest_rank : (ℕ → ℕ → ℕ) → ℕ → ℕ → ℕ
nearest_rank ceil_rank tenths n = min (max 1 (ceil_rank tenths n)) n

module _ {Score : Type 0} ⦃o : Order Score⦄ where
  -- `_ordered`
  unfoldable pub ordered : LatencyRecorder Score → List Score × LatencyRecorder Score
  ordered r = elim r.cached [
    | none ↦
        let values = sort (ascending (λ x. x)) r.samples in
        (values, record { samples = r.samples; cached = some values })
    | some values ↦ (values, r)
  ]

  -- `percentile`: `none` where it raises
  unfoldable pub percentile :
      (ℕ → ℕ → ℕ) → ℕ → LatencyRecorder Score → Option Score × LatencyRecorder Score
  unfolding ordered
  percentile ceil_rank tenths r = elim r.samples [
    | [] ↦ (none, r)
    | _ ↦
        let (values, r') = ordered r in
        (get_elem? values (nearest_rank ceil_rank tenths (length values) - 1), r')
  ]

-- `summary()`; a key that is not there is `none`
pub record Summary (Score : Type 0) : Type 0 where
  pub count : ℕ
  pub min_us : Option Score
  pub p50_us : Option Score
  pub p95_us : Option Score
  pub p99_us : Option Score
  pub p999_us : Option Score
  pub max_us : Option Score

module _ {Score : Type 0} ⦃o : Order Score⦄ where
  unfoldable pub summary :
      (ℕ → ℕ → ℕ) → LatencyRecorder Score → Summary Score × LatencyRecorder Score
  unfolding ordered percentile
  summary ceil_rank r = elim r.samples [
    | [] ↦ (
      record {
        count = 0;
        min_us = none;
        p50_us = none;
        p95_us = none;
        p99_us = none;
        p999_us = none;
        max_us = none;
      },
      r,
    )
    | _ ↦
        let (values, r') = ordered r in
        (
          record {
            count = length values;
            min_us = get_elem? values 0;
            p50_us = (percentile ceil_rank 500 r').0;
            p95_us = (percentile ceil_rank 950 r').0;
            p99_us = (percentile ceil_rank 990 r').0;
            p999_us = (percentile ceil_rank 999 r').0;
            max_us = get_elem? values (length values - 1);
          },
          r',
        )
  ]

-- a call of a method
pub data Call (Score : Type 0) : Type 0 where
  record_call : Score → Call Score
  record_many_call : List Score → Call Score
  percentile_call : ℕ → Call Score

module _ {Score : Type 0} ⦃o : Order Score⦄ where
  unfoldable pub call : (ℕ → ℕ → ℕ) → Call Score → LatencyRecorder Score → LatencyRecorder Score
  unfolding record_one record_many percentile
  call ceil_rank (record_call latency) r = record_one latency r
  call ceil_rank (record_many_call latencies) r = record_many latencies r
  call ceil_rank (percentile_call tenths) r = (percentile ceil_rank tenths r).1

  unfoldable pub calls :
      (ℕ → ℕ → ℕ) → List (Call Score) → LatencyRecorder Score → LatencyRecorder Score
  unfolding call
  calls ceil_rank [] r = r
  calls ceil_rank (c ∷ cs) r = calls ceil_rank cs (call ceil_rank c r)
