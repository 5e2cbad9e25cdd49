-- ===== src/Harness/Loadgen/Accounts.antt =====
-- What a run's result counts.
use cascade_search_engine.Prelude.{
  ℕ, ◌+◌, ◌-◌, ◌≤◌, Bool, not, List, [], ◌∷◌, ◌++◌, map, length, length-map, none, ◌≡◌, refl, sym,
  ap, ap₂, ◌∙◌, arith, All, count_if, append-nil, append_assoc,
}
use cascade_search_engine.Harness.Latency.{LatencyRecorder, Doubles, record_one}
use cascade_search_engine.Harness.Loadgen.{
  Served, LoadResult, load_result, account_one, account, run_open_loop,
}

-- A clock that does not go back, and a worker that starts no request before its time.
abbrev pub IsTimed : Served → Type 0
IsTimed s = (s.scheduled_ns ≤ s.start_ns) × (s.start_ns ≤ s.done_ns)

split_latency :
    {F : Type 0} (micros : ℕ → F) (records : List Served)
    → All IsTimed records
    → map (λ s. micros (s.done_ns - s.scheduled_ns)) records
      ≡ map (λ s. micros ((s.start_ns - s.scheduled_ns) + (s.done_ns - s.start_ns))) records
split_latency micros [] h = refl
split_latency micros (s ∷ records) h =
    let same : s.done_ns - s.scheduled_ns
        ≡ (s.start_ns - s.scheduled_ns) + (s.done_ns - s.start_ns) =
      omega (arith, h.0) in
    ap₂ ◌∷◌ (ap micros same) (split_latency micros records h.1)

pub count_if-all :
    (p : Served → Bool) (xs : List Served)
    → count_if p xs + count_if (λ s. not (p s)) xs ≡ length xs
count_if-all p [] = omega arith
count_if-all p (s ∷ xs) = ground (arith, count_if-all p xs)

module _ {F : Type 0} (doubles : Doubles F) where
  pub account-counts :
      (records : List Served) (r : LoadResult F)
      → ((account doubles records r).completed ≡ r.completed + count_if (λ s. s.ok) records)
        × ((account doubles records r).errors ≡ r.errors + count_if (λ s. not s.ok) records)
  unfolding account account_one
  account-counts [] r = omega arith
  account-counts (s ∷ records) r =
      let rest = account-counts records (account_one doubles s r) in
      (rest.0 ∙ ground arith, rest.1 ∙ ground arith)

  -- the samples of a recorder after the records
  abbrev Collects :
      (LoadResult F → LatencyRecorder F) → (Served → F) → List Served → LoadResult F → Type 0
  Collects recorder value records r =
      (recorder (account doubles records r)).samples ≡ (recorder r).samples ++ map value records

  account-samples :
      (recorder : LoadResult F → LatencyRecorder F) (value : Served → F)
      → ((s : Served) (r : LoadResult F)
          → (recorder (account_one doubles s r)).samples ≡ (recorder r).samples ++ value s ∷ [])
      → (records : List Served) (r : LoadResult F) → Collects recorder value records r
  unfolding account
  account-samples recorder value each [] r = sym (append-nil (recorder r).samples)
  account-samples recorder value each (s ∷ records) r =
      account-samples recorder value each records (account_one doubles s r)
      ∙ ap (λ l. l ++ map value records) (each s r)
      ∙ append_assoc (recorder r).samples (value s ∷ []) (map value records)

  cached-account :
      (records : List Served) (r : LoadResult F)
      → r.latency.cached ≡ none
      → (account doubles records r).latency.cached ≡ none
  unfolding account account_one record_one
  cached-account [] r h = h
  cached-account (s ∷ records) r h = cached-account records (account_one doubles s r) refl

  -- A run has as many latencies as records, and no percentile is asked for before its end.
  pub run_open_loop-latencies :
      (arrivals : List ℕ) (records : List Served) (wall_ns : ℕ)
      → let latency = (run_open_loop doubles arrivals records wall_ns).latency in
        (length latency.samples ≡ length records) × (latency.cached ≡ none)
  unfolding run_open_loop account_one record_one
  run_open_loop-latencies arrivals records wall_ns = (
    ap length (
          account-samples (λ r. r.latency) (λ s. doubles.micros (s.done_ns - s.scheduled_ns))
            (λ s r. refl) records (load_result arrivals))
        ∙ length-map (λ s. doubles.micros (s.done_ns - s.scheduled_ns)) records,
    cached-account records (load_result arrivals) refl,
  )

  -- Each record is counted once, as completed or as an error, whatever the order of the records. Each has
  -- one sample in each recorder; where the clock does not go back and no request starts before its time,
  -- its service and its delay in the queue are the microseconds (a double) of these times, and its latency
  -- those of the two times together, in nanoseconds.
  pub run_open_loop-accounts :
      (arrivals : List ℕ) (records : List Served) (wall_ns : ℕ)
      → All IsTimed records
      → let r = run_open_loop doubles arrivals records wall_ns in
        (r.completed ≡ count_if (λ s. s.ok) records)
        × (r.completed + r.errors ≡ length records)
        × (r.queue_delay.samples ≡ map (λ s. doubles.micros (s.start_ns - s.scheduled_ns)) records)
        × (r.service.samples ≡ map (λ s. doubles.micros (s.done_ns - s.start_ns)) records)
        × (r.latency.samples
            ≡ map
                (λ s. doubles.micros ((s.start_ns - s.scheduled_ns) + (s.done_ns - s.start_ns)))
                records)
  unfolding run_open_loop account_one record_one
  run_open_loop-accounts arrivals records wall_ns h =
      let begin = load_result arrivals in
      let counts = account-counts records begin in
      (
        omega (arith, counts.0),
        omega (arith, counts.0, counts.1, count_if-all (λ s. s.ok) records),
        account-samples (λ r. r.queue_delay) (λ s. doubles.micros (s.start_ns - s.scheduled_ns))
            (λ s r. refl) records begin,
        account-samples (λ r. r.service) (λ s. doubles.micros (s.done_ns - s.start_ns))
            (λ s r. refl) records begin,
        account-samples (λ r. r.latency) (λ s. doubles.micros (s.done_ns - s.scheduled_ns))
              (λ s r. refl) records begin
            ∙ split_latency doubles.micros records h,
      )
