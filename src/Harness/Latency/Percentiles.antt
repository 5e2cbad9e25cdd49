-- ===== src/Harness/Latency/Percentiles.antt =====
-- A percentile is a sample, and it is of all samples, also those that came after an earlier percentile.
use mathlib.Core.Path.{subst}
use native.Mathlib.Nat.{mul-le-mul_right}
use cascade_search_engine.Prelude.{
  ℕ, zero, suc, ◌-◌, ◌*◌, ◌/◌, ◌+◌, ◌≤◌, ◌<◌, none, some, List, [], ◌∷◌, ◌++◌, append_assoc,
  append-nil, ◌≡◌, refl, sym, ap, ◌∙◌, ◌⊎◌, inl, inr, arith, length, get_elem?, Bool-cases, leb,
  tests, List-cases,
}
use cascade_search_engine.Prelude.Keys.{Order}
use cascade_search_engine.Sort.{sort, ascending}
use cascade_search_engine.Sort.Laws.{length-sort}
use cascade_search_engine.Harness.Latency.{
  LatencyRecorder, IsExact, empty, record_one, record_many, nearest_rank, ordered, percentile, Call,
  record_call, record_many_call, percentile_call, call, calls,
}

-- the samples that calls record, in order
unfoldable pub recorded : {Score : Type 0} → List (Call Score) → List Score
recorded [] = []
recorded (record_call latency ∷ cs) = latency ∷ recorded cs
recorded (record_many_call latencies ∷ cs) = latencies ++ recorded cs
recorded (percentile_call tenths ∷ cs) = recorded cs

module _ {Score : Type 0} ⦃o : Order Score⦄ where
  abbrev pub in_order : List Score → List Score
  in_order = sort (ascending (λ x. x))

  -- The cache is empty or up to date.
  abbrev IsFresh : LatencyRecorder Score → Type 0
  IsFresh r = (r.cached ≡ none) ⊎ (r.cached ≡ some (in_order r.samples))

  record Reads (all : List Score) (r : LatencyRecorder Score) : Type 0 where
    fresh : IsFresh r
    samples_are : r.samples ≡ all

  ordered-eq : (r : LatencyRecorder Score) → IsFresh r → (ordered r).0 ≡ in_order r.samples
  unfolding ordered
  ordered-eq r (inl e) = rw (e, ordered) refl
  ordered-eq r (inr e) = rw (e, ordered) refl

  ordered-Reads : (r : LatencyRecorder Score) → IsFresh r → Reads r.samples (ordered r).1
  unfolding ordered
  ordered-Reads r (inl e) = rw (e, ordered) (record { fresh = inr refl; samples_are = refl })
  ordered-Reads r (inr e) = rw (e, ordered) (record { fresh = inr e; samples_are = refl })

  module _ (ceil_rank : ℕ → ℕ → ℕ) where
    percentile_cases :
        (tenths : ℕ) (r : LatencyRecorder Score)
        → ((r.samples ≡ []) × (percentile ceil_rank tenths r ≡ (none, r)))
          ⊎ ((1 ≤ length r.samples)
              × (percentile ceil_rank tenths r ≡ (
                get_elem? (ordered r).0 (nearest_rank ceil_rank tenths (length (ordered r).0) - 1),
                (ordered r).1,
              )))
    unfolding percentile
    percentile_cases tenths r = elim (List-cases r.samples) [
      | inl e ↦ inl (e, ground arith)
      | inr (x, xs, e) ↦ inr (omega (arith, ap length e), ground arith)
    ]

    percentile-Reads :
        (tenths : ℕ) (r : LatencyRecorder Score)
        → IsFresh r
        → Reads r.samples (percentile ceil_rank tenths r).1
    percentile-Reads tenths r f = elim (percentile_cases tenths r) [
      | inl (_, e) ↦ rw e (record { fresh = f; samples_are = refl })
      | inr (_, e) ↦ rw e (ordered-Reads r f)
    ]

    call-Reads :
        (c : Call Score) (all : List Score) (r : LatencyRecorder Score)
        → Reads all r
        → Reads (all ++ recorded (c ∷ [])) (call ceil_rank c r)
    unfolding call recorded record_one record_many
    call-Reads (record_call latency) all r v = record {
      fresh = inl refl;
      samples_are = ap (λ l. l ++ latency ∷ []) v.samples_are;
    }
    call-Reads (record_many_call latencies) all r v = record {
      fresh = inl refl;
      samples_are =
          ap (λ l. l ++ latencies) v.samples_are ∙ ap (λ l. all ++ l) (sym (append-nil latencies));
    }
    call-Reads (percentile_call tenths) all r v =
        let p = percentile-Reads tenths r v.fresh in
        record {
          fresh = p.fresh;
          samples_are = p.samples_are ∙ v.samples_are ∙ sym (append-nil all);
        }

    recorded-cons :
        (c : Call Score) (cs : List (Call Score))
        → recorded (c ∷ []) ++ recorded cs ≡ recorded (c ∷ cs)
    unfolding recorded
    recorded-cons (record_call latency) cs = refl
    recorded-cons (record_many_call latencies) cs =
        ap (λ l. l ++ recorded cs) (append-nil latencies)
    recorded-cons (percentile_call tenths) cs = refl

    calls-Reads :
        (cs : List (Call Score)) (all : List Score) (r : LatencyRecorder Score)
        → Reads all r
        → Reads (all ++ recorded cs) (calls ceil_rank cs r)
    unfolding calls recorded
    calls-Reads [] all r v = rw append-nil v
    calls-Reads (c ∷ cs) all r v =
        subst (λ l. Reads l (calls ceil_rank cs (call ceil_rank c r)))
          (append_assoc all (recorded (c ∷ [])) (recorded cs)
            ∙ ap (λ l. all ++ l) (recorded-cons c cs))
          (calls-Reads cs (all ++ recorded (c ∷ [])) (call ceil_rank c r) (call-Reads c all r v))

-- The rank is the least one, at least 1, that has `tenths` thousandths of n at or below it.
nearest_rank-least :
    (ceil_rank : ℕ → ℕ → ℕ) (tenths n : ℕ)
    → ceil_rank tenths n ≡ (tenths * n + 999) / 1000
    → tenths ≤ 1000
    → 1 ≤ n
    → (1 ≤ nearest_rank ceil_rank tenths n)
      × (nearest_rank ceil_rank tenths n ≤ n)
      × (tenths * n ≤ 1000 * nearest_rank ceil_rank tenths n)
      × ((nearest_rank ceil_rank tenths n ≡ 1)
          ⊎ (1000 * (nearest_rank ceil_rank tenths n - 1) < tenths * n))
nearest_rank-least ceil_rank tenths n exact h k =
    let most : tenths * n ≤ 1000 * n = mul-le-mul_right n h in
    (
      omega (arith, exact),
      omega (arith, exact),
      omega (arith, exact),
      elim (Bool-cases (leb (tenths * n) 1000)) [
        | inl few ↦ inl (omega (tests, exact))
        | inr many ↦ inr (omega (tests, exact))
      ],
    )

pub get_elem?-some {ℓ} :
    {A : Type ℓ} (xs : List A) (i : ℕ) → i < length xs → (x : A) × (get_elem? xs i ≡ some x)
get_elem?-some [] i h = absurd (omega arith)
get_elem?-some (x ∷ xs) zero h = (x, refl)
get_elem?-some (x ∷ xs) (suc i) h = get_elem?-some xs i (omega arith)

module _ {Score : Type 0} ⦃o : Order Score⦄ where
  empty-Reads : Reads [] (empty {Score = Score})
  empty-Reads = record { fresh = inl refl; samples_are = refl }

  -- If the rank that doubles give is the exact one up to a million samples (IsExact), then after any calls
  -- on a new recorder, percentiles among them, that record at most a million samples, and for p at most
  -- 100: without a sample percentile raises; otherwise it returns the sample at place rank of all samples
  -- in order, where rank + 1 is the least number, at least 1, that is no less than p percent of the number
  -- of samples.
  pub percentile-nearest_rank :
      (ceil_rank : ℕ → ℕ → ℕ) (cs : List (Call Score)) (tenths : ℕ)
      → IsExact ceil_rank
      → tenths ≤ 1000
      → length (recorded cs) ≤ 1000000
      → let all = in_order (recorded cs) in
        let found = (percentile ceil_rank tenths (calls ceil_rank cs empty)).0 in
        ((recorded cs ≡ []) × (found ≡ none))
        ⊎ ((rank : ℕ) × (v : Score) × (found ≡ some v)
            × (get_elem? all rank ≡ some v)
            × (tenths * length all ≤ 1000 * suc rank)
            × ((rank ≡ 0) ⊎ (1000 * rank < tenths * length all)))
  percentile-nearest_rank ceil_rank cs tenths exact h few =
      let r = calls ceil_rank cs empty in
      let v = calls-Reads ceil_rank cs [] empty empty-Reads in
      elim (percentile_cases ceil_rank tenths r) [
        | inl (none_recorded, e) ↦ inl (sym v.samples_are ∙ none_recorded, rw e refl)
        | inr (some_recorded, e) ↦
            let all = in_order (recorded cs) in
            let same = ordered-eq r v.fresh ∙ ap in_order v.samples_are in
            let some_sorted : 1 ≤ length all = omega (
              arith,
              length-sort (ascending (λ (x : Score). x)) (recorded cs),
              ap length v.samples_are,
            ) in
            let sorted : length all ≡ length (recorded cs) =
              length-sort (ascending (λ (x : Score). x)) (recorded cs) in
            let (low, high, enough, least) =
              nearest_rank-least ceil_rank tenths (length all)
                (exact tenths (length all) h (omega (arith, few, sorted))) h some_sorted in
            let rank = nearest_rank ceil_rank tenths (length all) - 1 in
            let (x, at) = get_elem?-some all rank (omega arith) in
            inr (
              rank,
              x,
              ap (λ p. p.0) e
                  ∙ ap (λ l. get_elem? l (nearest_rank ceil_rank tenths (length l) - 1)) same
                  ∙ at,
              at,
              omega arith,
              elim least [ inl one ↦ inl (omega arith) | inr less ↦ inr less ],
            )
      ]

  -- A recorder that has not sorted its samples raises if there is none, and has a percentile otherwise.
  pub percentile-uncached :
      (ceil_rank : ℕ → ℕ → ℕ) (tenths : ℕ) (r : LatencyRecorder Score)
      → r.cached ≡ none
      → ((r.samples ≡ []) × ((percentile ceil_rank tenths r).0 ≡ none))
        ⊎ ((v : Score) × (1 ≤ length r.samples) × ((percentile ceil_rank tenths r).0 ≡ some v))
  percentile-uncached ceil_rank tenths r uncached = elim (percentile_cases ceil_rank tenths r) [
    | inl (no_sample, e) ↦ inl (no_sample, ap (λ p. p.0) e)
    | inr (one, e) ↦
        let values = (ordered r).0 in
        let sorted : length values ≡ length r.samples =
          ap length (ordered-eq r (inl uncached))
          ∙ length-sort (ascending (λ (x : Score). x)) r.samples in
        let n = length values in
        let (v, at) =
          get_elem?-some values (nearest_rank ceil_rank tenths n - 1)
            (omega (arith, sorted, one)) in
        inr (v, one, ap (λ p. p.0) e ∙ at)
  ]
