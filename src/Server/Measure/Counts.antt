-- ===== src/Server/Measure/Counts.antt =====
-- What the measurements count.
use mathlib.Core.Path.{subst}
use cascade_search_engine.Prelude.{
  ℕ, suc, ◌+◌, ◌≤◌, Bool, true, false, List, [], ◌∷◌, length, length-append, ◌≡◌, refl, sym, ap,
  ◌⊎◌, arith, inl, inr, count_if, Option-cases, if◌then◌else◌,
}
use cascade_search_engine.Harness.Latency.{Doubles, record_one}
use cascade_search_engine.Harness.Loadgen.{Served, load_result, run_open_loop}
use cascade_search_engine.Harness.Loadgen.Accounts.{account-counts, count_if-all}
use cascade_search_engine.Server.Measure.{
  Client, Request, Task, Piece, arrive, go_on, Load, serve, load, CacheCounts, Counting, called,
  has_read, count_response, no_counts, measure_cache, settle, advance_at, step_load,
}
use cascade_search_engine.Server.Measure.Workers.{
  arrivals_in, After, IsSound, serve-IsSound, arrive-raised, arrive-answered,
}

-- A load's result counts each record.
pub run_open_loop-totals :
    {F : Type 0} (doubles : Doubles F) (arrivals : List ℕ) (records : List Served) (wall_ns : ℕ)
    → let r = run_open_loop doubles arrivals records wall_ns in
      (r.completed ≡ count_if (λ s. s.ok) records) × (r.completed + r.errors ≡ length records)
unfolding run_open_loop
run_open_loop-totals doubles arrivals records wall_ns =
    let (done, failed) = account-counts doubles records (load_result arrivals) in
    (omega (arith, done), omega (arith, done, failed, count_if-all (λ s. s.ok) records))

-- The counters are at most the samples, of which each ended worker has one, and not 0 if there is one.
abbrev Good : CacheCounts → ℕ → ℕ → Type 0
Good c n m =
    (c.hits_count ≤ length c.hit_latency.samples)
    × (c.misses_count ≤ length c.miss_latency.samples)
    × (length c.hit_latency.samples + length c.miss_latency.samples ≡ n)
    × ((length c.hit_latency.samples ≡ 0) ⊎ (1 ≤ c.hits_count))
    × ((length c.miss_latency.samples ≡ 0) ⊎ (1 ≤ c.misses_count))

abbrev Fits : CacheCounts → ℕ → Task Counting → Type 0
Fits c n task = elim task.progress [
  | called ↦ Unit
  | has_read v ↦ v ≤ (
      if task.response.cache_hit
      then length c.hit_latency.samples
      else length c.miss_latency.samples)
]

abbrev light : Task Counting → ℕ
light task = 0

abbrev task_of : Request → Bool → ℕ → Counting → Task Counting
task_of q hit wait progress = record {
  request = q;
  response = record { cache_hit = hit; queue_wait_us = wait };
  progress = progress;
}

acts_at :
    (q : Request) (hit : Bool) (wait : ℕ) (progress : Counting) (c : CacheCounts) (n m : ℕ)
    → Good c n (0 + m)
    → Fits c n (task_of q hit wait progress)
    → After count_response called light Good Fits n m
        (count_response (task_of q hit wait progress) c)
unfolding count_response record_one
acts_at q true wait called c n m g f = (g, g.0)
acts_at q false wait called c n m g f = (g, g.1)
acts_at q true wait (has_read v) c n m g f =
    let one = length-append c.hit_latency.samples (q.elapsed_us ∷ []) in
    (omega (arith, one, f), g.1, omega (arith, one, g.2), inr (omega arith), g.4)
acts_at q false wait (has_read v) c n m g f =
    let one = length-append c.miss_latency.samples (q.elapsed_us ∷ []) in
    (g.0, omega (arith, one, f), omega (arith, one, g.2), g.3, inr (omega arith))

others_at :
    (q q' : Request) (hit hit' : Bool) (wait wait' : ℕ) (progress progress' : Counting)
    (c : CacheCounts) (n : ℕ)
    → Fits c n (task_of q' hit' wait' progress')
    → Fits (count_response (task_of q hit wait progress) c).1 n (task_of q' hit' wait' progress')
unfolding count_response record_one
others_at q q' hit hit' wait wait' progress called c n f = tt
others_at q q' hit hit' wait wait' called (has_read v) c n f = f
others_at q q' true true wait wait' (has_read u) (has_read v) c n f =
    omega (arith, length-append c.hit_latency.samples (q.elapsed_us ∷ []), f)
others_at q q' true false wait wait' (has_read u) (has_read v) c n f = f
others_at q q' false true wait wait' (has_read u) (has_read v) c n f = f
others_at q q' false false wait wait' (has_read u) (has_read v) c n f =
    omega (arith, length-append c.miss_latency.samples (q.elapsed_us ∷ []), f)

later_at :
    (q : Request) (hit : Bool) (wait : ℕ) (progress : Counting) (c : CacheCounts) (n : ℕ)
    → Fits c n (task_of q hit wait progress)
    → Fits c (suc n) (task_of q hit wait progress)
later_at q hit wait called c n f = tt
later_at q hit wait (has_read v) c n f = f

-- One worker after the other: each call returns, and its counter is read and written at once.
abbrev pub one_by_one : List Request → List Piece
one_by_one [] = []
one_by_one (q ∷ requests) = arrive q ∷ go_on 0 ∷ go_on 0 ∷ one_by_one requests

abbrev IsExact : CacheCounts → Type 0
IsExact c =
    (c.hits_count ≡ length c.hit_latency.samples) × (c.misses_count ≡ length c.miss_latency.samples)

acts_exactly :
    (q : Request) (hit : Bool) (wait : ℕ) (c : CacheCounts)
    → IsExact c
    → let v = if hit then c.hits_count else c.misses_count in
      IsExact (count_response (task_of q hit wait (has_read v)) c).1
unfolding count_response record_one
acts_exactly q true wait c h =
    (omega (arith, h.0, length-append c.hit_latency.samples (q.elapsed_us ∷ [])), h.1)
acts_exactly q false wait c h =
    (h.0, omega (arith, h.1, length-append c.miss_latency.samples (q.elapsed_us ∷ [])))

module _ {Server : Type 0} (client : Client Server) where
  abbrev between : Server → CacheCounts → List Served → Load Server CacheCounts Counting
  between server c records = record { server = server; shared = c; tasks = []; records = records }

  serve-one_by_one :
      (requests : List Request) (server : Server) (c : CacheCounts) (records : List Served)
      → IsExact c
      → IsExact
          (serve client count_response called
            (one_by_one requests)
            (between server c records)).shared
  unfolding serve step_load advance_at settle count_response
  serve-one_by_one [] server c records h = h
  serve-one_by_one (q ∷ requests) server c records h =
      let next = (client server q.query).0 in
      let go_on_twice : Load Server CacheCounts Counting → Load Server CacheCounts Counting =
        λ s. serve client count_response called (go_on 0 ∷ go_on 0 ∷ one_by_one requests) s in
      elim (Option-cases (client server q.query).1) [
        | inl raises ↦
            subst (λ s. IsExact (go_on_twice s).shared)
              (sym (arrive-raised client count_response called q (between server c records) raises))
              (serve-one_by_one requests next c _ h)
        | inr (response, answers) ↦
            subst (λ s. IsExact (go_on_twice s).shared)
              (sym (
                arrive-answered client count_response called q (between server c records) response
                  answers))
              (serve-one_by_one requests next _ _
                (acts_exactly q response.cache_hit response.queue_wait_us c h))
      ]

-- If no worker is left, in whatever order the calls returned and the workers went on, the read and the
-- write of a counter apart: each answered request is timed as a hit or as a miss, those that raise are the
-- load's errors, and each of the two counters is at most its samples, and not 0 if there are any. Where one
-- worker comes after the other, each counter is exactly its samples.
pub measure_cache-counts :
    {Server F : Type 0} (doubles : Doubles F) (client : Client Server) (arrivals : List ℕ)
    (pieces : List Piece) (requests : List Request) (wall_ns : ℕ) (server : Server)
    → (serve client count_response called pieces (load server no_counts)).tasks ≡ []
    → let point = measure_cache doubles client arrivals pieces wall_ns server in
      let exact = measure_cache doubles client arrivals (one_by_one requests) wall_ns server in
      (length point.hit_latency.samples + length point.miss_latency.samples
        ≡ point.overall.completed)
      × (point.overall.completed + point.overall.errors ≡ arrivals_in pieces)
      × (point.hit_count ≤ length point.hit_latency.samples)
      × (point.misses ≤ length point.miss_latency.samples)
      × ((length point.hit_latency.samples ≡ 0) ⊎ (1 ≤ point.hit_count))
      × ((length point.miss_latency.samples ≡ 0) ⊎ (1 ≤ point.misses))
      × (exact.hit_count ≡ length exact.hit_latency.samples)
      × (exact.misses ≡ length exact.miss_latency.samples)
unfolding measure_cache
measure_cache-counts doubles client arrivals pieces requests wall_ns server over =
    let s = serve client count_response called pieces (load server no_counts) in
    let v : IsSound count_response called light Good Fits (arrivals_in pieces) s =
      subst (λ k. IsSound count_response called light Good Fits k s) (omega arith)
        (serve-IsSound count_response called light Good Fits
          (λ task.
            acts_at task.request task.response.cache_hit task.response.queue_wait_us task.progress)
          (λ task other.
            others_at task.request other.request task.response.cache_hit other.response.cache_hit
              task.response.queue_wait_us other.response.queue_wait_us task.progress other.progress)
          (λ other.
            later_at other.request other.response.cache_hit other.response.queue_wait_us
              other.progress)
          (λ q response c n. (refl, tt)) client pieces 0 (load server no_counts)
          (record {
            good = (omega arith, omega arith, omega arith, inl refl, inl refl);
            fit = tt;
            counted = refl;
          })) in
    let (done, total) = run_open_loop-totals doubles arrivals s.records wall_ns in
    let (hits, misses, all, some_hit, some_miss) = v.good in
    let (exact_hits, exact_misses) =
      serve-one_by_one client requests server no_counts [] (refl, refl) in
    (
      omega (arith, all, done),
      omega (arith, total, v.counted, ap length over),
      hits,
      misses,
      some_hit,
      some_miss,
      exact_hits,
      exact_misses,
    )
