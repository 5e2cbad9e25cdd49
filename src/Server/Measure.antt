-- ===== src/Server/Measure.antt =====
-- py/server/cache_sensitivity.py and py/server/throughput_knee.py, `measure`: a load on a server that has a cache. The
-- server is its state and its answer to a query; the requests come with the times that the clock gives them, and the
-- workers go on piece by piece, in any order: nothing locks their counters.
pub mod Workers
pub mod Counts
pub mod Knee
use Prim.Native.String.{String}
use cascade_search_engine.Prelude.{
  ℕ, zero, suc, ◌+◌, Bool, true, false, Option, none, some, List, [], ◌∷◌, ◌++◌, take,
  if◌then◌else◌,
}
use cascade_search_engine.Prelude.Keys.{Order}
use cascade_search_engine.Harness.Latency.{LatencyRecorder, Doubles, empty, record_one}
use cascade_search_engine.Harness.Loadgen.{
  Weights, ZipfQuerySampler, zipf, sample, Served, LoadResult, run_open_loop,
}

-- What the measurements read of a `SearchResponse`.
pub record Response : Type 0 where
  pub cache_hit : Bool
  pub queue_wait_us : ℕ

-- `client.dispatch(query, k=hits)`: the server after the call, and its answer; `none` where the call raises
abbrev pub Client : Type 0 → Type 0
Client Server = Server → String → Server × Option Response

-- A request of the load, with its times, and the time that `dispatch` measures itself.
pub record Request : Type 0 where
  pub query : String
  pub scheduled_ns : ℕ
  pub start_ns : ℕ
  pub done_ns : ℕ
  pub elapsed_us : ℕ

abbrev pub served : Request → Bool → Served
served q ok = record {
  scheduled_ns = q.scheduled_ns;
  start_ns = q.start_ns;
  done_ns = q.done_ns;
  ok = ok;
}

-- A worker of the load whose call has returned: what it does to the shared variables goes on, with what it has read.
pub record Task (Progress : Type 0) : Type 0 where
  pub request : Request
  pub response : Response
  pub progress : Progress

-- What happens next: the call for a request returns, or a worker does one piece of its work.
pub data Piece : Type 0 where
  arrive : Request → Piece
  go_on : ℕ → Piece

pub record Load (Server A Progress : Type 0) : Type 0 where
  pub server : Server
  pub shared : A
  pub tasks : List (Task Progress)
  pub records : List Served

-- What one piece of a worker's work makes of its task, `none` where it ends, and of the shared variables.
abbrev pub Act : Type 0 → Type 0 → Type 0
Act A Progress = Task Progress → A → Option (Task Progress) × A

module _ {A Progress : Type 0} where
  unfoldable pub settle :
      Request
      → List (Task Progress)
      → Option (Task Progress) × A
      → List (Task Progress) × A × List Served
  settle q tasks (none, a) = (tasks, a, served q true ∷ [])
  settle q tasks (some task, a) = (task ∷ tasks, a, [])

  -- the i-th of the workers goes on
  unfoldable pub advance_at :
      Act A Progress → ℕ → List (Task Progress) → A → List (Task Progress) × A × List Served
  unfolding settle
  advance_at act i [] a = ([], a, [])
  advance_at act zero (task ∷ tasks) a = settle task.request tasks (act task a)
  advance_at act (suc i) (task ∷ tasks) a =
      let (tasks', a', done) = advance_at act i tasks a in (task ∷ tasks', a', done)

  -- `work` of the load around `dispatch`, piece by piece: a call that raises is the end of it.
  unfoldable pub step_load :
      {Server : Type 0}
      → Client Server
      → Act A Progress
      → Progress
      → Piece
      → Load Server A Progress
      → Load Server A Progress
  unfolding advance_at
  step_load client act first (arrive q) s =
      let (server, answer) = client s.server q.query in
      elim answer [
        | none ↦ record s { server = server; records = s.records ++ served q false ∷ [] }
        | some response ↦ record s {
          server = server;
          tasks = s.tasks ++ record { request = q; response = response; progress = first } ∷ [];
        }
      ]
  step_load client act first (go_on i) s =
      let (tasks, shared, done) = advance_at act i s.tasks s.shared in
      record s { tasks = tasks; shared = shared; records = s.records ++ done }

  -- the workers, in any order of their pieces
  unfoldable pub serve :
      {Server : Type 0}
      → Client Server
      → Act A Progress
      → Progress
      → List Piece
      → Load Server A Progress
      → Load Server A Progress
  unfolding step_load
  serve client act first [] s = s
  serve client act first (piece ∷ pieces) s =
      serve client act first pieces (step_load client act first piece s)

  abbrev pub load : {Server : Type 0} → Server → A → Load Server A Progress
  load server a = record { server = server; shared = a; tasks = []; records = [] }

-- The variables of the measurement of the cache, and what it returns. The rate is kept as its two numbers.
pub record CacheCounts : Type 0 where
  pub hits_count : ℕ
  pub misses_count : ℕ
  pub hit_latency : LatencyRecorder ℕ
  pub miss_latency : LatencyRecorder ℕ

pub record CachePoint (F : Type 0) : Type 0 where
  pub hit_rate : ℕ × ℕ
  pub hit_count : ℕ
  pub misses : ℕ
  pub hit_latency : LatencyRecorder ℕ
  pub miss_latency : LatencyRecorder ℕ
  pub overall : LoadResult F

-- `x += 1` reads x and then writes it; another worker may come between.
pub data Counting : Type 0 where
  called : Counting
  has_read : ℕ → Counting

-- `dispatch` of cache_sensitivity.py after its call. The sample is recorded with the write.
unfoldable pub count_response : Act CacheCounts Counting
unfolding record_one
count_response task c = elim task.progress [
  | called ↦ (
    some record task {
      progress = has_read (if task.response.cache_hit then c.hits_count else c.misses_count);
    },
    c,
  )
  | has_read n ↦ (
    none,
    if task.response.cache_hit
        then record c {
          hits_count = suc n;
          hit_latency = record_one task.request.elapsed_us c.hit_latency;
        }
        else record c {
          misses_count = suc n;
          miss_latency = record_one task.request.elapsed_us c.miss_latency;
        },
  )
]

abbrev pub no_counts : CacheCounts
no_counts = record { hits_count = 0; misses_count = 0; hit_latency = empty; miss_latency = empty }

unfoldable pub measure_cache :
    {Server F : Type 0}
    → Doubles F
    → Client Server
    → List ℕ
    → List Piece
    → ℕ
    → Server
    → CachePoint F
unfolding serve count_response run_open_loop
measure_cache doubles client arrivals pieces wall_ns server =
    let s = serve client count_response called pieces (load server no_counts) in
    let c = s.shared in
    record {
      hit_rate = (c.hits_count, c.hits_count + c.misses_count);
      hit_count = c.hits_count;
      misses = c.misses_count;
      hit_latency = c.hit_latency;
      miss_latency = c.miss_latency;
      overall = run_open_loop doubles arrivals s.records wall_ns;
    }

-- The variables of the measurement of the knee, and what it returns.
pub record KneeCounts : Type 0 where
  pub server_queue_wait : LatencyRecorder ℕ
  pub cache_hits : ℕ
  pub cache_total : ℕ

pub record KneeSummary (F : Type 0) : Type 0 where
  pub result : LoadResult F
  pub server_queue_wait : LatencyRecorder ℕ
  pub cache_hit_rate : ℕ × ℕ

-- Where a worker of the knee's load is.
pub data Noting : Type 0 where
  answered : Noting
  total_read : ℕ → Noting
  total_written : Noting
  hits_read : ℕ → Noting

-- `dispatch` of throughput_knee.py after its call. The wait is recorded with the read that follows it.
unfoldable pub note_response : Act KneeCounts Noting
unfolding record_one
note_response task c = elim task.progress [
  | answered ↦ (
    some record task { progress = total_read c.cache_total },
    record c { server_queue_wait = record_one task.response.queue_wait_us c.server_queue_wait },
  )
  | total_read n ↦ (
    if task.response.cache_hit then some record task { progress = total_written } else none,
    record c { cache_total = suc n },
  )
  | total_written ↦ (some record task { progress = hits_read c.cache_hits }, c)
  | hits_read n ↦ (none, record c { cache_hits = suc n })
]

abbrev pub no_notes : KneeCounts
no_notes = record { server_queue_wait = empty; cache_hits = 0; cache_total = 0 }

module _ {Server Weight : Type 0} ⦃o : Order Weight⦄ (client : Client Server) where
  -- The warm-up, on the draws of its sampler: what raises is passed over.
  unfoldable pub warm_up : ZipfQuerySampler Weight → List Weight → Server → Server
  unfolding sample
  warm_up sampler [] server = server
  warm_up sampler (drawn ∷ draws) server =
      warm_up sampler draws
        (elim (sample sampler drawn) [ none ↦ server | some query ↦ (client server query).0 ])

module _ {Server Weight F : Type 0} ⦃o : Order Weight⦄ (doubles : Doubles F)
    (client : Client Server) where
  unfoldable pub measure_knee :
      Weights Weight
      → List String
      → List Weight
      → List ℕ
      → List Piece
      → ℕ
      → Server
      → Option (KneeSummary F)
  unfolding zipf warm_up serve note_response run_open_loop
  measure_knee weights queries draws arrivals pieces wall_ns server = elim (zipf weights queries) [
    | none ↦ none
    | some warmup_sampler ↦
        let warm = warm_up client warmup_sampler (take 75 draws) server in
        let s = serve client note_response answered pieces (load warm no_notes) in
        some (record {
          result = run_open_loop doubles arrivals s.records wall_ns;
          server_queue_wait = s.shared.server_queue_wait;
          cache_hit_rate = (s.shared.cache_hits, s.shared.cache_total);
        })
  ]
