-- ===== src/Server/Measure/Knee.antt =====
-- What the measurement of the knee counts.
use Prim.Native.String.{String}
use mathlib.Core.Path.{subst}
use cascade_search_engine.Prelude.{
  ℕ, suc, ◌+◌, ◌≤◌, ◌<◌, Bool, true, false, some, List, [], ◌∷◌, take, length, length-append, ◌≡◌,
  refl, ap, ◌∙◌, ◌⊎◌, arith, inl, inr,
}
use cascade_search_engine.Prelude.Keys.{Order}
use cascade_search_engine.Harness.Latency.{Doubles, record_one}
use cascade_search_engine.Harness.Loadgen.{Weights, ZipfQuerySampler, zipf, run_open_loop}
use cascade_search_engine.Server.Measure.{
  Client, Request, Task, Piece, serve, load, KneeCounts, KneeSummary, Noting, answered, total_read,
  total_written, hits_read, note_response, no_notes, warm_up, measure_knee,
}
use cascade_search_engine.Server.Measure.Workers.{
  weights as weights_of, arrivals_in, After, IsSound, serve-IsSound,
}
use cascade_search_engine.Server.Measure.Counts.{run_open_loop-totals}

-- a worker that has recorded its wait
abbrev weight : Task Noting → ℕ
weight task = elim task.progress [ answered ↦ 0 | _ ↦ 1 ]

-- Each ended worker and each that goes on has its wait; the counters are at most the waits and the ended.
abbrev Good : KneeCounts → ℕ → ℕ → Type 0
Good c n m =
    (length c.server_queue_wait.samples ≡ n + m)
    × (c.cache_total ≤ length c.server_queue_wait.samples)
    × (c.cache_hits ≤ n)
    × ((n ≡ 0) ⊎ (1 ≤ c.cache_total))

abbrev Fits : KneeCounts → ℕ → Task Noting → Type 0
Fits c n task = elim task.progress [
  | answered ↦ Unit
  | total_read v ↦ v < length c.server_queue_wait.samples
  | total_written ↦ 1 ≤ c.cache_total
  | hits_read v ↦ (v ≤ n) × (1 ≤ c.cache_total)
]

abbrev task_of : Request → Bool → ℕ → Noting → Task Noting
task_of q hit wait progress = record {
  request = q;
  response = record { cache_hit = hit; queue_wait_us = wait };
  progress = progress;
}

acts_at :
    (q : Request) (hit : Bool) (wait : ℕ) (progress : Noting) (c : KneeCounts) (n m : ℕ)
    → Good c n (weight (task_of q hit wait progress) + m)
    → Fits c n (task_of q hit wait progress)
    → After note_response answered weight Good Fits n m
        (note_response (task_of q hit wait progress) c)
unfolding note_response record_one
acts_at q hit wait answered c n m g f =
    let one = length-append c.server_queue_wait.samples (wait ∷ []) in
    ((omega (arith, one, g.0), omega (arith, one, g.1), g.2, g.3), omega (arith, one, g.1))
acts_at q true wait (total_read v) c n m g f =
    ((g.0, omega (arith, f), g.2, inr (omega arith)), omega arith)
acts_at q false wait (total_read v) c n m g f =
    (omega (arith, g.0), omega (arith, f), omega (arith, g.2), inr (omega arith))
acts_at q hit wait total_written c n m g f = (g, (g.2, f))
acts_at q hit wait (hits_read v) c n m g f = (omega (arith, g.0), g.1, omega (arith, f.0), inr f.1)

others_at :
    (q q' : Request) (hit hit' : Bool) (wait wait' : ℕ) (progress progress' : Noting)
    (c : KneeCounts) (n : ℕ)
    → Fits c n (task_of q' hit' wait' progress')
    → Fits (note_response (task_of q hit wait progress) c).1 n (task_of q' hit' wait' progress')
unfolding note_response record_one
others_at q q' hit hit' wait wait' progress answered c n f = tt
others_at q q' hit hit' wait wait' answered (total_read v) c n f =
    omega (arith, length-append c.server_queue_wait.samples (wait ∷ []), f)
others_at q q' hit hit' wait wait' answered total_written c n f = f
others_at q q' hit hit' wait wait' answered (hits_read v) c n f = f
others_at q q' hit hit' wait wait' (total_read u) (total_read v) c n f = f
others_at q q' hit hit' wait wait' (total_read u) total_written c n f = omega arith
others_at q q' hit hit' wait wait' (total_read u) (hits_read v) c n f = (f.0, omega arith)
others_at q q' hit hit' wait wait' total_written (total_read v) c n f = f
others_at q q' hit hit' wait wait' total_written total_written c n f = f
others_at q q' hit hit' wait wait' total_written (hits_read v) c n f = f
others_at q q' hit hit' wait wait' (hits_read u) (total_read v) c n f = f
others_at q q' hit hit' wait wait' (hits_read u) total_written c n f = f
others_at q q' hit hit' wait wait' (hits_read u) (hits_read v) c n f = f

later_at :
    (q : Request) (hit : Bool) (wait : ℕ) (progress : Noting) (c : KneeCounts) (n : ℕ)
    → Fits c n (task_of q hit wait progress)
    → Fits c (suc n) (task_of q hit wait progress)
later_at q hit wait answered c n f = tt
later_at q hit wait (total_read v) c n f = f
later_at q hit wait total_written c n f = f
later_at q hit wait (hits_read v) c n f = (omega (arith, f.0), f.1)

-- If the sampler of the warm-up is made, and no worker is left, in whatever order the calls returned and
-- the workers went on, the read and the write of a counter apart: the measurement returns. The warm-up
-- changes nothing but the server: the result is that of a measurement without one on the server as it left
-- it. Each answered request of the load has its wait in the server's queue, those that raise are the load's
-- errors, and neither counter is greater than the answered requests; the total is not 0 if there is one.
pub measure_knee-counts :
    {Server Weight F : Type 0} ⦃o : Order Weight⦄ (doubles : Doubles F) (client : Client Server)
    (weights : Weights Weight) (queries : List String) (draws : List Weight) (arrivals : List ℕ)
    (pieces : List Piece) (wall_ns : ℕ) (server : Server) (sampler : ZipfQuerySampler Weight)
    → zipf weights queries ≡ some sampler
    → let warm = warm_up client sampler (take 75 draws) server in
      (serve client note_response answered pieces (load warm no_notes)).tasks ≡ []
      → (summary : KneeSummary F) × (measure_knee doubles client weights queries draws arrivals
            pieces wall_ns server
          ≡ some summary)
        × (measure_knee doubles client weights queries [] arrivals pieces wall_ns warm
            ≡ some summary)
        × (length summary.server_queue_wait.samples ≡ summary.result.completed)
        × (summary.result.completed + summary.result.errors ≡ arrivals_in pieces)
        × (summary.cache_hit_rate.1 ≤ summary.result.completed)
        × (summary.cache_hit_rate.0 ≤ summary.result.completed)
        × ((summary.result.completed ≡ 0) ⊎ (1 ≤ summary.cache_hit_rate.1))
unfolding measure_knee warm_up
measure_knee-counts doubles client weights queries draws arrivals pieces wall_ns server sampler made
      over =
    let warm = warm_up client sampler (take 75 draws) server in
    let s = serve client note_response answered pieces (load warm no_notes) in
    let v : IsSound note_response answered weight Good Fits (arrivals_in pieces) s =
      subst (λ k. IsSound note_response answered weight Good Fits k s) (omega arith)
        (serve-IsSound note_response answered weight Good Fits
          (λ task.
            acts_at task.request task.response.cache_hit task.response.queue_wait_us task.progress)
          (λ task other.
            others_at task.request other.request task.response.cache_hit other.response.cache_hit
              task.response.queue_wait_us other.response.queue_wait_us task.progress other.progress)
          (λ other.
            later_at other.request other.response.cache_hit other.response.queue_wait_us
              other.progress)
          (λ q response c n. (refl, tt)) client pieces 0 (load warm no_notes)
          (record {
            good = (refl, omega arith, omega arith, inl refl);
            fit = tt;
            counted = refl;
          })) in
    let (done, total) = run_open_loop-totals doubles arrivals s.records wall_ns in
    let (waits, total_bound, hits, some_total) = v.good in
    let none_left : weights_of note_response answered weight Good Fits s.tasks ≡ 0 =
      ap (weights_of note_response answered weight Good Fits) over in
    (
      record {
        result = run_open_loop doubles arrivals s.records wall_ns;
        server_queue_wait = s.shared.server_queue_wait;
        cache_hit_rate = (s.shared.cache_hits, s.shared.cache_total);
      },
      rw (made, measure_knee) refl,
      rw (made, measure_knee) refl,
      omega (arith, waits, none_left, done),
      omega (arith, total, v.counted, ap length over),
      omega (arith, total_bound, waits, none_left, done),
      omega (arith, hits, done),
      elim some_total [ inl nobody ↦ inl (done ∙ nobody) | inr some_write ↦ inr some_write ],
    )
