-- ===== src/Rank/Examples.antt =====
-- The ranking side on small inputs: three requests, batches of two.
pub mod Shedding
pub mod Models
pub mod Cascaded
use Prim.Native.String.{String}
use cascade_search_engine.Prelude.{
  ℕ, ◌≤◌, true, false, none, some, List, [], ◌∷◌, ◌++◌, ◌≡◌, ◌⊎◌, refl, inl, arith, length,
}
use cascade_search_engine.Prelude.{keep_if}
use cascade_search_engine.Prelude.Keys.{string_eq}
use cascade_search_engine.Nrt.Tsv.{Document}
use cascade_search_engine.Rank.Candidates.{missing_of, collect_candidate_texts}
use cascade_search_engine.Rank.Candidates.Texts.{is_candidate, collect_candidate_texts-whole}
use cascade_search_engine.Rank.Batcher.{DynamicBatcher, init, add, should_flush}
use cascade_search_engine.Rank.Batcher.Batches.{waits_since}
use cascade_search_engine.Rank.Batched.{
  events_of, Event, request, flush_thread, enqueue, dispatch, step, run, start,
}
use cascade_search_engine.Rank.Batched.Accounting.{every_request_once}
use cascade_search_engine.Rank.Batched.Requests.{held, upto, IsShallow}
use cascade_search_engine.Rank.Batched.Draining.{turns, every_request_woken}

abbrev pairs : List String
pairs = "a" ∷ "b" ∷ []

abbrev events : List Event
events = request 1 ∷ request 2 ∷ flush_thread 3 true ∷ request 4 ∷ flush_thread 5 false ∷ []

every_request_once_example :
    let s = run events (start (init 2 5) pairs (some 2)) in
    (s.woken ++ (events_of (held s.flusher) ++ events_of s.batcher.items) ≡ upto s.next_index)
    × (length (held s.flusher) ≤ 2)
    × IsShallow (some 2) (length s.batcher.items)
every_request_once_example = every_request_once 2 5 pairs (some 2) events

abbrev three_requests : List Event
three_requests = request 1 ∷ request 2 ∷ request 3 ∷ []

every_request_woken_example :
    let s = run three_requests (start (init 2 5) pairs none) in
    let t = run (turns 5 (length s.batcher.items) 9 (λ n. false)) s in t.woken ≡ upto t.next_index
unfolding run step dispatch enqueue add start
every_request_woken_example =
    every_request_woken 2 5 pairs none three_requests 9 (λ n. false)
      (record {
        idle = inl refl;
        going = refl;
        opened = waits_since;
        waits = refl;
        ripe = omega arith;
        wide = omega arith;
      })

abbrev corpus : List Document
corpus = ("d1", "red") ∷ ("d2", "fox") ∷ ("d3", "owl") ∷ []

collect_candidate_texts-whole_example :
    ((collect_candidate_texts ("d2" ∷ "d1" ∷ []) corpus ≡ none)
      × (c : String) × (rest : List String) × (missing_of ("d2" ∷ "d1" ∷ []) corpus ≡ c ∷ rest))
    ⊎ ((missing_of ("d2" ∷ "d1" ∷ []) corpus ≡ [])
        × (collect_candidate_texts ("d2" ∷ "d1" ∷ []) corpus
            ≡ some (keep_if (is_candidate ("d2" ∷ "d1" ∷ [])) corpus)))
collect_candidate_texts-whole_example =
    collect_candidate_texts-whole ("d2" ∷ "d1" ∷ []) corpus (refl, (refl, (refl, tt)))
