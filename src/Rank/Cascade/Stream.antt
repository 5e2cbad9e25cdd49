-- ===== src/Rank/Cascade/Stream.antt =====
-- kaggle/phase4_driver.py, `build_request_pairs`: the queries and the passages go round.
use Prim.Native.String.{String}
use mathlib.Core.Path.{subst}
use native.Mathlib.Nat.{mod-lt}
use cascade_search_engine.Prelude.{
  ℕ, zero, suc, ◌+◌, ◌%◌, ◌<◌, some, List, [], ◌∷◌, length, get_elem?, ◌≡◌, refl, ap, arith,
}
use cascade_search_engine.Harness.Latency.Percentiles.{get_elem?-some}
use cascade_search_engine.Rank.CrossEncoder.{Pair}
use cascade_search_engine.Rank.Cascade.{request_pairs_from}

request_pairs_from_step :
    (count i : ℕ) (query_list passages : List String) (query passage : String) (pairs : List Pair)
    → 0 < length query_list
    → 0 < length passages
    → get_elem? query_list (i % length query_list) ≡ some query
    → get_elem? passages (i % length passages) ≡ some passage
    → request_pairs_from count (suc i) query_list passages ≡ some pairs
    → request_pairs_from (suc count) i query_list passages ≡ some ((query, passage) ∷ pairs)
unfolding request_pairs_from
request_pairs_from_step count i [] passages query passage pairs h k asked read rest =
    absurd (omega arith)
request_pairs_from_step count i (q ∷ qs) [] query passage pairs h k asked read rest =
    absurd (omega arith)
request_pairs_from_step count i (q ∷ qs) (p ∷ ps) query passage pairs h k asked read rest =
    rw (asked, request_pairs_from, read, rest) refl

-- the pair at place n is what comes as request number m
abbrev Comes : List String → List String → List Pair → ℕ → ℕ → Type 0
Comes query_list passages pairs n m =
    (query : String) × (passage : String) × (get_elem? pairs n ≡ some (query, passage))
    × (get_elem? query_list (m % length query_list) ≡ some query)
    × (get_elem? passages (m % length passages) ≡ some passage)

-- the first pair, and the others one place later
Comes-cons :
    (query_list passages : List String) (pairs : List Pair) (query passage : String) (count i : ℕ)
    → get_elem? query_list (i % length query_list) ≡ some query
    → get_elem? passages (i % length passages) ≡ some passage
    → ((n : ℕ) → n < count → Comes query_list passages pairs n (suc i + n))
    → (n : ℕ) → n < suc count
    → Comes query_list passages ((query, passage) ∷ pairs) n (i + n)
Comes-cons query_list passages pairs query passage count i asked read each zero few =
    subst (Comes query_list passages ((query, passage) ∷ pairs) 0) (omega arith)
      (query, passage, refl, asked, read)
Comes-cons query_list passages pairs query passage count i asked read each (suc n) few =
    subst (Comes query_list passages ((query, passage) ∷ pairs) (suc n)) (omega arith)
      (each n (omega (arith, few)))

-- With a query and a passage the stream is as long as it is asked for, and its request number n is the query at
-- place (i + n) modulo their number, with the passage at place (i + n) modulo theirs.
request_pairs_from-cycles :
    (count i : ℕ) (query_list passages : List String)
    → 0 < length query_list
    → 0 < length passages
    → (pairs : List Pair) × (request_pairs_from count i query_list passages ≡ some pairs)
      × (length pairs ≡ count)
      × ((n : ℕ) → n < count → Comes query_list passages pairs n (i + n))
unfolding request_pairs_from
request_pairs_from-cycles zero i query_list passages h k =
    ([], refl, refl, λ n few. absurd (omega (arith, few)))
request_pairs_from-cycles (suc count) i query_list passages h k =
    let (query, asked) = get_elem?-some query_list (i % length query_list) (mod-lt i h) in
    let (passage, read) = get_elem?-some passages (i % length passages) (mod-lt i k) in
    let (pairs, built, size, each) =
      request_pairs_from-cycles count (suc i) query_list passages h k in
    (
      (query, passage) ∷ pairs,
      request_pairs_from_step count i query_list passages query passage pairs h k asked read built,
      ap suc size,
      Comes-cons query_list passages pairs query passage count i asked read each,
    )
