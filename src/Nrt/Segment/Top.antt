-- ===== src/Nrt/Segment/Top.antt =====
-- What a search over a set of segments returns: the k best live hits of the whole corpus.
use Prim.Native.String.{String}
use cascade_search_engine.Prelude.{
  ℕ, ◌+◌, List, [], ◌∷◌, map, ◌≡◌, refl, sym, ap, ap₂, ◌≡⟨◌⟩◌, ◌∎, arith, length, take, take_nil,
  concat, keep_if, keep_if-concat, All,
}
use cascade_search_engine.Prelude.Keys.{Order, string_eq, is_in, Distinct}
use cascade_search_engine.Prelude.Counting.{take-keep_if-take, count_if-is_in-le, count_if-not-not}
use cascade_search_engine.Sort.{sort, descending, descending-IsTotal, IsSorted}
use cascade_search_engine.Sort.Laws.{keep_if-sort, keep_if-IsSorted, take-IsSorted}
use cascade_search_engine.Sort.Top.{top-concat-take}
use cascade_search_engine.Nrt.Engine.{Algorithm, Hit, external_id, score_of, Engine, IsExact}
use cascade_search_engine.Nrt.Segment.{Segment, SegmentSet, is_live, search}

module _ {Index Score : Type 0} ⦃o : Order Score⦄ (engine : Engine Index Score) where
  -- the search in one line, whether there are segments or not
  pub search_lem :
      (set : SegmentSet Index) (query : String) (k : ℕ) (algorithm : Algorithm)
      → search engine set query k algorithm
        ≡ take k (
            sort (descending score_of) (
              concat (
                map (keep_if (is_live set.tombstones)) (
                  map
                    (λ s. engine.search s.index query (k + length set.tombstones) algorithm)
                    set.segments))))
  unfolding search sort
  search_lem set query k algorithm = ground (arith, take_nil {A = Hit Score} k)

module _ {Index Score : Type 0} ⦃o : Order Score⦄ {engine : Engine Index Score}
    (exact : IsExact engine) where
  -- every segment's whole ranking for a query
  abbrev pub rankings : List (Segment Index) → String → List (List (Hit Score))
  rankings segments query = map (λ s. exact.ranking s.index query) segments

  -- no segment holds two documents with one external id
  abbrev pub HasDistinctIds : List (Segment Index) → String → Type 0
  HasDistinctIds segments query =
      All (λ s. Distinct (map external_id (exact.ranking s.index query))) segments

  -- One segment's answer, filtered, has the first k live hits of its ranking.
  cut_live :
      (tombstones : List String) (k : ℕ) (s : Segment Index) (query : String)
      (algorithm : Algorithm)
      → Distinct (map external_id (exact.ranking s.index query))
      → take k (
          keep_if
            (is_live tombstones)
            (engine.search s.index query (k + length tombstones) algorithm))
        ≡ take k (keep_if (is_live tombstones) (exact.ranking s.index query))
  cut_live tombstones k s query algorithm h =
      let ids = exact.ranking s.index query in
      let few = count_if-is_in-le external_id tombstones ids h in
      rw (exact.search-eq s.index query (k + length tombstones) algorithm) (
        take-keep_if-take (is_live tombstones) k (length tombstones) ids
          (rw (count_if-not-not (λ x. is_in (external_id x) tombstones) ids) few))

  cut_all :
      (tombstones : List String) (k : ℕ) (segments : List (Segment Index)) (query : String)
      (algorithm : Algorithm)
      → HasDistinctIds segments query
      → map (take k) (
          map
            (keep_if (is_live tombstones))
            (map (λ s. engine.search s.index query (k + length tombstones) algorithm) segments))
        ≡ map (take k) (map (keep_if (is_live tombstones)) (rankings segments query))
  cut_all tombstones k [] query algorithm h = refl
  cut_all tombstones k (s ∷ segments) query algorithm h =
      ap₂ ◌∷◌ (cut_live tombstones k s query algorithm h.0)
        (cut_all tombstones k segments query algorithm h.1)

  fetched-IsSorted :
      (tombstones : List String) (n : ℕ) (segments : List (Segment Index)) (query : String)
      (algorithm : Algorithm)
      → All (IsSorted (descending score_of)) (
          map
            (keep_if (is_live tombstones))
            (map (λ s. engine.search s.index query n algorithm) segments))
  fetched-IsSorted tombstones n [] query algorithm = tt
  fetched-IsSorted tombstones n (s ∷ segments) query algorithm = (
    keep_if-IsSorted (descending score_of) (is_live tombstones)
        (engine.search s.index query n algorithm)
        (rw exact.search-eq (take-IsSorted _ n _ (exact.ranked s.index query))),
    fetched-IsSorted tombstones n segments query algorithm,
  )

  live_rankings-IsSorted :
      (tombstones : List String) (segments : List (Segment Index)) (query : String)
      → All
          (IsSorted (descending score_of))
          (map (keep_if (is_live tombstones)) (rankings segments query))
  live_rankings-IsSorted tombstones [] query = tt
  live_rankings-IsSorted tombstones (s ∷ segments) query = (
    keep_if-IsSorted _ _ _ (exact.ranked s.index query),
    live_rankings-IsSorted tombstones segments query,
  )

  -- If the index answers the first k of one descending ranking (IsExact) and no segment ranks two documents
  -- with one external id, the search over a set of segments returns, hit by hit and in order, the first k
  -- live hits of a stable descending sort of all segments' whole rankings: fetching k + len(tombstones)
  -- from each loses nothing.
  pub search-eq-top :
      (set : SegmentSet Index) (query : String) (k : ℕ) (algorithm : Algorithm)
      → HasDistinctIds set.segments query
      → search engine set query k algorithm
        ≡ take k (
            keep_if
              (is_live set.tombstones)
              (sort (descending score_of) (concat (rankings set.segments query))))
  unfolding search
  search-eq-top set query k algorithm h =
      let best = λ (hits : List (Hit Score)). take k (sort (descending score_of) hits) in
      let fetched =
        map (λ s. engine.search s.index query (k + length set.tombstones) algorithm) set.segments in
      let live = keep_if (is_live {Score = Score} set.tombstones) in
      let ranked = rankings set.segments query in
      let top = top-concat-take (descending-IsTotal score_of) k k in
      search engine set query k algorithm
      ≡⟨ search_lem engine set query k algorithm ⟩ best (concat (map live fetched))
      ≡⟨ sym (
          top (map live fetched) (omega arith)
            (fetched-IsSorted set.tombstones _ set.segments query algorithm)) ⟩
        best (concat (map (take k) (map live fetched)))
      ≡⟨ ap (λ l. best (concat l)) (cut_all set.tombstones k set.segments query algorithm h) ⟩
        best (concat (map (take k) (map live ranked)))
      ≡⟨ top (map live ranked) (omega arith)
          (live_rankings-IsSorted set.tombstones set.segments query) ⟩
        best (concat (map live ranked))
      ≡⟨ ap best (sym (keep_if-concat (is_live set.tombstones) ranked)) ⟩
        best (live (concat ranked))
      ≡⟨ ap (take k) (
          sym
            (keep_if-sort (descending-IsTotal score_of) (is_live set.tombstones) (concat ranked))) ⟩
        take k (live (sort (descending score_of) (concat ranked))) ∎
