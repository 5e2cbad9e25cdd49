-- ===== src/Nrt/Engine.antt =====
-- The C++ index as the Python code sees it: the `cascade_index` binding (cpp/bindings/module.cc) and the
-- `build_index` binary, as an interface.
use Prim.Native.String.{String}
use cascade_search_engine.Prelude.{ℕ, List, ◌≡◌, take}
use cascade_search_engine.Prelude.Keys.{Order, string_eq}
use cascade_search_engine.Sort.{IsSorted, descending}

-- `cascade_index.Algorithm`
pub data Algorithm : Type 0 where
  daat_or wand blockmax_wand : Algorithm

-- A hit: external document id and score.
abbrev pub Hit : Type 0 → Type 0
Hit Score = String × Score

abbrev pub external_id {ℓ} : {Score : Type ℓ} → String × Score → String
external_id h = h.0

abbrev pub score_of {ℓ} : {Score : Type ℓ} → String × Score → Score
score_of h = h.1

-- The operations that the Python code calls.
pub record Engine (Index Score : Type 0) : Type 0 where
  -- `build_index <tsv> <dir>` on a file with this text, then `Index(dir)`, where the binary succeeds
  pub build : String → Index
  -- `index.search(query, k, algorithm)[0]`
  pub search : Index → String → ℕ → Algorithm → List (Hit Score)
  pub doc_count : Index → ℕ

-- The contract of `search` (cpp/query/searcher.cc, `TopK`): whatever the algorithm, the first k of one
-- ranking by descending score.
pub record IsExact {Index Score : Type 0} ⦃o : Order Score⦄ (engine : Engine Index Score)
    : Type 0 where
  pub ranking : Index → String → List (Hit Score)
  pub search-eq :
      (index : Index) (query : String) (k : ℕ) (algorithm : Algorithm)
      → engine.search index query k algorithm ≡ take k (ranking index query)
  pub ranked :
      (index : Index) (query : String) → IsSorted (descending score_of) (ranking index query)
