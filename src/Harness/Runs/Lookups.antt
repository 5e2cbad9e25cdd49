-- ===== src/Harness/Runs/Lookups.antt =====
-- Reading back what was written to a dictionary.
use Prim.Native.String.{String}
use cascade_search_engine.Prelude.{List, [], ◌∷◌, some, ◌≡◌, refl, arith, if◌then◌else◌}
use cascade_search_engine.Prelude.Keys.{string_eq, ◌==◌}
use cascade_search_engine.Harness.Runs.{set_item, get_item}

module _ {V : Type 0} where
  pub get_item-set_item :
      (key k : String) (value : V) (d : List (String × V))
      → get_item k (set_item key value d) ≡ (if key == k then some value else get_item k d)
  unfolding get_item set_item
  get_item-set_item key k value [] = refl
  get_item-set_item key k value ((other, v) ∷ d) = ground (
    arith,
    string_eq.is_same-iff other key,
    string_eq.is_same-iff other k,
    string_eq.is_same-iff key k,
    get_item-set_item key k value d,
  )
