-- ===== src/Server/Shards.antt =====
-- py/server/build_shards.py: one index for each shard, the binary being there. A run that failed is taken up again.
pub mod Resume
use Prim.Native.String.{String}
use cascade_search_engine.Prelude.{Bool, true, false, List, [], ◌∷◌, map, if◌then◌else◌}

-- An index directory: not there, without `index.terms` since its build did not get to it, with an `index.terms`
-- that is not whole, or built from a text.
pub data IndexDir : Type 0 where
  absent : IndexDir
  unfinished : IndexDir
  truncated : IndexDir
  complete : String → IndexDir

-- How a run of `build_index` ends, cpp/index/builder.cc: it succeeds, or it fails before it opens `index.terms`, while
-- it writes it, or after it, where it removes its temporary files.
pub data Outcome : Type 0 where
  succeeds : Outcome
  fails_before_terms : Outcome
  fails_in_terms : Outcome
  fails_after_terms : Outcome

-- A shard: its TSV, its index directory, and how a run of `build_index` on it ends this time.
pub record Shard : Type 0 where
  pub tsv : String
  pub index_dir : IndexDir
  pub outcome : Outcome

-- `is_built`: whether `index.terms` is there
abbrev pub is_built : IndexDir → Bool
is_built absent = false
is_built unfinished = false
is_built truncated = true
is_built (complete text) = true

-- What `build_index` leaves.
unfoldable pub run_binary : Shard → IndexDir
run_binary shard = elim shard.outcome [
  | succeeds ↦ complete shard.tsv
  | fails_before_terms ↦ unfinished
  | fails_in_terms ↦ truncated
  | fails_after_terms ↦ complete shard.tsv
]

-- `check=True` does not raise.
abbrev pub ends_well : Outcome → Bool
ends_well succeeds = true
ends_well _ = false

abbrev pub dirs_of : List Shard → List IndexDir
dirs_of = map (λ shard. shard.index_dir)

-- The loop of `build_shards`: whether it returns, and the directories then. An exception ends it.
unfoldable pub build_shards : List Shard → Bool × List IndexDir
unfolding run_binary
build_shards [] = (true, [])
build_shards (shard ∷ shards) =
    let (returned, dirs) = build_shards shards in
    if is_built shard.index_dir
    then (returned, shard.index_dir ∷ dirs)
    else if ends_well shard.outcome
    then (returned, run_binary shard ∷ dirs)
    else (false, run_binary shard ∷ dirs_of shards)
