-- ===== src/Server/Partition.antt =====
-- py/server/partition_corpus.py: the corpus cut into n runs of lines, one file for each shard.
pub mod Sizes
pub mod Written
use Prim.Native.String.{String}
use cascade_search_engine.Prelude.{
  ℕ, zero, suc, ◌+◌, ◌/◌, ◌%◌, Bool, true, false, ◌&&◌, Option, none, some, List, [], ◌∷◌, take,
  drop, length, ltb, if◌then◌else◌,
}
use cascade_search_engine.Prelude.Keys.{nat_eq, ◌==◌}
use cascade_search_engine.Nrt.Tsv.{join}

-- What is on disk under `shards_dir / f"n{n}"`, by shard number.
abbrev pub ShardFiles : Type 0
ShardFiles = ℕ → Option String

-- `size`, of shard i
abbrev pub shard_size : ℕ → ℕ → ℕ → ℕ
shard_size base extra i = base + (if ltb i extra then 1 else 0)

-- The loop over `count` shards from `i` on, the next line being `start`.
unfoldable pub cut_from : ℕ → ℕ → ℕ → ℕ → ℕ → List String → List (List String)
cut_from base extra zero i start lines = []
cut_from base extra (suc count) i start lines =
    let size = shard_size base extra i in
    take size (drop start lines) ∷ cut_from base extra count (suc i) (start + size) lines

-- the lines of each shard
unfoldable pub shard_lines : ℕ → List String → List (List String)
unfolding cut_from
shard_lines n lines = cut_from (length lines / n) (length lines % n) n 0 0 lines

-- `all(p.exists() for p in paths)`
unfoldable pub all_exist : ℕ → ℕ → ShardFiles → Bool
all_exist zero i files = true
all_exist (suc count) i files =
    let rest = all_exist count (suc i) files in elim (files i) [ none ↦ false | some text ↦ rest ]

-- `path.write_text("".join(...))` for each shard from `i` on
unfoldable pub write_shards : ℕ → List (List String) → ShardFiles → ShardFiles
write_shards i [] files = files
write_shards i (lines ∷ shards) files =
    write_shards (suc i) shards (λ j. if i == j then some (join lines) else files j)

-- `partition`, on a corpus of these lines
unfoldable pub partition : ℕ → List String → ShardFiles → ShardFiles
unfolding shard_lines all_exist write_shards
partition n lines files =
    if all_exist n 0 files then files else write_shards 0 (shard_lines n lines) files
