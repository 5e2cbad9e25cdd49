-- ===== src/Server/Partition/Written.antt =====
-- What `partition` leaves on disk.
use Prim.Native.String.{String}
use Prim.Native.String.{◌++◌ as text_append}
use cascade_search_engine.Prelude.{
  ℕ, zero, suc, ◌≤◌, ◌<◌, true, false, Option, some, List, [], ◌∷◌, map, ◌≡◌, refl, sym, ap, ap₂,
  ◌∙◌, arith, length, concat,
}
use cascade_search_engine.Prelude.Keys.{nat_eq, beq_refl}
use cascade_search_engine.Nrt.Tsv.{join, join-append}
use cascade_search_engine.Server.Partition.{
  ShardFiles, shard_lines, all_exist, write_shards, partition,
}
use cascade_search_engine.Server.Partition.Sizes.{shard_lines-even}

-- the contents of `count` files from shard i on
abbrev pub contents : ℕ → ℕ → ShardFiles → List (Option String)
contents zero i files = []
contents (suc count) i files = files i ∷ contents count (suc i) files

write_shards_other :
    (i j : ℕ) (shards : List (List String)) (files : ShardFiles)
    → j < i
    → write_shards i shards files j ≡ files j
unfolding write_shards
write_shards_other i j [] files h = refl
write_shards_other i j (lines ∷ shards) files h =
    write_shards_other (suc i) j shards _ (omega arith) ∙ ground (arith, nat_eq.is_same-iff i j)

contents-write_shards :
    (i : ℕ) (shards : List (List String)) (files : ShardFiles)
    → contents (length shards) i (write_shards i shards files)
      ≡ map (λ lines. some (join lines)) shards
unfolding write_shards
contents-write_shards i [] files = refl
contents-write_shards i (lines ∷ shards) files =
    ap₂ ◌∷◌ (write_shards_other (suc i) i shards _ (omega arith) ∙ rw (beq_refl i) refl)
      (contents-write_shards (suc i) shards _)

all_exist-contents :
    (count i : ℕ) (texts : List String) (files : ShardFiles)
    → contents count i files ≡ map some texts
    → all_exist count i files ≡ true
unfolding all_exist
all_exist-contents zero i texts files h = refl
all_exist-contents (suc count) i [] files h = cc
all_exist-contents (suc count) i (text ∷ texts) files h =
    let first : files i ≡ some text = cc in
    rw (first, all_exist) (all_exist-contents count (suc i) texts files cc)

join-concat : (shards : List (List String)) → join (map join shards) ≡ join (concat shards)
unfolding join
join-concat [] = refl
join-concat (lines ∷ shards) =
    ap (text_append (join lines)) (join-concat shards) ∙ sym (join-append lines (concat shards))

map-map-some :
    (shards : List (List String))
    → map (λ lines. some (join lines)) shards ≡ map some (map join shards)
map-map-some [] = refl
map-map-some (lines ∷ shards) = ap (◌∷◌ (some (join lines))) (map-map-some shards)

partition_missing :
    (n : ℕ) (lines : List String) (files : ShardFiles)
    → all_exist n 0 files ≡ false
    → partition n lines files ≡ write_shards 0 (shard_lines n lines) files
unfolding partition
partition_missing n lines files h = rw h refl

partition_there :
    (n : ℕ) (lines : List String) (files : ShardFiles)
    → all_exist n 0 files ≡ true
    → partition n lines files ≡ files
unfolding partition
partition_there n lines files h = rw h refl

-- If one of the n ≥ 1 shard files is missing, then afterwards all n are there, and their texts, one after
-- the other, are the text of the corpus; a second call, whatever the corpus has become, writes nothing.
pub partition-files :
    (n : ℕ) (lines other_lines : List String) (files : ShardFiles)
    → 1 ≤ n
    → all_exist n 0 files ≡ false
    → (texts : List String) × (contents n 0 (partition n lines files) ≡ map some texts)
      × (join texts ≡ join lines)
      × (partition n other_lines (partition n lines files) ≡ partition n lines files)
partition-files n lines other_lines files h missing =
    let shards = shard_lines n lines in
    let (count, whole, _) = shard_lines-even n lines h in
    let written : contents n 0 (partition n lines files) ≡ map some (map join shards) =
      ap (λ f. contents n 0 f) (partition_missing n lines files missing)
      ∙ ap (λ m. contents m 0 (write_shards 0 shards files)) (sym count)
      ∙ contents-write_shards 0 shards files
      ∙ map-map-some shards in
    (
      map join shards,
      written,
      join-concat shards ∙ ap join whole,
      partition_there n other_lines (partition n lines files)
          (all_exist-contents n 0 (map join shards) _ written),
    )
