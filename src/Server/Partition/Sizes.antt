-- ===== src/Server/Partition/Sizes.antt =====
-- The shards are the corpus, in order, and as even as they can be.
use Prim.Native.String.{String}
use native.Mathlib.Nat.{suc-mul, div-add-mod, mod-lt, zero-lt-suc}
use cascade_search_engine.Prelude.{
  ℕ, zero, suc, ◌+◌, ◌-◌, ◌*◌, ◌/◌, ◌%◌, ◌≤◌, min, List, ◌++◌, ◌≡◌, refl, sym, ap, ◌∙◌, inl, inr,
  arith, tests, length, length-take, length-drop, take, drop, drop-drop, take_all, take-add, concat,
  All, Bool-cases, ltb,
}
use cascade_search_engine.Server.Partition.{shard_size, cut_from, shard_lines}

module _ (base extra : ℕ) (lines : List String) where
  -- the lines of `count` shards from `i` on
  sum_from : ℕ → ℕ → ℕ
  sum_from zero i = 0
  sum_from (suc count) i = shard_size base extra i + sum_from count (suc i)

  sum_from-eq : (count i : ℕ) → sum_from count i ≡ count * base + min count (extra - i)
  unfolding sum_from
  sum_from-eq zero i = omega arith
  sum_from-eq (suc count) i = elim (Bool-cases (ltb i extra)) [
    | inl e ↦ rw e (omega (tests, suc-mul count base, sum_from-eq count (suc i)))
    | inr e ↦ rw e (omega (tests, suc-mul count base, sum_from-eq count (suc i)))
  ]

  shard_size-bounds :
      (i : ℕ) → (base ≤ shard_size base extra i) × (shard_size base extra i ≤ suc base)
  shard_size-bounds i = ground arith

  concat-cut_from :
      (count i start : ℕ)
      → concat (cut_from base extra count i start lines)
        ≡ take (sum_from count i) (drop start lines)
  unfolding cut_from sum_from
  concat-cut_from zero i start = refl
  concat-cut_from (suc count) i start =
      let size = shard_size base extra i in
      ap (λ l. take size (drop start lines) ++ l)
        (concat-cut_from count (suc i) (start + size)
          ∙ ap (take (sum_from count (suc i))) (sym (drop-drop size start lines)))
      ∙ take-add size (sum_from count (suc i)) (drop start lines)

  cut_from-sizes :
      (count i start : ℕ)
      → start + sum_from count i ≤ length lines
      → All
          (λ shard. (base ≤ length shard) × (length shard ≤ suc base))
          (cut_from base extra count i start lines)
  unfolding cut_from sum_from
  cut_from-sizes zero i start h = tt
  cut_from-sizes (suc count) i start h =
      let bounds = shard_size-bounds i in
      let size = length-take (shard_size base extra i) (drop start lines) in
      let left = length-drop start lines in
      (
        (omega (arith, bounds.0, size, left), omega (arith, bounds.1, size, left)),
        cut_from-sizes count (suc i) (start + shard_size base extra i) (omega arith),
      )

  length-cut_from : (count i start : ℕ) → length (cut_from base extra count i start lines) ≡ count
  unfolding cut_from
  length-cut_from zero i start = refl
  length-cut_from (suc count) i start =
      ap suc (length-cut_from count (suc i) (start + shard_size base extra i))

-- Over all n ≥ 1 shards.
all_lines :
    (m : ℕ) (lines : List String)
    → sum_from (length lines / suc m) (length lines % suc m) lines (suc m) 0 ≡ length lines
all_lines m lines =
    let total = length lines in
    sum_from-eq (total / suc m) (total % suc m) lines (suc m) 0
    ∙ omega (arith, div-add-mod total (suc m), mod-lt total (zero-lt-suc m))

-- For n ≥ 1 the shards are n, put one after the other they are the corpus, and each has total / n lines or
-- one more.
pub shard_lines-even :
    (n : ℕ) (lines : List String)
    → 1 ≤ n
    → (length (shard_lines n lines) ≡ n)
      × (concat (shard_lines n lines) ≡ lines)
      × All
          (λ shard. (length lines / n ≤ length shard) × (length shard ≤ suc (length lines / n)))
          (shard_lines n lines)
unfolding shard_lines
shard_lines-even zero lines h = absurd (omega arith)
shard_lines-even (suc m) lines h =
    let total = length lines in
    let base = total / suc m in
    let extra = total % suc m in
    (
      length-cut_from base extra lines (suc m) 0 0,
      concat-cut_from base extra lines (suc m) 0 0
          ∙ ap (λ n. take n lines) (all_lines m lines)
          ∙ take_all total lines (omega arith),
      cut_from-sizes base extra lines (suc m) 0 0 (omega (arith, all_lines m lines)),
    )
