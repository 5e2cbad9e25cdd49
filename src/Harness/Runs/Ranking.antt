-- ===== src/Harness/Runs/Ranking.antt =====
-- The order of a run's documents is one: what is ranked is sorted, and ranking it again changes nothing.
use Prim.Native.String.{String}
use cascade_search_engine.Prelude.{true, false, ◌≡◌, arith}
use cascade_search_engine.Prelude.Keys.{Order}
use cascade_search_engine.Sort.{IsTotal}
use cascade_search_engine.Sort.Laws.{sort-IsSorted, sort_of_IsSorted}
use cascade_search_engine.Harness.Runs.{Candidates, outranks, ranked}

module _ {Score : Type 0} ⦃scores : Order Score⦄ ⦃strings : Order String⦄ where
  outranks_total : (a b : String × Score) → outranks a b ≡ false → outranks b a ≡ true
  outranks_total a b h = ground (
    arith,
    scores.total a.1 b.1,
    scores.total b.1 a.1,
    strings.total a.0 b.0,
    strings.total b.0 a.0,
  )

  outranks_trans :
      (a b c : String × Score) → outranks a b ≡ true → outranks b c ≡ true → outranks a c ≡ true
  outranks_trans a b c h k = ground (
    arith,
    scores.trans c.1 b.1 a.1,
    scores.trans a.1 b.1 c.1,
    scores.trans b.1 c.1 a.1,
    scores.trans c.1 a.1 b.1,
    scores.trans b.1 a.1 c.1,
    scores.trans a.1 c.1 b.1,
    strings.trans c.0 b.0 a.0,
  )

  pub outranks-IsTotal : IsTotal (outranks {Score = Score})
  outranks-IsTotal = record { total = outranks_total; trans = outranks_trans }

  pub ranked-ranked :
      (candidates : Candidates Score) → ranked (ranked candidates) ≡ ranked candidates
  unfolding ranked
  ranked-ranked candidates = sort_of_IsSorted outranks _ (sort-IsSorted outranks-IsTotal candidates)
