-- ===== src/Dense/Fusion/Ranks.antt =====
-- What a document's fused score is made of.
use Prim.Native.String.{String}
use cascade_search_engine.Prelude.{
  ℕ, suc, ◌+◌, Bool, false, Option, none, some, List, [], ◌∷◌, ◌++◌, map, ◌≡◌, refl, sym, ap, ◌∙◌,
  inl, inr, Bool-cases, if_intro, if◌then◌else◌,
}
use cascade_search_engine.Prelude.Keys.{◌==◌, Order, string_eq, beq_refl}
use cascade_search_engine.Harness.Runs.{Candidates, get_item}
use cascade_search_engine.Dense.Fusion.{
  Arithmetic, add_score, add_ranks, by_score, add_channels, reciprocal_rank_fusion,
}

-- the ranks at which a document stands in a channel, counted from `rank`
abbrev pub ranks_of : {Score : Type 0} → String → ℕ → Candidates Score → List ℕ
ranks_of docid rank [] = []
ranks_of docid rank ((other, _) ∷ ranked) =
    let rest = ranks_of docid (suc rank) ranked in if other == docid then rank ∷ rest else rest

module _ {Score : Type 0} (scores : Arithmetic Score) where
  -- a sum of shares, from the left, if there is one
  abbrev pub sum_from : Option Score → List Score → Option Score
  sum_from sum [] = sum
  sum_from none (share ∷ shares) = sum_from (some (scores.plus scores.nil share)) shares
  sum_from (some sum) (share ∷ shares) = sum_from (some (scores.plus sum share)) shares

  sum_from-append :
      (xs ys : List Score) (sum : Option Score)
      → sum_from sum (xs ++ ys) ≡ sum_from (sum_from sum xs) ys
  sum_from-append [] ys sum = refl
  sum_from-append (x ∷ xs) ys none = sum_from-append xs ys (some (scores.plus scores.nil x))
  sum_from-append (x ∷ xs) ys (some sum) = sum_from-append xs ys (some (scores.plus sum x))

  get_item-add_score_same :
      (docid : String) (share : Score) (fused : Candidates Score)
      → get_item docid (add_score scores docid share fused)
        ≡ sum_from (get_item docid fused) (share ∷ [])
  unfolding get_item add_score
  get_item-add_score_same docid share [] =
      ap (λ b. if b then some (scores.plus scores.nil share) else none) (beq_refl docid)
  get_item-add_score_same docid share ((other, old) ∷ fused) =
      let after : Bool → Option Score = λ b. get_item docid (
        if b
        then (other, scores.plus old share) ∷ fused
        else (other, old) ∷ add_score scores docid share fused) in
      let before : Bool → Option Score =
        λ b. sum_from (if b then some old else get_item docid fused) (share ∷ []) in
      elim (Bool-cases (other == docid)) [
        | inl same ↦
            ap after same
            ∙ ap (λ b. if b then some (scores.plus old share) else get_item docid fused) same
            ∙ sym (ap before same)
        | inr differs ↦
            ap after differs
            ∙ ap (λ b. if b then some old else get_item docid (add_score scores docid share fused))
                differs
            ∙ get_item-add_score_same docid share fused
            ∙ sym (ap before differs)
      ]

  get_item-add_score_other :
      (docid key : String) (share : Score) (fused : Candidates Score)
      → (docid == key) ≡ false
      → get_item key (add_score scores docid share fused) ≡ get_item key fused
  unfolding get_item add_score
  get_item-add_score_other docid key share [] differs =
      ap (λ b. if b then some (scores.plus scores.nil share) else none) differs
  get_item-add_score_other docid key share ((other, old) ∷ fused) differs =
      if_intro (λ d. get_item key d ≡ get_item key ((other, old) ∷ fused)) (other == docid)
        (λ same.
          let other_differs : (other == key) ≡ false =
            ap (λ d. d == key) ((string_eq.is_same-iff other docid).0 same) ∙ differs in
          ap (λ b. if b then some (scores.plus old share) else get_item key fused) other_differs
          ∙ sym (ap (λ b. if b then some old else get_item key fused) other_differs))
        (λ _.
          ap (λ o. if other == key then some old else o)
            (get_item-add_score_other docid key share fused differs))

  get_item-add_ranks :
      (k rank : ℕ) (key : String) (ranked fused : Candidates Score)
      → get_item key (add_ranks scores k rank ranked fused)
        ≡ sum_from
            (get_item key fused)
            (map (λ r. scores.reciprocal (k + r)) (ranks_of key rank ranked))
  unfolding add_ranks
  get_item-add_ranks k rank key [] fused = refl
  get_item-add_ranks k rank key ((docid, score) ∷ ranked) fused =
      let share = scores.reciprocal (k + rank) in
      let rest = ranks_of key (suc rank) ranked in
      let shares = map (λ r. scores.reciprocal (k + r)) rest in
      let goal : Bool → Option Score = λ b.
        sum_from (get_item key fused)
          (map (λ r. scores.reciprocal (k + r)) (if b then rank ∷ rest else rest)) in
      get_item-add_ranks k (suc rank) key ranked (add_score scores docid share fused)
      ∙ elim (Bool-cases (docid == key)) [
        | inl same ↦
            ap (λ d. sum_from (get_item key (add_score scores d share fused)) shares)
              ((string_eq.is_same-iff docid key).0 same)
            ∙ ap (λ sum. sum_from sum shares) (get_item-add_score_same key share fused)
            ∙ sym (sum_from-append (share ∷ []) shares (get_item key fused))
            ∙ sym (ap goal same)
        | inr differs ↦
            ap (λ sum. sum_from sum shares) (get_item-add_score_other docid key share fused differs)
            ∙ sym (ap goal differs)
      ]

module _ {Score : Type 0} ⦃o : Order Score⦄ (scores : Arithmetic Score) where
  -- what a document gets from the channels, one after the other: 1 / (k + rank) for its rank in each
  abbrev pub shares_of : ℕ → String → List (Candidates Score) → List Score
  shares_of k docid [] = []
  shares_of k docid (channel ∷ channels) =
      map (λ r. scores.reciprocal (k + r)) (ranks_of docid 1 (by_score channel))
      ++ shares_of k docid channels

  get_item-add_channels :
      (k : ℕ) (docid : String) (channels : List (Candidates Score)) (fused : Candidates Score)
      → get_item docid (add_channels scores k channels fused)
        ≡ sum_from scores (get_item docid fused) (shares_of k docid channels)
  unfolding add_channels
  get_item-add_channels k docid [] fused = refl
  get_item-add_channels k docid (channel ∷ channels) fused =
      let ranked = by_score channel in
      let shares = map (λ r. scores.reciprocal (k + r)) (ranks_of docid 1 ranked) in
      get_item-add_channels k docid channels (add_ranks scores k 1 ranked fused)
      ∙ ap (λ sum. sum_from scores sum (shares_of k docid channels))
          (get_item-add_ranks scores k 1 docid ranked fused)
      ∙ sym (sum_from-append scores shares (shares_of k docid channels) (get_item docid fused))

  -- A document's fused score is the sum, in the order of the channels, of 1 / (k + rank) for each rank from
  -- 1 at which it stands in a channel sorted by descending score; a document that stands in none has no
  -- fused score.
  pub reciprocal_rank_fusion-shares :
      (k : ℕ) (docid : String) (channels : List (Candidates Score))
      → get_item docid (reciprocal_rank_fusion scores k channels)
        ≡ sum_from scores none (shares_of k docid channels)
  unfolding get_item
  reciprocal_rank_fusion-shares k docid channels = get_item-add_channels k docid channels []
