-- ===== src/Dense/Fusion/Normal.antt =====
-- What min-max normalisation makes of a channel.
use Prim.Native.String.{String}
use mathlib.Core.Path.{subst}
use cascade_search_engine.Prelude.{
  Bool, true, false, ◌||◌, List, [], ◌∷◌, map, ◌≡◌, refl, ap, ◌∙◌, ◌⊎◌, inl, inr, arith, All, any,
  All-both, All-of_forall, Bool-cases, if_intro,
}
use cascade_search_engine.Prelude.Keys.{Order, ◌<=◌}
use cascade_search_engine.Harness.Runs.{Candidates}
use cascade_search_engine.Dense.Fusion.{
  Arithmetic, min_from, max_from, is_equal, scaled, min_max_normalize,
}

-- What floats satisfy, none being NaN or infinite: rounding keeps the order, and a difference of two that
-- are not equal is not zero.
pub record IsRounded {Score : Type 0} ⦃o : Order Score⦄ (scores : Arithmetic Score) : Type 0 where
  pub one : Score
  pub nil_le_one : (scores.nil <= one) ≡ true
  pub minus_self : (a : Score) → scores.minus a a ≡ scores.nil
  pub minus_mono : (a b c : Score) → (a <= b) ≡ true → (scores.minus a c <= scores.minus b c) ≡ true
  pub minus_pos : (a b : Score) → (a <= b) ≡ false → (scores.minus a b <= scores.nil) ≡ false
  pub over_nil : (d : Score) → (d <= scores.nil) ≡ false → scores.over scores.nil d ≡ scores.nil
  pub over_self : (d : Score) → (d <= scores.nil) ≡ false → scores.over d d ≡ one
  pub over_mono :
      (a b d : Score)
      → (d <= scores.nil) ≡ false
      → (a <= b) ≡ true
      → (scores.over a d <= scores.over b d) ≡ true

module _ {ℓ} {A : Type ℓ} where
  any-imp :
      (p q : A → Bool)
      → ((x : A) → p x ≡ true → q x ≡ true)
      → (xs : List A) → any p xs ≡ true
      → any q xs ≡ true
  any-imp p q imp [] h = h
  any-imp p q imp (x ∷ xs) h = ground (arith, imp x, any-imp p q imp xs)

module _ {Score : Type 0} (f : Score → Score) where
  -- the scores of a channel replaced
  abbrev with_scores : Candidates Score → Candidates Score
  with_scores = map (λ (e : String × Score). (e.0, f e.1))

  docids-with_scores :
      (channel : Candidates Score) → map (λ e. e.0) (with_scores channel) ≡ map (λ e. e.0) channel
  docids-with_scores [] = refl
  docids-with_scores (e ∷ channel) = ap (λ ids. e.0 ∷ ids) (docids-with_scores channel)

  All-with_scores :
      (P : Score → Type 0) (channel : Candidates Score)
      → All (λ e. P (f e.1)) channel
      → All (λ e. P e.1) (with_scores channel)
  All-with_scores P [] h = tt
  All-with_scores P (e ∷ channel) h = (h.0, All-with_scores P channel h.1)

  any-with_scores :
      (p : Score → Bool) (channel : Candidates Score)
      → any (λ e. p (f e.1)) channel ≡ true
      → any (λ e. p e.1) (with_scores channel) ≡ true
  any-with_scores p [] h = h
  any-with_scores p (e ∷ channel) h = ground (arith, any-with_scores p channel)

module _ {Score : Type 0} ⦃o : Order Score⦄ where
  le_refl : (a : Score) → (a <= a) ≡ true
  le_refl a = elim (Bool-cases (a <= a)) [ inl h ↦ h | inr h ↦ o.total a a h ]

  within_equal :
      (lo hi a b : Score)
      → (hi <= lo) ≡ true
      → (lo <= a) ≡ true
      → (a <= hi) ≡ true
      → (lo <= b) ≡ true
      → (b <= hi) ≡ true
      → is_equal a b ≡ true
  within_equal lo hi a b h la ah lb bh =
      let ab = o.trans a hi b ah (o.trans hi lo b h lb) in
      let ba = o.trans b hi a bh (o.trans hi lo a h la) in ground arith

  min_from-le :
      (best : Score) (channel : Candidates Score)
      → ((min_from best channel <= best) ≡ true)
        × All (λ e. (min_from best channel <= e.1) ≡ true) channel
  unfolding min_from
  min_from-le best [] = (le_refl best, tt)
  min_from-le best ((docid, score) ∷ channel) =
      if_intro
        (λ b.
          ((min_from b channel <= best) ≡ true)
          × (((min_from b channel <= score) ≡ true)
              × All (λ e. (min_from b channel <= e.1) ≡ true) channel))
        (best <= score)
        (λ less.
          let (le, all) = min_from-le best channel in
          (le, (o.trans (min_from best channel) best score le less, all)))
        (λ more.
          let (le, all) = min_from-le score channel in
          (o.trans (min_from score channel) score best le (o.total best score more), (le, all)))

  max_from-ge :
      (best : Score) (channel : Candidates Score)
      → ((best <= max_from best channel) ≡ true)
        × All (λ e. (e.1 <= max_from best channel) ≡ true) channel
  unfolding max_from
  max_from-ge best [] = (le_refl best, tt)
  max_from-ge best ((docid, score) ∷ channel) =
      if_intro
        (λ b.
          ((best <= max_from b channel) ≡ true)
          × (((score <= max_from b channel) ≡ true)
              × All (λ e. (e.1 <= max_from b channel) ≡ true) channel))
        (score <= best)
        (λ less.
          let (le, all) = max_from-ge best channel in
          (le, (o.trans score best (max_from best channel) less le, all)))
        (λ more.
          let (le, all) = max_from-ge score channel in
          (o.trans best score (max_from score channel) (o.total score best more) le, (le, all)))

  min_from-any :
      (docid : String) (best : Score) (channel : Candidates Score)
      → any (λ e. e.1 <= min_from best channel) ((docid, best) ∷ channel) ≡ true
  unfolding min_from
  min_from-any docid best [] = ap (λ b. b || false) (le_refl best)
  min_from-any docid best ((other, score) ∷ channel) =
      if_intro
        (λ b.
          any (λ e. e.1 <= min_from b channel) ((docid, best) ∷ (other, score) ∷ channel) ≡ true)
        (best <= score) (λ less. ground (arith, min_from-any docid best channel))
        (λ more. ground (arith, min_from-any other score channel))

  max_from-any :
      (docid : String) (best : Score) (channel : Candidates Score)
      → any (λ e. max_from best channel <= e.1) ((docid, best) ∷ channel) ≡ true
  unfolding max_from
  max_from-any docid best [] = ap (λ b. b || false) (le_refl best)
  max_from-any docid best ((other, score) ∷ channel) =
      if_intro
        (λ b.
          any (λ e. max_from b channel <= e.1) ((docid, best) ∷ (other, score) ∷ channel) ≡ true)
        (score <= best) (λ less. ground (arith, max_from-any docid best channel))
        (λ more. ground (arith, max_from-any other score channel))

module _ {Score : Type 0} ⦃o : Order Score⦄ (scores : Arithmetic Score)
    (laws : IsRounded scores) where
  open laws use {one, nil_le_one, minus_self, minus_mono, minus_pos, over_nil, over_self, over_mono}

  -- between nil and one
  abbrev pub InUnit : Score → Type 0
  InUnit a = ((scores.nil <= a) ≡ true) × ((a <= one) ≡ true)

  module _ (lo hi : Score) (differ : (hi <= lo) ≡ false) where
    scaled_low : (a : Score) → (a <= lo) ≡ true → (scaled scores lo hi a <= scores.nil) ≡ true
    scaled_low a h =
        subst (λ z. (scaled scores lo hi a <= z) ≡ true)
          (ap (λ z. scores.over z (scores.minus hi lo)) (minus_self lo)
            ∙ over_nil (scores.minus hi lo) (minus_pos hi lo differ))
          (over_mono (scores.minus a lo) (scores.minus lo lo) (scores.minus hi lo)
            (minus_pos hi lo differ) (minus_mono a lo lo h))

    scaled_above : (a : Score) → (lo <= a) ≡ true → (scores.nil <= scaled scores lo hi a) ≡ true
    scaled_above a h =
        subst (λ z. (z <= scaled scores lo hi a) ≡ true)
          (ap (λ z. scores.over z (scores.minus hi lo)) (minus_self lo)
            ∙ over_nil (scores.minus hi lo) (minus_pos hi lo differ))
          (over_mono (scores.minus lo lo) (scores.minus a lo) (scores.minus hi lo)
            (minus_pos hi lo differ) (minus_mono lo a lo h))

    scaled_below : (a : Score) → (a <= hi) ≡ true → (scaled scores lo hi a <= one) ≡ true
    scaled_below a h =
        subst (λ z. (scaled scores lo hi a <= z) ≡ true)
          (over_self (scores.minus hi lo) (minus_pos hi lo differ))
          (over_mono (scores.minus a lo) (scores.minus hi lo) (scores.minus hi lo)
            (minus_pos hi lo differ) (minus_mono a hi lo h))

    scaled_high : (a : Score) → (hi <= a) ≡ true → (one <= scaled scores lo hi a) ≡ true
    scaled_high a h =
        subst (λ z. (z <= scaled scores lo hi a) ≡ true)
          (over_self (scores.minus hi lo) (minus_pos hi lo differ))
          (over_mono (scores.minus hi lo) (scores.minus a lo) (scores.minus hi lo)
            (minus_pos hi lo differ) (minus_mono hi a lo h))

  abbrev pub Normalizes : Candidates Score → Candidates Score → Score → Type 0
  Normalizes channel normal score =
      (map (λ (e : String × Score). e.0) normal ≡ map (λ (e : String × Score). e.0) channel)
      × All (λ (e : String × Score). InUnit e.1) normal
      × ((All (λ (e : String × Score). is_equal score e.1 ≡ true) channel
            × All (λ (e : String × Score). e.1 ≡ scores.nil) normal)
          ⊎ ((any (λ (e : String × Score). one <= e.1) normal ≡ true)
              × (any (λ (e : String × Score). e.1 <= scores.nil) normal ≡ true)))

  -- The channel's documents keep their order, and each score lies between nil and one. Either all scores
  -- were equal and are nil now, or some document has one and some has nil.
  pub min_max_normalize-Normalizes :
      (docid : String) (score : Score) (rest : Candidates Score)
      → Normalizes ((docid, score) ∷ rest) (min_max_normalize scores ((docid, score) ∷ rest)) score
  unfolding min_max_normalize
  min_max_normalize-Normalizes docid score rest =
      let channel : Candidates Score = (docid, score) ∷ rest in
      let lo = min_from score rest in
      let hi = max_from score rest in
      let low = min_from-le score rest in
      let high = max_from-ge score rest in
      if_intro (λ normal. Normalizes channel normal score) (is_equal lo hi)
        (λ same.
          let hi_le : (hi <= lo) ≡ true = ground arith in
          (
            docids-with_scores (λ _. scores.nil) channel,
            All-with_scores (λ _. scores.nil) InUnit channel
                (All-of_forall (λ _. InUnit scores.nil) (λ _. (le_refl scores.nil, nil_le_one))
                  channel),
            inl (
              (
                within_equal lo hi score score hi_le low.0 high.0 low.0 high.0,
                All-both (λ e. (lo <= e.1) ≡ true) (λ e. (e.1 <= hi) ≡ true)
                    (λ e. is_equal score e.1 ≡ true)
                    (λ e above below. within_equal lo hi score e.1 hi_le low.0 high.0 above below)
                    rest low.1 high.1,
              ),
              All-with_scores (λ _. scores.nil) (λ z. z ≡ scores.nil) channel
                  (All-of_forall (λ _. scores.nil ≡ scores.nil) (λ _. refl) channel),
            ),
          ))
        (λ differ.
          let hi_gt : (hi <= lo) ≡ false = ground (arith, o.trans lo score hi low.0 high.0) in
          let f : Score → Score = scaled scores lo hi in
          (
            docids-with_scores f channel,
            All-with_scores f InUnit channel (
              (scaled_above lo hi hi_gt score low.0, scaled_below lo hi hi_gt score high.0),
              All-both (λ e. (lo <= e.1) ≡ true) (λ e. (e.1 <= hi) ≡ true) (λ e. InUnit (f e.1))
                  (λ e above below.
                    (scaled_above lo hi hi_gt e.1 above, scaled_below lo hi hi_gt e.1 below))
                  rest low.1 high.1,
            ),
            inr (
              any-with_scores f (λ z. one <= z) channel
                  (any-imp (λ e. hi <= e.1) (λ e. one <= f e.1) (λ e. scaled_high lo hi hi_gt e.1)
                    channel (max_from-any docid score rest)),
              any-with_scores f (λ z. z <= scores.nil) channel
                  (any-imp (λ e. e.1 <= lo) (λ e. f e.1 <= scores.nil)
                    (λ e. scaled_low lo hi hi_gt e.1) channel (min_from-any docid score rest)),
            ),
          ))
