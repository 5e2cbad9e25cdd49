-- ===== src/Rank/CrossEncoder/Chunks.antt =====
-- The chunks are all pairs in order, and none is too long.
use cascade_search_engine.Prelude.{
  ℕ, zero, suc, ◌+◌, ◌-◌, ◌≤◌, ◌<◌, some, List, [], ◌∷◌, ◌++◌, map, take, drop, length, concat, ◌≡◌,
  refl, sym, ap, ap₂, map-append, ◌∙◌, inl, inr, arith, All, append-nil, append_assoc,
  take-append-drop, drop-drop, length-take, length-drop, ltb, ltb→lt, not-ltb→le, Bool-cases,
  if◌then◌else◌,
}
use cascade_search_engine.Rank.CrossEncoder.{Pair, score_from, score}

drop_all : (n : ℕ) (xs : List Pair) → length xs ≤ n → drop n xs ≡ []
drop_all zero [] h = refl
drop_all zero (x ∷ xs) h = absurd (omega arith)
drop_all (suc n) [] h = refl
drop_all (suc n) (x ∷ xs) h = drop_all n xs (omega arith)

-- A session that scores each pair by itself scores chunks as it scores them all.
concat-map-chunks :
    {Score : Type 0} (session : List Pair → List Score) (f : Pair → Score)
    → ((chunk : List Pair) → session chunk ≡ map f chunk)
    → (chunks : List (List Pair)) → concat (map session chunks) ≡ map f (concat chunks)
concat-map-chunks session f alone [] = refl
concat-map-chunks session f alone (chunk ∷ chunks) =
    ap₂ (λ a b. a ++ b) (alone chunk) (concat-map-chunks session f alone chunks)
    ∙ sym (map-append f chunk (concat chunks))

module _ {Score : Type 0} (session : List Pair → List Score) (chunk_size : ℕ)
    (positive : 0 < chunk_size) (pairs : List Pair) where
  -- a chunk that the session can be handed
  abbrev pub IsChunk : List Pair → Type 0
  IsChunk chunk = (0 < length chunk) × (length chunk ≤ chunk_size)

  abbrev results : List (List Pair) → List Score
  results chunks = concat (map session chunks)

  take-IsChunk : (start : ℕ) → start < length pairs → IsChunk (take chunk_size (drop start pairs))
  take-IsChunk start h =
      let long = length-take chunk_size (drop start pairs) in
      let left = length-drop start pairs in (omega (arith, long, left), omega (arith, long, left))

  score_from-chunks :
      (rounds start : ℕ) (scores : List Score) (handed : List (List Pair))
      → length pairs - start < rounds
      → (chunks : List (List Pair)) × (score_from session rounds pairs chunk_size start scores
            handed
          ≡ some (scores ++ results chunks, handed ++ chunks))
        × (concat chunks ≡ drop start pairs)
        × All IsChunk chunks
  unfolding score_from
  score_from-chunks zero start scores handed h = absurd (omega arith)
  score_from-chunks (suc rounds) start scores handed h =
      let chunk = take chunk_size (drop start pairs) in
      let rest =
        score_from session rounds pairs chunk_size (start + chunk_size) (scores ++ session chunk)
          (handed ++ chunk ∷ []) in
      elim (Bool-cases (ltb start (length pairs))) [
        | inl more ↦
            let (chunks, returns, whole, small) =
              score_from-chunks rounds (start + chunk_size) (scores ++ session chunk)
                (handed ++ chunk ∷ []) (omega (arith, ltb→lt start (length pairs) more)) in
            (
              chunk ∷ chunks,
              ap (λ b. if b then rest else some (scores, handed)) more
                  ∙ returns
                  ∙ ap (λ l. some (l, (handed ++ chunk ∷ []) ++ chunks))
                      (append_assoc scores (session chunk) (results chunks))
                  ∙ ap (λ l. some (scores ++ (session chunk ++ results chunks), l))
                      (append_assoc handed (chunk ∷ []) chunks),
              ap (λ l. chunk ++ l) (whole ∙ sym (drop-drop chunk_size start pairs))
                  ∙ take-append-drop chunk_size (drop start pairs),
              (take-IsChunk start (ltb→lt start (length pairs) more), small),
            )
        | inr done ↦ (
          [],
          ap (λ b. if b then rest else some (scores, handed)) done
              ∙ ap (λ l. some (l, handed)) (sym (append-nil scores))
              ∙ ap (λ l. some (scores ++ [], l)) (sym (append-nil handed)),
          sym (drop_all start pairs (not-ltb→le start (length pairs) done)),
          tt,
        )
      ]

-- With chunks of at least one pair the loop ends after at most one round more than there are pairs. The
-- session is handed all pairs, in order, in chunks that are not empty and not longer than chunk_size;
-- whatever it answers, the scores are its answers to the chunks, one after the other.
pub score-chunks :
    {Score : Type 0} (session : List Pair → List Score) (chunk_size : ℕ)
    → 0 < chunk_size
    → (pairs : List Pair)
    → (chunks : List (List Pair)) × (score session (suc (length pairs)) pairs chunk_size
        ≡ some (concat (map session chunks), chunks))
      × (concat chunks ≡ pairs)
      × All (λ chunk. (0 < length chunk) × (length chunk ≤ chunk_size)) chunks
unfolding score
score-chunks session zero h pairs = absurd (omega arith)
score-chunks session (suc n) h pairs =
    score_from-chunks session (suc n) h pairs (suc (length pairs)) 0 [] [] (omega arith)

-- If the session scores each pair by itself, the scores are those of the pairs, in order, whatever the size.
pub score-alone :
    {Score : Type 0} (session : List Pair → List Score) (f : Pair → Score)
    → ((chunk : List Pair) → session chunk ≡ map f chunk)
    → (chunk_size : ℕ) → 0 < chunk_size
    → (pairs : List Pair)
    → (chunks : List (List Pair)) × (score session (suc (length pairs)) pairs chunk_size
        ≡ some (map f pairs, chunks))
score-alone session f alone chunk_size h pairs =
    let (chunks, returns, whole, _) = score-chunks session chunk_size h pairs in
    (
      chunks,
      returns
          ∙ ap (λ l. some (l, chunks))
              (concat-map-chunks session f alone chunks ∙ ap (map f) whole),
    )
