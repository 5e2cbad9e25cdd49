-- ===== src/Nrt/Lag/Slices.antt =====
-- The slice that is read, and the token that is chosen.
use Prim.Native.String.{String, len}
use cascade_search_engine.Prelude.{
  ℕ, zero, suc, ◌+◌, ◌≤◌, ◌<◌, none, some, List, [], ◌∷◌, ◌++◌, ◌≡◌, refl, ap, ◌∙◌, inl, inr, ◌⊎◌,
  arith, tests, take, drop, ltb, All, Bool-cases,
}
use cascade_search_engine.Nrt.Tsv.{Document}
use cascade_search_engine.Nrt.Lag.{slice_from, read_tsv_slice, longest_from, longest_token}

slice_from-nil : (start count i j : ℕ) → slice_from start count i [] ≡ slice_from start count j []
unfolding slice_from
slice_from-nil start count i j = refl

slice_from_nil : (start count i : ℕ) → slice_from start count i [] ≡ []
unfolding slice_from
slice_from_nil start count i = refl

slice_from-before :
    (start count i : ℕ) (line : Document) (lines : List Document)
    → i < start
    → slice_from start count i (line ∷ lines) ≡ slice_from start count (suc i) lines
unfolding slice_from
slice_from-before start count i line lines h = ground arith

slice_from-behind :
    (start count i : ℕ) (line : Document) (lines : List Document)
    → start ≤ i
    → start + count ≤ i
    → slice_from start count i (line ∷ lines) ≡ []
unfolding slice_from
slice_from-behind start count i line lines h k = ground arith

slice_from-inside :
    (start count i : ℕ) (line : Document) (lines : List Document)
    → start ≤ i
    → i < start + count
    → slice_from start count i (line ∷ lines) ≡ line ∷ slice_from start count (suc i) lines
unfolding slice_from
slice_from-inside start count i line lines h k = ground arith

-- The lines before the start are passed over.
slice_from-skip :
    (start count d i : ℕ) (lines : List Document)
    → i + d ≡ start
    → slice_from start count i lines ≡ slice_from start count start (drop d lines)
slice_from-skip start count zero i lines h = ap (λ n. slice_from start count n lines) (omega arith)
slice_from-skip start count (suc d) i [] h = slice_from-nil start count i start
slice_from-skip start count (suc d) i (line ∷ lines) h =
    slice_from-before start count i line lines (omega arith)
    ∙ slice_from-skip start count d (suc i) lines (omega arith)

-- The lines from the start on are taken, up to the end.
slice_from-take :
    (start count n i : ℕ) (lines : List Document)
    → start ≤ i
    → i + n ≡ start + count
    → slice_from start count i lines ≡ take n lines
slice_from-take start count zero i [] h k = slice_from_nil start count i
slice_from-take start count zero i (line ∷ lines) h k =
    slice_from-behind start count i line lines h (omega arith)
slice_from-take start count (suc n) i [] h k = slice_from_nil start count i
slice_from-take start count (suc n) i (line ∷ lines) h k =
    slice_from-inside start count i line lines h (omega arith)
    ∙ ap (◌∷◌ line) (slice_from-take start count n (suc i) lines (omega arith) (omega arith))

-- The slice is count lines from number start on, or as many as there are.
pub read_tsv_slice-eq :
    (start count : ℕ) (lines : List Document)
    → read_tsv_slice start count lines ≡ take count (drop start lines)
unfolding read_tsv_slice
read_tsv_slice-eq start count lines =
    slice_from-skip start count start 0 lines (omega arith)
    ∙ slice_from-take start count count start (drop start lines) (omega arith) (omega arith)

longest_from-le : (best : String) (tokens : List String) → len best ≤ len (longest_from best tokens)
unfolding longest_from
longest_from-le best [] = omega arith
longest_from-le best (token ∷ tokens) = elim (Bool-cases (ltb (len best) (len token))) [
  | inl longer ↦ rw longer (omega (tests, longest_from-le token tokens))
  | inr no_longer ↦ rw no_longer (longest_from-le best tokens)
]

-- the first of the longest tokens, and what stands before and after it
record IsFirstLongest (tokens : List String) (best : String) : Type 0 where
  pub before : List String
  pub after : List String
  pub split : tokens ≡ before ++ best ∷ after
  pub shorter : All (λ t. len t < len best) before
  pub no_longer : All (λ t. len t ≤ len best) after

-- A token no longer than the first does not change the choice.
put_second :
    (best token result : String) (tokens before after : List String)
    → len token ≤ len best
    → best ∷ tokens ≡ before ++ result ∷ after
    → All (λ t. len t < len result) before
    → All (λ t. len t ≤ len result) after
    → IsFirstLongest (best ∷ token ∷ tokens) result
put_second best token result tokens [] after h e s n =
    let same : best ≡ result = cc in
    record {
      before = [];
      after = token ∷ after;
      split = cc;
      shorter = tt;
      no_longer = (omega (arith, ap len same), n);
    }
put_second best token result tokens (b ∷ before) after h e s n =
    let same : best ≡ b = cc in
    record {
      before = b ∷ token ∷ before;
      after = after;
      split = cc;
      shorter = (s.0, (omega (arith, s.0, ap len same), s.1));
      no_longer = n;
    }

longest_from-first :
    (best : String) (tokens : List String)
    → IsFirstLongest (best ∷ tokens) (longest_from best tokens)
unfolding longest_from
longest_from-first best [] = record {
  before = [];
  after = [];
  split = refl;
  shorter = tt;
  no_longer = tt;
}
longest_from-first best (token ∷ tokens) = elim (Bool-cases (ltb (len best) (len token))) [
  | inl longer ↦
      let f = longest_from-first token tokens in
      rw longer (record {
        before = best ∷ f.before;
        after = f.after;
        split = ap (◌∷◌ best) f.split;
        shorter = (omega (tests, longest_from-le token tokens), f.shorter);
        no_longer = f.no_longer;
      })
  | inr no_longer ↦
      let f = longest_from-first best tokens in
      rw no_longer (
        put_second best token _ tokens f.before f.after (omega tests) f.split f.shorter f.no_longer)
]

-- A text without tokens has no probe. The probe of another is the first of its longest tokens.
longest_token-first :
    (tokens : List String)
    → ((tokens ≡ []) × (longest_token tokens ≡ none))
      ⊎ ((best : String) × (longest_token tokens ≡ some best) × IsFirstLongest tokens best)
unfolding longest_token
longest_token-first [] = inl (refl, refl)
longest_token-first (token ∷ tokens) =
    inr (longest_from token tokens, refl, longest_from-first token tokens)
