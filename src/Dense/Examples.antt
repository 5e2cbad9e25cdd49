-- ===== src/Dense/Examples.antt =====
-- Fusion of two small channels. A score is a number of thousandths, and a reciprocal is rounded down.
pub mod Sweeps
use Prim.Native.Nat.{ℕ, ◌+◌, ◌-◌, ◌*◌, ◌/◌}
use Prim.Native.String.{String}
use cascade_search_engine.Prelude.{
  true, false, none, [], ◌∷◌, List, ◌≡◌, ◌⊎◌, refl, arith, leb, if◌then◌else◌,
}
use cascade_search_engine.Prelude.Keys.{nat_order, string_eq, ◌==◌, ◌<=◌}
use cascade_search_engine.Harness.Runs.{Candidates, Run, get_item}
use cascade_search_engine.Sort.{sort, insert}
use cascade_search_engine.Dense.Fusion.{
  Arithmetic, reciprocal_rank_fusion, add_channels, add_ranks, add_score, fuse_run,
  min_max_normalize,
}
use cascade_search_engine.Dense.Fusion.Normal.{IsRounded, Normalizes, min_max_normalize-Normalizes}
use cascade_search_engine.Dense.Fusion.Methods.{Method, Fuses, fuse_run-get_item}
use cascade_search_engine.Dense.Fusion.Ranks.{sum_from, shares_of, reciprocal_rank_fusion-shares}

abbrev thousandths : Arithmetic ℕ
thousandths = record {
  nil = 0;
  plus = λ a b. a + b;
  minus = λ a b. a - b;
  over = λ a b. 1000 * a / b;
  reciprocal = λ n. 1000 / n;
}

abbrev channels : List (Candidates ℕ)
channels = (("d1", 3) ∷ ("d2", 8) ∷ []) ∷ (("d3", 9) ∷ ("d1", 5) ∷ []) ∷ []

-- the first of the lexical channel, then what the channels share, then the first of the dense one
fused_channels :
    reciprocal_rank_fusion thousandths 60 channels ≡ ("d2", 16) ∷ ("d1", 32) ∷ ("d3", 16) ∷ []
unfolding add_channels add_ranks add_score sort insert
fused_channels = refl

reciprocal_rank_fusion-shares_example :
    get_item "d1" (reciprocal_rank_fusion thousandths 60 channels)
    ≡ sum_from thousandths none (shares_of thousandths 60 "d1" channels)
reciprocal_rank_fusion-shares_example = reciprocal_rank_fusion-shares thousandths 60 "d1" channels

-- an arithmetic in which a quotient is 1 if it is at least 1, and 0 if not
abbrev rounded_down : Arithmetic ℕ
rounded_down = record {
  nil = 0;
  plus = λ a b. a + b;
  minus = λ a b. a - b;
  over = λ a b. if leb b a then 1 else 0;
  reciprocal = λ n. 1 / n;
}

minus_mono_lem : (a b c : ℕ) → (a <= b) ≡ true → (a - c <= b - c) ≡ true
minus_mono_lem a b c h = ground arith

minus_pos_lem : (a b : ℕ) → (a <= b) ≡ false → (a - b <= 0) ≡ false
minus_pos_lem a b h = ground arith

over_nil_lem : (d : ℕ) → (d <= 0) ≡ false → rounded_down.over 0 d ≡ 0
over_nil_lem d h = ground arith

over_self_lem : (d : ℕ) → rounded_down.over d d ≡ 1
over_self_lem d = ground arith

over_mono_lem :
    (a b d : ℕ) → (a <= b) ≡ true → (rounded_down.over a d <= rounded_down.over b d) ≡ true
over_mono_lem a b d h = ground arith

minus_self_lem : (a : ℕ) → a - a ≡ 0
minus_self_lem a = ground arith

abbrev rounded : IsRounded rounded_down
rounded = record {
  one = 1;
  nil_le_one = refl;
  minus_self = minus_self_lem;
  minus_mono = minus_mono_lem;
  minus_pos = minus_pos_lem;
  over_nil = over_nil_lem;
  over_self = λ d _. over_self_lem d;
  over_mono = λ a b d _ h. over_mono_lem a b d h;
}

min_max_normalize-Normalizes_example :
    Normalizes rounded_down rounded
      (("d1", 3) ∷ ("d2", 8) ∷ [])
      (min_max_normalize rounded_down (("d1", 3) ∷ ("d2", 8) ∷ []))
      3
min_max_normalize-Normalizes_example =
    min_max_normalize-Normalizes rounded_down rounded "d1" 3 (("d2", 8) ∷ [])

abbrev lexical : Run ℕ
lexical = ("q1", ("d1", 3) ∷ ("d2", 8) ∷ []) ∷ []

abbrev dense : Run ℕ
dense = ("q1", ("d3", 9) ∷ []) ∷ ("q2", ("d1", 5) ∷ []) ∷ []

abbrev qids : List String
qids = "q2" ∷ "q1" ∷ []

abbrev method : String
method = "score"

fuse_run-get_item_example :
    ((m : Method) × Fuses thousandths lexical dense m method qids)
    ⊎ (((method == "rrf") ≡ false)
        × ((method == "score") ≡ false)
        × ((qids ≡ []) ⊎ (fuse_run thousandths lexical dense method qids ≡ none)))
fuse_run-get_item_example = fuse_run-get_item thousandths lexical dense method qids
