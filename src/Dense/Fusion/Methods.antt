-- ===== src/Dense/Fusion/Methods.antt =====
-- What `fuse_run` makes of two runs, by either method and by a name that is none.
use Prim.Native.String.{String}
use mathlib.Core.Path.{subst}
use cascade_search_engine.Prelude.{
  Bool, true, false, ◌||◌, none, some, List, [], ◌∷◌, ◌≡◌, refl, sym, ap, ◌∙◌, ◌⊎◌, inl, inr, arith,
  Bool-cases, if◌then◌else◌,
}
use cascade_search_engine.Prelude.Keys.{Order, string_eq, ◌==◌, is_in}
use cascade_search_engine.Harness.Runs.{Candidates, Run, get_item, set_item, bucket_of}
use cascade_search_engine.Harness.Runs.Lookups.{get_item-set_item}
use cascade_search_engine.Dense.Fusion.{
  Arithmetic, reciprocal_rank_fusion, normalized_score_fusion, rrf_k, fuse_channels, fuse_qids,
  fuse_run,
}

pub data Method : Type 0 where
  by_rank by_sum : Method

abbrev pub spelled : Method → String
spelled by_rank = "rrf"
spelled by_sum = "score"

module _ {Score : Type 0} ⦃o : Order Score⦄ (scores : Arithmetic Score) where
  abbrev pub fusion : Method → List (Candidates Score) → Candidates Score
  fusion by_rank channels = reciprocal_rank_fusion scores rrf_k channels
  fusion by_sum channels = normalized_score_fusion scores channels

  fuse_channels-spelled :
      (m : Method) (channels : List (Candidates Score))
      → fuse_channels scores (spelled m) channels ≡ some (fusion m channels)
  unfolding fuse_channels
  fuse_channels-spelled by_rank channels = refl
  fuse_channels-spelled by_sum channels = refl

  module _ (lexical dense : Run Score) where
    -- the query's channels, an empty one where a run lacks the query
    abbrev pub channels_of : String → List (Candidates Score)
    channels_of qid = bucket_of qid lexical ∷ bucket_of qid dense ∷ []

    first_written :
        (m : Method) (first qid : String) (later : Bool) (fused : Run Score)
        → (if later
            then some (fusion m (channels_of qid))
            else get_item qid (set_item first (fusion m (channels_of first)) fused))
          ≡ (if first == qid || later
              then some (fusion m (channels_of qid))
              else get_item qid fused)
    first_written m first qid true fused = ground arith
    first_written m first qid false fused =
        get_item-set_item first qid (fusion m (channels_of first)) fused
        ∙ elim (Bool-cases (first == qid)) [
          | inl same ↦
              ap (λ b. if b then some (fusion m (channels_of first)) else get_item qid fused) same
              ∙ ap (λ q. some (fusion m (channels_of q))) ((string_eq.is_same-iff first qid).0 same)
              ∙ sym (
                  ap
                    (λ b.
                      if b || false then some (fusion m (channels_of qid)) else get_item qid fused)
                    same)
          | inr other ↦
              ap (λ b. if b then some (fusion m (channels_of first)) else get_item qid fused) other
              ∙ sym (
                  ap
                    (λ b.
                      if b || false then some (fusion m (channels_of qid)) else get_item qid fused)
                    other)
        ]

    fuse_qids-get_item :
        (m : Method) (qids : List String) (fused : Run Score)
        → (run : Run Score) × (fuse_qids scores (spelled m) lexical dense qids fused ≡ some run)
          × ((qid : String)
              → get_item qid run ≡ (
                  if is_in qid qids then some (fusion m (channels_of qid)) else get_item qid fused))
    unfolding fuse_qids
    fuse_qids-get_item m [] fused = (fused, refl, λ _. refl)
    fuse_qids-get_item m (first ∷ qids) fused =
        let docs = fusion m (channels_of first) in
        let (run, returns, found) = fuse_qids-get_item m qids (set_item first docs fused) in
        (
          run,
          rw (fuse_channels-spelled m (channels_of first), fuse_qids) returns,
          λ qid. found qid ∙ first_written m first qid (is_in qid qids) fused,
        )

    fuse_channels_unknown :
        (method : String) (channels : List (Candidates Score))
        → (method == "rrf") ≡ false
        → (method == "score") ≡ false
        → fuse_channels scores method channels ≡ none
    unfolding fuse_channels
    fuse_channels_unknown method channels h k = ground arith

    -- what a call with a method of this name does
    abbrev pub Fuses : Method → String → List String → Type 0
    Fuses m method qids =
        (method ≡ spelled m)
        × (run : Run Score) × (fuse_run scores lexical dense method qids ≡ some run)
        × ((qid : String)
            → get_item qid run
              ≡ (if is_in qid qids then some (fusion m (channels_of qid)) else none))

    spelled_case :
        (m : Method) (method : String) (qids : List String)
        → method ≡ spelled m
        → Fuses m method qids
    unfolding fuse_run get_item
    spelled_case m method qids e =
        let (run, returns, found) = fuse_qids-get_item m qids [] in
        (
          e,
          run,
          subst (λ name. fuse_qids scores name lexical dense qids [] ≡ some run) (sym e) returns,
          found,
        )

    fuse_qids_unknown :
        (method : String) (qids : List String)
        → (method == "rrf") ≡ false
        → (method == "score") ≡ false
        → (qids ≡ []) ⊎ (fuse_qids scores method lexical dense qids [] ≡ none)
    unfolding fuse_qids
    fuse_qids_unknown method [] h k = inl refl
    fuse_qids_unknown method (qid ∷ qids) h k =
        inr (rw (fuse_channels_unknown method (channels_of qid) h k, fuse_qids) refl)

    -- With "rrf" or "score" the fusion returns, whatever the order of the query ids, and of every query
    -- that is among them it holds the fusion of the query's channels, and nothing of another. With any
    -- other name it raises, unless there is no query.
    pub fuse_run-get_item :
        (method : String) (qids : List String)
        → ((m : Method) × Fuses m method qids)
          ⊎ ((method == "rrf") ≡ false)
            × ((method == "score") ≡ false)
            × ((qids ≡ []) ⊎ (fuse_run scores lexical dense method qids ≡ none))
    unfolding fuse_run get_item
    fuse_run-get_item method qids = elim (Bool-cases (method == "rrf")) [
      | inl e ↦
          inl (by_rank, spelled_case by_rank method qids ((string_eq.is_same-iff method "rrf").0 e))
      | inr h ↦ elim (Bool-cases (method == "score")) [
        | inl e ↦
            inl
              (by_sum, spelled_case by_sum method qids ((string_eq.is_same-iff method "score").0 e))
        | inr k ↦ inr (h, k, fuse_qids_unknown method qids h k)
      ]
    ]
