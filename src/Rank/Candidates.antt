-- ===== src/Rank/Candidates.antt =====
-- py/rank/encode_candidates.py: which documents the candidates of several runs are, and their texts from one pass
-- over the corpus.
pub mod Texts
use Prim.Native.String.{String}
use cascade_search_engine.Prelude.{
  ℕ, Bool, true, false, not, Option, none, some, List, [], ◌∷◌, ◌++◌, map, length, keep_if, nat_beq,
  if◌then◌else◌,
}
use cascade_search_engine.Prelude.Keys.{string_eq, is_in}
use cascade_search_engine.Nrt.Tsv.{Document}
use cascade_search_engine.Harness.Runs.{Run, set_item}

-- `docids.update(candidates)`, a set being a list in which nothing is twice
unfoldable pub union : List String → List String → List String
union ids [] = ids
union ids (id ∷ more) = union (if is_in id ids then ids else ids ++ id ∷ []) more

-- The loops of `unique_candidate_docids`, over one run and over all.
unfoldable pub docids_of_run : {Score : Type 0} → List String → Run Score → List String
unfolding union
docids_of_run ids [] = ids
docids_of_run ids ((qid, candidates) ∷ run) =
    docids_of_run (union ids (map (λ c. c.0) candidates)) run

unfoldable pub docids_of_runs : {Score : Type 0} → List String → List (Run Score) → List String
unfolding docids_of_run
docids_of_runs ids [] = ids
docids_of_runs ids (run ∷ runs) = docids_of_runs (docids_of_run ids run) runs

unfoldable pub unique_candidate_docids : {Score : Type 0} → List (Run Score) → List String
unfolding docids_of_runs
unique_candidate_docids runs = docids_of_runs [] runs

-- The pass over the corpus, the texts so far being given. It ends when there are as many as candidates.
unfoldable pub collect_from : List String → List Document → List Document → List Document
unfolding set_item
collect_from candidates texts [] = texts
collect_from candidates texts ((docid, text) ∷ docs) =
    let found = set_item docid text texts in
    let rest = collect_from candidates found docs in
    let rest_unchanged = collect_from candidates texts docs in
    if is_in docid candidates
    then (if nat_beq (length found) (length candidates) then found else rest)
    else rest_unchanged

-- `candidate_docids - texts.keys()`
abbrev pub missing_of : List String → List Document → List String
missing_of candidates texts = keep_if (λ c. not (is_in c (map (λ d. d.0) texts))) candidates

-- `collect_candidate_texts` on a corpus of these documents; `none` where it raises.
unfoldable pub collect_candidate_texts : List String → List Document → Option (List Document)
unfolding collect_from
collect_candidate_texts candidates docs =
    let texts = collect_from candidates [] docs in
    elim (missing_of candidates texts) [ [] ↦ some texts | _ ↦ none ]
