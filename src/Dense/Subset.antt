-- ===== src/Dense/Subset.antt =====
-- py/dense/subset.py: the choice of the passages for the dense channel, and the pass over the corpus that writes
-- them. A set is a list without duplicates. `id` is `int(docid)`, and numpy is given.
pub mod Written
pub mod Select
use Prim.Native.String.{String}
use cascade_search_engine.Prelude.{
  ℕ, suc, ◌-◌, Bool, true, false, Option, none, some, List, [], ◌∷◌, ◌++◌, map, length, ltb,
  nat_beq, if◌then◌else◌,
}
use cascade_search_engine.Prelude.Keys.{nat_eq, is_in}

-- A document as `iter_docs` gives it.
pub record Doc : Type 0 where
  pub docid : String
  pub id : ℕ
  pub text : String

-- The calls of numpy: `arange`, `setdiff1d`, and `choice` without replacement of a generator with a seed.
pub record Numpy : Type 0 where
  pub arange : ℕ → List ℕ
  pub setdiff1d : List ℕ → List ℕ → List ℕ
  pub choice : ℕ → List ℕ → ℕ → Option (List ℕ)

-- `a | b`
unfoldable pub union : List ℕ → List ℕ → List ℕ
union a [] = a
union a (b ∷ bs) = union (if is_in b a then a else a ++ b ∷ []) bs

-- `qrels_docid_union`, the judged ids of one query after the other
unfoldable pub qrels_docid_union : List (List ℕ) → List ℕ → List ℕ
unfolding union
qrels_docid_union [] ids = ids
qrels_docid_union (judgments ∷ queries) ids = qrels_docid_union queries (union ids judgments)

-- `select_subset_ids`. It raises if too many are judged, or if numpy cannot choose as many.
unfoldable pub select_subset_ids : Numpy → List ℕ → ℕ → ℕ → ℕ → Option (List ℕ)
unfolding union
select_subset_ids np qrels_ids total_docs seed subset_size =
    if ltb subset_size (length qrels_ids)
    then none
    else let all_ids = np.arange total_docs in
      let candidate_pool = np.setdiff1d all_ids qrels_ids in
      let fill_needed = subset_size - length qrels_ids in
      elim (np.choice seed candidate_pool fill_needed) [
        | none ↦ none
        | some fill ↦ some (union qrels_ids fill)
      ]

-- The two files that `write_subset` writes, by lines, and its count.
pub record Output : Type 0 where
  pub jsonl : List (String × String)
  pub docids : List String
  pub written : ℕ

-- The pass over the corpus.
unfoldable pub stream : List ℕ → List Doc → Output → Output
stream subset_ids [] out = out
stream subset_ids (doc ∷ docs) out = stream subset_ids docs (
    if is_in doc.id subset_ids
    then record {
      jsonl = out.jsonl ++ (doc.docid, doc.text) ∷ [];
      docids = out.docids ++ doc.docid ∷ [];
      written = suc out.written;
    }
    else out)

-- `write_subset`: whether it returns, and the files then. It raises if a selected id was not seen.
unfoldable pub write_subset : List ℕ → List Doc → Bool × Output
unfolding stream
write_subset subset_ids corpus =
    let out = stream subset_ids corpus (record { jsonl = []; docids = []; written = 0 }) in
    (nat_beq out.written (length subset_ids), out)
