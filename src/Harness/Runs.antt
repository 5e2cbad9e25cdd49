-- ===== src/Harness/Runs.antt =====
-- py/harness/runfile.py, and what py/rank/encode_candidates.py does with runs. A run file is the list of its
-- rows: a line after `split()`, its score after `float`. Dictionaries are lists of pairs in order of insertion.
pub mod Ranking
pub mod Files
pub mod Lookups
pub mod RoundTrip
use Prim.Native.String.{String}
use cascade_search_engine.Prelude.{
  ℕ, suc, ◌+◌, Bool, true, false, Option, none, some, List, [], ◌∷◌, ◌++◌, map, take, length,
  concat, leb, if◌then◌else◌,
}
use cascade_search_engine.Prelude.Keys.{Order, ◌<=◌, string_eq, ◌==◌}
use cascade_search_engine.Sort.{sort}

-- `dict[docid, score]`
abbrev pub Candidates : Type 0 → Type 0
Candidates Score = List (String × Score)

abbrev pub Run : Type 0 → Type 0
Run Score = List (String × Candidates Score)

-- `{qid} Q0 {docid} {rank} {score} {tag}`
pub record Row (Score : Type 0) : Type 0 where
  pub qid : String
  pub docid : String
  pub rank : ℕ
  pub score : Score
  pub tag : String

-- `d[key] = value`
unfoldable pub set_item : {V : Type 0} → String → V → List (String × V) → List (String × V)
set_item key value [] = (key, value) ∷ []
set_item key value ((k, v) ∷ d) = if k == key then (k, value) ∷ d else (k, v) ∷ set_item key value d

-- `d.get(key)`
unfoldable pub get_item : {V : Type 0} → String → List (String × V) → Option V
get_item key [] = none
get_item key ((k, v) ∷ d) = if k == key then some v else get_item key d

module _ {Score : Type 0} where
  -- `run.setdefault(qid, {})`
  unfoldable pub bucket_of : String → Run Score → Candidates Score
  unfolding get_item
  bucket_of qid run = elim (get_item qid run) [ none ↦ [] | some bucket ↦ bucket ]

  -- `read_run`, the run so far being given
  unfoldable pub read_from : Run Score → List (Row Score) → Run Score
  unfolding set_item bucket_of
  read_from run [] = run
  read_from run (row ∷ rows) =
      read_from (set_item row.qid (set_item row.docid row.score (bucket_of row.qid run)) run) rows

  unfoldable pub read_run : List (Row Score) → Run Score
  unfolding read_from
  read_run rows = read_from [] rows

  -- `read_run_truncated`, the run so far being given: a full bucket takes no more.
  unfoldable pub read_truncated_from : ℕ → Run Score → List (Row Score) → Run Score
  unfolding set_item bucket_of
  read_truncated_from k run [] = run
  read_truncated_from k run (row ∷ rows) =
      let bucket = bucket_of row.qid run in
      let next = if leb k (length bucket) then bucket else set_item row.docid row.score bucket in
      read_truncated_from k (set_item row.qid next run) rows

  unfoldable pub read_run_truncated : ℕ → List (Row Score) → Run Score
  unfolding read_truncated_from
  read_run_truncated k rows = read_truncated_from k [] rows

  -- the rows of one query, ranks from `rank` on
  unfoldable pub rows_from : String → String → ℕ → Candidates Score → List (Row Score)
  rows_from qid tag rank [] = []
  rows_from qid tag rank ((docid, score) ∷ rest) =
      record { qid = qid; docid = docid; rank = rank; score = score; tag = tag }
      ∷ rows_from qid tag (suc rank) rest

module _ {Score : Type 0} ⦃scores : Order Score⦄ ⦃strings : Order String⦄ where
  -- `(a.score, a.docid) >= (b.score, b.docid)`: `a` may stand before `b`.
  abbrev pub outranks : String × Score → String × Score → Bool
  outranks a b = if b.1 <= a.1 then (if a.1 <= b.1 then b.0 <= a.0 else true) else false

  -- `sorted(candidates.items(), key=lambda kv: (kv[1], kv[0]), reverse=True)`
  unfoldable pub ranked : Candidates Score → Candidates Score
  ranked candidates = sort outranks candidates

  -- `ranked[:depth]`, if `depth` is given
  abbrev pub cut_to : Option ℕ → Candidates Score → Candidates Score
  cut_to none candidates = candidates
  cut_to (some depth) candidates = take depth candidates

  -- `write_run`
  unfoldable pub write_run : Run Score → String → Option ℕ → List (Row Score)
  unfolding ranked rows_from
  write_run [] tag depth = []
  write_run ((qid, candidates) ∷ run) tag depth =
      rows_from qid tag 1 (cut_to depth (ranked candidates)) ++ write_run run tag depth

  -- `truncate_to_top_k`
  unfoldable pub truncate_to_top_k : Run Score → ℕ → Run Score
  unfolding ranked
  truncate_to_top_k run k = map (λ (qid, candidates). (qid, take k (ranked candidates))) run
