-- ===== src/Harness/Runs/Files.antt =====
-- What is read back from a run file that `write_run` wrote.
use Prim.Native.String.{String}
use cascade_search_engine.Prelude.{
  ℕ, suc, false, none, some, List, [], ◌∷◌, ◌++◌, map, append-nil, ◌≡◌, refl, sym, ap, ◌∙◌, arith,
}
use cascade_search_engine.Prelude.Keys.{string_eq, is_in, beq_refl}
use cascade_search_engine.Harness.Runs.{
  Candidates, Run, Row, set_item, get_item, bucket_of, rows_from,
}

abbrev pub keys : {V : Type 0} → List (String × V) → List String
keys = map (λ e. e.0)

module _ {V : Type 0} where
  pub set_item_new :
      (key : String) (value : V) (d : List (String × V))
      → is_in key (keys d) ≡ false
      → set_item key value d ≡ d ++ (key, value) ∷ []
  unfolding set_item
  set_item_new key value [] h = refl
  set_item_new key value ((k, v) ∷ d) h = ground (arith, set_item_new key value d)

  set_item_last :
      (key : String) (old value : V) (d : List (String × V))
      → is_in key (keys d) ≡ false
      → set_item key value (d ++ (key, old) ∷ []) ≡ d ++ (key, value) ∷ []
  unfolding set_item
  set_item_last key old value [] h = rw (beq_refl key) refl
  set_item_last key old value ((k, v) ∷ d) h = ground (arith, set_item_last key old value d)

  get_item_new :
      (key : String) (d : List (String × V)) → is_in key (keys d) ≡ false → get_item key d ≡ none
  unfolding get_item
  get_item_new key [] h = refl
  get_item_new key ((k, v) ∷ d) h = ground (arith, get_item_new key d)

  get_item_last :
      (key : String) (value : V) (d : List (String × V))
      → is_in key (keys d) ≡ false
      → get_item key (d ++ (key, value) ∷ []) ≡ some value
  unfolding get_item
  get_item_last key value [] h = rw (beq_refl key) refl
  get_item_last key value ((k, v) ∷ d) h = ground (arith, get_item_last key value d)

module _ {Score : Type 0} where
  bucket_of_new :
      (qid : String) (run : Run Score) → is_in qid (keys run) ≡ false → bucket_of qid run ≡ []
  unfolding bucket_of
  bucket_of_new qid run h = rw (get_item_new qid run h, bucket_of) refl

  bucket_of_last :
      (qid : String) (bucket : Candidates Score) (run : Run Score)
      → is_in qid (keys run) ≡ false
      → bucket_of qid (run ++ (qid, bucket) ∷ []) ≡ bucket
  unfolding bucket_of
  bucket_of_last qid bucket run h = rw (get_item_last qid bucket run h, bucket_of) refl

-- Both readers are one loop, with their own way to put a document into a bucket.
module _ {Score : Type 0} (push : String → Score → Candidates Score → Candidates Score) where
  unfoldable pub read_with : Run Score → List (Row Score) → Run Score
  read_with run [] = run
  read_with run (row ∷ rows) =
      read_with (set_item row.qid (push row.docid row.score (bucket_of row.qid run)) run) rows

  unfoldable pub fill : Candidates Score → Candidates Score → Candidates Score
  fill bucket [] = bucket
  fill bucket ((docid, score) ∷ docs) = fill (push docid score bucket) docs

  -- A query's rows go into its bucket, which is the last.
  read_with-bucket :
      (qid tag : String) (rank : ℕ) (docs : Candidates Score) (rest : List (Row Score))
      (run : Run Score) (bucket : Candidates Score)
      → is_in qid (keys run) ≡ false
      → read_with (run ++ (qid, bucket) ∷ []) (rows_from qid tag rank docs ++ rest)
        ≡ read_with (run ++ (qid, fill bucket docs) ∷ []) rest
  unfolding read_with fill rows_from
  read_with-bucket qid tag rank [] rest run bucket h = refl
  read_with-bucket qid tag rank ((docid, score) ∷ docs) rest run bucket h =
      ap (λ r. read_with r (rows_from qid tag (suc rank) docs ++ rest))
        (ap (λ b. set_item qid (push docid score b) (run ++ (qid, bucket) ∷ []))
            (bucket_of_last qid bucket run h)
          ∙ set_item_last qid bucket (push docid score bucket) run h)
      ∙ read_with-bucket qid tag (suc rank) docs rest run (push docid score bucket) h

  -- what a query's rows add to the run
  unfoldable pub block : String → Candidates Score → Run Score
  block qid [] = []
  block qid (d ∷ docs) = (qid, fill [] (d ∷ docs)) ∷ []

  pub read_with-block :
      (qid tag : String) (rank : ℕ) (docs : Candidates Score) (rest : List (Row Score))
      (run : Run Score)
      → is_in qid (keys run) ≡ false
      → read_with run (rows_from qid tag rank docs ++ rest) ≡ read_with (run ++ block qid docs) rest
  unfolding read_with fill rows_from block
  read_with-block qid tag rank [] rest run h = ap (λ r. read_with r rest) (sym (append-nil run))
  read_with-block qid tag rank ((docid, score) ∷ docs) rest run h =
      ap (λ r. read_with r (rows_from qid tag (suc rank) docs ++ rest))
        (ap (λ b. set_item qid (push docid score b) run) (bucket_of_new qid run h)
          ∙ set_item_new qid (push docid score []) run h)
      ∙ read_with-bucket qid tag (suc rank) docs rest run (push docid score []) h
