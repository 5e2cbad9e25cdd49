-- ===== src/Harness/Runs/RoundTrip.antt =====
-- Runs written and read back, whole or cut.
use Prim.Native.String.{String}
use mathlib.Core.List.Permᴰ
use mathlib.Core.Path.{subst}
use cascade_search_engine.Prelude.{
  ℕ, zero, suc, ◌≤◌, Bool, true, false, ◌||◌, Option, none, some, List, [], ◌∷◌, ◌++◌, map,
  map-append, append-nil, append_assoc, ◌≡◌, refl, sym, ap, ap₂, ◌∙◌, inl, inr, arith, tests, take,
  take_all, length, length-append, leb, keep_if, All, All-imp, All-keep_if, Bool-cases,
  if◌then◌else◌,
}
use cascade_search_engine.Prelude.Keys.{Order, string_eq, ◌==◌, is_in, Distinct}
use cascade_search_engine.Prelude.Perms.{is_in-append, beq_comm, Distinct-apart, Distinct-perm}
use cascade_search_engine.Sort.{sort}
use cascade_search_engine.Sort.Laws.{sort-permᴰ, sort-IsSorted, take-IsSorted, sort_of_IsSorted}
use cascade_search_engine.Harness.Runs.{
  Candidates, Run, Row, set_item, read_from, read_run, read_truncated_from, read_run_truncated,
  outranks, ranked, cut_to, write_run, truncate_to_top_k,
}
use cascade_search_engine.Harness.Runs.Ranking.{outranks-IsTotal}
use cascade_search_engine.Harness.Runs.Files.{
  keys, read_with, fill, block, read_with-block, set_item_new,
}

-- `read_run_truncated`'s way to put a document into a bucket
abbrev push_cut : {Score : Type 0} → ℕ → String → Score → Candidates Score → Candidates Score
push_cut k docid score bucket =
    if leb k (length bucket) then bucket else set_item docid score bucket

module _ {Score : Type 0} where
  read_from-eq :
      (rows : List (Row Score)) (run : Run Score) → read_from run rows ≡ read_with set_item run rows
  unfolding read_from read_with
  read_from-eq [] run = refl
  read_from-eq (row ∷ rows) run = read_from-eq rows _

  read_truncated_from-eq :
      (k : ℕ) (rows : List (Row Score)) (run : Run Score)
      → read_truncated_from k run rows ≡ read_with (push_cut k) run rows
  unfolding read_truncated_from read_with
  read_truncated_from-eq k [] run = refl
  read_truncated_from-eq k (row ∷ rows) run = read_truncated_from-eq k rows _

  apart_at :
      (bucket docs : Candidates Score) (d : String × Score)
      → Distinct (keys (bucket ++ d ∷ docs))
      → is_in d.0 (keys bucket) ≡ false
  apart_at bucket docs d h = (Distinct-apart (λ (e : String × Score). e.0) bucket (d ∷ docs) h).0

  fill-all :
      (docs bucket : Candidates Score)
      → Distinct (keys (bucket ++ docs))
      → fill set_item bucket docs ≡ bucket ++ docs
  unfolding fill
  fill-all [] bucket h = sym (append-nil bucket)
  fill-all ((docid, score) ∷ docs) bucket h =
      let d : String × Score = (docid, score) in
      ap (λ b. fill set_item b docs) (set_item_new docid score bucket (apart_at bucket docs d h))
      ∙ fill-all docs (bucket ++ d ∷ [])
          (subst (λ l. Distinct (keys l)) (sym (append_assoc bucket (d ∷ []) docs)) h)
      ∙ append_assoc bucket (d ∷ []) docs

  fill-full :
      (k : ℕ) (docs bucket : Candidates Score)
      → k ≤ length bucket
      → fill (push_cut k) bucket docs ≡ bucket
  unfolding fill
  fill-full k [] bucket h = refl
  fill-full k ((docid, score) ∷ docs) bucket h =
      let full : leb k (length bucket) ≡ true = omega tests in
      ap (λ b. fill (push_cut k) b docs)
        (ap (λ t. if t then bucket else set_item docid score bucket) full)
      ∙ fill-full k docs bucket h

  take-append_full :
      (bucket docs : Candidates Score) (k : ℕ)
      → length bucket ≡ k
      → take k (bucket ++ docs) ≡ bucket
  take-append_full [] docs zero h = refl
  take-append_full [] docs (suc k) h = absurd (omega arith)
  take-append_full (b ∷ bucket) docs zero h = absurd (omega arith)
  take-append_full (b ∷ bucket) docs (suc k) h =
      ap (◌∷◌ b) (take-append_full bucket docs k (omega arith))

  fill-cut :
      (k : ℕ) (docs bucket : Candidates Score)
      → length bucket ≤ k
      → Distinct (keys (bucket ++ docs))
      → fill (push_cut k) bucket docs ≡ take k (bucket ++ docs)
  unfolding fill
  fill-cut k [] bucket h apart = sym (ap (take k) (append-nil bucket) ∙ take_all k bucket h)
  fill-cut k ((docid, score) ∷ docs) bucket h apart =
      let d : String × Score = (docid, score) in
      elim (Bool-cases (leb k (length bucket))) [
        | inl full ↦
            ap (λ b. fill (push_cut k) b docs)
              (ap (λ t. if t then bucket else set_item docid score bucket) full)
            ∙ fill-full k docs bucket (omega tests)
            ∙ sym (take-append_full bucket (d ∷ docs) k (omega tests))
        | inr room ↦
            ap (λ b. fill (push_cut k) b docs)
              (ap (λ t. if t then bucket else set_item docid score bucket) room
                ∙ set_item_new docid score bucket (apart_at bucket docs d apart))
            ∙ fill-cut k docs (bucket ++ d ∷ []) (omega (tests, length-append bucket (d ∷ [])))
                (subst (λ l. Distinct (keys l)) (sym (append_assoc bucket (d ∷ []) docs)) apart)
            ∙ ap (take k) (append_assoc bucket (d ∷ []) docs)
      ]

  -- a query that has documents
  abbrev pub has_documents : String × Candidates Score → Bool
  has_documents (qid, []) = false
  has_documents (qid, d ∷ docs) = true

  -- no document is there twice
  abbrev pub HasDistinctDocs : String × Candidates Score → Type 0
  HasDistinctDocs (qid, docs) = Distinct (keys docs)

  is_in-take :
      (key : String) (k : ℕ) (docs : Candidates Score)
      → is_in key (keys docs) ≡ false
      → is_in key (keys (take k docs)) ≡ false
  is_in-take key zero docs h = refl
  is_in-take key (suc k) [] h = refl
  is_in-take key (suc k) (d ∷ docs) h = ground (arith, is_in-take key k docs)

  pub Distinct-take :
      (k : ℕ) (docs : Candidates Score) → Distinct (keys docs) → Distinct (keys (take k docs))
  Distinct-take zero docs h = tt
  Distinct-take (suc k) [] h = tt
  Distinct-take (suc k) (d ∷ docs) h = (is_in-take d.0 k docs h.0, Distinct-take k docs h.1)

module _ {Score : Type 0} ⦃scores : Order Score⦄ ⦃strings : Order String⦄ where
  Distinct-cut :
      (depth : Option ℕ) (docs : Candidates Score)
      → Distinct (keys docs)
      → Distinct (keys (cut_to depth (ranked docs)))
  unfolding ranked
  Distinct-cut none docs h =
      Distinct-perm (Permᴰ.map (λ e. e.0) (Permᴰ.symm (sort-permᴰ outranks docs))) h
  Distinct-cut (some k) docs h =
      Distinct-take k (sort outranks docs)
        (Distinct-perm (Permᴰ.map (λ e. e.0) (Permᴰ.symm (sort-permᴰ outranks docs))) h)

  ranked-cut :
      (depth : Option ℕ) (docs : Candidates Score)
      → ranked (cut_to depth (ranked docs)) ≡ cut_to depth (ranked docs)
  unfolding ranked
  ranked-cut none docs = sort_of_IsSorted outranks _ (sort-IsSorted outranks-IsTotal docs)
  ranked-cut (some k) docs =
      sort_of_IsSorted outranks _
        (take-IsSorted outranks k (sort outranks docs) (sort-IsSorted outranks-IsTotal docs))

  abbrev pub cut_all : Run Score → Option ℕ → Run Score
  cut_all run depth = map (λ e. (e.0, cut_to depth (ranked e.1))) run

  -- What a run is after it is written: each query's documents ranked and cut, and no query without documents.
  abbrev pub written : Run Score → Option ℕ → Run Score
  written run depth = keep_if has_documents (cut_all run depth)

  module _ (push : String → Score → Candidates Score → Candidates Score) (tag : String)
      (depth : Option ℕ) where
    -- what the rows of a run are read as
    filled : Run Score → Run Score
    filled [] = []
    filled ((qid, docs) ∷ run) = block push qid (cut_to depth (ranked docs)) ++ filled run

    block-apart :
        (key qid : String) (docs : Candidates Score)
        → (qid == key) ≡ false
        → is_in key (keys (block push qid docs)) ≡ false
    unfolding block
    block-apart key qid [] h = refl
    block-apart key qid (d ∷ docs) h = rw h refl

    apart-block :
        (qid : String) (docs : Candidates Score) (run others : Run Score)
        → is_in qid (keys others) ≡ false
        → All (λ e. is_in e.0 (keys run) ≡ false) others
        → All (λ e. is_in e.0 (keys (run ++ block push qid docs)) ≡ false) others
    apart-block qid docs run [] h a = tt
    apart-block qid docs run (e ∷ others) h a = (
      ap (is_in e.0) (map-append (λ (x : String × Candidates Score). x.0) run (block push qid docs))
          ∙ is_in-append e.0 (keys run) (keys (block push qid docs))
          ∙ ap₂ ◌||◌ a.0 (block-apart e.0 qid docs (beq_comm qid e.0 ∙ ground arith)),
      apart-block qid docs run others (ground arith) a.1,
    )

    read_with-write_run :
        (run acc : Run Score)
        → Distinct (keys run)
        → All (λ e. is_in e.0 (keys acc) ≡ false) run
        → read_with push acc (write_run run tag depth) ≡ acc ++ filled run
    unfolding write_run filled read_with
    read_with-write_run [] acc d a = sym (append-nil acc)
    read_with-write_run ((qid, docs) ∷ run) acc d a =
        read_with-block push qid tag 1 (cut_to depth (ranked docs)) (write_run run tag depth) acc
          a.0
        ∙ read_with-write_run run (acc ++ block push qid (cut_to depth (ranked docs))) d.1
            (apart-block qid (cut_to depth (ranked docs)) acc run d.0 a.1)
        ∙ append_assoc acc (block push qid (cut_to depth (ranked docs))) (filled run)

map-agree {ℓ κ} :
    {A : Type ℓ} {B : Type κ} (f g : A → B) (xs : List A)
    → All (λ x. f x ≡ g x) xs
    → map f xs ≡ map g xs
map-agree f g [] h = refl
map-agree f g (x ∷ xs) h = ap₂ ◌∷◌ h.0 (map-agree f g xs h.1)

module _ {Score : Type 0} where
  -- `k` documents of each query
  abbrev pub first : ℕ → String × Candidates Score → String × Candidates Score
  first k e = (e.0, take k e.1)

  block-keep :
      (qid : String) (docs : Candidates Score) (rest : Run Score)
      → fill set_item [] docs ≡ docs
      → block set_item qid docs ++ keep_if has_documents rest
        ≡ keep_if has_documents ((qid, docs) ∷ rest)
  unfolding block
  block-keep qid [] rest h = refl
  block-keep qid (d ∷ docs) rest h = ap (λ l. (qid, l) ∷ keep_if has_documents rest) h

  block-first :
      (k : ℕ) (qid : String) (docs : Candidates Score) (rest : Run Score)
      → fill (push_cut k) [] docs ≡ take k docs
      → block (push_cut k) qid docs ++ map (first k) (keep_if has_documents rest)
        ≡ map (first k) (keep_if has_documents ((qid, docs) ∷ rest))
  unfolding block
  block-first k qid [] rest h = refl
  block-first k qid (d ∷ docs) rest h =
      ap (λ l. (qid, l) ∷ map (first k) (keep_if has_documents rest)) h

  nothing_before : (run : Run Score) → All (λ e. false ≡ false) run
  nothing_before [] = tt
  nothing_before (e ∷ run) = (refl, nothing_before run)

module _ {Score : Type 0} ⦃scores : Order Score⦄ ⦃strings : Order String⦄ (tag : String)
    (depth : Option ℕ) where
  filled-whole :
      (run : Run Score)
      → All HasDistinctDocs run
      → filled set_item tag depth run ≡ written run depth
  unfolding filled
  filled-whole [] h = refl
  filled-whole ((qid, docs) ∷ run) h =
      let kept = cut_to depth (ranked docs) in
      ap (λ l. block set_item qid kept ++ l) (filled-whole run h.1)
      ∙ block-keep qid kept (cut_all run depth) (fill-all kept [] (Distinct-cut depth docs h.0))

  filled-first :
      (k : ℕ) (run : Run Score)
      → All HasDistinctDocs run
      → filled (push_cut k) tag depth run ≡ map (first k) (written run depth)
  unfolding filled
  filled-first k [] h = refl
  filled-first k ((qid, docs) ∷ run) h =
      let kept = cut_to depth (ranked docs) in
      ap (λ l. block (push_cut k) qid kept ++ l) (filled-first k run h.1)
      ∙ block-first k qid kept (cut_all run depth)
          (fill-cut k kept [] (omega arith) (Distinct-cut depth docs h.0))

  written-ranked :
      (run : Run Score)
      → All (λ (e : String × Candidates Score). ranked e.1 ≡ e.1) (cut_all run depth)
  written-ranked [] = tt
  written-ranked ((qid, docs) ∷ run) = (ranked-cut depth docs, written-ranked run)

  -- Of a run without a query or a document twice, what is written and read back is the run with each
  -- query's documents ranked by score and docid and cut to the depth, and without the queries that have no
  -- documents then.
  pub read_run-write_run :
      (run : Run Score)
      → Distinct (keys run)
      → All HasDistinctDocs run
      → read_run (write_run run tag depth) ≡ written run depth
  unfolding read_run
  read_run-write_run run d h =
      read_from-eq (write_run run tag depth) []
      ∙ read_with-write_run set_item tag depth run [] d (nothing_before run)
      ∙ filled-whole run h

  -- On the file of a run without a query or a document twice, read_run_truncated gives what
  -- truncate_to_top_k makes of read_run.
  pub read_run_truncated-write_run :
      (k : ℕ) (run : Run Score)
      → Distinct (keys run)
      → All HasDistinctDocs run
      → read_run_truncated k (write_run run tag depth)
        ≡ truncate_to_top_k (read_run (write_run run tag depth)) k
  unfolding read_run_truncated truncate_to_top_k
  read_run_truncated-write_run k run d h =
      read_truncated_from-eq k (write_run run tag depth) []
      ∙ read_with-write_run (push_cut k) tag depth run [] d (nothing_before run)
      ∙ filled-first k run h
      ∙ map-agree (first k) (λ (e : String × Candidates Score). (e.0, take k (ranked e.1)))
          (written run depth)
          (All-imp _ _ (λ e same. ap (λ l. (e.0, take k l)) (sym same)) (written run depth)
            (All-keep_if _ has_documents _ (written-ranked run)))
      ∙ ap (λ r. truncate_to_top_k r k) (sym (read_run-write_run run d h))
