-- ===== src/Dense/Subset/Select.antt =====
-- The selection and the pass over the corpus together.
use cascade_search_engine.Prelude.{
  ℕ, ◌+◌, ◌-◌, ◌≤◌, Bool, true, false, not, some, List, [], ◌∷◌, ◌++◌, map, length, nat_beq, ◌≡◌,
  refl, sym, ap, ◌∙◌, ◌↔◌, arith, All, All-imp, All-append, keep_if, count_if, length-keep_if,
  length-append, ltb, ltb→lt, nat_beq_iff, Bool-cases, inl, inr, if_intro, ◌||◌,
}
use mathlib.Core.Path.{subst}
use cascade_search_engine.Prelude.Keys.{nat_eq, is_in, Distinct, ◌==◌}
use cascade_search_engine.Prelude.Perms.{is_in-append, All-in}
use cascade_search_engine.Prelude.Counting.{is_in-of_keep_if, count_if-is_in, All-of_count_if}
use cascade_search_engine.Dense.Subset.{Doc, Numpy, union, select_subset_ids, Output, write_subset}
use cascade_search_engine.Dense.Subset.Written.{
  IsNumpy, chosen, after, stream-eq, union_disjoint, append-Distinct, count_if_both, map_same,
  keep_if-Distinct,
}

abbrev pub nothing : Output
nothing = record { jsonl = []; docids = []; written = 0 }

-- the ids of a corpus
abbrev pub ids_of : List Doc → List ℕ
ids_of corpus = map (λ doc. doc.id) corpus

write_subset-eq :
    (ids : List ℕ) (corpus : List Doc)
    → write_subset ids corpus ≡ (
      nat_beq (count_if (λ doc. is_in doc.id ids) corpus) (length ids),
      after nothing (chosen ids corpus),
    )
unfolding write_subset
write_subset-eq ids corpus =
    ap (λ (out : Output). (nat_beq out.written (length ids), out)) (stream-eq ids corpus nothing)
    ∙ ap (λ n. (nat_beq n (length ids), after nothing (chosen ids corpus)))
        (omega (arith, length-keep_if (λ doc. is_in doc.id ids) corpus))

-- In a corpus without an id twice, the files hold the documents with a selected id, in the order of the
-- corpus, and the call returns exactly if each selected id is one of the corpus.
write_subset-exact :
    (ids : List ℕ) (corpus : List Doc)
    → Distinct ids
    → Distinct (ids_of corpus)
    → ((write_subset ids corpus).1 ≡ after nothing (chosen ids corpus))
      × (((write_subset ids corpus).0 ≡ true) ↔ All (λ a. is_in a (ids_of corpus) ≡ true) ids)
write_subset-exact ids corpus d f =
    let e = write_subset-eq ids corpus in
    let count = count_if (λ doc. is_in doc.id ids) corpus in
    (
      ap (λ r. r.1) e,
      (
        (λ h.
            All-of_count_if (λ doc. doc.id) ids corpus d f
              ((nat_beq_iff count (length ids)).0 (sym (ap (λ r. r.0) e) ∙ h))),
        (λ h.
            ap (λ r. r.0) e
            ∙ (nat_beq_iff count (length ids)).1 (count_if-is_in (λ doc. doc.id) ids corpus d f h)),
      ),
    )

pub All-self : (xs : List ℕ) → All (λ a. is_in a xs ≡ true) xs
All-self xs = subst (λ l. All (λ a. is_in a l ≡ true) xs) (map_same xs) (All-in (λ a. a) xs)

is_in-of_All :
    (a : ℕ) (ids xs : List ℕ)
    → All (λ b. is_in b ids ≡ true) xs
    → is_in a xs ≡ true
    → is_in a ids ≡ true
is_in-of_All a ids [] h k = absurd (cc k)
is_in-of_All a ids (x ∷ xs) h k = elim (Bool-cases (x == a)) [
  | inl same ↦ ap (λ b. is_in b ids) (sym ((nat_eq.is_same-iff x a).0 same)) ∙ h.0
  | inr other ↦ is_in-of_All a ids xs h.1 (ground arith)
]

module _ (np : Numpy) (promised : IsNumpy np) (qrels_ids : List ℕ) (total_docs seed subset_size : ℕ)
    (distinct : Distinct qrels_ids)
    (judged : All (λ a. is_in a (np.arange total_docs) ≡ true) qrels_ids)
    (few : length qrels_ids ≤ subset_size) (many : subset_size ≤ total_docs) where
  abbrev pool : List ℕ
  pool = keep_if (λ a. not (is_in a qrels_ids)) (np.arange total_docs)

  all-Distinct : Distinct (map (λ a. a) (np.arange total_docs))
  all-Distinct = rw (map_same (np.arange total_docs)) (promised.arange-Distinct total_docs)

  length-pool : length pool + length qrels_ids ≡ total_docs
  length-pool =
      let judged_all : All (λ a. is_in a (map (λ a. a) (np.arange total_docs)) ≡ true) qrels_ids =
        rw (map_same (np.arange total_docs)) judged in
      omega (
        arith,
        length-keep_if (λ a. not (is_in a qrels_ids)) (np.arange total_docs),
        count_if_both (λ a. is_in a qrels_ids) (np.arange total_docs),
        count_if-is_in (λ a. a) qrels_ids (np.arange total_docs) distinct all-Distinct judged_all,
        promised.length-arange total_docs,
      )

  -- the selection: all judged ids, filled up to the size from the ids of the corpus
  abbrev Selects : List ℕ → Type 0
  Selects ids =
      (select_subset_ids np qrels_ids total_docs seed subset_size ≡ some ids)
      × Distinct ids
      × (length ids ≡ subset_size)
      × All (λ a. is_in a (np.arange total_docs) ≡ true) ids
      × All (λ a. is_in a ids ≡ true) qrels_ids

  -- what is chosen to fill the set up
  abbrev Fills : List ℕ → Type 0
  Fills fill =
      (np.choice seed (np.setdiff1d (np.arange total_docs) qrels_ids)
          (subset_size - length qrels_ids)
        ≡ some fill)
      × (length fill ≡ subset_size - length qrels_ids)
      × Distinct fill
      × All (λ a. is_in a pool ≡ true) fill

  fills : (fill : List ℕ) × Fills fill
  fills =
      let same =
        promised.setdiff1d-eq (np.arange total_docs) qrels_ids
          (promised.arange-Distinct total_docs) in
      let (fill, chooses, long, d, inside) =
        promised.choice_fill seed pool (subset_size - length qrels_ids)
          (keep_if-Distinct (λ a. not (is_in a qrels_ids)) (np.arange total_docs)
            (promised.arange-Distinct total_docs))
          (omega (arith, length-pool)) in
      (
        fill,
        (
          ap (λ l. np.choice seed l (subset_size - length qrels_ids)) same ∙ chooses,
          long,
          d,
          inside,
        ),
      )

  select-union :
      (fill : List ℕ)
      → Fills fill
      → select_subset_ids np qrels_ids total_docs seed subset_size ≡ some (union qrels_ids fill)
  unfolding select_subset_ids
  select-union fill f =
      if_intro (λ r. r ≡ some (union qrels_ids fill)) (ltb subset_size (length qrels_ids))
        (λ less. absurd (omega (arith, ltb→lt subset_size (length qrels_ids) less)))
        (λ _. rw f.0 refl)

  selects : (ids : List ℕ) × Selects ids
  selects =
      let (fill, f) = fills in
      let test : ℕ → Bool = λ a. not (is_in a qrels_ids) in
      let fresh : All (λ a. is_in a qrels_ids ≡ false) fill =
        All-imp (λ a. is_in a pool ≡ true) (λ a. is_in a qrels_ids ≡ false)
          (λ a h. ground (arith, is_in-of_keep_if test a (np.arange total_docs) h)) fill f.3 in
      let known : All (λ a. is_in a (np.arange total_docs) ≡ true) fill =
        All-imp (λ a. is_in a pool ≡ true) (λ a. is_in a (np.arange total_docs) ≡ true)
          (λ a h. (is_in-of_keep_if test a (np.arange total_docs) h).1) fill f.3 in
      (
        qrels_ids ++ fill,
        (
          select-union fill f ∙ ap some (union_disjoint qrels_ids fill f.2 fresh),
          append-Distinct qrels_ids fill distinct f.2 fresh,
          omega (arith, length-append qrels_ids fill, f.1),
          All-append (λ a. is_in a (np.arange total_docs) ≡ true) qrels_ids fill judged known,
          All-imp (λ a. is_in a qrels_ids ≡ true) (λ a. is_in a (qrels_ids ++ fill) ≡ true)
              (λ a h. is_in-append a qrels_ids fill ∙ ap (λ b. b || is_in a fill) h) qrels_ids
              (All-self qrels_ids),
        ),
      )

  -- If every judged id is in the corpus, at most as many ids are judged as the subset is to have, and the
  -- corpus, whose ids are those from 0 on, none twice, has as many: the selection returns, it has exactly
  -- that size and all judged ids, and the pass over the corpus returns, having written exactly as many
  -- documents, those selected in the corpus' order.
  pub select-write_subset :
      (corpus : List Doc)
      → Distinct (ids_of corpus)
      → All (λ a. is_in a (ids_of corpus) ≡ true) (np.arange total_docs)
      → (ids : List ℕ) × (select_subset_ids np qrels_ids total_docs seed subset_size ≡ some ids)
        × All (λ a. is_in a ids ≡ true) qrels_ids
        × (write_subset ids corpus ≡ (true, after nothing (chosen ids corpus)))
        × (length (chosen ids corpus) ≡ subset_size)
  select-write_subset corpus f whole =
      let (ids, (selected, d, long, known, judged_in)) = selects in
      let count = count_if (λ doc. is_in doc.id ids) corpus in
      let there : All (λ a. is_in a (ids_of corpus) ≡ true) ids =
        All-imp (λ a. is_in a (np.arange total_docs) ≡ true) (λ a. is_in a (ids_of corpus) ≡ true)
          (λ a h. is_in-of_All a (ids_of corpus) (np.arange total_docs) whole h) ids known in
      let all : count ≡ length ids = count_if-is_in (λ doc. doc.id) ids corpus d f there in
      (
        ids,
        selected,
        judged_in,
        write_subset-eq ids corpus
            ∙ ap (λ b. (b, after nothing (chosen ids corpus)))
                ((nat_beq_iff count (length ids)).1 all),
        omega (arith, length-keep_if (λ doc. is_in doc.id ids) corpus),
      )
