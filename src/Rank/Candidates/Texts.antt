-- ===== src/Rank/Candidates/Texts.antt =====
-- The pass over the corpus may end early and misses nothing.
use Prim.Native.String.{String}
use mathlib.Core.Path.{subst}
use cascade_search_engine.Prelude.{
  ◌≤◌, Bool, true, false, not, ◌||◌, none, some, List, [], ◌∷◌, ◌++◌, map, map-append, append-nil,
  append_assoc, ◌≡◌, refl, sym, ap, ap₂, ◌∙◌, inl, inr, ◌⊎◌, arith, length, length-append, keep_if,
  length-keep_if, All, Bool-cases, List-cases, if_intro, nat_beq, nat_beq_iff, if◌then◌else◌,
}
use cascade_search_engine.Prelude.Keys.{string_eq, ◌==◌, is_in, Distinct}
use cascade_search_engine.Prelude.Counting.{count_if-is_in-le}
use cascade_search_engine.Prelude.Perms.{is_in-append, beq_comm, All-in}
use cascade_search_engine.Nrt.Tsv.{Document}
use cascade_search_engine.Harness.Runs.{set_item}
use cascade_search_engine.Harness.Runs.Files.{keys, set_item_new}
use cascade_search_engine.Rank.Candidates.{collect_from, missing_of, collect_candidate_texts}

module _ (candidates : List String) where
  -- the document is a candidate
  abbrev pub is_candidate : Document → Bool
  is_candidate d = is_in d.0 candidates

  nil_of_length : (xs : List Document) → length xs ≤ 0 → xs ≡ []
  nil_of_length [] h = refl
  nil_of_length (x ∷ xs) h = absurd (omega arith)

  fresh_after :
      (d : Document) (texts docs : List Document)
      → is_in d.0 (keys docs) ≡ false
      → All (λ e. is_in e.0 (keys texts) ≡ false) docs
      → All (λ e. is_in e.0 (keys (texts ++ d ∷ [])) ≡ false) docs
  fresh_after d texts [] h a = tt
  fresh_after d texts (e ∷ docs) h a = (
    ap (is_in e.0) (map-append (λ (x : Document). x.0) texts (d ∷ []))
        ∙ is_in-append e.0 (keys texts) (d.0 ∷ [])
        ∙ ground (arith, a.0, beq_comm d.0 e.0),
    fresh_after d texts docs (ground arith) a.1,
  )

  collect_from-eq :
      (texts docs : List Document)
      → Distinct (keys docs)
      → All (λ e. is_in e.0 (keys texts) ≡ false) docs
      → length (texts ++ keep_if is_candidate docs) ≤ length candidates
      → collect_from candidates texts docs ≡ texts ++ keep_if is_candidate docs
  unfolding collect_from
  collect_from-eq texts [] h a few = sym (append-nil texts)
  collect_from-eq texts ((docid, text) ∷ docs) h a few =
      elim (Bool-cases (is_in docid candidates)) [
        | inl e ↦
            let d : Document = (docid, text) in
            let kept = keep_if is_candidate docs in
            let few_kept : length (texts ++ d ∷ kept) ≤ length candidates = rw e at few in
            let new = set_item_new docid text texts a.0 in
            let rest =
              ap (λ l. collect_from candidates l docs) new
              ∙ collect_from-eq (texts ++ d ∷ []) docs h.1 (fresh_after d texts docs h.0 a.1) (
                  omega (
                    arith,
                    length-append texts (d ∷ kept),
                    length-append (texts ++ d ∷ []) kept,
                    length-append texts (d ∷ []),
                  ))
              ∙ append_assoc texts (d ∷ []) kept in
            rw e (
              if_intro (λ r. r ≡ texts ++ d ∷ kept)
                (nat_beq (length (set_item docid text texts)) (length candidates))
                (λ full.
                  let none_left = nil_of_length kept (
                    omega (
                      arith,
                      (nat_beq_iff (length (set_item docid text texts)) (length candidates)).0 full,
                      ap length new,
                      few_kept,
                      length-append texts (d ∷ kept),
                      length-append texts (d ∷ []),
                    )) in
                  new ∙ ap (λ l. texts ++ d ∷ l) (sym none_left))
                (λ more. rest))
        | inr e ↦ rw e (collect_from-eq texts docs h.1 a.1 (rw e at few))
      ]

  is_in-keep_if :
      (c : String) (docs : List Document)
      → is_in c candidates ≡ true
      → is_in c (keys (keep_if is_candidate docs)) ≡ is_in c (keys docs)
  is_in-keep_if c [] h = refl
  is_in-keep_if c (d ∷ docs) h = elim (Bool-cases (is_candidate d)) [
    | inl e ↦ rw e (ap (λ b. d.0 == c || b) (is_in-keep_if c docs h))
    | inr e ↦ elim (Bool-cases (d.0 == c)) [
      | inl same ↦
          let clash : is_in d.0 candidates ≡ true =
            ap (λ x. is_in x candidates) ((string_eq.is_same-iff d.0 c).0 same) ∙ h in
          absurd (ground arith)
      | inr other ↦ rw (e, other) (is_in-keep_if c docs h)
    ]
  ]

missing-agree :
    (candidates : List String) (texts docs : List Document) (others : List String)
    → ((c : String) → is_in c candidates ≡ true → is_in c (keys texts) ≡ is_in c (keys docs))
    → All (λ c. is_in c candidates ≡ true) others
    → missing_of others texts ≡ missing_of others docs
missing-agree candidates texts docs [] same h = refl
missing-agree candidates texts docs (c ∷ others) same h =
    ap₂ (λ b l. if not b then c ∷ l else l) (same c h.0)
      (missing-agree candidates texts docs others same h.1)

no_texts : (docs : List Document) → All (λ e. is_in e.0 (keys {V = String} []) ≡ false) docs
no_texts [] = tt
no_texts (d ∷ docs) = (refl, no_texts docs)

map-id {ℓ} : {A : Type ℓ} (xs : List A) → map (λ x. x) xs ≡ xs
map-id [] = refl
map-id (x ∷ xs) = ap (◌∷◌ x) (map-id xs)

candidates-included : (candidates : List String) → All (λ c. is_in c candidates ≡ true) candidates
candidates-included candidates =
    subst (λ l. All (λ c. is_in c l ≡ true) candidates) (map-id candidates)
      (All-in (λ x. x) candidates)

collect_found :
    (candidates : List String) (docs : List Document)
    → missing_of candidates (collect_from candidates [] docs) ≡ []
    → collect_candidate_texts candidates docs ≡ some (collect_from candidates [] docs)
unfolding collect_candidate_texts
collect_found candidates docs e =
    ap (λ (l : List String). elim l [ [] ↦ some (collect_from candidates [] docs) | _ ↦ none ]) e

collect_missing :
    (candidates : List String) (docs : List Document) (c : String) (rest : List String)
    → missing_of candidates (collect_from candidates [] docs) ≡ c ∷ rest
    → collect_candidate_texts candidates docs ≡ none
unfolding collect_candidate_texts
collect_missing candidates docs c rest e =
    ap (λ (l : List String). elim l [ [] ↦ some (collect_from candidates [] docs) | _ ↦ none ]) e

-- On a corpus in which no document is twice: if a candidate is not in the corpus the call raises, and
-- otherwise it returns the documents of the corpus that are candidates, all of them and in the order of the
-- corpus, although it may stop before the end.
pub collect_candidate_texts-whole :
    (candidates : List String) (docs : List Document)
    → Distinct (keys docs)
    → ((collect_candidate_texts candidates docs ≡ none)
        × (c : String) × (rest : List String) × (missing_of candidates docs ≡ c ∷ rest))
      ⊎ ((missing_of candidates docs ≡ [])
          × (collect_candidate_texts candidates docs
              ≡ some (keep_if (is_candidate candidates) docs)))
collect_candidate_texts-whole candidates docs h =
    let texts = collect_from-eq candidates [] docs h (no_texts docs) (
      omega (
        arith,
        length-keep_if (is_candidate candidates) docs,
        count_if-is_in-le (λ (d : Document). d.0) candidates docs h,
      )) in
    let agree : missing_of candidates (collect_from candidates [] docs)
        ≡ missing_of candidates docs =
      ap (missing_of candidates) texts
      ∙ missing-agree candidates (keep_if (is_candidate candidates) docs) docs candidates
          (λ c. is_in-keep_if candidates c docs) (candidates-included candidates) in
    elim (List-cases (missing_of candidates docs)) [
      | inl e ↦ inr (e, collect_found candidates docs (agree ∙ e) ∙ ap some texts)
      | inr (c, rest, e) ↦ inl (collect_missing candidates docs c rest (agree ∙ e), c, rest, e)
    ]
