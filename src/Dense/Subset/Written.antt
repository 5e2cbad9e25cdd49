-- ===== src/Dense/Subset/Written.antt =====
-- What is selected and what is written.
use cascade_search_engine.Prelude.{
  ℕ, suc, ◌+◌, ◌≤◌, Bool, true, false, not, ◌||◌, some, List, [], ◌∷◌, ◌++◌, map, length, ltb, ◌≡◌,
  refl, sym, ap, ◌∙◌, inl, inr, arith, All, All-imp, keep_if, count_if, append-nil, append_assoc,
  Bool-cases, if_intro, if◌then◌else◌,
}
use cascade_search_engine.Prelude.Keys.{nat_eq, is_in, Distinct}
use cascade_search_engine.Prelude.Perms.{is_in-append, beq_comm}
use cascade_search_engine.Prelude.Counting.{is_in-of_keep_if}
use cascade_search_engine.Dense.Subset.{Doc, Numpy, union, Output, stream}

-- What numpy promises: the ids from 0 on; those of a list that are not in another, which keeps the order if no id
-- is there twice; and that many elements of a list, none twice, if there are as many.
pub record IsNumpy (np : Numpy) : Type 0 where
  pub length-arange : (n : ℕ) → length (np.arange n) ≡ n
  pub is_in-arange : (a n : ℕ) → is_in a (np.arange n) ≡ ltb a n
  pub arange-Distinct : (n : ℕ) → Distinct (np.arange n)
  pub setdiff1d-eq :
      (xs ys : List ℕ) → Distinct xs → np.setdiff1d xs ys ≡ keep_if (λ x. not (is_in x ys)) xs
  pub choice_fill :
      (seed : ℕ) (xs : List ℕ) (n : ℕ)
      → Distinct xs
      → n ≤ length xs
      → (fill : List ℕ) × (np.choice seed xs n ≡ some fill)
        × (length fill ≡ n)
        × Distinct fill
        × All (λ a. is_in a xs ≡ true) fill

-- the documents with an id of the set, in the order of the corpus
abbrev pub chosen : List ℕ → List Doc → List Doc
chosen ids corpus = keep_if (λ doc. is_in doc.id ids) corpus

-- what is there after these documents are written
abbrev pub after : Output → List Doc → Output
after out docs = record {
  jsonl = out.jsonl ++ map (λ doc. (doc.docid, doc.text)) docs;
  docids = out.docids ++ map (λ doc. doc.docid) docs;
  written = out.written + length docs;
}

after-cons :
    (out : Output) (doc : Doc) (docs : List Doc)
    → after (after out (doc ∷ [])) docs ≡ after out (doc ∷ docs)
after-cons out doc docs = ground (
  arith,
  append_assoc out.jsonl ((doc.docid, doc.text) ∷ []) (map (λ d. (d.docid, d.text)) docs),
  append_assoc out.docids (doc.docid ∷ []) (map (λ d. d.docid) docs),
)

one_more :
    (out : Output) (doc : Doc)
    → record {
      jsonl = out.jsonl ++ (doc.docid, doc.text) ∷ [];
      docids = out.docids ++ doc.docid ∷ [];
      written = suc out.written;
    }
      ≡ after out (doc ∷ [])
one_more out doc = ground arith

pub stream-eq :
    (ids : List ℕ) (docs : List Doc) (out : Output)
    → stream ids docs out ≡ after out (chosen ids docs)
unfolding stream
stream-eq ids [] out = ground (arith, append-nil out.jsonl, append-nil out.docids)
stream-eq ids (doc ∷ docs) out = elim (Bool-cases (is_in doc.id ids)) [
  | inl found ↦
      ap
        (λ b. stream ids docs (
          if b
          then record {
            jsonl = out.jsonl ++ (doc.docid, doc.text) ∷ [];
            docids = out.docids ++ doc.docid ∷ [];
            written = suc out.written;
          }
          else out))
        found
      ∙ ap (stream ids docs) (one_more out doc)
      ∙ stream-eq ids docs (after out (doc ∷ []))
      ∙ after-cons out doc (chosen ids docs)
      ∙ sym (ap (λ b. after out (if b then doc ∷ chosen ids docs else chosen ids docs)) found)
  | inr other ↦
      ap
        (λ b. stream ids docs (
          if b
          then record {
            jsonl = out.jsonl ++ (doc.docid, doc.text) ∷ [];
            docids = out.docids ++ doc.docid ∷ [];
            written = suc out.written;
          }
          else out))
        other
      ∙ stream-eq ids docs out
      ∙ sym (ap (λ b. after out (if b then doc ∷ chosen ids docs else chosen ids docs)) other)
]

All-fresh :
    (a : List ℕ) (b : ℕ) (bs : List ℕ)
    → is_in b bs ≡ false
    → All (λ c. is_in c a ≡ false) bs
    → All (λ c. is_in c (a ++ b ∷ []) ≡ false) bs
All-fresh a b [] h k = tt
All-fresh a b (c ∷ bs) h k =
    (ground (arith, is_in-append c a (b ∷ []), beq_comm b c), All-fresh a b bs (ground arith) k.1)

pub union_disjoint :
    (a bs : List ℕ) → Distinct bs → All (λ b. is_in b a ≡ false) bs → union a bs ≡ a ++ bs
unfolding union
union_disjoint a [] d h = sym (append-nil a)
union_disjoint a (b ∷ bs) d h =
    ap (λ t. union (if t then a else a ++ b ∷ []) bs) h.0
    ∙ union_disjoint (a ++ b ∷ []) bs d.1 (All-fresh a b bs d.0 h.1)
    ∙ append_assoc a (b ∷ []) bs

absent : (x : ℕ) (xs ys : List ℕ) → All (λ b. is_in b (x ∷ xs) ≡ false) ys → is_in x ys ≡ false
absent x xs [] h = refl
absent x xs (y ∷ ys) h = ground (arith, absent x xs ys h.1, beq_comm x y)

pub append-Distinct :
    (xs ys : List ℕ)
    → Distinct xs
    → Distinct ys
    → All (λ b. is_in b xs ≡ false) ys
    → Distinct (xs ++ ys)
append-Distinct [] ys d e h = e
append-Distinct (x ∷ xs) ys d e h = (
  is_in-append x xs ys ∙ ap (λ b. b || is_in x ys) d.0 ∙ absent x xs ys h,
  append-Distinct xs ys d.1 e (
      All-imp (λ b. is_in b (x ∷ xs) ≡ false) (λ b. is_in b xs ≡ false) (λ b k. ground arith) ys h),
)

-- as many elements pass and fail as there are
pub count_if_both :
    (p : ℕ → Bool) (xs : List ℕ) → count_if (λ a. not (p a)) xs + count_if p xs ≡ length xs
count_if_both p [] = omega arith
count_if_both p (x ∷ xs) = ground (arith, count_if_both p xs)

pub map_same : (xs : List ℕ) → map (λ a. a) xs ≡ xs
map_same [] = refl
map_same (x ∷ xs) = ap (λ l. x ∷ l) (map_same xs)

pub keep_if-Distinct : (p : ℕ → Bool) (xs : List ℕ) → Distinct xs → Distinct (keep_if p xs)
keep_if-Distinct p [] d = tt
keep_if-Distinct p (x ∷ xs) d =
    if_intro Distinct (p x)
      (λ _. (
        elim (Bool-cases (is_in x (keep_if p xs))) [
          | inl found ↦ absurd (cc (is_in-of_keep_if p x xs found).1)
          | inr missing ↦ missing
        ],
        keep_if-Distinct p xs d.1,
      ))
      (λ _. keep_if-Distinct p xs d.1)
