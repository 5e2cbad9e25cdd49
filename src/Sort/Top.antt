-- ===== src/Sort/Top.antt =====
-- `sorted(...)[:k]` over parts: the k best of several sorted lists are among the first k of each.
use cascade_search_engine.Prelude.{
  ℕ, zero, suc, ◌≤◌, Bool, true, false, List, [], ◌∷◌, ◌++◌, map, ◌≡◌, refl, sym, ap, ◌∙◌, ◌≡⟨◌⟩◌,
  ◌∎, inl, inr, arith, take, take-take, concat, All, Bool-cases,
}
use cascade_search_engine.Sort.{insert, sort, IsSorted, IsTotal}
use cascade_search_engine.Sort.Laws.{insert_first, take-IsSorted}

module _ {ℓ} {A : Type ℓ} (before : A → A → Bool) where
  insert_all : List A → List A → List A
  insert_all [] ys = ys
  insert_all (x ∷ xs) ys = insert before x (insert_all xs ys)

  -- Two sorted lists joined into one, the first going first among equals.
  merge : List A → List A → List A
  merge [] ys = ys
  merge (x ∷ xs) [] = x ∷ xs
  merge (x ∷ xs) (y ∷ ys) = elim (before x y) [
    | true ↦ x ∷ merge xs (y ∷ ys)
    | false ↦ y ∷ merge (x ∷ xs) ys
  ]

  sort-append : (xs ys : List A) → sort before (xs ++ ys) ≡ insert_all xs (sort before ys)
  unfolding sort insert_all
  sort-append [] ys = refl
  sort-append (x ∷ xs) ys = ap (insert before x) (sort-append xs ys)

  merge_nil : (xs : List A) → merge xs [] ≡ xs
  unfolding merge
  merge_nil [] = refl
  merge_nil (x ∷ xs) = refl

  -- The first k of a merge depend on the first k of its first part only.
  take-merge-take :
      (k j : ℕ) (xs ys : List A) → k ≤ j → take k (merge (take j xs) ys) ≡ take k (merge xs ys)
  unfolding merge
  take-merge-take zero j xs ys h = refl
  take-merge-take (suc k) zero xs ys h = absurd (omega arith)
  take-merge-take (suc k) (suc j) [] ys h = refl
  take-merge-take (suc k) (suc j) (x ∷ xs) [] h = ap (◌∷◌ x) (take-take k j xs (omega arith))
  take-merge-take (suc k) (suc j) (x ∷ xs) (y ∷ ys) h = elim (Bool-cases (before x y)) [
    | inl e ↦ rw (e, merge) (ap (◌∷◌ x) (take-merge-take k j xs (y ∷ ys) (omega arith)))
    | inr e ↦ rw (e, merge) (ap (◌∷◌ y) (take-merge-take k (suc j) (x ∷ xs) ys (omega arith)))
  ]

  take-cons-take : (k : ℕ) (y : A) (ys : List A) → take k (y ∷ take k ys) ≡ take k (y ∷ ys)
  take-cons-take zero y ys = refl
  take-cons-take (suc k) y ys = ap (◌∷◌ y) (take-take k (suc k) ys (omega arith))

  take-insert-take :
      (k : ℕ) (x : A) (ys : List A)
      → take k (insert before x (take k ys)) ≡ take k (insert before x ys)
  unfolding insert
  take-insert-take zero x ys = refl
  take-insert-take (suc k) x [] = refl
  take-insert-take (suc k) x (y ∷ ys) = elim (Bool-cases (before x y)) [
    | inl e ↦ rw e (ap (◌∷◌ x) (take-cons-take k y ys))
    | inr e ↦ rw e (ap (◌∷◌ y) (take-insert-take k x ys))
  ]

module _ {ℓ} {A : Type ℓ} {before : A → A → Bool} (t : IsTotal before) where
  insert-merge :
      (x : A) (xs ys : List A)
      → All (λ y. before x y ≡ true) xs
      → insert before x (merge before xs ys) ≡ merge before (x ∷ xs) ys
  unfolding merge insert
  insert-merge x xs [] h = rw (merge_nil before xs) (insert_first before x xs h)
  insert-merge x [] (y ∷ ys) h = elim (Bool-cases (before x y)) [
    | inl e ↦ rw (e, merge) refl
    | inr e ↦ rw (e, merge) (ap (◌∷◌ y) (insert-merge x [] ys tt))
  ]
  insert-merge x (z ∷ xs) (y ∷ ys) h =
      ground (arith, t.trans x z y h.0, insert-merge x (z ∷ xs) ys h)

  -- Inserting the elements of a sorted list one by one, the last first, merges it.
  insert_all-eq-merge :
      (xs ys : List A) → IsSorted before xs → insert_all before xs ys ≡ merge before xs ys
  unfolding insert_all merge
  insert_all-eq-merge [] ys s = refl
  insert_all-eq-merge (x ∷ xs) ys s =
      ap (insert before x) (insert_all-eq-merge xs ys s.1) ∙ insert-merge x xs ys s.0

  take-insert_all :
      (k : ℕ) (xs ys zs : List A)
      → take k ys ≡ take k zs
      → take k (insert_all before xs ys) ≡ take k (insert_all before xs zs)
  unfolding insert_all
  take-insert_all k [] ys zs h = h
  take-insert_all k (x ∷ xs) ys zs h =
      sym (take-insert-take before k x _)
      ∙ ap (λ l. take k (insert before x l)) (take-insert_all k xs ys zs h)
      ∙ take-insert-take before k x _

  -- One sorted part may be cut to its first j elements, j ≥ k.
  take-sort-append :
      (k j : ℕ) (xs ys zs : List A)
      → k ≤ j
      → IsSorted before xs
      → take k (sort before ys) ≡ take k (sort before zs)
      → take k (sort before (take j xs ++ ys)) ≡ take k (sort before (xs ++ zs))
  take-sort-append k j xs ys zs h s rest =
      take k (sort before (take j xs ++ ys))
      ≡⟨ ap (take k) (sort-append before (take j xs) ys) ⟩
        take k (insert_all before (take j xs) (sort before ys))
      ≡⟨ take-insert_all k (take j xs) _ _ rest ⟩
        take k (insert_all before (take j xs) (sort before zs))
      ≡⟨ ap (take k) (insert_all-eq-merge (take j xs) _ (take-IsSorted before j xs s)) ⟩
        take k (merge before (take j xs) (sort before zs))
      ≡⟨ take-merge-take before k j xs _ h ⟩ take k (merge before xs (sort before zs))
      ≡⟨ ap (take k) (sym (insert_all-eq-merge xs _ s)) ⟩
        take k (insert_all before xs (sort before zs))
      ≡⟨ ap (take k) (sym (sort-append before xs zs)) ⟩ take k (sort before (xs ++ zs)) ∎

  -- The k best of sorted parts, each cut to its first j ≥ k, are the k best of the whole.
  pub top-concat-take :
      (k j : ℕ) (parts : List (List A))
      → k ≤ j
      → All (IsSorted before) parts
      → take k (sort before (concat (map (take j) parts))) ≡ take k (sort before (concat parts))
  top-concat-take k j [] h s = refl
  top-concat-take k j (xs ∷ parts) h s =
      take-sort-append k j xs _ _ h s.0 (top-concat-take k j parts h s.1)
