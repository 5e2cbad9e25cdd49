-- ===== src/Sort/Laws.antt =====
-- The sort returns a sorted permutation, and is stable.
use mathlib.Core.List.{Permᴰ}
use mathlib.Core.List.Permᴰ
use cascade_search_engine.Prelude.{
  ℕ, zero, suc, Bool, true, false, List, [], ◌∷◌, Perm, ◌≡◌, refl, sym, ap, ◌∙◌, inl, inr, arith,
  length, take, drop, All, All-imp, All-take, All-drop, All-keep_if, keep_if, Bool-cases,
}
use cascade_search_engine.Sort.{insert, sort, IsSorted, IsTotal}

module _ {ℓ} {A : Type ℓ} (before : A → A → Bool) where
  All-insert {κ} :
      (P : A → Type κ) (x : A) (xs : List A) → P x → All P xs → All P (insert before x xs)
  unfolding insert
  All-insert P x [] px h = (px, tt)
  All-insert P x (y ∷ ys) px h = elim (Bool-cases (before x y)) [
    | inl e ↦ rw e (px, h)
    | inr e ↦ rw e (h.0, All-insert P x ys px h.1)
  ]

  pub All-sort {κ} : (P : A → Type κ) (xs : List A) → All P xs → All P (sort before xs)
  unfolding sort
  All-sort P [] h = tt
  All-sort P (x ∷ xs) h = All-insert P x (sort before xs) h.0 (All-sort P xs h.1)

  insert-permᴰ : (x : A) (xs : List A) → Permᴰ (insert before x xs) (x ∷ xs)
  unfolding insert
  insert-permᴰ x [] = Permᴰ.refl (x ∷ [])
  insert-permᴰ x (y ∷ ys) = elim (Bool-cases (before x y)) [
    | inl e ↦ rw e (Permᴰ.refl (x ∷ y ∷ ys))
    | inr e ↦ rw e (Permᴰ.trans (Permᴰ.cons refl (insert-permᴰ x ys)) (Permᴰ.swap refl refl))
  ]

  pub sort-permᴰ : (xs : List A) → Permᴰ (sort before xs) xs
  unfolding sort
  sort-permᴰ [] = Permᴰ.nil
  sort-permᴰ (x ∷ xs) =
      Permᴰ.trans (insert-permᴰ x (sort before xs)) (Permᴰ.cons refl (sort-permᴰ xs))

  pub sort-perm : (xs : List A) → Perm (sort before xs) xs
  sort-perm xs = ∣ sort-permᴰ xs ∣₁

  length-insert : (x : A) (xs : List A) → length (insert before x xs) ≡ suc (length xs)
  unfolding insert
  length-insert x [] = refl
  length-insert x (y ∷ ys) = ground (arith, length-insert x ys)

  pub length-sort : (xs : List A) → length (sort before xs) ≡ length xs
  unfolding sort
  length-sort [] = refl
  length-sort (x ∷ xs) = length-insert x (sort before xs) ∙ ap suc (length-sort xs)

  -- an element that may precede all of a list goes to its front
  pub insert_first :
      (x : A) (xs : List A) → All (λ y. before x y ≡ true) xs → insert before x xs ≡ x ∷ xs
  unfolding insert
  insert_first x [] h = refl
  insert_first x (y ∷ ys) h = rw h.0

  pub sort_of_IsSorted : (xs : List A) → IsSorted before xs → sort before xs ≡ xs
  unfolding sort
  sort_of_IsSorted [] h = refl
  sort_of_IsSorted (x ∷ xs) h = rw (sort_of_IsSorted xs h.1) (insert_first x xs h.0)

  pub take-IsSorted : (n : ℕ) (xs : List A) → IsSorted before xs → IsSorted before (take n xs)
  take-IsSorted zero xs s = tt
  take-IsSorted (suc n) [] s = tt
  take-IsSorted (suc n) (x ∷ xs) s = (All-take _ n xs s.0, take-IsSorted n xs s.1)

  -- what stands in the first n may precede all that stands after them
  pub cut-IsSorted :
      (n : ℕ) (xs : List A)
      → IsSorted before xs
      → All (λ x. All (λ y. before x y ≡ true) (drop n xs)) (take n xs)
  cut-IsSorted zero xs s = tt
  cut-IsSorted (suc n) [] s = tt
  cut-IsSorted (suc n) (x ∷ xs) s = (All-drop _ n xs s.0, cut-IsSorted n xs s.1)

  pub keep_if-IsSorted :
      (p : A → Bool) (xs : List A) → IsSorted before xs → IsSorted before (keep_if p xs)
  keep_if-IsSorted p [] s = tt
  keep_if-IsSorted p (x ∷ xs) s = elim (Bool-cases (p x)) [
    | inl e ↦ rw e (All-keep_if _ p xs s.0, keep_if-IsSorted p xs s.1)
    | inr e ↦ rw e (keep_if-IsSorted p xs s.1)
  ]

module _ {ℓ} {A : Type ℓ} {before : A → A → Bool} (t : IsTotal before) where
  -- below the head of a sorted list is below all of it
  pub All-of_head :
      (x y : A) (ys : List A)
      → before x y ≡ true
      → All (λ z. before y z ≡ true) ys
      → All (λ z. before x z ≡ true) ys
  All-of_head x y ys h = All-imp _ _ (λ z. t.trans x y z h) ys

  insert-IsSorted :
      (x : A) (xs : List A) → IsSorted before xs → IsSorted before (insert before x xs)
  unfolding insert
  insert-IsSorted x [] s = (tt, tt)
  insert-IsSorted x (y ∷ ys) s = elim (Bool-cases (before x y)) [
    | inl e ↦ rw e ((e, All-of_head x y ys e s.0), s)
    | inr e ↦ rw e (
      All-insert before (λ z. before y z ≡ true) x ys (t.total x y e) s.0,
      insert-IsSorted x ys s.1,
    )
  ]

  pub sort-IsSorted : (xs : List A) → IsSorted before (sort before xs)
  unfolding sort
  sort-IsSorted [] = tt
  sort-IsSorted (x ∷ xs) = insert-IsSorted x (sort before xs) (sort-IsSorted xs)

  keep_if-insert_out :
      (p : A → Bool) (x : A) (xs : List A)
      → p x ≡ false
      → keep_if p (insert before x xs) ≡ keep_if p xs
  unfolding insert
  keep_if-insert_out p x [] out = rw out
  keep_if-insert_out p x (y ∷ ys) out = ground (arith, keep_if-insert_out p x ys out)

  keep_if-insert_in :
      (p : A → Bool) (x : A) (xs : List A)
      → p x ≡ true
      → IsSorted before xs
      → keep_if p (insert before x xs) ≡ insert before x (keep_if p xs)
  unfolding insert
  keep_if-insert_in p x [] kept s = rw kept
  keep_if-insert_in p x (y ∷ ys) kept s = elim (Bool-cases (before x y)) [
    | inl e ↦
        let below = All-keep_if _ p (y ∷ ys) (e, All-of_head x y ys e s.0) in
        rw (e, kept) (sym (insert_first before x (keep_if p (y ∷ ys)) below))
    | inr e ↦ ground (arith, keep_if-insert_in p x ys kept s.1)
  ]

  -- Stability: whatever part of the input is looked at, it comes out as if sorted by itself.
  pub keep_if-sort :
      (p : A → Bool) (xs : List A) → keep_if p (sort before xs) ≡ sort before (keep_if p xs)
  unfolding sort
  keep_if-sort p [] = refl
  keep_if-sort p (x ∷ xs) = elim (Bool-cases (p x)) [
    | inl e ↦
        keep_if-insert_in p x (sort before xs) e (sort-IsSorted xs) ∙ rw (e, keep_if-sort p xs) refl
    | inr e ↦ rw e (keep_if-insert_out p x (sort before xs) e ∙ keep_if-sort p xs)
  ]
