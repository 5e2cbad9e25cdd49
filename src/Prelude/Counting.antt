-- ===== src/Prelude/Counting.antt =====
-- Counting with a Boolean test, and cutting a list before it is filtered.
use Prim.Native.Nat.{ℕ, zero, suc, ◌+◌, ◌≤◌}
use mathlib.Core.Path.{◌≡◌, refl, sym, ap, ◌∙◌}
use mathlib.Core.Logic.{inl, inr}
use mathlib.Core.Bool.{Bool, true, false, not, ◌||◌}
use mathlib.Core.List.{List, [], ◌∷◌, map}
use native.Mathlib.Nat.{suc-add, add-suc}
use native.Mathlib.Omega.{arith}
use cascade_search_engine.Prelude.Tests.{Bool-cases}
use cascade_search_engine.Prelude.Lists.{length, take, keep_if, count_if, All}
use cascade_search_engine.Prelude.Keys.{Eq, ◌==◌, is_in, Distinct}

module _ {ℓ} {A : Type ℓ} where
  count_if-or :
      (p q : A → Bool) (xs : List A) → count_if (λ x. p x || q x) xs ≤ count_if p xs + count_if q xs
  count_if-or p q [] = omega arith
  count_if-or p q (x ∷ xs) = ground (arith, count_if-or p q xs)

  count_if_never : (xs : List A) → count_if (λ x. false) xs ≡ 0
  count_if_never [] = refl
  count_if_never (x ∷ xs) = count_if_never xs

  pub count_if-not-not :
      (p : A → Bool) (xs : List A) → count_if (λ x. not (not (p x))) xs ≡ count_if p xs
  count_if-not-not p [] = refl
  count_if-not-not p (x ∷ xs) = ground (arith, count_if-not-not p xs)

  -- The first k elements that pass are among the first k + t, if at most t elements fail.
  pub take-keep_if-take :
      (p : A → Bool) (k t : ℕ) (xs : List A)
      → count_if (λ x. not (p x)) xs ≤ t
      → take k (keep_if p (take (k + t) xs)) ≡ take k (keep_if p xs)
  take-keep_if-take p zero t xs h = refl
  take-keep_if-take p (suc k) t [] h = rw suc-add refl
  take-keep_if-take p (suc k) zero (x ∷ xs) h = elim (Bool-cases (p x)) [
    | inl e ↦ rw (suc-add, e) (ap (◌∷◌ x) (take-keep_if-take p k zero xs (rw e at h)))
    | inr e ↦ absurd (omega (arith, rw e at h))
  ]
  take-keep_if-take p (suc k) (suc t) (x ∷ xs) h = elim (Bool-cases (p x)) [
    | inl e ↦ rw (suc-add, e) (ap (◌∷◌ x) (take-keep_if-take p k (suc t) xs (rw e at h)))
    | inr e ↦
        let rest = take-keep_if-take p (suc k) t xs (omega (arith, rw e at h)) in
        rw (suc-add, e, add-suc) (rw suc-add at rest)
  ]

module _ {ℓ κ} {A : Type ℓ} {K : Type κ} ⦃e : Eq K⦄ (key : A → K) where
  count_if_absent :
      (a : K) (xs : List A) → is_in a (map key xs) ≡ false → count_if (λ x. a == key x) xs ≡ 0
  count_if_absent a [] h = refl
  count_if_absent a (x ∷ xs) h =
      ground (arith, count_if_absent a xs, e.is_same-iff a (key x), e.is_same-iff (key x) a)

  count_if_once : (a : K) (xs : List A) → Distinct (map key xs) → count_if (λ x. a == key x) xs ≤ 1
  count_if_once a [] h = omega arith
  count_if_once a (x ∷ xs) h =
      ground (arith, count_if_once a xs h.1, count_if_absent a xs, e.is_same-iff a (key x))

  -- At most as many elements of a list of distinct keys have their key in `banned` as `banned` is long.
  pub count_if-is_in-le :
      (banned : List K) (xs : List A)
      → Distinct (map key xs)
      → count_if (λ x. is_in (key x) banned) xs ≤ length banned
  count_if-is_in-le [] xs h = omega (arith, count_if_never xs)
  count_if-is_in-le (a ∷ banned) xs h = omega (
    arith,
    count_if-or (λ x. a == key x) (λ x. is_in (key x) banned) xs,
    count_if_once a xs h,
    count_if-is_in-le banned xs h,
  )

  count_if_present :
      (a : K) (xs : List A)
      → Distinct (map key xs)
      → is_in a (map key xs) ≡ true
      → count_if (λ x. a == key x) xs ≡ 1
  count_if_present a [] d h = absurd (cc h)
  count_if_present a (x ∷ xs) d h = ground (
    arith,
    count_if_present a xs d.1,
    count_if_absent a xs,
    e.is_same-iff a (key x),
    e.is_same-iff (key x) a,
  )

  count_if-cons :
      (a : K) (keys : List K) (xs : List A)
      → is_in a keys ≡ false
      → count_if (λ x. is_in (key x) (a ∷ keys)) xs
        ≡ count_if (λ x. a == key x) xs + count_if (λ x. is_in (key x) keys) xs
  count_if-cons a keys [] h = omega arith
  count_if-cons a keys (x ∷ xs) h = elim (Bool-cases (a == key x)) [
    | inl same ↦
        let absent : is_in (key x) keys ≡ false =
          ap (λ k. is_in k keys) (sym ((e.is_same-iff a (key x)).0 same)) ∙ h in
        ground (arith, count_if-cons a keys xs h)
    | inr other ↦ ground (arith, count_if-cons a keys xs h)
  ]

  -- Of distinct keys, as many elements have theirs among `keys` as `keys` is long, if all of `keys` occur.
  pub count_if-is_in :
      (keys : List K) (xs : List A)
      → Distinct keys
      → Distinct (map key xs)
      → All (λ k. is_in k (map key xs) ≡ true) keys
      → count_if (λ x. is_in (key x) keys) xs ≡ length keys
  count_if-is_in [] xs d f h = count_if_never xs
  count_if-is_in (a ∷ keys) xs d f h = omega (
    arith,
    count_if-cons a keys xs d.0,
    count_if_present a xs f h.0,
    count_if-is_in keys xs d.1 f h.1,
  )

  -- ... and not otherwise.
  pub All-of_count_if :
      (keys : List K) (xs : List A)
      → Distinct keys
      → Distinct (map key xs)
      → count_if (λ x. is_in (key x) keys) xs ≡ length keys
      → All (λ k. is_in k (map key xs) ≡ true) keys
  All-of_count_if [] xs d f h = tt
  All-of_count_if (a ∷ keys) xs d f h =
      let sum = count_if-cons a keys xs d.0 in
      let le = count_if-is_in-le keys xs f in
      let once = count_if_once a xs f in
      let count : count_if (λ x. a == key x) xs ≡ 1 = omega arith in
      (
        elim (Bool-cases (is_in a (map key xs))) [
          | inl found ↦ found
          | inr missing ↦ absurd (omega (arith, count_if_absent a xs missing))
        ],
        All-of_count_if keys xs d.1 f (omega arith),
      )

module _ {ℓ} {A : Type ℓ} ⦃e : Eq A⦄ where
  -- What a filter leaves passes its test and was there.
  pub is_in-of_keep_if :
      (p : A → Bool) (a : A) (xs : List A)
      → is_in a (keep_if p xs) ≡ true
      → (p a ≡ true) × (is_in a xs ≡ true)
  is_in-of_keep_if p a [] h = absurd (cc h)
  is_in-of_keep_if p a (x ∷ xs) h = elim (Bool-cases (p x)) [
    | inl pass ↦ elim (Bool-cases (x == a)) [
      | inl same ↦ (ap p (sym ((e.is_same-iff x a).0 same)) ∙ pass, ap (λ b. b || is_in a xs) same)
      | inr other ↦ ground (arith, is_in-of_keep_if p a xs)
    ]
    | inr fail ↦ ground (arith, is_in-of_keep_if p a xs)
  ]
