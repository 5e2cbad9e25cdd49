-- ===== src/Prelude/Perms.antt =====
-- What a permutation keeps, for the Boolean tests of this library.
use Prim.Native.Nat.{suc}
use mathlib.Core.Path.{◌≡◌, refl, sym, ap, ◌∙◌, subst}
use mathlib.Core.Logic.{inl, inr}
use mathlib.Core.Bool.{Bool, true, false, not, ◌||◌}
use mathlib.Core.List.{List, [], ◌∷◌, ◌++◌, map, Permᴰ, append_assoc, map-append}
use mathlib.Core.List.Permᴰ
use native.Mathlib.Omega.{arith}
use cascade_search_engine.Prelude.Tests.{Bool-cases}
use cascade_search_engine.Prelude.Lists.{
  length, concat, keep_if, All, All-imp, All-both, All-of_forall,
}
use cascade_search_engine.Prelude.Keys.{Eq, ◌==◌, is_in, Distinct, beq_refl}

module _ {ℓ} {A : Type ℓ} where
  pub swap_front : (xs ys zs : List A) → Permᴰ (xs ++ (ys ++ zs)) (ys ++ (xs ++ zs))
  swap_front xs ys zs =
      subst (λ l. Permᴰ l (ys ++ (xs ++ zs))) (append_assoc xs ys zs)
        (subst (λ l. Permᴰ ((xs ++ ys) ++ zs) l) (append_assoc ys xs zs)
          (Permᴰ.append_right zs (Permᴰ.append_comm xs ys)))

  pub concat-perm : {xs ys : List (List A)} → Permᴰ xs ys → Permᴰ (concat xs) (concat ys)
  concat-perm Permᴰ.nil = Permᴰ.nil
  concat-perm (Permᴰ.cons {a = a} {b = b} e p) = rw (← e) (Permᴰ.append_left a (concat-perm p))
  concat-perm (Permᴰ.swap {a = a} {b = b} {a' = a'} {b' = b'} {l = l} e f) =
      rw (← f, ← e) (swap_front a b (concat l))
  concat-perm (Permᴰ.trans p q) = Permᴰ.trans (concat-perm p) (concat-perm q)

  pub keep_if-perm :
      (p : A → Bool) {xs ys : List A} → Permᴰ xs ys → Permᴰ (keep_if p xs) (keep_if p ys)
  keep_if-perm p Permᴰ.nil = Permᴰ.nil
  keep_if-perm p (Permᴰ.cons {a = a} {b = b} e q) = elim (Bool-cases (p a)) [
    | inl h ↦ rw (h, ap p (sym e) ∙ h) (Permᴰ.cons e (keep_if-perm p q))
    | inr h ↦ rw (h, ap p (sym e) ∙ h) (keep_if-perm p q)
  ]
  keep_if-perm p (Permᴰ.swap {a = a} {b = b} {a' = a'} {b' = b'} {l = l} e f) =
      rw (← f, ← e)
        (elim (Bool-cases (p a)) [
          | inl h ↦ elim (Bool-cases (p b)) [
            | inl k ↦ rw (h, k) (Permᴰ.swap refl refl)
            | inr k ↦ rw (h, k) (Permᴰ.refl _)
          ]
          | inr h ↦ elim (Bool-cases (p b)) [
            | inl k ↦ rw (h, k) (Permᴰ.refl _)
            | inr k ↦ rw (h, k) (Permᴰ.refl _)
          ]
        ])
  keep_if-perm p (Permᴰ.trans q r) = Permᴰ.trans (keep_if-perm p q) (keep_if-perm p r)

  pub All-perm {κ} : (P : A → Type κ) {xs ys : List A} → Permᴰ xs ys → All P xs → All P ys
  All-perm P Permᴰ.nil h = tt
  All-perm P (Permᴰ.cons e q) h = (subst P e h.0, All-perm P q h.1)
  All-perm P (Permᴰ.swap e f) h = (subst P f h.1.0, (subst P e h.0, h.1.1))
  All-perm P (Permᴰ.trans q r) h = All-perm P r (All-perm P q h)

module _ {ℓ} {A : Type ℓ} ⦃e : Eq A⦄ where
  pub is_in-append : (a : A) (xs ys : List A) → is_in a (xs ++ ys) ≡ (is_in a xs || is_in a ys)
  is_in-append a [] ys = refl
  is_in-append a (x ∷ xs) ys = ground (arith, is_in-append a xs ys)

  pub is_in_of_append_right :
      (a : A) (xs ys : List A) → is_in a (xs ++ ys) ≡ false → is_in a ys ≡ false
  is_in_of_append_right a xs ys h = ground (arith, is_in-append a xs ys)

  pub beq_comm : (a b : A) → (a == b) ≡ (b == a)
  beq_comm a b = ground (arith, e.is_same-iff a b, e.is_same-iff b a)

  pub is_in-perm : (a : A) {xs ys : List A} → Permᴰ xs ys → is_in a xs ≡ is_in a ys
  is_in-perm a Permᴰ.nil = refl
  is_in-perm a (Permᴰ.cons {a = x} {b = y} h q) = cc (h, is_in-perm a q)
  is_in-perm a (Permᴰ.swap {a = x} {b = y} {a' = x'} {b' = y'} {l = l} h k) = ground arith
  is_in-perm a (Permᴰ.trans q r) = is_in-perm a q ∙ is_in-perm a r

  pub Distinct-perm : {xs ys : List A} → Permᴰ xs ys → Distinct xs → Distinct ys
  Distinct-perm Permᴰ.nil h = tt
  Distinct-perm (Permᴰ.cons {a = x} {b = y} {l₂ = l₂} i q) h =
      (subst (λ z. is_in z l₂ ≡ false) i (sym (is_in-perm x q) ∙ h.0), Distinct-perm q h.1)
  Distinct-perm (Permᴰ.swap {a = x} {b = y} {a' = x'} {b' = y'} {l = l} h k) d =
      (ground (arith, beq_comm x y), (ground arith, d.1.1))
  Distinct-perm (Permᴰ.trans q r) h = Distinct-perm r (Distinct-perm q h)

module _ {ℓ κ} {A : Type ℓ} {K : Type κ} ⦃e : Eq K⦄ (f : A → K) where
  All-other : (a : K) (xs : List A) → is_in a (map f xs) ≡ false → All (λ x. (a == f x) ≡ false) xs
  All-other a [] h = tt
  All-other a (x ∷ xs) h = (beq_comm a (f x) ∙ ground arith, All-other a xs (ground arith))

  -- In a list of distinct keys no key of the second part is one of the first.
  pub Distinct-apart :
      (xs ys : List A) → Distinct (map f (xs ++ ys)) → All (λ y. is_in (f y) (map f xs) ≡ false) ys
  Distinct-apart [] ys h = All-of_forall (λ y. false ≡ false) (λ y. refl) ys
  Distinct-apart (x ∷ xs) ys h =
      All-both (λ y. (f x == f y) ≡ false) (λ y. is_in (f y) (map f xs) ≡ false) _ (λ y p q. rw p q)
        ys
        (All-other (f x) ys
          (is_in_of_append_right (f x) (map f xs) (map f ys) (rw (map-append f xs ys) at h.0)))
        (Distinct-apart xs ys h.1)

  pub Distinct-of_append_right :
      (xs ys : List A) → Distinct (map f (xs ++ ys)) → Distinct (map f ys)
  Distinct-of_append_right [] ys h = h
  Distinct-of_append_right (x ∷ xs) ys h = Distinct-of_append_right xs ys h.1

  -- every key of a list is among its keys
  pub All-in : (xs : List A) → All (λ x. is_in (f x) (map f xs) ≡ true) xs
  All-in [] = tt
  All-in (x ∷ xs) =
      (rw (beq_refl (f x)) refl, All-imp _ _ (λ y h. ground (arith, h)) xs (All-in xs))

  -- Filtering by membership keeps all of what has no member, and nothing of what has only members.
  pub keep_if-not_in :
      (keys : List K) (xs : List A)
      → All (λ x. is_in (f x) keys ≡ false) xs
      → keep_if (λ x. not (is_in (f x) keys)) xs ≡ xs
  keep_if-not_in keys [] h = refl
  keep_if-not_in keys (x ∷ xs) h = rw h.0 (ap (◌∷◌ x) (keep_if-not_in keys xs h.1))

  pub keep_if-All_in :
      (keys : List K) (xs : List A)
      → All (λ x. is_in (f x) keys ≡ true) xs
      → keep_if (λ x. not (is_in (f x) keys)) xs ≡ []
  keep_if-All_in keys [] h = refl
  keep_if-All_in keys (x ∷ xs) h = rw h.0 (keep_if-All_in keys xs h.1)

pub length-perm {ℓ} : {A : Type ℓ} {xs ys : List A} → Permᴰ xs ys → length xs ≡ length ys
length-perm Permᴰ.nil = refl
length-perm (Permᴰ.cons e p) = ap suc (length-perm p)
length-perm (Permᴰ.swap e f) = refl
length-perm (Permᴰ.trans p q) = length-perm p ∙ length-perm q
