-- ===== src/Prelude/Loops.antt =====
-- `for` over a list, with a body that may raise: `none` is the exception.
use mathlib.Core.Path.{◌≡◌, refl, sym, ap, ◌∙◌}
use mathlib.Core.Option.{Option, none, some}
use mathlib.Core.List.{List, [], ◌∷◌, ◌++◌, map, append-nil, append_assoc}
use cascade_search_engine.Prelude.Lists.{All, concat}

unfoldable pub for_each {ℓ κ} :
    {A : Type ℓ} {S : Type κ} → (A → S → Option S) → List A → S → Option S
for_each body [] state = some state
for_each body (x ∷ xs) state = elim (body x state) [
  | none ↦ none
  | some next ↦ for_each body xs next
]

module _ {ℓ κ} {A : Type ℓ} {B : Type κ} where
  -- A loop whose body appends to a list and does not raise appends all that its rounds append.
  pub for_each-append :
      (body : A → List B → Option (List B)) (f : A → List B) (xs : List A) (out : List B)
      → All (λ x. (done : List B) → body x done ≡ some (done ++ f x)) xs
      → for_each body xs out ≡ some (out ++ concat (map f xs))
  unfolding for_each
  for_each-append body f [] out h = ap some (sym (append-nil out))
  for_each-append body f (x ∷ xs) out h =
      rw (h.0 out, for_each)
        (for_each-append body f xs (out ++ f x) h.1
          ∙ ap some (append_assoc out (f x) (concat (map f xs))))

  -- `[f(x) for x in xs]`, where f may raise
  unfoldable pub collect : (A → Option B) → List A → Option (List B)
  collect f [] = some []
  collect f (x ∷ xs) = elim (f x) [
    | none ↦ none
    | some y ↦ elim (collect f xs) [ none ↦ none | some ys ↦ some (y ∷ ys) ]
  ]

  pub collect-map :
      (f : A → Option B) (g : A → B) (xs : List A)
      → All (λ x. f x ≡ some (g x)) xs
      → collect f xs ≡ some (map g xs)
  unfolding collect
  collect-map f g [] h = refl
  collect-map f g (x ∷ xs) h = rw (h.0, collect) (rw (collect-map f g xs h.1) refl)
