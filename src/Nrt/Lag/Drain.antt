-- ===== src/Nrt/Lag/Drain.antt =====
-- What the drain records and what it gives up.
use cascade_search_engine.Prelude.{
  ℕ, suc, ◌+◌, ◌-◌, Bool, true, false, not, ◌||◌, ◌&&◌, List, [], ◌∷◌, map, ◌≡◌, refl, sym, ap, ◌∙◌,
  arith, length, length-append, length-map, length-keep_if, keep_if, count_if, any,
}
use cascade_search_engine.Nrt.Lag.{Probe, still_remaining, lags, drain_pending}

abbrev pub Passes : Type 0
Passes = List (ℕ × (Probe → Bool))

-- no pass finds the document
abbrev pub is_never_found : Passes → Probe → Bool
is_never_found passes p = not (any (λ pass. pass.1 p) passes)

count_if-keep_if {ℓ} :
    {A : Type ℓ} (p q r : A → Bool)
    → ((x : A) → r x ≡ (p x && q x))
    → (xs : List A) → count_if q (keep_if p xs) ≡ count_if r xs
count_if-keep_if p q r h [] = refl
count_if-keep_if p q r h (x ∷ xs) = ground (arith, h x, count_if-keep_if p q r h xs)

count_if-total {ℓ} :
    {A : Type ℓ} (p : A → Bool) (xs : List A)
    → count_if p xs + count_if (λ x. not (p x)) xs ≡ length xs
count_if-total p [] = omega arith
count_if-total p (x ∷ xs) = ground (arith, count_if-total p xs)

count_if-always {ℓ} : {A : Type ℓ} (xs : List A) → count_if (λ x. true) xs ≡ length xs
count_if-always [] = refl
count_if-always (x ∷ xs) = ap suc (count_if-always xs)

not_either : (a b : Bool) → not (a || b) ≡ (not a && not b)
not_either true b = refl
not_either false b = refl

-- Every document is recorded once or left, and those are left that no pass finds, whose searches until the
-- deadline do not return them.
pub drain_pending-counts :
    (passes : Passes) (remaining : List Probe)
    → let (recorded, left) = drain_pending passes remaining in
      (length recorded + left ≡ length remaining)
      × (left ≡ count_if (is_never_found passes) remaining)
unfolding drain_pending still_remaining lags
drain_pending-counts [] remaining = (omega arith, sym (count_if-always remaining))
drain_pending-counts ((found_at, is_found) ∷ passes) [] = (omega arith, refl)
drain_pending-counts ((found_at, is_found) ∷ passes) (p ∷ remaining) =
    let all = p ∷ remaining in
    let kept = keep_if (λ x. not (is_found x)) all in
    let (total, left) = drain_pending-counts passes kept in
    let here = keep_if is_found all in
    (
      omega (
        arith,
        total,
        length-append (map (λ x. found_at - x.write_start) here) (drain_pending passes kept).0,
        length-map (λ (x : Probe). found_at - x.write_start) here,
        length-keep_if is_found all,
        length-keep_if (λ x. not (is_found x)) all,
        count_if-total is_found all,
      ),
      left
          ∙ count_if-keep_if (λ x. not (is_found x)) (is_never_found passes)
              (is_never_found ((found_at, is_found) ∷ passes)) (λ x. not_either (is_found x) _) all,
    )
