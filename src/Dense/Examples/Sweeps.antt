-- ===== src/Dense/Examples/Sweeps.antt =====
-- A subset of a corpus of four documents, and sweeps over an index of them.
use Prim.Native.Nat.{ℕ, zero, suc, ◌≤◌}
use Prim.Native.String.{String}
use cascade_search_engine.Prelude.{
  Bool, true, false, not, ◌&&◌, none, some, [], ◌∷◌, List, ◌≡◌, refl, arith, ap, length-take,
  All-take, le→leb, leb, ltb, length, take, concat, map, any, keep_if, All, if◌then◌else◌, nat_beq,
}
use cascade_search_engine.Prelude.Keys.{nat_eq, nat_order, string_eq, is_in, Distinct}
use cascade_search_engine.Harness.Runs.{get_item}
use cascade_search_engine.Dense.Subset.{Doc, Numpy, select_subset_ids, write_subset}
use cascade_search_engine.Dense.Subset.Written.{chosen, after, IsNumpy}
use cascade_search_engine.Dense.Subset.Select.{nothing, ids_of, select-write_subset, All-self}
use cascade_search_engine.Dense.Sweep.{GroundTruth, Mean, sweep_hnsw}
use cascade_search_engine.Dense.Sweep.Grid.{IsMean, Known, is_low, hnsw_point, sweep_hnsw-eq}

abbrev doc : ℕ → String → Doc
doc id docid = record { docid = docid; id = id; text = "text" }

abbrev corpus : List Doc
corpus = doc 0 "0" ∷ doc 1 "1" ∷ doc 2 "2" ∷ doc 3 "3" ∷ []

corpus-Distinct : Distinct (ids_of corpus)
corpus-Distinct = (refl, (refl, (refl, (refl, tt))))

-- 1000 if every recall is whole, and 0 if not
abbrev is_whole : List (ℕ × ℕ) → Bool
is_whole [] = true
is_whole (r ∷ rs) = nat_beq r.0 r.1 && is_whole rs

abbrev whole_mean : Mean ℕ
whole_mean = record {
  mean = λ rs. if is_whole rs then 1000 else 0;
  nil = 0;
  one = 1000;
  nine_tenths = 900;
}

whole-IsMean : IsMean whole_mean
whole-IsMean r rs h = ground arith

abbrev exact : GroundTruth ℕ
exact = ("q1", (2, 9) ∷ (0, 4) ∷ []) ∷ []

abbrev answer : ℕ → ℕ → List (List ℕ)
answer m ef = (0 ∷ 2 ∷ []) ∷ []

exact_known : Known exact ("q1" ∷ [])
unfolding get_item
exact_known = (((2, 9) ∷ (0, 4) ∷ [], refl), tt)

sweep_hnsw-eq_example :
    sweep_hnsw whole_mean exact 2 ("q1" ∷ []) answer (16 ∷ 32 ∷ []) (64 ∷ 128 ∷ []) ≡ (
      if any
        (is_low whole_mean whole-IsMean exact 2 "q1" [] exact_known answer
          (λ m ef. refl)
          64
          (128 ∷ []))
        (16 ∷ 32 ∷ [])
      then none
      else some (
          concat (
            map
              (λ m.
                map
                  (hnsw_point whole_mean whole-IsMean exact 2 "q1" [] exact_known answer
                    (λ n ef. refl)
                    m)
                  (64 ∷ 128 ∷ []))
              (16 ∷ 32 ∷ []))))
sweep_hnsw-eq_example =
    sweep_hnsw-eq whole_mean whole-IsMean exact 2 "q1" [] exact_known answer (λ m ef. refl) 64
      (128 ∷ []) (16 ∷ 32 ∷ [])

-- the ids below a number, the last one first
abbrev below : ℕ → List ℕ
below zero = []
below (suc n) = n ∷ below n

length-below : (n : ℕ) → length (below n) ≡ n
length-below zero = refl
length-below (suc n) = ap suc (length-below n)

is_in-below : (a n : ℕ) → is_in a (below n) ≡ ltb a n
is_in-below a zero = ground arith
is_in-below a (suc n) = ground (arith, is_in-below a n)

below-Distinct : (n : ℕ) → Distinct (below n)
below-Distinct zero = tt
below-Distinct (suc n) = (ground (arith, is_in-below n n), below-Distinct n)

is_in-take : (a n : ℕ) (xs : List ℕ) → is_in a xs ≡ false → is_in a (take n xs) ≡ false
is_in-take a zero xs h = refl
is_in-take a (suc n) [] h = refl
is_in-take a (suc n) (x ∷ xs) h = ground (arith, is_in-take a n xs)

take-Distinct : (n : ℕ) (xs : List ℕ) → Distinct xs → Distinct (take n xs)
take-Distinct zero xs d = tt
take-Distinct (suc n) [] d = tt
take-Distinct (suc n) (x ∷ xs) d = (is_in-take x n xs d.0, take-Distinct n xs d.1)

-- numpy with a generator that chooses the first
abbrev numpy : Numpy
numpy = record {
  arange = below;
  setdiff1d = λ xs ys. keep_if (λ x. not (is_in x ys)) xs;
  choice = λ seed xs n. if leb n (length xs) then some (take n xs) else none;
}

choice_first :
    (seed : ℕ) (xs : List ℕ) (n : ℕ)
    → Distinct xs
    → n ≤ length xs
    → (fill : List ℕ) × (numpy.choice seed xs n ≡ some fill)
      × (length fill ≡ n)
      × Distinct fill
      × All (λ a. is_in a xs ≡ true) fill
choice_first seed xs n d h = (
  take n xs,
  ap (λ b. if b then some (take n xs) else none) (le→leb n (length xs) h),
  omega (arith, length-take n xs),
  take-Distinct n xs d,
  All-take (λ a. is_in a xs ≡ true) n xs (All-self xs),
)

abbrev promised : IsNumpy numpy
promised = record {
  length-arange = length-below;
  is_in-arange = is_in-below;
  arange-Distinct = below-Distinct;
  setdiff1d-eq = λ xs ys d. refl;
  choice_fill = choice_first;
}

select-write_subset_example :
    (ids : List ℕ) × (select_subset_ids numpy (3 ∷ []) 4 0 2 ≡ some ids)
    × All (λ a. is_in a ids ≡ true) (3 ∷ [])
    × (write_subset ids corpus ≡ (true, after nothing (chosen ids corpus)))
    × (length (chosen ids corpus) ≡ 2)
select-write_subset_example =
    select-write_subset numpy promised (3 ∷ []) 4 0 2 (refl, tt) (refl, tt) (omega arith)
      (omega arith) corpus corpus-Distinct (refl, (refl, (refl, (refl, tt))))
