-- ===== src/Harness/Loadgen/Arrivals.antt =====
-- The arrivals end, in order, within the run.
use cascade_search_engine.Prelude.{
  ℕ, zero, suc, ◌+◌, ◌≤◌, ◌<◌, Bool, false, Option, none, some, List, [], ◌∷◌, ◌++◌, ◌≡◌, refl, sym,
  ap, ◌∙◌, arith, append-nil, append_assoc, leb, leb→le, not-leb→lt, ◌⊎◌, inl, inr, Bool-cases,
  if◌then◌else◌,
}
use cascade_search_engine.Harness.Loadgen.{arrivals_from, poisson_arrivals}

-- from a time on, none is earlier than the one before, and all are before the end
abbrev pub Ascends : ℕ → ℕ → List ℕ → Type 0
Ascends t duration [] = Unit
Ascends t duration (a ∷ arrivals) = (t ≤ a) × (a < duration) × Ascends a duration arrivals

leb-of_pos : (qps : ℕ) → 0 < qps → leb qps 0 ≡ false
leb-of_pos qps h = ground arith

module _ (gap : ℕ → ℕ) where
  -- the first n arrivals after a time, by the draws from the i-th on
  abbrev pub sums : ℕ → ℕ → ℕ → List ℕ
  sums i t zero = []
  sums i t (suc n) = (t + gap i) ∷ sums (suc i) (t + gap i) n

  -- the time of the n-th of them
  abbrev pub time_of : ℕ → ℕ → ℕ → ℕ
  time_of i t zero = t
  time_of i t (suc n) = time_of (suc i) (t + gap i) n

  module _ (duration : ℕ) where
    -- the arrivals of a run that stops after n
    abbrev pub StopsAt : ℕ → ℕ → ℕ → Type 0
    StopsAt i t n = Ascends t duration (sums i t n) × (duration ≤ time_of i t (suc n))

    arrivals_from-StopsAt :
        (rounds i t : ℕ) (arrivals : List ℕ)
        → t < duration
        → ((time_of i t rounds < duration)
            × (arrivals_from rounds gap duration i t arrivals ≡ none))
          ⊎ ((n : ℕ) × (n < rounds)
              × (arrivals_from rounds gap duration i t arrivals ≡ some (arrivals ++ sums i t n))
              × StopsAt i t n)
    unfolding arrivals_from
    arrivals_from-StopsAt zero i t arrivals k = inl (k, refl)
    arrivals_from-StopsAt (suc rounds) i t arrivals k =
        let next = t + gap i in
        let loop : Bool → Option (List ℕ) = λ b.
          if b
          then some arrivals
          else arrivals_from rounds gap duration (suc i) next (arrivals ++ next ∷ []) in
        elim (Bool-cases (leb duration next)) [
          | inl done ↦ inr (
            0,
            omega arith,
            ap loop done ∙ ap some (sym (append-nil arrivals)),
            (tt, leb→le duration next done),
          )
          | inr more ↦
              let before : next < duration = not-leb→lt duration next more in
              elim (arrivals_from-StopsAt rounds (suc i) next (arrivals ++ next ∷ []) before) [
                | inl (short, nothing) ↦ inl (short, ap loop more ∙ nothing)
                | inr (n, fits, returns, stops) ↦ inr (
                  suc n,
                  omega (arith, fits),
                  ap loop more
                      ∙ returns
                      ∙ ap some (append_assoc arrivals (next ∷ []) (sums (suc i) next n)),
                  ((omega arith, before, stops.0), stops.1),
                )
              ]
        ]

    -- With a positive rate and a run of at least one tick, whatever the draws: within a number of rounds
    -- the loop does not end only if that many draws add up to less than the run. Otherwise it ends, and the
    -- arrivals are the sums of the first n draws, fewer than the rounds, none earlier than the one before
    -- and all before the end, and the next sum is not before the end.
    pub poisson_arrivals-StopsAt :
        (rounds qps : ℕ)
        → 0 < qps
        → 0 < duration
        → ((time_of 0 0 rounds < duration) × (poisson_arrivals rounds qps gap duration ≡ none))
          ⊎ ((n : ℕ) × (n < rounds)
              × (poisson_arrivals rounds qps gap duration ≡ some (sums 0 0 n))
              × StopsAt 0 0 n)
    unfolding poisson_arrivals
    poisson_arrivals-StopsAt rounds qps h k =
        let paid : poisson_arrivals rounds qps gap duration
            ≡ arrivals_from rounds gap duration 0 0 [] =
          ap (λ b. if b then none else arrivals_from rounds gap duration 0 0 [])
            (leb-of_pos qps h) in
        elim (arrivals_from-StopsAt rounds 0 0 [] k) [
          | inl (short, nothing) ↦ inl (short, paid ∙ nothing)
          | inr (n, fits, returns, stops) ↦ inr (n, fits, paid ∙ returns, stops)
        ]
