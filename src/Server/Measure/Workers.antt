-- ===== src/Server/Measure/Workers.antt =====
-- What the workers of a load keep, in whatever order their pieces come.
use mathlib.Core.Path.{subst}
use cascade_search_engine.Prelude.{
  ℕ, zero, suc, ◌+◌, Option, none, some, List, [], ◌∷◌, ◌++◌, length, length-append, ◌≡◌, refl, sym,
  arith, inl, inr, false, count_if, Option-cases, All, All-imp, All-append,
}
use cascade_search_engine.Harness.Loadgen.{Served}
use cascade_search_engine.Server.Measure.{
  Response, Client, Request, served, Task, Piece, arrive, go_on, Load, Act, settle, advance_at,
  step_load, serve,
}

-- the requests whose call returns
unfoldable pub arrivals_in : List Piece → ℕ
arrivals_in [] = 0
arrivals_in (arrive q ∷ pieces) = suc (arrivals_in pieces)
arrivals_in (go_on i ∷ pieces) = arrivals_in pieces

one_more :
    (piece : Piece) (pieces : List Piece) (total : ℕ)
    → total + arrivals_in (piece ∷ []) + arrivals_in pieces ≡ total + arrivals_in (piece ∷ pieces)
unfolding arrivals_in
one_more (arrive q) pieces total = omega arith
one_more (go_on i) pieces total = omega arith

abbrev pub answered_in : List Served → ℕ
answered_in = count_if (λ s. s.ok)

answered_in-append :
    (xs ys : List Served) → answered_in (xs ++ ys) ≡ answered_in xs + answered_in ys
answered_in-append [] ys = omega arith
answered_in-append (x ∷ xs) ys = ground (arith, answered_in-append xs ys)

module _ {Server A Progress : Type 0} (client : Client Server) (act : Act A Progress)
    (first : Progress) where
  pub arrive-raised :
      (q : Request) (s : Load Server A Progress)
      → (client s.server q.query).1 ≡ none
      → step_load client act first (arrive q) s ≡ record s {
        server = (client s.server q.query).0;
        records = s.records ++ served q false ∷ [];
      }
  unfolding step_load
  arrive-raised q s h = rw (h, step_load) refl

  pub arrive-answered :
      (q : Request) (s : Load Server A Progress) (response : Response)
      → (client s.server q.query).1 ≡ some response
      → step_load client act first (arrive q) s ≡ record s {
        server = (client s.server q.query).0;
        tasks = s.tasks ++ record { request = q; response = response; progress = first } ∷ [];
      }
  unfolding step_load
  arrive-answered q s response h = rw (h, step_load) refl

module _ {A Progress : Type 0} (act : Act A Progress) (first : Progress)
    (weight : Task Progress → ℕ) (Good : A → ℕ → ℕ → Type 0)
    (Fits : A → ℕ → Task Progress → Type 0) where
  abbrev pub weights : List (Task Progress) → ℕ
  weights [] = 0
  weights (task ∷ tasks) = weight task + weights tasks

  -- what an act must give, n workers having ended and the others weighing m
  abbrev pub After : ℕ → ℕ → Option (Task Progress) × A → Type 0
  After n m (none, a) = Good a (suc n) m
  After n m (some task, a) = Good a n (weight task + m) × Fits a n task

  -- The variables are good, and what each worker has read fits them.
  pub record IsSound {Server : Type 0} (total : ℕ) (s : Load Server A Progress) : Type 0 where
    pub good : Good s.shared (answered_in s.records) (weights s.tasks)
    pub fit : All (Fits s.shared (answered_in s.records)) s.tasks
    pub counted : length s.records + length s.tasks ≡ total

  module _
      (acts : (task : Task Progress) (a : A) (n m : ℕ)
        → Good a n (weight task + m)
        → Fits a n task
        → After n m (act task a))
      (others : (task other : Task Progress) (a : A) (n : ℕ)
        → Fits a n other
        → Fits (act task a).1 n other)
      (later : (other : Task Progress) (a : A) (n : ℕ) → Fits a n other → Fits a (suc n) other)
      (starts : (q : Request) (response : Response) (a : A) (n : ℕ)
        → (weight (record { request = q; response = response; progress = first }) ≡ 0)
          × Fits a n (record { request = q; response = response; progress = first })) where
    -- What going on gives: who ends, and what fits then.
    record Goes (n m : ℕ) (a : A) (tasks : List (Task Progress))
        (r : List (Task Progress) × A × List Served) : Type 0 where
      good : Good r.1 (n + answered_in r.2) (weights r.0 + m)
      fit : All (Fits r.1 (n + answered_in r.2)) r.0
      rest : (other : Task Progress) → Fits a n other → Fits r.1 (n + answered_in r.2) other
      counted : length r.2 + length r.0 ≡ length tasks

    settle-Goes :
        (n m : ℕ) (a : A) (task : Task Progress) (tasks : List (Task Progress))
        (r : Option (Task Progress) × A)
        → After n (weights tasks + m) r
        → ((other : Task Progress) → Fits a n other → Fits r.1 n other)
        → All (Fits a n) tasks
        → Goes n m a (task ∷ tasks) (settle task.request tasks r)
    unfolding settle
    settle-Goes n m a task tasks (none, a') g o f =
        let one : n + 1 ≡ suc n = omega arith in
        let kept : (other : Task Progress) → Fits a n other → Fits a' (n + 1) other =
          λ other h. subst (λ k. Fits a' k other) (sym one) (later other a' n (o other h)) in
        record {
          good = subst (λ k. Good a' k (weights tasks + m)) (sym one) g;
          fit = All-imp _ _ kept tasks f;
          rest = kept;
          counted = omega arith;
        }
    settle-Goes n m a task tasks (some task', a') g o f =
        let same : n + 0 ≡ n = omega arith in
        let kept : (other : Task Progress) → Fits a n other → Fits a' (n + 0) other =
          λ other h. subst (λ k. Fits a' k other) (sym same) (o other h) in
        record {
          good =
              subst (λ k. Good a' k (weight task' + weights tasks + m)) (sym same)
                (subst (Good a' n) (omega arith) g.0);
          fit = (subst (λ k. Fits a' k task') (sym same) g.1, All-imp _ _ kept tasks f);
          rest = kept;
          counted = omega arith;
        }

    advance_at-Goes :
        (i n m : ℕ) (a : A) (tasks : List (Task Progress))
        → Good a n (weights tasks + m)
        → All (Fits a n) tasks
        → Goes n m a tasks (advance_at act i tasks a)
    unfolding advance_at
    advance_at-Goes i n m a [] g f =
        let same : n + 0 ≡ n = omega arith in
        record {
          good = subst (λ k. Good a k (0 + m)) (sym same) g;
          fit = tt;
          rest = λ other h. subst (λ k. Fits a k other) (sym same) h;
          counted = refl;
        }
    advance_at-Goes zero n m a (task ∷ tasks) g f =
        settle-Goes n m a task tasks (act task a)
          (acts task a n (weights tasks + m) (subst (Good a n) (omega arith) g) f.0)
          (λ other. others task other a n) f.1
    advance_at-Goes (suc i) n m a (task ∷ tasks) g f =
        let goes =
          advance_at-Goes i n (weight task + m) a tasks (subst (Good a n) (omega arith) g) f.1 in
        record {
          good = subst (Good _ _) (omega arith) goes.good;
          fit = (goes.rest task f.0, goes.fit);
          rest = goes.rest;
          counted = omega (arith, goes.counted);
        }

    module _ {Server : Type 0} (client : Client Server) where
      weights-append : (xs ys : List (Task Progress)) → weights (xs ++ ys) ≡ weights xs + weights ys
      weights-append [] ys = omega arith
      weights-append (x ∷ xs) ys = omega (arith, weights-append xs ys)

      to_IsSound :
          (s : Load Server A Progress) (n m total : ℕ)
          → n ≡ answered_in s.records
          → m ≡ weights s.tasks
          → Good s.shared n m
          → All (Fits s.shared n) s.tasks
          → length s.records + length s.tasks ≡ total
          → IsSound total s
      to_IsSound s n m total e f g fit counted = record {
        good = subst (λ k. Good s.shared k (weights s.tasks)) e (subst (Good s.shared n) f g);
        fit = subst (λ k. All (Fits s.shared k) s.tasks) e fit;
        counted = counted;
      }

      step_load-IsSound :
          (piece : Piece) (total : ℕ) (s : Load Server A Progress)
          → IsSound total s
          → IsSound (total + arrivals_in (piece ∷ [])) (step_load client act first piece s)
      unfolding step_load arrivals_in advance_at
      step_load-IsSound (arrive q) total s v = elim (Option-cases (client s.server q.query).1) [
        | inl raises ↦
            let s' = record s {
              server = (client s.server q.query).0;
              records = s.records ++ served q false ∷ [];
            } in
            subst (IsSound (total + 1)) (sym (arrive-raised client act first q s raises)) (
              to_IsSound s' (answered_in s.records) (weights s.tasks) (total + 1)
                (omega (arith, answered_in-append s.records (served q false ∷ []))) refl v.good
                v.fit (omega (arith, v.counted, length-append s.records (served q false ∷ []))))
        | inr (response, answers) ↦
            let task : Task Progress = record {
              request = q;
              response = response;
              progress = first;
            } in
            let s' = record s {
              server = (client s.server q.query).0;
              tasks = s.tasks ++ task ∷ [];
            } in
            let (light, fits) = starts q response s.shared (answered_in s.records) in
            subst (IsSound (total + 1))
              (sym (arrive-answered client act first q s response answers))
              (to_IsSound s' (answered_in s.records) (weights s.tasks) (total + 1) refl
                (omega (arith, weights-append s.tasks (task ∷ []), light)) v.good
                (All-append (Fits s.shared (answered_in s.records)) s.tasks (task ∷ []) v.fit
                  (fits, tt))
                (omega (arith, v.counted, length-append s.tasks (task ∷ []))))
      ]
      step_load-IsSound (go_on i) total s v =
          let n = answered_in s.records in
          let goes =
            advance_at-Goes i n 0 s.shared s.tasks (subst (Good s.shared n) (omega arith) v.good)
              v.fit in
          let r = advance_at act i s.tasks s.shared in
          to_IsSound (record s { tasks = r.0; shared = r.1; records = s.records ++ r.2 })
            (n + answered_in r.2) (weights r.0 + 0) (total + 0)
            (sym (answered_in-append s.records r.2)) (omega arith) goes.good goes.fit
            (omega (arith, goes.counted, v.counted, length-append s.records r.2))

      pub serve-IsSound :
          (pieces : List Piece) (total : ℕ) (s : Load Server A Progress)
          → IsSound total s
          → IsSound (total + arrivals_in pieces) (serve client act first pieces s)
      unfolding serve arrivals_in
      serve-IsSound [] total s v = subst (λ k. IsSound k s) (omega arith) v
      serve-IsSound (piece ∷ pieces) total s v =
          let next = step_load client act first piece s in
          subst (λ k. IsSound k (serve client act first pieces next)) (one_more piece pieces total)
            (serve-IsSound pieces (total + arrivals_in (piece ∷ [])) next
              (step_load-IsSound piece total s v))
