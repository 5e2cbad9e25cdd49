-- ===== src/Server/Broker/Top.antt =====
-- What a broker's answer is: the k best results of all shards, or an exception if one shard raises.
use Prim.Native.String.{String}
use cascade_search_engine.Prelude.{
  ℕ, suc, Bool, true, false, Option, none, some, List, [], ◌∷◌, map, ◌≡◌, refl, sym, ap, ap₂, ◌∙◌,
  inl, inr, arith, take, concat, All, Option-cases, take-map, any, any-map,
}
use cascade_search_engine.Prelude.Keys.{Order}
use cascade_search_engine.Sort.{sort, descending, descending-IsTotal, IsSorted}
use cascade_search_engine.Sort.Top.{top-concat-take}
use cascade_search_engine.Server.Broker.{
  ShardResult, MergedResult, Client, label, gather, best, dispatch,
}

module _ {Score : Type 0} where
  -- every shard's results labelled with its number, from `i` on
  abbrev pub labelled : ℕ → List (List (ShardResult Score)) → List (List (MergedResult Score))
  labelled i [] = []
  labelled i (results ∷ rest) = map (label i) results ∷ labelled (suc i) rest

  gather-some :
      (i : ℕ) (answers : List (List (ShardResult Score)))
      → gather i (map some answers) ≡ some (concat (labelled i answers))
  unfolding gather
  gather-some i [] = refl
  gather-some i (results ∷ rest) = rw (gather-some (suc i) rest) refl

-- A shard whose client, when it is called, answers the first k of one ranking by descending score.
pub record ExactShard (Score : Type 0) ⦃o : Order Score⦄ : Type 0 where
  pub client : Client Score
  pub ranking : String → List (ShardResult Score)
  pub answers : (query : String) (k : ℕ) → client query k ≡ some (take k (ranking query))
  pub ranked : (query : String) → IsSorted (descending (λ r. r.score)) (ranking query)

module _ {Score : Type 0} ⦃o : Order Score⦄ where
  labelled-take :
      (i k : ℕ) (rankings : List (List (ShardResult Score)))
      → labelled i (map (take k) rankings) ≡ map (take k) (labelled i rankings)
  labelled-take i k [] = refl
  labelled-take i k (r ∷ rs) = ap₂ ◌∷◌ (sym (take-map (label i) k r)) (labelled-take (suc i) k rs)

  label-All :
      (i : ℕ) (r : ShardResult Score) (rs : List (ShardResult Score))
      → All (λ x. descending (λ (a : ShardResult Score). a.score) r x ≡ true) rs
      → All
          (λ x. descending (λ (a : MergedResult Score). a.score) (label i r) x ≡ true)
          (map (label i) rs)
  label-All i r [] h = tt
  label-All i r (x ∷ rs) h = (h.0, label-All i r rs h.1)

  label-IsSorted :
      (i : ℕ) (rs : List (ShardResult Score))
      → IsSorted (descending (λ r. r.score)) rs
      → IsSorted (descending (λ (r : MergedResult Score). r.score)) (map (label i) rs)
  label-IsSorted i [] h = tt
  label-IsSorted i (r ∷ rs) h = (label-All i r rs h.0, label-IsSorted i rs h.1)

  abbrev pub rankings : List (ExactShard Score) → String → List (List (ShardResult Score))
  rankings shards query = map (λ shard. shard.ranking query) shards

  labelled-IsSorted :
      (i : ℕ) (shards : List (ExactShard Score)) (query : String)
      → All
          (IsSorted (descending (λ (r : MergedResult Score). r.score)))
          (labelled i (rankings shards query))
  labelled-IsSorted i [] query = tt
  labelled-IsSorted i (s ∷ shards) query =
      (label-IsSorted i (s.ranking query) (s.ranked query), labelled-IsSorted (suc i) shards query)

  answers_all :
      (shards : List (ExactShard Score)) (query : String) (k : ℕ)
      → map
          (λ (client : Client Score). client query k)
          (map (λ (s : ExactShard Score). s.client) shards)
        ≡ map some (map (take k) (rankings shards query))
  answers_all [] query k = refl
  answers_all (s ∷ shards) query k = ap₂ ◌∷◌ (s.answers query k) (answers_all shards query k)

  -- If every shard's client answers the first k of one ranking by descending score, the broker's answer is
  -- the first k of a stable descending sort of all the rankings put together, each result with the number
  -- of its shard.
  pub dispatch-eq-top :
      (shards : List (ExactShard Score)) (query : String) (k : ℕ)
      → dispatch (map (λ s. s.client) shards) query k
        ≡ some (
            take k (sort (descending (λ r. r.score)) (concat (labelled 0 (rankings shards query)))))
  unfolding dispatch best
  dispatch-eq-top shards query k =
      ap (best k) (
        ap (gather 0) (answers_all shards query k)
        ∙ gather-some 0 (map (take k) (rankings shards query))
        ∙ ap (λ l. some (concat l)) (labelled-take 0 k (rankings shards query)))
      ∙ ap some (
          top-concat-take (descending-IsTotal (λ (r : MergedResult Score). r.score)) k k _
            (omega arith) (labelled-IsSorted 0 shards query))

-- `answer` is an exception
abbrev pub is_exception : {A : Type 0} → Option A → Bool
is_exception none = true
is_exception (some _) = false

module _ {Score : Type 0} where
  gather-raises :
      (i : ℕ) (answers : List (Option (List (ShardResult Score))))
      → is_exception (gather i answers) ≡ any is_exception answers
  unfolding gather
  gather-raises i [] = refl
  gather-raises i (none ∷ answers) = refl
  gather-raises i (some results ∷ answers) = elim (Option-cases (gather (suc i) answers)) [
    | inl e ↦ rw e (ap is_exception (sym e) ∙ gather-raises (suc i) answers)
    | inr (merged, e) ↦ rw e (ap is_exception (sym e) ∙ gather-raises (suc i) answers)
  ]

best-is_exception :
    {Score : Type 0} ⦃o : Order Score⦄ (k : ℕ) (merged : Option (List (MergedResult Score)))
    → is_exception (best k merged) ≡ is_exception merged
unfolding best
best-is_exception k none = refl
best-is_exception k (some merged) = refl

-- The broker's call raises exactly if the call to one of its shards raises: there is no partial merge.
pub dispatch-raises :
    {Score : Type 0} ⦃o : Order Score⦄ (clients : List (Client Score)) (query : String) (k : ℕ)
    → is_exception (dispatch clients query k)
      ≡ any (λ client. is_exception (client query k)) clients
unfolding dispatch
dispatch-raises clients query k =
    best-is_exception k _
    ∙ gather-raises 0 (map (λ client. client query k) clients)
    ∙ any-map is_exception (λ client. client query k) clients
