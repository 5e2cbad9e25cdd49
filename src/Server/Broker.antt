-- ===== src/Server/Broker.antt =====
-- py/server/broker.py: a query goes to every shard, and the answers are merged by score.
pub mod Top
pub mod Hedging
use Prim.Native.String.{String}
use cascade_search_engine.Prelude.{
  ℕ, suc, ◌+◌, Bool, true, false, Option, none, some, List, [], ◌∷◌, ◌++◌, map, take, length,
  count_if, if◌then◌else◌,
}
use cascade_search_engine.Prelude.Keys.{Order}
use cascade_search_engine.Sort.{sort, descending}

-- One result of a shard's response: `docid` and `score`.
pub record ShardResult (Score : Type 0) : Type 0 where
  pub docid : ℕ
  pub score : Score

pub record MergedResult (Score : Type 0) : Type 0 where
  pub docid : ℕ
  pub score : Score
  pub shard_index : ℕ

-- `SearchClient.dispatch(query, k)`: the results that the server sends, or `none` where the call raises.
abbrev pub Client : Type 0 → Type 0
Client Score = String → ℕ → Option (List (ShardResult Score))

module _ {Score : Type 0} where
  abbrev pub label : ℕ → ShardResult Score → MergedResult Score
  label i r = record { docid = r.docid; score = r.score; shard_index = i }

  -- The answers are read shard by shard, from shard `i` on; the first exception ends it.
  unfoldable pub gather :
      ℕ → List (Option (List (ShardResult Score))) → Option (List (MergedResult Score))
  gather i [] = some []
  gather i (answer ∷ answers) =
      let rest = gather (suc i) answers in
      elim answer [
        | none ↦ none
        | some results ↦ elim rest [
          | none ↦ none
          | some merged ↦ some (map (label i) results ++ merged)
        ]
      ]

module _ {Score : Type 0} ⦃o : Order Score⦄ where
  -- `merged.sort(...)`, then `merged[:k]`
  unfoldable pub best : ℕ → Option (List (MergedResult Score)) → Option (List (MergedResult Score))
  best k none = none
  best k (some merged) = some (take k (sort (descending (λ r. r.score)) merged))

  -- `Broker.dispatch`
  unfoldable pub dispatch : List (Client Score) → String → ℕ → Option (List (MergedResult Score))
  unfolding gather best
  dispatch clients query k = best k (gather 0 (map (λ client. client query k) clients))

-- What the environment decides for one shard of a hedged call: whether the primary has not answered
-- when the delay is over, and which of the two answers is taken.
pub record Race : Type 0 where
  pub late : Bool
  pub backup_first : Bool

-- A shard's primary, its replica and how this call goes.
pub record HedgedCall (Score : Type 0) : Type 0 where
  pub client : Client Score
  pub replica_client : Client Score
  pub race : Race

pub record Counters : Type 0 where
  pub backup_calls_sent : ℕ
  pub total_shard_calls : ℕ

module _ {Score : Type 0} where
  -- Pass 1: a backup call for each late shard.
  unfoldable pub send_backups : List (HedgedCall Score) → Counters → Counters
  send_backups [] c = c
  send_backups (call ∷ calls) c =
      send_backups calls
        (if call.race.late then record c { backup_calls_sent = suc c.backup_calls_sent } else c)

  -- Pass 2: a shard's answer is the primary's, or the first of the two if a backup was sent.
  unfoldable pub resolve : String → ℕ → HedgedCall Score → Option (List (ShardResult Score))
  resolve query k call =
      if call.race.late
      then (if call.race.backup_first then call.replica_client query k else call.client query k)
      else call.client query k

module _ {Score : Type 0} ⦃o : Order Score⦄ where
  -- `HedgedBroker.dispatch`
  unfoldable pub hedged_dispatch :
      List (HedgedCall Score)
      → String
      → ℕ
      → Counters
      → Option (List (MergedResult Score)) × Counters
  unfolding gather best send_backups resolve
  hedged_dispatch calls query k c =
      let counted = record c { total_shard_calls = c.total_shard_calls + length calls } in
      (best k (gather 0 (map (resolve query k) calls)), send_backups calls counted)
