-- ===== src/Server/Broker/Hedging.antt =====
-- A hedged call gives the answer of a plain one, and counts what it sends.
use Prim.Native.String.{String}
use cascade_search_engine.Prelude.{
  ℕ, suc, ◌+◌, ◌≤◌, Bool, List, [], ◌∷◌, map, ◌≡◌, refl, ap, ap₂, ◌∙◌, inl, inr, arith, length,
  count_if, count_if-le-length, All, Bool-cases,
}
use cascade_search_engine.Prelude.Keys.{Order}
use cascade_search_engine.Server.Broker.{
  HedgedCall, Counters, gather, best, dispatch, send_backups, resolve, hedged_dispatch,
}

module _ {Score : Type 0} where
  abbrev pub is_late : HedgedCall Score → Bool
  is_late call = call.race.late

  resolve-eq :
      (query : String) (k : ℕ) (calls : List (HedgedCall Score))
      → All (λ call. call.replica_client query k ≡ call.client query k) calls
      → map (resolve query k) calls
        ≡ map (λ client. client query k) (map (λ call. call.client) calls)
  unfolding resolve
  resolve-eq query k [] h = refl
  resolve-eq query k (call ∷ calls) h = ap₂ ◌∷◌ (ground (arith, h.0)) (resolve-eq query k calls h.1)

  send_backups-count :
      (calls : List (HedgedCall Score)) (c : Counters)
      → send_backups calls c
        ≡ record c { backup_calls_sent = c.backup_calls_sent + count_if is_late calls }
  unfolding send_backups
  send_backups-count [] c = ap (λ n. record c { backup_calls_sent = n }) (omega arith)
  send_backups-count (call ∷ calls) c = elim (Bool-cases call.race.late) [
    | inl e ↦ rw e (
        send_backups-count calls (record c { backup_calls_sent = suc c.backup_calls_sent })
        ∙ ap (λ n. record c { backup_calls_sent = n }) (omega arith))
    | inr e ↦ rw e (send_backups-count calls c)
  ]

  -- If each replica answers as its primary, then whichever shards are late and whichever answer comes
  -- first, a hedged call returns what a plain broker returns on the primaries; it counts one shard call for
  -- each shard and one backup call for each late one, which are at most as many.
  pub hedged_dispatch-eq :
      ⦃o : Order Score⦄ (calls : List (HedgedCall Score)) (query : String) (k : ℕ) (c : Counters)
      → All (λ call. call.replica_client query k ≡ call.client query k) calls
      → (hedged_dispatch calls query k c ≡ (
        dispatch (map (λ call. call.client) calls) query k,
        record c {
          backup_calls_sent = c.backup_calls_sent + count_if is_late calls;
          total_shard_calls = c.total_shard_calls + length calls;
        },
      ))
        × (count_if is_late calls ≤ length calls)
  unfolding hedged_dispatch dispatch
  hedged_dispatch-eq calls query k c h = (
    ap₂ (λ a b. (a, b)) (ap (λ l. best k (gather 0 l)) (resolve-eq query k calls h))
        (send_backups-count calls _),
    count_if-le-length is_late calls,
  )
