-- ===== src/Nrt/Lag/Threshold/Fates.antt =====
-- Which documents of the stream are skipped, and which are given up.
use Prim.Native.String.{String}
use mathlib.Core.Path.{subst}
use cascade_search_engine.Prelude.{
  ℕ, suc, ◌+◌, Bool, true, false, Option, none, some, List, [], ◌∷◌, ◌++◌, length, leb, count_if,
  ◌≡◌, refl, sym, ap, ◌∙◌, inl, inr, arith, Bool-cases, Option-cases, if◌then◌else◌,
}
use cascade_search_engine.Prelude.Keys.{Order}
use cascade_search_engine.Prelude.Loops.{for_each}
use cascade_search_engine.Nrt.Engine.{Engine}
use cascade_search_engine.Nrt.Index.{NrtIndex, Outcome, returned, raised, add, flush_locked}
use cascade_search_engine.Nrt.Lag.{longest_token}
use cascade_search_engine.Nrt.Lag.Drain.{is_never_found, drain_pending-counts}
use cascade_search_engine.Nrt.Lag.Threshold.{
  Pass, Turn, Tail, Streaming, meanwhile, note_segment_count, hits_of, searches_of, drain,
  drain_batch, write_document, stream_document,
}

if_suc : (b : Bool) (n : ℕ) → (if b then suc n else n) ≡ (if b then 1 else 0) + n
if_suc true n = omega arith
if_suc false n = omega arith

module _ {Index Score : Type 0} ⦃o : Order Score⦄ (engine : Engine Index Score)
    (threshold : ℕ) where
  -- the waiting documents that no search of a drain finds
  abbrev pub never_found : List Pass → Streaming Index → ℕ
  never_found passes t = count_if (is_never_found (searches_of engine passes t.nrt)) t.pending

  -- those of the batch that a document may complete
  abbrev pub batch_lost : Turn → Streaming Index → ℕ
  batch_lost turn t = if leb threshold (length t.pending) then never_found turn.passes t else 0

  abbrev pub at_search : Turn → Streaming Index → Streaming Index
  at_search turn t =
      meanwhile engine turn.before_search (note_segment_count (meanwhile engine turn.before_note t))

  abbrev pub waiting_with : Turn → String → Streaming Index → NrtIndex Index → Streaming Index
  waiting_with turn probe t s = record t {
    nrt = s;
    pending =
        t.pending
        ++ record { external_id = turn.document.0; probe = probe; write_start = turn.write_start }
          ∷ [];
  }

  abbrev pub added : Turn → String → Streaming Index → Streaming Index
  added turn probe t =
      waiting_with turn probe t (add engine turn.document turn.now turn.succeeds turn.after t.nrt).1

  -- whether a document has a token whose search has ten hits before the document is added
  unfoldable pub collides : Turn → Streaming Index → Bool
  collides turn t = elim (longest_token turn.tokens) [
    | none ↦ false
    | some probe ↦ leb 10 (length (hits_of engine (at_search turn t).nrt probe))
  ]

  -- the documents that are given up when a document has been added
  unfoldable pub lost_at : Turn → Streaming Index → ℕ
  lost_at turn t = elim (longest_token turn.tokens) [
    | none ↦ 0
    | some probe ↦
        if leb 10 (length (hits_of engine (at_search turn t).nrt probe))
        then 0
        else batch_lost turn
            (added turn probe (meanwhile engine turn.before_add (at_search turn t)))
  ]

  -- the state in which the last batch is drained
  abbrev pub last_batch : Tail → Streaming Index → Streaming Index
  last_batch tail t =
      let s = meanwhile engine tail.before_flush t in
      record s { nrt = (flush_locked engine tail.succeeds tail.after s.nrt).1 }

  -- the skipped and the given up documents of a stream and its tail
  unfoldable pub fates : List Turn → Tail → Streaming Index → ℕ × ℕ
  unfolding stream_document collides lost_at
  fates [] tail t = (0, never_found tail.passes (last_batch tail t))
  fates (turn ∷ turns) tail t = elim (stream_document engine threshold turn t) [
    | none ↦ (0, 0)
    | some t' ↦
        let rest = fates turns tail t' in
        ((if collides turn t then suc rest.0 else rest.0), lost_at turn t + rest.1)
  ]

  -- how the two counters are after a round
  abbrev pub Counts : Streaming Index → Bool → ℕ → Option (Streaming Index) → Type 0
  Counts t skipped lost none = Unit
  Counts t skipped lost (some t') =
      (t'.collisions_skipped ≡ t.collisions_skipped + (if skipped then 1 else 0))
      × (t'.timed_out_total ≡ t.timed_out_total + lost)

  pub drain-timed_out :
      (passes : List Pass) (t : Streaming Index)
      → (drain engine passes t).timed_out_total ≡ t.timed_out_total + never_found passes t
  unfolding drain
  drain-timed_out passes t =
      ap (λ n. t.timed_out_total + n)
        (drain_pending-counts (searches_of engine passes t.nrt) t.pending).1

  drain_batch-Counts :
      (turn : Turn) (t : Streaming Index)
      → Counts t false (batch_lost turn t) (some (drain_batch engine threshold turn t))
  unfolding drain_batch drain note_segment_count
  drain_batch-Counts turn t = elim (Bool-cases (leb threshold (length t.pending))) [
    | inl full ↦ rw full (omega arith, drain-timed_out turn.passes t)
    | inr room ↦ rw room (omega arith, omega arith)
  ]

  write_at :
      (turn : Turn) (probe : String) (t : Streaming Index) (r : Outcome × NrtIndex Index)
      → Counts t false
          (batch_lost turn (waiting_with turn probe t r.1))
          (elim r.0 as (λ x. Option (Streaming Index)) [
            | raised ↦ none
            | returned ↦ some (drain_batch engine threshold turn (waiting_with turn probe t r.1))
          ])
  write_at turn probe t (raised, s) = tt
  write_at turn probe t (returned, s) = drain_batch-Counts turn (waiting_with turn probe t s)

  to_Counts :
      (t : Streaming Index) (skipped skipped' : Bool) (lost lost' : ℕ)
      (r r' : Option (Streaming Index))
      → skipped' ≡ skipped
      → lost' ≡ lost
      → r' ≡ r
      → Counts t skipped lost r
      → Counts t skipped' lost' r'
  to_Counts t skipped skipped' lost lost' r r' e f g h =
      subst (λ x. Counts t x lost' r') (sym e)
        (subst (λ x. Counts t skipped x r') (sym f) (subst (Counts t skipped lost) (sym g) h))

  pub stream_document-Counts :
      (turn : Turn) (t : Streaming Index)
      → Counts t (collides turn t) (lost_at turn t) (stream_document engine threshold turn t)
  unfolding stream_document collides lost_at write_document note_segment_count
  stream_document-Counts turn t =
      let s = at_search turn t in
      elim (Option-cases (longest_token turn.tokens)) [
        | inl missing ↦
            to_Counts t false (collides turn t) 0 (lost_at turn t)
              (some (note_segment_count (meanwhile engine turn.before_note t)))
              (stream_document engine threshold turn t) (rw (missing, collides) refl)
              (rw (missing, lost_at) refl) (rw (missing, stream_document) refl)
              (omega arith, omega arith)
        | inr (probe, found) ↦ elim (Bool-cases (leb 10 (length (hits_of engine s.nrt probe)))) [
          | inl full ↦
              to_Counts t true (collides turn t) 0 (lost_at turn t)
                (some (record s { collisions_skipped = suc s.collisions_skipped }))
                (stream_document engine threshold turn t) (rw (found, collides, full) refl)
                (rw (found, lost_at, full) refl) (rw (found, stream_document, full) refl)
                (omega arith, omega arith)
          | inr alone ↦
              let b = meanwhile engine turn.before_add s in
              to_Counts t false (collides turn t) (batch_lost turn (added turn probe b))
                (lost_at turn t) (write_document engine threshold turn probe b)
                (stream_document engine threshold turn t) (rw (found, collides, alone) refl)
                (rw (found, lost_at, alone) refl) (rw (found, stream_document, alone) refl)
                (write_at turn probe b
                  (add engine turn.document turn.now turn.succeeds turn.after b.nrt))
        ]
      ]

  counts_of :
      (turn : Turn) (t t' : Streaming Index)
      → stream_document engine threshold turn t ≡ some t'
      → (t'.collisions_skipped ≡ t.collisions_skipped + (if collides turn t then 1 else 0))
        × (t'.timed_out_total ≡ t.timed_out_total + lost_at turn t)
  counts_of turn t t' done =
      subst (Counts t (collides turn t) (lost_at turn t)) done (stream_document-Counts turn t)

  fates_step :
      (turn : Turn) (turns : List Turn) (tail : Tail) (t t' : Streaming Index)
      → stream_document engine threshold turn t ≡ some t'
      → fates (turn ∷ turns) tail t ≡ (
        (if collides turn t then suc (fates turns tail t').0 else (fates turns tail t').0),
        lost_at turn t + (fates turns tail t').1,
      )
  unfolding fates
  fates_step turn turns tail t t' done = rw (done, fates) refl

  -- the counters of a stream whose loop ends, and what its last batch adds
  abbrev Fated : List Turn → Tail → Streaming Index → Option (Streaming Index) → Type 0
  Fated turns tail t none = Unit
  Fated turns tail t (some streamed) =
      (streamed.collisions_skipped ≡ t.collisions_skipped + (fates turns tail t).0)
      × (streamed.timed_out_total + never_found tail.passes (last_batch tail streamed)
          ≡ t.timed_out_total + (fates turns tail t).1)

  Fated-later :
      (turn : Turn) (turns : List Turn) (tail : Tail) (t t' : Streaming Index)
      (r : Option (Streaming Index))
      → stream_document engine threshold turn t ≡ some t'
      → Fated turns tail t' r
      → Fated (turn ∷ turns) tail t r
  Fated-later turn turns tail t t' none done h = tt
  Fated-later turn turns tail t t' (some streamed) done h =
      let (skips, losses) = counts_of turn t t' done in
      let step = fates_step turn turns tail t t' done in
      let rest = (fates turns tail t').0 in
      let one : (fates (turn ∷ turns) tail t).0 ≡ (if collides turn t then 1 else 0) + rest =
        ap (λ p. p.0) step ∙ if_suc (collides turn t) rest in
      (omega (arith, h.0, skips, one), omega (arith, h.1, losses, ap (λ p. p.1) step))

  stream-Fated :
      (turns : List Turn) (tail : Tail) (t : Streaming Index)
      → Fated turns tail t (for_each (stream_document engine threshold) turns t)
  unfolding for_each fates
  stream-Fated [] tail t = (omega arith, refl)
  stream-Fated (turn ∷ turns) tail t =
      elim (Option-cases (stream_document engine threshold turn t)) [
        | inl stopped ↦
            let over : for_each (stream_document engine threshold) (turn ∷ turns) t ≡ none =
              rw (stopped, for_each) refl in
            subst (Fated (turn ∷ turns) tail t) (sym over) tt
        | inr (t', done) ↦
            let on : for_each (stream_document engine threshold) (turn ∷ turns) t
                ≡ for_each (stream_document engine threshold) turns t' =
              rw (done, for_each) refl in
            subst (Fated (turn ∷ turns) tail t) (sym on) (
              Fated-later turn turns tail t t'
                (for_each (stream_document engine threshold) turns t') done
                (stream-Fated turns tail t'))
      ]

  pub fates-counts :
      (turns : List Turn) (tail : Tail) (t streamed : Streaming Index)
      → for_each (stream_document engine threshold) turns t ≡ some streamed
      → (streamed.collisions_skipped ≡ t.collisions_skipped + (fates turns tail t).0)
        × (streamed.timed_out_total + never_found tail.passes (last_batch tail streamed)
            ≡ t.timed_out_total + (fates turns tail t).1)
  fates-counts turns tail t streamed looped =
      subst (Fated turns tail t) looped (stream-Fated turns tail t)
