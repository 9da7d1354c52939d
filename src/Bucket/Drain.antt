-- ===== src/Bucket/Drain.antt =====
-- The rounds of `DrainPending` of bucket/bucket.go, one at a time, in the order of the events.
use hydraide.Base.{
  sym, ap, ◌∙◌, ℕ, zero, suc, ◌≡◌, refl, ◌⊎◌, true, false, List, [], ◌∷◌, ◌++◌, Option, none, some,
  inl, inr, is_nil,
}
use mathlib.Core.Path.{subst, subst₂}
use hydraide.Base.Bytes.{Bytes}
use hydraide.Base.Assoc.{Distinct}
use hydraide.Bucket.Canon.{Members}
use hydraide.Bucket.State.{PendingOp, Bucket, take_pending, apply_taken}
use hydraide.Bucket.Index.{Treasures}
use hydraide.Bucket.Replay.{all_changed_by, all_changed_by-Distinct, replay-Indexes}
use hydraide.Bucket.Order.{Covers, applied-Covers}
use hydraide.Bucket.Shared.{Swamp, took, with_batch, applied, pick}
use hydraide.Bucket.Synced.{Built, Phase, Synced, listed, held_some}

nil-cases : (ops : List PendingOp) → (ops ≡ []) ⊎ (is_nil ops ≡ false)
nil-cases [] = inl refl
nil-cases (op ∷ ops) = inr refl

module _ (unmarshal : Bytes → Option Members) (path : Bytes) where
  -- The first half of a round of the drain.
  take_pending-some :
      (b : Bucket)
      → is_nil b.pending ≡ false
      → take_pending unmarshal b ≡ (some b.pending, record b { pending = [] })
  unfolding take_pending
  take_pending-some b e = rw e refl

  take_pending-none :
      (b : Bucket)
      → b.pending ≡ []
      → take_pending unmarshal b ≡ (none, record b { build_in_flight = false })
  unfolding take_pending
  take_pending-none b e = rw e refl

  took-unbuilt : (b : Bucket) (s : Swamp) → b.built ≡ false → took unmarshal (some b) s ≡ s
  unfolding took
  took-unbuilt b s e = rw e refl

  took-built :
      (b : Bucket) (s : Swamp)
      → b.built ≡ true
      → took unmarshal (some b) s ≡ with_batch unmarshal (take_pending unmarshal b) s
  unfolding took
  took-built b s e = rw e refl

  in_flight :
      (hold : Option (List PendingOp)) (b : Bucket)
      → is_nil b.pending ≡ false
      → (b.build_in_flight ≡ true) ⊎ ((hold ≡ none) × (b.pending ≡ []))
      → b.build_in_flight ≡ true
  in_flight hold b e (inl on) = on
  in_flight hold b e (inr (nh, nothing)) = let no = rw nothing at e in cc

  nothing_listed : (hold : Option (List PendingOp)) → listed unmarshal path hold ≡ [] → hold ≡ none
  nothing_listed none e = refl
  nothing_listed (some ops) e = cc

  -- A batch is taken while none is.
  batch-Synced :
      (s : Swamp) (b : Bucket)
      → s.taken ≡ []
      → b.field_path ≡ path
      → Distinct s.treasures
      → Covers s.sent s.treasures s.treasures
      → Built unmarshal path s.treasures none s.sent b
      → Synced unmarshal path (with_batch unmarshal (take_pending unmarshal b) s)
  unfolding with_batch
  batch-Synced s b nt p d sc (bt, it, fl, old, (dold, c), ix) = elim (nil-cases b.pending) [
    | inl nothing ↦
        subst (λ r. Synced unmarshal path (with_batch unmarshal r s))
          (sym (take_pending-none b nothing))
          (record {
            keys_once = d;
            sent_covers = sc;
            hold = none;
            taken_is = nt;
            phase = (p, inr (bt, it, inr (refl, nothing), old, (dold, c), ix));
          })
    | inr some_left ↦
        subst (λ r. Synced unmarshal path (with_batch unmarshal r s))
          (sym (take_pending-some b some_left))
          (record {
            keys_once = d;
            sent_covers = sc;
            hold = some b.pending;
            taken_is = ap (λ ts. ts ++ (b.pending ∷ [])) nt;
            phase = (p, inr (bt, it, inl (in_flight none b some_left fl), old, (dold, c), ix));
          })
  ]

  pub took-Synced :
      (o : Option Bucket) (s : Swamp)
      → s.bucket ≡ o
      → s.taken ≡ []
      → Synced unmarshal path s
      → Synced unmarshal path (took unmarshal o s)
  took-Synced none s e nt h = unfold took in h
  took-Synced (some b) s e nt h =
      let none_held : h.hold ≡ none = nothing_listed h.hold (sym h.taken_is ∙ nt) in
      let phase : Phase unmarshal path s.treasures none s.sent s.snapshots (some b) =
        subst₂ (λ hold o. Phase unmarshal path s.treasures hold s.sent s.snapshots o) none_held e
          h.phase in
      elim phase.1 [
        | inl g ↦ subst (λ x. Synced unmarshal path x) (sym (took-unbuilt b s g.0)) h
        | inr g ↦
            subst (λ x. Synced unmarshal path x) (sym (took-built b s g.0))
              (batch-Synced s b nt phase.0 h.keys_once h.sent_covers g)
      ]

  -- What was taken is applied.
  applied-Built :
      (ops : List PendingOp) (ts : Treasures) (sent : List PendingOp) (b : Bucket)
      → b.field_path ≡ path
      → Built unmarshal path ts (some ops) sent b
      → Built unmarshal path ts none sent (apply_taken unmarshal ops b)
  unfolding apply_taken
  applied-Built ops ts sent b p (bt, it, inr (nh, _), old, (dold, c), ix) =
      absurd (held_some unmarshal path ops nh)
  applied-Built ops ts sent b p (bt, it, inl on, old, (dold, c), ix) = (
    bt,
    it,
    inl on,
    all_changed_by ops old,
    (all_changed_by-Distinct ops old dold, applied-Covers ops (b.pending ++ sent) old ts dold c),
    rw p (replay-Indexes unmarshal path ops b.maps old dold ix),
  )

  pub applied-Synced :
      (n : ℕ) (hold : Option (List PendingOp)) (o : Option Bucket) (s : Swamp)
      → Phase unmarshal path s.treasures hold s.sent s.snapshots o
      → Synced unmarshal path s
      → Synced unmarshal path (applied unmarshal (pick n (listed unmarshal path hold)) o s)
  unfolding applied pick apply_taken
  applied-Synced n none o s ph h = h
  applied-Synced zero (some ops) none s ph h = absurd (held_some unmarshal path ops ph)
  applied-Synced zero (some ops) (some b) s (p, inl g) h = absurd (held_some unmarshal path ops g.1)
  applied-Synced zero (some ops) (some b) s (p, inr g) h = record {
    keys_once = h.keys_once;
    sent_covers = h.sent_covers;
    hold = none;
    taken_is = refl;
    phase = (p, inr (applied-Built ops s.treasures s.sent b p g));
  }
  applied-Synced (suc n) (some ops) o s ph h = h
