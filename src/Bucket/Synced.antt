-- ===== src/Bucket/Synced.antt =====
-- What holds of the bucket of swamp_bucket.go and the treasures of its swamp at every time.
use hydraide.Base.{
  ◌≡◌, refl, sym, ap, ◌∙◌, ◌⊎◌, true, false, List, [], ◌∷◌, ◌++◌, Option, none, some, inl, inr,
  Bool-cases, All, append_assoc,
}
use mathlib.Core.Path.{subst}
use hydraide.Base.Bytes.{Bytes}
use hydraide.Base.Assoc.{Distinct}
use hydraide.Bucket.Canon.{Members}
use hydraide.Bucket.State.{
  PendingOp, Bucket, no_maps, key_for, on_change, direct, enqueued_or_direct, try_enqueue,
}
use hydraide.Bucket.Index.{Treasures, Indexes}
use hydraide.Bucket.Replay.{changed_by, all_changed_by, changed_by-Distinct, apply_pending-Indexes}
use hydraide.Bucket.Order.{Covers, changed-Covers, again-Covers, applied-Covers}
use hydraide.Bucket.Shared.{Swamp, told}

module _ (unmarshal : Bytes → Option Members) (path : Bytes) where
  -- A snapshot becomes the treasures with the operations.
  abbrev pub Snapshot : List PendingOp → Treasures → Treasures → Type 0
  Snapshot ops ts old = Distinct old × Covers ops old ts

  -- What one drain has taken, as the batches of the swamp and as operations that are to come.
  abbrev pub listed : Option (List PendingOp) → List (List PendingOp)
  listed none = []
  listed (some ops) = ops ∷ []

  abbrev pub held : Option (List PendingOp) → List PendingOp
  held none = []
  held (some ops) = ops

  -- Before its build a bucket is empty and takes each operation into its buffer.
  abbrev pub Unbuilt :
      Treasures → Option (List PendingOp) → List PendingOp → List Treasures → Bucket → Type 0
  Unbuilt ts hold sent snapshots b =
      (b.built ≡ false)
      × (hold ≡ none)
      × (b.equality_init ≡ false)
      × (b.maps ≡ no_maps)
      × (b.build_in_flight ≡ true)
      × Covers (b.pending ++ sent) ts ts
      × All (λ old. Snapshot (b.pending ++ sent) ts old) snapshots

  -- After it, it indexes what becomes the treasures with the operations that are to come.
  abbrev pub Built : Treasures → Option (List PendingOp) → List PendingOp → Bucket → Type 0
  Built ts hold sent b =
      (b.built ≡ true)
      × (b.equality_init ≡ true)
      × ((b.build_in_flight ≡ true) ⊎ ((hold ≡ none) × (b.pending ≡ [])))
      × (old : Treasures) × Snapshot (held hold ++ (b.pending ++ sent)) ts old
      × Indexes (key_for unmarshal path) b.maps old

  abbrev pub Phase :
      Treasures → Option (List PendingOp) → List PendingOp → List Treasures → Option Bucket → Type 0
  Phase ts hold sent snapshots none = hold ≡ none
  Phase ts hold sent snapshots (some b) =
      (b.field_path ≡ path) × (Unbuilt ts hold sent snapshots b ⊎ Built ts hold sent b)

  pub record Synced (s : Swamp) : Type 0 where
    pub keys_once : Distinct s.treasures
    pub sent_covers : Covers s.sent s.treasures s.treasures
    pub hold : Option (List PendingOp)
    pub taken_is : s.taken ≡ listed hold
    pub phase : Phase s.treasures hold s.sent s.snapshots s.bucket

  changed-Snapshots :
      (ops : List PendingOp) (op : PendingOp) (ts : Treasures) (snapshots : List Treasures)
      → Distinct ts
      → All (λ old. Snapshot ops ts old) snapshots
      → All (λ old. Snapshot (ops ++ (op ∷ [])) (changed_by op ts) old) snapshots
  changed-Snapshots ops op ts [] d h = tt
  changed-Snapshots ops op ts (old ∷ snapshots) d ((dold, c), h) =
      ((dold, changed-Covers ops op old ts d c), changed-Snapshots ops op ts snapshots d h)

  -- A change of the treasures, which the bucket has not been told.
  pub changes-Phase :
      (op : PendingOp) (ts : Treasures) (hold : Option (List PendingOp)) (sent : List PendingOp)
      (snapshots : List Treasures) (o : Option Bucket)
      → Distinct ts
      → Phase ts hold sent snapshots o
      → Phase (changed_by op ts) hold (sent ++ (op ∷ [])) snapshots o
  changes-Phase op ts hold sent snapshots none d h = h
  changes-Phase op ts hold sent snapshots (some b) d (p, inl (nb, nh, ni, nm, fl, c, all)) =
      let eq = append_assoc b.pending sent (op ∷ []) in
      (
        p,
        inl (
          nb,
          nh,
          ni,
          nm,
          fl,
          subst (λ ops. Covers ops (changed_by op ts) (changed_by op ts)) eq
              (again-Covers (b.pending ++ sent) op ts d c),
          subst (λ ops. All (λ old. Snapshot ops (changed_by op ts) old) snapshots) eq
              (changed-Snapshots (b.pending ++ sent) op ts snapshots d all),
        ),
      )
  changes-Phase op ts hold sent snapshots (some b) d (p, inr (bt, it, fl, old, (dold, c), ix)) =
      let eq =
        append_assoc (held hold) (b.pending ++ sent) (op ∷ [])
        ∙ ap (λ ops. held hold ++ ops) (append_assoc b.pending sent (op ∷ [])) in
      (
        p,
        inr (
          bt,
          it,
          fl,
          old,
          (
            dold,
            subst (λ ops. Covers ops old (changed_by op ts)) eq
                (changed-Covers (held hold ++ (b.pending ++ sent)) op old ts d c),
          ),
          ix,
        ),
      )

  -- The operation that a bucket is told in its buffer.
  enqueued-Phase :
      (op : PendingOp) (ts : Treasures) (hold : Option (List PendingOp)) (sent : List PendingOp)
      (snapshots : List Treasures) (b : Bucket)
      → b.build_in_flight ≡ true
      → Phase ts hold (op ∷ sent) snapshots (some b)
      → Phase ts hold sent snapshots (some (record b { pending = b.pending ++ (op ∷ []) }))
  enqueued-Phase op ts hold sent snapshots b on (p, inl (nb, nh, ni, nm, fl, c, all)) =
      let eq = sym (append_assoc b.pending (op ∷ []) sent) in
      (
        p,
        inl (
          nb,
          nh,
          ni,
          nm,
          fl,
          subst (λ ops. Covers ops ts ts) eq c,
          subst (λ ops. All (λ old. Snapshot ops ts old) snapshots) eq all,
        ),
      )
  enqueued-Phase op ts hold sent snapshots b on (p, inr (bt, it, fl, old, (dold, c), ix)) =
      let eq = ap (λ ops. held hold ++ ops) (sym (append_assoc b.pending (op ∷ []) sent)) in
      (p, inr (bt, it, inl on, old, (dold, subst (λ ops. Covers ops old ts) eq c), ix))

  pub held_some : (ops : List PendingOp) → ◌≡◌ {A = Option (List PendingOp)} (some ops) none → ⊥
  held_some ops e = cc

  -- The operation that a bucket is told and that it applies at once.
  direct-Phase :
      (op : PendingOp) (ts : Treasures) (hold : Option (List PendingOp)) (sent : List PendingOp)
      (snapshots : List Treasures) (b : Bucket)
      → b.build_in_flight ≡ false
      → Phase ts hold (op ∷ sent) snapshots (some b)
      → Phase ts hold sent snapshots (some (direct unmarshal op b))
  unfolding direct all_changed_by
  direct-Phase op ts hold sent snapshots b off (p, inl (nb, nh, ni, nm, fl, c, all)) = cc
  direct-Phase op ts hold sent snapshots b off (p, inr (bt, it, inl fl, old, (dold, c), ix)) = cc
  direct-Phase op ts (some ops) sent snapshots b off
        (p, inr (bt, it, inr (nh, nothing), old, (dold, c), ix)) =
      absurd (held_some ops nh)
  direct-Phase op ts none sent snapshots b off
        (p, inr (bt, it, inr (nh, nothing), old, (dold, c), ix)) =
      rw it (
        p,
        inr (
          bt,
          refl,
          inr (refl, nothing),
          changed_by op old,
          (
            changed_by-Distinct op old dold,
            rw nothing (applied-Covers (op ∷ []) sent old ts dold (rw nothing at c)),
          ),
          rw p (apply_pending-Indexes unmarshal path op b.maps old dold ix),
        ),
      )

  on_change-on :
      (op : PendingOp) (b : Bucket)
      → b.build_in_flight ≡ true
      → on_change unmarshal op b ≡ record b { pending = b.pending ++ (op ∷ []) }
  unfolding on_change try_enqueue enqueued_or_direct
  on_change-on op b on = rw on refl

  on_change-off :
      (op : PendingOp) (b : Bucket)
      → b.build_in_flight ≡ false
      → on_change unmarshal op b ≡ direct unmarshal op b
  unfolding on_change try_enqueue enqueued_or_direct
  on_change-off op b off = rw off refl

  -- The bucket is told the oldest change.
  pub told-Phase :
      (op : PendingOp) (ts : Treasures) (hold : Option (List PendingOp)) (sent : List PendingOp)
      (snapshots : List Treasures) (o : Option Bucket)
      → Phase ts hold (op ∷ sent) snapshots o
      → Phase ts hold sent snapshots (told unmarshal op o)
  unfolding told
  told-Phase op ts hold sent snapshots none h = h
  told-Phase op ts hold sent snapshots (some b) h = elim (Bool-cases b.build_in_flight) [
    | inl on ↦
        subst (λ x. Phase ts hold sent snapshots (some x)) (sym (on_change-on op b on))
          (enqueued-Phase op ts hold sent snapshots b on h)
    | inr off ↦
        subst (λ x. Phase ts hold sent snapshots (some x)) (sym (on_change-off op b off))
          (direct-Phase op ts hold sent snapshots b off h)
  ]
