-- ===== src/Bucket/Notify.antt =====
-- The notifications of changes of swamp_bucket.go, in any order that keeps the changes of a key.
use hydraide.Base.{
  Option-cases, Bool-cases, sym, ap, ◌∙◌, ℕ, zero, suc, ◌≡◌, refl, List, [], ◌∷◌, ◌++◌, Option,
  none, some, inl, inr, All,
}
use mathlib.Core.Path.{subst₂}
use hydraide.Base.Bytes.{Bytes}
use hydraide.Base.Assoc.{bytes_eq}
use hydraide.Bucket.Canon.{Members}
use hydraide.Bucket.State.{PendingOp, Bucket}
use hydraide.Bucket.Index.{Treasures}
use hydraide.Bucket.Order.{
  told-Covers, Alike, Alike-Covers, results, results-append, result-result, result, key_of,
}
use hydraide.Bucket.Shared.{Swamp, notified, next_told}
use hydraide.Bucket.Synced.{Snapshot, Phase, Synced, held, told-Phase}

nothing_told :
    (op : PendingOp) (ops : List PendingOp)
    → ◌≡◌ {A = Option (PendingOp × List PendingOp)} none (some (op, ops))
    → ⊥
nothing_told op ops e = cc

-- A change that is told before the changes of other keys.
next_told-Alike :
    (n : ℕ) (sent : List PendingOp) (op : PendingOp) (ops : List PendingOp)
    → next_told n sent ≡ some (op, ops)
    → Alike sent (op ∷ ops)
unfolding next_told
next_told-Alike n [] op ops e = cc
next_told-Alike zero (first ∷ sent) op ops e =
    let at_op : first ≡ op = cc in
    let at_ops : sent ≡ ops = cc in
    λ k o. subst₂ (λ x y. results (first ∷ sent) k o ≡ results (x ∷ y) k o) at_op at_ops refl
next_told-Alike (suc n) (first ∷ sent) op ops e = elim (Option-cases (next_told n sent)) [
  | inl g ↦ absurd (nothing_told op ops (rw g at e))
  | inr ((found, others), g) ↦ elim (Bool-cases (bytes_eq (key_of first) (key_of found))) [
    | inl same ↦ absurd (nothing_told op ops (rw same at (rw g at e)))
    | inr apart ↦
        let told_now : ◌≡◌ {A = Option (PendingOp × List PendingOp)} (some (found, first ∷ others))
            (some (op, ops)) =
          rw apart at (rw g at e) in
        let at_op : found ≡ op = cc in
        let at_ops : first ∷ others ≡ ops = cc in
        λ k o.
          next_told-Alike n sent found others g k (result first k o)
          ∙ ap (λ q. results others k q) (result-result first found k o apart)
          ∙ subst₂ (λ x y. results (found ∷ (first ∷ others)) k o ≡ results (x ∷ y) k o) at_op
              at_ops refl
  ]
]

module _ (unmarshal : Bytes → Option Members) (path : Bytes) where
  Alike-Snapshots :
      (before ops others : List PendingOp) (ts : Treasures) (snapshots : List Treasures)
      → Alike ops others
      → All (λ old. Snapshot unmarshal path (before ++ ops) ts old) snapshots
      → All (λ old. Snapshot unmarshal path (before ++ others) ts old) snapshots
  Alike-Snapshots before ops others ts [] alike h = tt
  Alike-Snapshots before ops others ts (old ∷ snapshots) alike ((dold, c), h) = (
    (dold, Alike-Covers before ops others old ts alike c),
    Alike-Snapshots before ops others ts snapshots alike h,
  )

  -- Changes that make the same of every treasure stand for each other.
  Alike-Phase :
      (sent others : List PendingOp) (ts : Treasures) (hold : Option (List PendingOp))
      (snapshots : List Treasures) (o : Option Bucket)
      → Alike sent others
      → Phase unmarshal path ts hold sent snapshots o
      → Phase unmarshal path ts hold others snapshots o
  Alike-Phase sent others ts hold snapshots none alike h = h
  Alike-Phase sent others ts hold snapshots (some b) alike (p, inl (nb, nh, ni, nm, fl, c, all)) = (
    p,
    inl (
      nb,
      nh,
      ni,
      nm,
      fl,
      Alike-Covers b.pending sent others ts ts alike c,
      Alike-Snapshots b.pending sent others ts snapshots alike all,
    ),
  )
  Alike-Phase sent others ts hold snapshots (some b) alike
        (p, inr (bt, it, fl, old, (dold, c), ix)) =
      let longer : Alike (b.pending ++ sent) (b.pending ++ others) = λ k o.
        results-append b.pending sent k o
        ∙ alike k (results b.pending k o)
        ∙ sym (results-append b.pending others k o) in
      (
        p,
        inr (
          bt,
          it,
          fl,
          old,
          (
            dold,
            Alike-Covers (held unmarshal path hold) (b.pending ++ sent) (b.pending ++ others) old ts
                longer c,
          ),
          ix,
        ),
      )

  pub notified-Synced :
      (n : ℕ) (s : Swamp)
      → Synced unmarshal path s
      → Synced unmarshal path (notified unmarshal (next_told n s.sent) s)
  unfolding notified
  notified-Synced n s h = elim (Option-cases (next_told n s.sent)) [
    | inl e ↦ rw e h
    | inr ((op, ops), e) ↦
        let alike = next_told-Alike n s.sent op ops e in
        rw e (record {
          keys_once = h.keys_once;
          sent_covers =
              told-Covers op ops s.treasures
                (Alike-Covers [] s.sent (op ∷ ops) s.treasures s.treasures alike h.sent_covers);
          hold = h.hold;
          taken_is = h.taken_is;
          phase =
              told-Phase unmarshal path op s.treasures h.hold ops s.snapshots s.bucket (
                Alike-Phase s.sent (op ∷ ops) s.treasures h.hold s.snapshots s.bucket alike
                  h.phase);
        })
  ]
