-- ===== src/Bucket/Steps.antt =====
-- Every order of the events of swamp_bucket.go.
use hydraide.Base.{
  Option-cases, sym, ap, ◌∙◌, ℕ, zero, suc, ◌≡◌, refl, ◌⊎◌, true, List, [], ◌∷◌, ◌++◌, Option, none,
  some, inl, inr, All,
}
use mathlib.Core.Path.{subst}
use hydraide.Base.Bytes.{Bytes}
use hydraide.Base.Assoc.{Distinct}
use hydraide.Bucket.Canon.{Members}
use hydraide.Bucket.State.{PendingOp, Bucket, new, set_build_in_flight, build_equality}
use hydraide.Bucket.Index.{Treasures}
use hydraide.Bucket.Replay.{changed_by-Distinct, build-Indexes}
use hydraide.Bucket.Order.{again-Covers}
use hydraide.Bucket.Shared.{
  Swamp, Event, changes, notifies, registers, clones, takes, applies, drops, builds, registered,
  built_from, applied, pick, Alone, DrainsAlone, step, run, get_elem?,
}
use hydraide.Bucket.Synced.{Snapshot, Phase, Synced, listed, held_some, changes-Phase}
use hydraide.Bucket.Drain.{took-Synced, applied-Synced}
use hydraide.Bucket.Notify.{notified-Synced}

module _ (unmarshal : Bytes → Option Members) (path : Bytes) where
  All-get_elem? :
      (P : Treasures → Type 0) (snapshots : List Treasures) (n : ℕ) (old : Treasures)
      → All P snapshots
      → get_elem? snapshots n ≡ some old
      → P old
  unfolding get_elem?
  All-get_elem? P [] n old h e = cc
  All-get_elem? P (s ∷ snapshots) zero old (h, hs) e =
      let eq : s ≡ old = cc in subst (λ x. P x) eq h
  All-get_elem? P (s ∷ snapshots) (suc n) old (h, hs) e = All-get_elem? P snapshots n old hs e

  build_equality-built :
      (old : Treasures) (b : Bucket) → b.built ≡ true → build_equality unmarshal old b ≡ b
  unfolding build_equality
  build_equality-built old b bt = rw bt refl

  -- A build from one of the snapshots. The later callers find it done.
  build-Phase :
      (old ts : Treasures) (hold : Option (List PendingOp)) (sent : List PendingOp)
      (snapshots : List Treasures) (b : Bucket)
      → Snapshot unmarshal path (b.pending ++ sent) ts old ⊎ (b.built ≡ true)
      → Phase unmarshal path ts hold sent snapshots (some b)
      → Phase unmarshal path ts hold sent snapshots (some (build_equality unmarshal old b))
  unfolding build_equality
  build-Phase old ts hold sent snapshots b s (p, inr h) =
      subst (λ x. Phase unmarshal path ts hold sent snapshots (some x))
        (sym (build_equality-built old b h.0)) (p, inr h)
  build-Phase old ts hold sent snapshots b (inr bt) (p, inl (nb, _, _, _, _, _, _)) = cc
  build-Phase old ts (some ops) sent snapshots b (inl _) (p, inl (_, nh, _, _, _, _, _)) =
      absurd (held_some unmarshal path ops nh)
  build-Phase old ts none sent snapshots b (inl (dold, c)) (p, inl (nb, nh, ni, nm, fl, cs, all)) =
      rw nb (
        p,
        inr (
          refl,
          refl,
          inl fl,
          old,
          (dold, c),
          rw (p, nm) (build-Indexes unmarshal path old dold),
        ),
      )

  usable :
      (n : ℕ) (old ts : Treasures) (hold : Option (List PendingOp)) (sent : List PendingOp)
      (snapshots : List Treasures) (b : Bucket)
      → get_elem? snapshots n ≡ some old
      → Phase unmarshal path ts hold sent snapshots (some b)
      → Snapshot unmarshal path (b.pending ++ sent) ts old ⊎ (b.built ≡ true)
  usable n old ts hold sent snapshots b e (p, inl (_, _, _, _, _, _, all)) =
      inl (
        All-get_elem? (λ x. Snapshot unmarshal path (b.pending ++ sent) ts x) snapshots n old all e)
  usable n old ts hold sent snapshots b e (p, inr h) = inr h.0

  builds-Phase :
      (n : ℕ) (ts : Treasures) (hold : Option (List PendingOp)) (sent : List PendingOp)
      (snapshots : List Treasures) (o : Option Bucket)
      → Phase unmarshal path ts hold sent snapshots o
      → Phase unmarshal path ts hold sent snapshots (built_from unmarshal (get_elem? snapshots n) o)
  unfolding built_from
  builds-Phase n ts hold sent snapshots none h = elim (Option-cases (get_elem? snapshots n)) [
    | inl e ↦ rw e h
    | inr (old, e) ↦ rw e h
  ]
  builds-Phase n ts hold sent snapshots (some b) h = elim (Option-cases (get_elem? snapshots n)) [
    | inl e ↦ rw e h
    | inr (old, e) ↦
        rw e
          (build-Phase old ts hold sent snapshots b (usable n old ts hold sent snapshots b e h) h)
  ]

  clones-Phase :
      (ts : Treasures) (hold : Option (List PendingOp)) (sent : List PendingOp)
      (snapshots : List Treasures) (o : Option Bucket)
      → Distinct ts
      → Phase unmarshal path ts hold sent snapshots o
      → Phase unmarshal path ts hold sent (ts ∷ snapshots) o
  clones-Phase ts hold sent snapshots none d h = h
  clones-Phase ts hold sent snapshots (some b) d (p, inl (nb, nh, ni, nm, fl, c, all)) =
      (p, inl (nb, nh, ni, nm, fl, c, ((d, c), all)))
  clones-Phase ts hold sent snapshots (some b) d (p, inr h) = (p, inr h)

  registered-Synced :
      (o : Option Bucket) (s : Swamp)
      → s.bucket ≡ o
      → Synced unmarshal path s
      → Synced unmarshal path (registered path o s)
  unfolding registered new set_build_in_flight
  registered-Synced none s e h = record {
    keys_once = h.keys_once;
    sent_covers = h.sent_covers;
    hold = none;
    taken_is =
        h.taken_is
        ∙ ap (listed unmarshal path)
            (subst (λ o. Phase unmarshal path s.treasures h.hold s.sent s.snapshots o) e h.phase);
    phase = (refl, inl (refl, refl, refl, refl, refl, h.sent_covers, tt));
  }
  registered-Synced (some b) s e h = h

  step-Synced :
      (e : Event) (s : Swamp)
      → Alone unmarshal e s
      → Synced unmarshal path s
      → Synced unmarshal path (step unmarshal path e s)
  unfolding step
  step-Synced (changes op) s al h = record {
    keys_once = changed_by-Distinct op s.treasures h.keys_once;
    sent_covers = again-Covers s.sent op s.treasures h.keys_once h.sent_covers;
    hold = h.hold;
    taken_is = h.taken_is;
    phase =
        changes-Phase unmarshal path op s.treasures h.hold s.sent s.snapshots s.bucket h.keys_once
          h.phase;
  }
  step-Synced (notifies n) s al h = notified-Synced unmarshal path n s h
  step-Synced registers s al h = registered-Synced s.bucket s refl h
  step-Synced clones s al h = record {
    keys_once = h.keys_once;
    sent_covers = h.sent_covers;
    hold = h.hold;
    taken_is = h.taken_is;
    phase = clones-Phase s.treasures h.hold s.sent s.snapshots s.bucket h.keys_once h.phase;
  }
  step-Synced (builds n) s al h = record {
    keys_once = h.keys_once;
    sent_covers = h.sent_covers;
    hold = h.hold;
    taken_is = h.taken_is;
    phase = builds-Phase n s.treasures h.hold s.sent s.snapshots s.bucket h.phase;
  }
  step-Synced takes s nt h = took-Synced unmarshal path s.bucket s refl nt h
  step-Synced (applies n) s al h =
      subst (λ ts. Synced unmarshal path (applied unmarshal (pick n ts) s.bucket s))
        (sym h.taken_is) (applied-Synced unmarshal path n h.hold s.bucket s h.phase h)
  step-Synced drops s al h = record {
    keys_once = h.keys_once;
    sent_covers = h.sent_covers;
    hold = none;
    taken_is = refl;
    phase = refl;
  }

  pub run-Synced :
      (events : List Event) (s : Swamp)
      → DrainsAlone unmarshal path events s
      → Synced unmarshal path s
      → Synced unmarshal path (run unmarshal path events s)
  unfolding run DrainsAlone
  run-Synced [] s alone h = h
  run-Synced (e ∷ events) s (al, alone) h =
      run-Synced events (step unmarshal path e s) alone (step-Synced e s al h)
