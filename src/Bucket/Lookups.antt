-- ===== src/Bucket/Lookups.antt =====
-- What the lookups of bucket/bucket.go give of the treasures of the swamp.
use hydraide.Base.{
  ◌≡◌, refl, sym, ◌∙◌, true, false, List, [], Option, none, some, inl, inr, ◌↔◌, length, Bool-cases,
}
use mathlib.Core.Path.{subst}
use hydraide.Base.Bytes.{Bytes}
use hydraide.Base.Assoc.{Distinct, lookup}
use hydraide.Bucket.Canon.{Members, Value, Conversions, equal, canonicalize}
use hydraide.Bucket.Slots.{Treasure, collect_matching_locked}
use hydraide.Bucket.State.{Bucket, key_for, lookup_equal, count_for_value}
use hydraide.Bucket.Index.{Treasures, Indexes}
use hydraide.Bucket.Among.{Among}
use hydraide.Bucket.Exact.{collect_sound, collect_complete, count-length}
use hydraide.Bucket.Synced.{Synced, Phase}
use hydraide.Bucket.Shared.{Swamp, Event, run, DrainsAlone}
use hydraide.Bucket.Steps.{run-Synced}

-- A swamp that no bucket has been asked of.
abbrev pub opened : Treasures → Swamp
opened ts = record { treasures = ts; sent = []; snapshots = []; taken = []; bucket = none }

module _ (unmarshal : Bytes → Option Members) (path : Bytes) where
  pub opened-Synced : (ts : Treasures) → Distinct ts → Synced unmarshal path (opened ts)
  opened-Synced ts d = record {
    keys_once = d;
    sent_covers = λ k. refl;
    hold = none;
    taken_is = refl;
    phase = refl;
  }

  not_both : (b : Bucket) → b.build_in_flight ≡ true → b.build_in_flight ≡ false → ⊥
  not_both b on off = cc

  -- The treasures that a bucket which has been built and drained indexes.
  settled :
      (s : Swamp) (b : Bucket)
      → Synced unmarshal path s
      → s.bucket ≡ some b
      → b.build_in_flight ≡ false
      → s.sent ≡ []
      → (b.equality_init ≡ true)
        × (old : Treasures) × Indexes (key_for unmarshal path) b.maps old
        × ((k : Bytes) → lookup k old ≡ lookup k s.treasures)
  settled s b h eb off es =
      elim (subst (λ o. Phase unmarshal path s.treasures h.hold s.sent s.snapshots o) eb
        h.phase).1 [
          | inl (_, _, _, _, on, _, _) ↦ absurd (not_both b on off)
          | inr (_, it, inl on, _, _, _) ↦ absurd (not_both b on off)
          | inr (_, it, inr (nh, nothing), old, (dold, c), ix) ↦
              (it, old, ix, rw (nh, nothing, es) at c)
        ]

  module _ (f : Conversions) where
    lookup_equal-init :
        (value : Value) (b : Bucket)
        → b.equality_init ≡ true
        → lookup_equal unmarshal f value b
          ≡ collect_matching_locked f (canonicalize value) b.maps.by_value
    unfolding lookup_equal
    lookup_equal-init value b it = rw it refl

    -- After any events on a swamp and a bucket of it, in any order, if the notifications of the
    -- changes of one key come in the order of the changes, no round of `DrainPending` takes
    -- operations before the round before it has applied what it took, the bucket's build is over
    -- and all changes have been notified: a lookup gives a treasure exactly when the swamp has it
    -- and the field of its content is equal to the value.
    pub lookup_equal-exact :
        (ts : Treasures) (events : List Event) (b : Bucket) (value : Value) (t : Treasure)
        → Distinct ts
        → DrainsAlone unmarshal path events (opened ts)
        → (run unmarshal path events (opened ts)).bucket ≡ some b
        → b.build_in_flight ≡ false
        → (run unmarshal path events (opened ts)).sent ≡ []
        → Among t (lookup_equal unmarshal f value b) ↔ (
            (k : Bytes) × (lookup k (run unmarshal path events (opened ts)).treasures ≡ some t)
            × (equal f (key_for unmarshal path t) (canonicalize value) ≡ true))
    lookup_equal-exact ts events b value t d alone eb off es =
        let s = run unmarshal path events (opened ts) in
        let (it, old, ix, same) =
          settled s b (run-Synced unmarshal path events (opened ts) alone (opened-Synced ts d)) eb
            off es in
        let found = lookup_equal-init value b it in
        let of = key_for unmarshal path in
        (
          λ h.
              let (k, there, e) =
                collect_sound f of b.maps old ix (canonicalize value) t
                  (subst (λ l. Among t l) found h) in
              (k, sym (same k) ∙ there, e),
          λ h.
              subst (λ l. Among t l) (sym found)
                (collect_complete f of b.maps old ix (canonicalize value) h.0 t (same h.0 ∙ h.1)
                  h.2),
        )

    -- The count of a value is the number of treasures that a lookup of it gives.
    pub count_for_value-length :
        (value : Value) (b : Bucket)
        → count_for_value unmarshal f value b ≡ length (lookup_equal unmarshal f value b)
    unfolding count_for_value lookup_equal
    count_for_value-length value b = elim (Bool-cases b.equality_init) [
      | inl e ↦ rw e (count-length f (canonicalize value) b.maps.by_value)
      | inr e ↦ rw e refl
    ]
