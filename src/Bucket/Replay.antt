-- ===== src/Bucket/Replay.antt =====
-- The build and the replays of bucket/bucket.go, as changes of the treasures that it indexes.
use hydraide.Base.{
  ◌≡◌, refl, sym, ◌∙◌, false, List, [], ◌∷◌, ◌++◌, Option, none, some, inl, inr, Bool-cases, ap,
  All, arith, append-nil,
}
use mathlib.Core.Path.{subst}
use hydraide.Base.Bytes.{Bytes}
use hydraide.Base.Assoc.{
  bytes_eq, bytes_eq_iff, lookup, insert, remove, Distinct, Absent, lookup-insert, insert-Distinct,
  remove-Distinct,
}
use hydraide.Bucket.Canon.{Key, Members}
use hydraide.Bucket.Slots.{Treasure, Maps, find_slot, insert_locked, insert_or_update_locked, move}
use hydraide.Bucket.State.{
  PendingOp, pending_insert, pending_update, pending_delete, key_for, insert_all, apply_pending,
  replay, no_maps,
}
use hydraide.Bucket.Find.{SlotsDistinct}
use hydraide.Bucket.Index.{Treasures, Agree, Indexes}
use hydraide.Bucket.Update.{insert-Indexes, delete-Indexes}

-- What an operation does to the treasures themselves.
unfoldable pub changed_by : PendingOp → Treasures → Treasures
changed_by (pending_insert t) ts = insert t.key t ts
changed_by (pending_update t) ts = insert t.key t ts
changed_by (pending_delete key) ts = remove key ts

unfoldable pub all_changed_by : List PendingOp → Treasures → Treasures
all_changed_by [] ts = ts
all_changed_by (op ∷ ops) ts = all_changed_by ops (changed_by op ts)

pub changed_by-Distinct :
    (op : PendingOp) (ts : Treasures) → Distinct ts → Distinct (changed_by op ts)
unfolding changed_by
changed_by-Distinct (pending_insert t) ts d = insert-Distinct t.key t ts d
changed_by-Distinct (pending_update t) ts d = insert-Distinct t.key t ts d
changed_by-Distinct (pending_delete key) ts d = remove-Distinct key ts d

pub all_changed_by-Distinct :
    (ops : List PendingOp) (ts : Treasures) → Distinct ts → Distinct (all_changed_by ops ts)
unfolding all_changed_by
all_changed_by-Distinct [] ts d = d
all_changed_by-Distinct (op ∷ ops) ts d =
    all_changed_by-Distinct ops (changed_by op ts) (changed_by-Distinct op ts d)

-- A treasure whose key is new is put last.
insert-fresh :
    (key : Bytes) (t : Treasure) (ts : Treasures)
    → lookup key ts ≡ none
    → insert key t ts ≡ ts ++ ((key, t) ∷ [])
unfolding insert lookup
insert-fresh key t [] h = refl
insert-fresh key t ((k, u) ∷ ts) h = elim (Bool-cases (bytes_eq k key)) [
  | inl e ↦ let some_there : ◌≡◌ {A = Option Treasure} (some u) none = rw e at h in cc
  | inr e ↦ rw e (ap (λ us. (k, u) ∷ us) (insert-fresh key t ts (rw e at h)))
]

abbrev Fresh : Treasures → Treasures → Type 0
Fresh snapshot ts = All (λ e. lookup e.0 ts ≡ none) snapshot

insert-Fresh :
    (key : Bytes) (t : Treasure) (snapshot ts : Treasures)
    → Absent key snapshot
    → Fresh snapshot ts
    → Fresh snapshot (insert key t ts)
insert-Fresh key t [] ts a f = tt
insert-Fresh key t ((k, u) ∷ snapshot) ts (apart, a) (fresh, f) =
    let other : bytes_eq key k ≡ false = ground (arith, bytes_eq_iff key k, bytes_eq_iff k key) in
    (lookup-insert key k t ts ∙ rw other fresh, insert-Fresh key t snapshot ts a f)

append-next :
    (xs : Treasures) (x : Bytes × Treasure) (ys : Treasures)
    → (xs ++ (x ∷ [])) ++ ys ≡ xs ++ (x ∷ ys)
append-next [] x ys = refl
append-next (w ∷ xs) x ys = ap (λ zs. w ∷ zs) (append-next xs x ys)

module _ (unmarshal : Bytes → Option Members) (path : Bytes) where
  abbrev Indexed : Maps → Treasures → Type 0
  Indexed m ts = Indexes (key_for unmarshal path) m ts

  pub apply_pending-Indexes :
      (op : PendingOp) (m : Maps) (ts : Treasures)
      → Distinct ts
      → Indexed m ts
      → Indexed (apply_pending unmarshal path op m) (changed_by op ts)
  unfolding apply_pending changed_by
  apply_pending-Indexes (pending_insert t) m ts d ix =
      insert-Indexes (key_for unmarshal path) m ts ix t.key t
  apply_pending-Indexes (pending_update t) m ts d ix =
      insert-Indexes (key_for unmarshal path) m ts ix t.key t
  apply_pending-Indexes (pending_delete key) m ts d ix =
      delete-Indexes (key_for unmarshal path) m ts ix key d

  pub replay-Indexes :
      (ops : List PendingOp) (m : Maps) (ts : Treasures)
      → Distinct ts
      → Indexed m ts
      → Indexed (replay unmarshal path ops m) (all_changed_by ops ts)
  unfolding replay all_changed_by
  replay-Indexes [] m ts d ix = ix
  replay-Indexes (op ∷ ops) m ts d ix =
      replay-Indexes ops (apply_pending unmarshal path op m) (changed_by op ts)
        (changed_by-Distinct op ts d) (apply_pending-Indexes op m ts d ix)

  Agree-none : (o : Option Key) → Agree (key_for unmarshal path) o none → o ≡ none
  Agree-none none a = refl
  Agree-none (some v) a = absurd a

  -- A treasure whose key is new is inserted as an update would.
  insert_locked-update :
      (key : Bytes) (v : Key) (t : Treasure) (m : Maps)
      → lookup key m.by_key ≡ none
      → insert_locked key v t m ≡ insert_or_update_locked key v t m
  unfolding insert_or_update_locked move
  insert_locked-update key v t m h = rw h refl

  insert_all-Indexes :
      (snapshot : Treasures) (m : Maps) (ts : Treasures)
      → Distinct snapshot
      → Fresh snapshot ts
      → Indexed m ts
      → Indexed (insert_all unmarshal path snapshot m) (ts ++ snapshot)
  unfolding insert_all
  insert_all-Indexes [] m ts d f ix = rw (append-nil ts) ix
  insert_all-Indexes ((key, t) ∷ snapshot) m ts (a, d) (fresh, f) ix =
      let v = key_for unmarshal path t in
      let none_kept : lookup key m.by_key ≡ none = Agree-none (lookup key m.by_key) (
        subst (λ p. Agree (key_for unmarshal path) (lookup key m.by_key) p) fresh
          (ix.by_key key)) in
      let next : Indexed (insert_locked key v t m) (insert key t ts) =
        subst (λ n. Indexed n (insert key t ts)) (sym (insert_locked-update key v t m none_kept))
          (insert-Indexes (key_for unmarshal path) m ts ix key t) in
      subst (λ us. Indexed (insert_all unmarshal path snapshot (insert_locked key v t m)) us)
        (ap (λ us. us ++ snapshot) (insert-fresh key t ts fresh) ∙ append-next ts (key, t) snapshot)
        (insert_all-Indexes snapshot (insert_locked key v t m) (insert key t ts) d
          (insert-Fresh key t snapshot ts a f) next)

  new-Indexes : Indexed no_maps []
  unfolding lookup find_slot SlotsDistinct
  new-Indexes = record { by_key = λ k. tt; by_value = λ w k. refl; keys_once = tt; slots_once = tt }

  new-Fresh : (snapshot : Treasures) → Fresh snapshot []
  unfolding lookup
  new-Fresh [] = tt
  new-Fresh (e ∷ snapshot) = (refl, new-Fresh snapshot)

  -- The build indexes the snapshot.
  pub build-Indexes :
      (snapshot : Treasures)
      → Distinct snapshot
      → Indexed (insert_all unmarshal path snapshot no_maps) snapshot
  build-Indexes snapshot d =
      insert_all-Indexes snapshot no_maps [] d (new-Fresh snapshot) new-Indexes
