-- ===== src/Bucket/Shared.antt =====
-- The bucket of swamp_bucket.go beside the treasures of its swamp, in the order that goroutines
-- reach the two. The notifications of the changes of one key come in the order of the changes,
-- those of the changes of several keys in any order.
use hydraide.Base.{◌≡◌, ℕ, true, List, [], ◌∷◌, ◌++◌, Option, none, some, if◌then◌else◌, zero, suc}
use hydraide.Base.Bytes.{Bytes}
use hydraide.Base.Assoc.{bytes_eq}
use hydraide.Bucket.Order.{key_of}
use hydraide.Bucket.Canon.{Members}
use hydraide.Bucket.State.{
  PendingOp, Bucket, new, set_build_in_flight, build_equality, on_change, take_pending, apply_taken,
}
use hydraide.Bucket.Index.{Treasures}
use hydraide.Bucket.Replay.{changed_by}

-- `sent` are the changes that the buckets have not been notified of, and `snapshots` the clones of
-- the treasures that callers of GetOrBuildBucket hold. `taken` are the operations that rounds of
-- `DrainPending` have taken and not applied yet.
pub record Swamp : Type 0 where
  pub treasures : Treasures
  pub sent : List PendingOp
  pub snapshots : List Treasures
  pub taken : List (List PendingOp)
  pub bucket : Option Bucket

-- What a goroutine does next.
pub data Event : Type 0 where
  changes : PendingOp → Event
  registers clones takes drops : Event
  notifies builds applies : ℕ → Event

-- `s.buckets[fieldPath]` of GetOrBuildBucket
unfoldable pub registered : Bytes → Option Bucket → Swamp → Swamp
registered path none s = record s {
  snapshots = [];
  bucket = some (set_build_in_flight true (new path));
}
registered path (some b) s = s

unfoldable pub get_elem? : List Treasures → ℕ → Option Treasures
get_elem? [] n = none
get_elem? (ts ∷ tss) zero = some ts
get_elem? (ts ∷ tss) (suc n) = get_elem? tss n

-- One of the changes, and the others. No change of its key may be before it.
unfoldable pub next_told : ℕ → List PendingOp → Option (PendingOp × List PendingOp)
next_told n [] = none
next_told zero (op ∷ ops) = some (op, ops)
next_told (suc n) (op ∷ ops) = elim (next_told n ops) [
  | none ↦ none
  | some found ↦
      if bytes_eq (key_of op) (key_of found.0) then none else some (found.0, op ∷ found.1)
]

-- One of the batches, and the others.
unfoldable pub pick : ℕ → List (List PendingOp) → Option (List PendingOp × List (List PendingOp))
pick n [] = none
pick zero (ops ∷ others) = some (ops, others)
pick (suc n) (ops ∷ others) = elim (pick n others) [
  | none ↦ none
  | some found ↦ some (found.0, ops ∷ found.1)
]

module _ (unmarshal : Bytes → Option Members) where
  unfoldable pub told : PendingOp → Option Bucket → Option Bucket
  told op none = none
  told op (some b) = some (on_change unmarshal op b)

  unfoldable pub notified : Option (PendingOp × List PendingOp) → Swamp → Swamp
  unfolding told
  notified none s = s
  notified (some (op, others)) s = record s { sent = others; bucket = told op s.bucket }

  unfoldable pub built_from : Option Treasures → Option Bucket → Option Bucket
  built_from (some snapshot) (some b) = some (build_equality unmarshal snapshot b)
  built_from _ b = b

  unfoldable pub with_batch : Option (List PendingOp) × Bucket → Swamp → Swamp
  with_batch (none, b) s = record s { bucket = some b }
  with_batch (some ops, b) s = record s { taken = s.taken ++ (ops ∷ []); bucket = some b }

  -- A caller drains when its build has returned.
  unfoldable pub took : Option Bucket → Swamp → Swamp
  took none s = s
  took (some b) s = if b.built then with_batch (take_pending unmarshal b) s else s

  unfoldable pub applied :
      Option (List PendingOp × List (List PendingOp)) → Option Bucket → Swamp → Swamp
  applied (some (ops, others)) (some b) s = record s {
    taken = others;
    bucket = some (apply_taken unmarshal ops b);
  }
  applied _ b s = s

  unfoldable pub step : Bytes → Event → Swamp → Swamp
  unfolding notified registered built_from took applied
  step path (changes op) s = record s {
    treasures = changed_by op s.treasures;
    sent = s.sent ++ (op ∷ []);
  }
  step path (notifies n) s = notified (next_told n s.sent) s
  step path registers s = registered path s.bucket s
  step path clones s = record s { snapshots = s.treasures ∷ s.snapshots }
  step path (builds n) s = record s { bucket = built_from (get_elem? s.snapshots n) s.bucket }
  step path takes s = took s.bucket s
  step path (applies n) s = applied (pick n s.taken) s.bucket s
  step path drops s = record s { snapshots = []; taken = []; bucket = none }

  unfoldable pub run : Bytes → List Event → Swamp → Swamp
  run path [] s = s
  run path (e ∷ events) s = run path events (step path e s)

  -- No round of a drain begins before the one before it has applied what it took.
  abbrev pub Alone : Event → Swamp → Type 0
  Alone takes s = s.taken ≡ []
  Alone _ s = Unit {0}

  unfoldable pub DrainsAlone : Bytes → List Event → Swamp → Type 0
  DrainsAlone path [] s = Unit {0}
  DrainsAlone path (e ∷ events) s = Alone e s × DrainsAlone path events (step path e s)
