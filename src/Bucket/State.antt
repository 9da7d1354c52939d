-- ===== src/Bucket/State.antt =====
-- The bucket of bucket/bucket.go and its methods.
use hydraide.Base.{
  ℕ, Bool, true, false, ◌||◌, List, [], ◌∷◌, ◌++◌, Option, none, some, if◌then◌else◌, is_nil,
  length,
}
use hydraide.Base.Bytes.{Bytes}
use hydraide.Base.Assoc.{bytes_eq}
use hydraide.Bucket.Canon.{Value, Members, Key, null_key, canonicalize, Conversions}
use hydraide.Bucket.Extract.{extract_key}
use hydraide.Bucket.Slots.{
  Treasure, Maps, insert_locked, insert_or_update_locked, delete_locked, collect_matching_locked,
  count_matching_locked,
}

pub data PendingOp : Type 0 where
  pending_insert pending_update : Treasure → PendingOp
  pending_delete : Bytes → PendingOp

-- `built` is what sync.Once keeps.
pub record Bucket : Type 0 where
  pub field_path : Bytes
  pub equality_init : Bool
  pub maps : Maps
  pub pending : List PendingOp
  pub build_in_flight : Bool
  pub built : Bool

abbrev pub no_maps : Maps
no_maps = record { by_value = []; by_key = [] }

unfoldable pub new : Bytes → Bucket
new path = record {
  field_path = path;
  equality_init = false;
  maps = no_maps;
  pending = [];
  build_in_flight = false;
  built = false;
}

unfoldable pub set_build_in_flight : Bool → Bucket → Bucket
set_build_in_flight v b = record b { build_in_flight = v }

-- What `tryEnqueue` gives: the buffer takes the operation while a build is in flight.
unfoldable pub try_enqueue : PendingOp → Bucket → Option Bucket
try_enqueue op b =
    if b.build_in_flight then some (record b { pending = b.pending ++ (op ∷ []) }) else none

unfoldable pub contains : Bytes → List Bytes → Bool
contains key [] = false
contains key (k ∷ ks) = bytes_eq k key || contains key ks

abbrev or_null : Key × Bool → Key
or_null (k, true) = k
or_null (k, false) = null_key

module _ (unmarshal : Bytes → Option Members) where
  unfoldable pub key_for : Bytes → Treasure → Key
  key_for path t = or_null (extract_key unmarshal t.content path)

  -- The range over a snapshot, in the order that Go's map yields it.
  unfoldable pub insert_all : Bytes → List (Bytes × Treasure) → Maps → Maps
  insert_all path [] m = m
  insert_all path ((key, t) ∷ snapshot) m =
      insert_all path snapshot (insert_locked key (key_for path t) t m)

  unfoldable pub build_equality : List (Bytes × Treasure) → Bucket → Bucket
  build_equality snapshot b = if b.built then b else record b {
    maps = insert_all b.field_path snapshot b.maps;
    equality_init = true;
    built = true;
  }

  -- One operation, on the maps.
  unfoldable pub apply_pending : Bytes → PendingOp → Maps → Maps
  apply_pending path (pending_insert t) m = insert_or_update_locked t.key (key_for path t) t m
  apply_pending path (pending_update t) m = insert_or_update_locked t.key (key_for path t) t m
  apply_pending path (pending_delete key) m = delete_locked key m

  unfoldable pub replay : Bytes → List PendingOp → Maps → Maps
  replay path [] m = m
  replay path (op ∷ ops) m = replay path ops (apply_pending path op m)

  unfoldable pub direct : PendingOp → Bucket → Bucket
  direct op b =
      if b.equality_init then record b { maps = apply_pending b.field_path op b.maps } else b

  unfoldable pub enqueued_or_direct : Option Bucket → PendingOp → Bucket → Bucket
  enqueued_or_direct (some b') op b = b'
  enqueued_or_direct none op b = direct op b

  -- `OnInsert`, `OnUpdate` and `OnDelete`, by the operation that they would buffer.
  unfoldable pub on_change : PendingOp → Bucket → Bucket
  unfolding direct enqueued_or_direct
  on_change op b = enqueued_or_direct (try_enqueue op b) op b

  abbrev pub on_insert : Treasure → Bucket → Bucket
  on_insert t b = on_change (pending_insert t) b

  abbrev pub on_update : Treasure → Bucket → Bucket
  on_update t b = on_change (pending_update t) b

  abbrev pub on_delete : Bytes → Bucket → Bucket
  on_delete key b = on_change (pending_delete key) b

  -- A round of the loop of `DrainPending`, as its two critical sections: under `pendingMu` the
  -- buffer is taken, or the flag goes when nothing is left, and the loop ends.
  unfoldable pub take_pending : Bucket → Option (List PendingOp) × Bucket
  take_pending b =
      if is_nil b.pending
      then (none, record b { build_in_flight = false })
      else (some b.pending, record b { pending = [] })

  -- Under `mu` what was taken is applied.
  unfoldable pub apply_taken : List PendingOp → Bucket → Bucket
  apply_taken ops b = record b { maps = replay b.field_path ops b.maps }

  module _ (f : Conversions) where
    unfoldable pub lookup_equal : Value → Bucket → List Treasure
    lookup_equal value b =
        if b.equality_init
        then collect_matching_locked f (canonicalize value) b.maps.by_value
        else []

    -- The treasures whose keys were not seen, with the keys that were.
    unfoldable pub unseen : List Bytes → List Treasure → List Treasure × List Bytes
    unseen seen [] = ([], seen)
    unseen seen (t ∷ ts) =
        let old = unseen seen ts in
        let fresh = unseen (t.key ∷ seen) ts in
        if contains t.key seen then old else (t ∷ fresh.0, fresh.1)

    unfoldable pub lookup_in_values : List Bytes → List Value → Bucket → List Treasure
    lookup_in_values seen [] b = []
    lookup_in_values seen (v ∷ vs) b =
        let found = unseen seen (collect_matching_locked f (canonicalize v) b.maps.by_value) in
        found.0 ++ lookup_in_values found.1 vs b

    unfoldable pub lookup_in : List Value → Bucket → List Treasure
    lookup_in values b = if b.equality_init then lookup_in_values [] values b else []

    unfoldable pub count_for_value : Value → Bucket → ℕ
    count_for_value value b =
        if b.equality_init then count_matching_locked f (canonicalize value) b.maps.by_value else 0

unfoldable pub count : Bucket → ℕ
count b = length b.maps.by_key

unfoldable pub reset : Bucket → Bucket
reset b = record b {
  maps = no_maps;
  equality_init = false;
  pending = [];
  build_in_flight = false;
  built = false;
}
