-- ===== src/Bucket/Tests.antt =====
-- Runs of the bucket of bucket/bucket.go and of swamp_bucket.go.
use hydraide.Base.{ℕ, ◌≡◌, refl, ◌↔◌, true, false, List, [], ◌∷◌, Option, none, some, length}
use hydraide.Base.Bytes.{Bytes}
use hydraide.Base.Assoc.{bytes_eq, lookup, insert, remove}
use hydraide.Base.Split.{split}
use hydraide.Bucket.Canon.{
  int_value, uint_value, Members, no_members, member, int_key, key_eq, Conversions, equal,
  canonicalize,
}
use hydraide.Bucket.Extract.{
  member_at, part_of, walk, extract_field_by_path, without_magic, decoded_key, extract_key,
}
use hydraide.Bucket.Slots.{
  Treasure, find_slot, put_slot, drop_slot, insert_locked, shrunk, remove_found,
  remove_from_slot_locked, move, insert_or_update_locked, delete_found, delete_locked,
  collect_others, collect_matching_locked,
}
use hydraide.Bucket.State.{
  pending_insert, pending_update, pending_delete, Bucket, new, set_build_in_flight, try_enqueue,
  key_for, insert_all, build_equality, apply_pending, replay, on_change, direct, enqueued_or_direct,
  take_pending, apply_taken, lookup_equal, lookup_in, contains,
}
use hydraide.Bucket.Index.{Treasures}
use hydraide.Bucket.Among.{Among}
use hydraide.Bucket.Replay.{changed_by}
use hydraide.Bucket.Shared.{
  Event, changes, notifies, registers, clones, builds, takes, applies, registered, get_elem?, told,
  notified, built_from, took, with_batch, applied, pick, next_told, step, run, DrainsAlone,
}
use hydraide.Bucket.Keys.{Once, keys}
use hydraide.Bucket.Union.{in_any, lookup_in-union}
use hydraide.Bucket.Lookups.{opened, lookup_equal-exact}

-- A body of one byte holds that number in the field "a".
abbrev one_number : Bytes → Option Members
one_number [] = none
one_number (n ∷ bs) = some (member (b'a' ∷ []) (int_value n) no_members)

abbrev no_conversions : Conversions
no_conversions = record { of_int = λ n. n; of_uint = λ n. n; to_int = λ n. n; to_uint = λ n. n }

abbrev field_a : Bytes
field_a = b'a' ∷ []

abbrev first : Treasure
first = record { key = b'x' ∷ []; content = some (7 ∷ []) }

abbrev second : Treasure
second = record { key = b'y' ∷ []; content = some (7 ∷ []) }

abbrev moved : Treasure
moved = record { key = b'x' ∷ []; content = some (8 ∷ []) }

abbrev at_first : Treasures
at_first = (b'x' ∷ [], first) ∷ []

-- A treasure that comes while the bucket is built, and changes that are replayed or come later.
abbrev a_build : List Event
a_build =
    registers
    ∷ (clones
        ∷ (changes (pending_insert second)
            ∷ (notifies 0
                ∷ (builds 0
                    ∷ (changes (pending_update moved)
                        ∷ (notifies 0 ∷ (takes ∷ (applies 0 ∷ (takes ∷ [])))))))))

abbrev built_bucket : Bucket
built_bucket = record {
  field_path = field_a;
  equality_init = true;
  maps = record {
    by_value = (int_key 7, (b'y' ∷ [], second) ∷ []) ∷ ((int_key 8, (b'x' ∷ [], moved) ∷ []) ∷ []);
    by_key = (b'x' ∷ [], int_key 8) ∷ ((b'y' ∷ [], int_key 7) ∷ []);
  };
  pending = [];
  build_in_flight = false;
  built = true;
}

-- The last pending update moves its treasure, and then nothing is left.
after_build : (run one_number field_a a_build (opened at_first)).bucket ≡ some built_bucket
unfolding run step get_elem? on_change try_enqueue build_equality set_build_in_flight new
    take_pending apply_taken replay apply_pending insert_or_update_locked lookup insert_all
    insert_locked insert bytes_eq key_eq remove split canonicalize extract_field_by_path extract_key
    decoded_key member_at part_of walk without_magic changed_by built_from took with_batch applied
    pick next_told notified registered told delete_found delete_locked drop_slot find_slot move
    put_slot remove_found remove_from_slot_locked shrunk direct enqueued_or_direct key_for
after_build = refl

all_told : (run one_number field_a a_build (opened at_first)).sent ≡ []
unfolding run step get_elem? on_change try_enqueue build_equality set_build_in_flight new
    take_pending apply_taken replay apply_pending insert_or_update_locked lookup insert_all
    insert_locked insert bytes_eq key_eq remove split canonicalize extract_field_by_path extract_key
    decoded_key member_at part_of walk without_magic changed_by built_from took with_batch applied
    pick next_told notified registered told delete_found delete_locked drop_slot find_slot move
    put_slot remove_found remove_from_slot_locked shrunk direct enqueued_or_direct key_for
all_told = refl

drains_alone : DrainsAlone one_number field_a a_build (opened at_first)
unfolding DrainsAlone run step get_elem? on_change try_enqueue build_equality set_build_in_flight
    new take_pending apply_taken replay apply_pending insert_or_update_locked lookup insert_all
    insert_locked insert bytes_eq key_eq remove split canonicalize extract_field_by_path extract_key
    decoded_key member_at part_of walk without_magic changed_by built_from took with_batch applied
    pick next_told notified registered told delete_found delete_locked drop_slot find_slot move
    put_slot remove_found remove_from_slot_locked shrunk direct enqueued_or_direct key_for
drains_alone = (tt, (tt, (tt, (tt, (tt, (tt, (tt, (refl, (tt, (refl, tt))))))))))

lookup_equal-exact_example :
    Among second (lookup_equal one_number no_conversions (uint_value 7) built_bucket) ↔ (
      (k : Bytes) × (lookup k (run one_number field_a a_build (opened at_first)).treasures
        ≡ some second)
      × (equal no_conversions (key_for one_number field_a second) (canonicalize (uint_value 7))
          ≡ true))
lookup_equal-exact_example =
    lookup_equal-exact one_number field_a no_conversions at_first a_build built_bucket
      (uint_value 7) second (tt, tt) drains_alone after_build refl all_told

lookup_in-union_example :
    Once
      (keys (lookup_in one_number no_conversions (uint_value 7 ∷ (int_value 7 ∷ [])) built_bucket))
    × ((k : Bytes)
        → contains k (
            keys (
              lookup_in one_number no_conversions (uint_value 7 ∷ (int_value 7 ∷ [])) built_bucket))
          ≡ in_any one_number no_conversions k (uint_value 7 ∷ (int_value 7 ∷ [])) built_bucket)
lookup_in-union_example =
    lookup_in-union one_number no_conversions (uint_value 7 ∷ (int_value 7 ∷ [])) built_bucket

-- A lookup while the pending operations wait gives what the snapshot had.
lookup_before_drain :
    length (
      lookup_equal one_number no_conversions (int_value 7) (
        build_equality one_number at_first
          (on_change one_number (pending_update moved) (set_build_in_flight true (new field_a)))))
    ≡ 1
unfolding lookup_equal collect_matching_locked collect_others equal run step get_elem? on_change
    try_enqueue build_equality set_build_in_flight new take_pending apply_taken replay apply_pending
    insert_or_update_locked lookup insert_all insert_locked insert bytes_eq key_eq remove split
    canonicalize extract_field_by_path extract_key decoded_key member_at part_of walk without_magic
    changed_by built_from took with_batch applied pick next_told notified registered told
    delete_found delete_locked drop_slot find_slot move put_slot remove_found
    remove_from_slot_locked shrunk direct enqueued_or_direct key_for
lookup_before_drain = refl

-- Two callers drain at once. A treasure that is deleted meanwhile stays in the bucket.
abbrev two_drains : List Event
two_drains =
    registers
    ∷ (clones
        ∷ (changes (pending_insert second)
            ∷ (notifies 0
                ∷ (builds 0
                    ∷ (takes
                        ∷ (takes
                            ∷ (changes (pending_delete (b'y' ∷ []))
                                ∷ (notifies 0 ∷ (applies 0 ∷ [])))))))))

stale_bucket : Option Bucket → ℕ
stale_bucket none = 0
stale_bucket (some b) = length (lookup_equal one_number no_conversions (int_value 7) b)

two_drains_keep :
    (stale_bucket (run one_number field_a two_drains (opened at_first)).bucket ≡ 2)
    × (length (run one_number field_a two_drains (opened at_first)).treasures ≡ 1)
unfolding stale_bucket lookup_equal collect_matching_locked collect_others equal run step get_elem?
    on_change try_enqueue build_equality set_build_in_flight new take_pending apply_taken replay
    apply_pending insert_or_update_locked lookup insert_all insert_locked insert bytes_eq key_eq
    remove split canonicalize extract_field_by_path extract_key decoded_key member_at part_of walk
    without_magic changed_by built_from took with_batch applied pick next_told notified registered
    told delete_found delete_locked drop_slot find_slot move put_slot remove_found
    remove_from_slot_locked shrunk direct enqueued_or_direct key_for
two_drains_keep = (refl, refl)
