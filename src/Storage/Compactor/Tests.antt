-- ===== src/Storage/Compactor/Tests.antt =====
-- Compactions of the sample file.
use hydraide.Base.{
  length, ap, ◌⊎◌, Option, ℕ, ◌≡◌, refl, none, some, true, false, List, [], ◌∷◌, All, arith,
}
use hydraide.Base.Bytes.{Bytes}
use hydraide.Base.Assoc.{bytes_eq, insert}
use hydraide.Compressor.Stored.{stored, stored-Documented}
use hydraide.Storage.Errors.{Error, not_exist}
use hydraide.Storage.Entry.{Entry}
use hydraide.Storage.Block.Image.{Storable}
use hydraide.Storage.Reader.{Index}
use hydraide.Storage.Reader.Index.{value_of}
use hydraide.Storage.Sessions.{Reads}
use hydraide.Storage.Fragmentation.Bounds.{calculated}
use hydraide.Storage.Fragmentation.{
  Fragmentation, calculate_fragmentation, fragmentation_of, count_entry, ratio_zero, ratio_ltb,
}
use hydraide.Storage.Sample.{swamp, path, first, log, log-Storable, file_with, file_with-FileHolds}
use hydraide.Storage.Compactor.{
  all_succeed, OsCalls, Disk, Compactor, CompactionResult, compact, force_compact, new_compactor,
  default_threshold,
}
use hydraide.Storage.Compactor.Safety.{compact_keeps_main}
use hydraide.Storage.Compactor.Values.{
  Compactable, Due, old_reader, old_index, over, new_log, compact_merges_leftover,
  compact_keeps_values,
}
use hydraide.Storage.Compactor.Content.Live.{IsOrder}
use hydraide.Storage.Compactor.Threshold.{force_compact_lem, compact_not_due, zero_threshold_lem}

-- A map that yields its pairs in the order of the list.
abbrev in_order : Index → List (Bytes × Bytes)
in_order m = m

in_order-IsOrder : IsOrder in_order
in_order-IsOrder = record { distinct = λ m d. d; same = λ m k d. refl }

abbrev forced : Compactor
forced = record {
  file_path = path;
  max_block_size = 16;
  is_running = false;
  threshold = ratio_zero;
}

log-Compactable : Compactable stored swamp (file_with log) log forced 1800 in_order
log-Compactable = record {
  documented = stored-Documented;
  holds = file_with-FileHolds log log-Storable;
  storable = log-Storable;
  idle = refl;
  named = refl;
  path = λ e. cc;
  size = omega arith;
  len = omega arith;
  time = omega arith;
  is_order = in_order-IsOrder;
}

never_below : (a : ℕ × ℕ) → ratio_ltb (record { num = a.0; den = a.1 }) ratio_zero ≡ false
never_below a = ground arith

log-Due : Due stored swamp (file_with log) log forced 1800 in_order log-Compactable
log-Due = never_below _

compact_keeps_values_example :
    (result : CompactionResult) × (content' : Bytes) × (new_log : List Entry) × (compact stored
        in_order all_succeed 1800 forced
        (record { main = some (file_with log); temp = none })
      ≡ (some result, none, record { main = some content'; temp = none }))
    × (result.compacted ≡ true)
    × Reads stored swamp content' path new_log
    × ((k : Bytes) → value_of k new_log ≡ value_of k log)
compact_keeps_values_example =
    compact_keeps_values stored swamp (file_with log) log forced 1800 in_order log-Compactable
      log-Due

-- What an interrupted compaction may have left.
first-Storable : All Storable first
first-Storable = (log-Storable.0, (log-Storable.1.0, tt))

-- The deleted key of the log is back.
compact_merges_leftover_example :
    (result : CompactionResult) × (content' : Bytes) × (compact stored in_order all_succeed 1800
        forced
        (record { main = some (file_with log); temp = some (file_with first) })
      ≡ (some result, none, record { main = some content'; temp = none }))
    × (result.compacted ≡ true)
    × Reads stored swamp content' path (
        new_log stored swamp
          (file_with log)
          log
          forced
          1800
          in_order
          log-Compactable
          log-Due
          (some (file_with first))
          first
          (file_with-FileHolds first first-Storable))
    × ((k : Bytes)
        → value_of k (
            new_log stored swamp
              (file_with log)
              log
              forced
              1800
              in_order
              log-Compactable
              log-Due
              (some (file_with first))
              first
              (file_with-FileHolds first first-Storable))
          ≡ over (value_of k log) (value_of k first))
compact_merges_leftover_example =
    compact_merges_leftover stored swamp (file_with log) log forced 1800 in_order log-Compactable
      log-Due (some (file_with first)) first (file_with-FileHolds first first-Storable)

gone_and_back : over (value_of (b'k' ∷ []) log) (value_of (b'k' ∷ []) first) ≡ some (1 ∷ 2 ∷ [])
unfolding bytes_eq
gone_and_back = refl

abbrev damaged : Disk
damaged = record { main = some (0 ∷ 1 ∷ []); temp = none }

-- The rename succeeds and `os.Stat` does not.
abbrev stat_fails : OsCalls
stat_fails = record { rename_error = none; stat_error = some not_exist }

compact_keeps_main_example :
    (let (result, e, disk') = compact stored in_order stat_fails 1800 forced damaged in
      ((x : Error)
        → e ≡ some x
        → (disk'.main ≡ damaged.main)
          ⊎ ((stat_fails.rename_error ≡ none) × (stat_fails.stat_error ≡ some x)))
      × ((r : CompactionResult)
          → result ≡ some r
          → r.compacted ≡ false
          → (disk'.main ≡ damaged.main)
            ⊎ ((stat_fails.rename_error ≡ none)
                × (x : Error) × (stat_fails.stat_error ≡ some x)
                × (e ≡ some x))))
compact_keeps_main_example = compact_keeps_main stored in_order stat_fails 1800 damaged forced

abbrev index : Index
index = (b'j' ∷ [], 3 ∷ []) ∷ []

force_compact_lem_example :
    (result : CompactionResult) × (content' : Bytes) × (new_log : List Entry) × (force_compact
        stored in_order all_succeed 1800 forced
        (record { main = some (file_with log); temp = none })
      ≡ (some result, none, record { main = some content'; temp = none }))
    × (result.compacted ≡ true)
    × Reads stored swamp content' path new_log
    × ((k : Bytes) → value_of k new_log ≡ value_of k log)
force_compact_lem_example =
    force_compact_lem stored swamp (file_with log) log forced 1800 in_order log-Compactable

-- A file without a dead entry.
abbrev unforced : Compactor
unforced = new_compactor path 16 ratio_zero

first-Compactable : Compactable stored swamp (file_with first) first unforced 1800 in_order
unfolding new_compactor
first-Compactable = record {
  documented = stored-Documented;
  holds = file_with-FileHolds first first-Storable;
  storable = first-Storable;
  idle = refl;
  named = refl;
  path = λ e. cc;
  size = omega arith;
  len = omega arith;
  time = omega arith;
  is_order = in_order-IsOrder;
}

first_fragmentation :
    (calculate_fragmentation stored (
      old_reader stored swamp
        (file_with first)
        first
        unforced
        1800
        in_order
        first-Compactable)).0.ratio
    ≡ record { num = 0; den = 2 }
unfolding fragmentation_of count_entry insert bytes_eq
first_fragmentation =
    ap (λ (r : Fragmentation × Option Error). r.0.ratio)
      (calculated stored stored-Documented swamp (file_with first) first first-Compactable.holds)

first_below :
    ratio_ltb
      (calculate_fragmentation stored (
        old_reader stored swamp
          (file_with first)
          first
          unforced
          1800
          in_order
          first-Compactable)).0.ratio
      default_threshold
    ≡ true
first_below = rw first_fragmentation refl

first_threshold :
    ratio_ltb
      (calculate_fragmentation stored (
        old_reader stored swamp
          (file_with first)
          first
          unforced
          1800
          in_order
          first-Compactable)).0.ratio
      unforced.threshold
    ≡ true
unfolding new_compactor
first_threshold = rw first_fragmentation refl

zero_threshold_lem_example :
    (result : CompactionResult) × (compact stored in_order all_succeed 1800 unforced
        (record { main = some (file_with first); temp = none })
      ≡ (some result, none, record { main = some (file_with first); temp = none }))
    × (result.compacted ≡ false)
zero_threshold_lem_example =
    zero_threshold_lem stored swamp (file_with first) first path 16 1800 in_order first-Compactable
      first_below

compact_not_due_example :
    (result : CompactionResult) × (compact stored in_order all_succeed 1800 unforced
        (record { main = some (file_with first); temp = none })
      ≡ (some result, none, record { main = some (file_with first); temp = none }))
    × (result.compacted ≡ false)
    × (result.total_entries ≡ length first)
    × (result.live_entries
        ≡ length (
            old_index stored swamp
              (file_with first)
              first
              unforced
              1800
              in_order
              first-Compactable))
compact_not_due_example =
    compact_not_due stored swamp (file_with first) first unforced 1800 in_order first-Compactable
      none first_threshold
