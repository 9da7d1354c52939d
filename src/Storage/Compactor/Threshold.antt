-- ===== src/Storage/Compactor/Threshold.antt =====
-- The threshold of `Compact`, and `ForceCompact`, of chronicler/v2/compactor.go.
use hydraide.Base.{ℕ, ◌≡◌, refl, true, false, List, length, Option, none, some, arith}
use hydraide.Base.Bytes.{Bytes}
use hydraide.Compressor.{Packages}
use hydraide.Storage.Entry.{Entry}
use hydraide.Storage.Reader.{Index}
use hydraide.Storage.Reader.Open.{new_file_reader_lem}
use hydraide.Storage.Reader.Index.{value_of}
use hydraide.Storage.Sessions.{Reads}
use hydraide.Storage.Fragmentation.{
  Ratio, Fragmentation, calculate_fragmentation, ratio_ltb, ratio_zero,
}
use hydraide.Storage.Fragmentation.Bounds.{calculate_fragmentation-IsShare}
use hydraide.Storage.Compactor.{
  all_succeed, Compactor, CompactionResult, with_fragmentation, with_reader, with_file, compact,
  force_compact, new_compactor, default_threshold, counted_result, sized_result,
}
use hydraide.Storage.Compactor.Values.{Compactable, old_reader, old_index, compact_keeps_values}

never_below : (r : Ratio) → ratio_ltb r ratio_zero ≡ false
never_below r = ground arith

module _ (p : Packages) (name content : Bytes) (log : List Entry) (c : Compactor) (now : ℕ)
    (order : Index → List (Bytes × Bytes)) (h : Compactable p name content log c now order) where
  -- A compactable file whose ratio is below the threshold is left alone: no error, no change to
  -- the disk, and a result that says so, with the counts of all entries and of the live ones.
  pub compact_not_due :
      (temp : Option Bytes)
      → ratio_ltb
          (calculate_fragmentation p (old_reader p name content log c now order h)).0.ratio
          c.threshold
        ≡ true
      → (result : CompactionResult) × (compact p order all_succeed now c
            (record { main = some content; temp = temp })
          ≡ (some result, none, record { main = some content; temp = temp }))
        × (result.compacted ≡ false)
        × (result.total_entries ≡ length log)
        × (result.live_entries ≡ length (old_index p name content log c now order h))
  unfolding compact with_file with_reader with_fragmentation
  compact_not_due temp below =
      let share = calculate_fragmentation-IsShare p h.documented name content log h.holds in
      let f : Fragmentation =
        (calculate_fragmentation p (old_reader p name content log c now order h)).0 in
      let counted : calculate_fragmentation p (old_reader p name content log c now order h)
          ≡ (f, none) =
        λ i. (f, share.0 i) in
      (
        counted_result (sized_result content) f,
        rw (h.idle, new_file_reader_lem p name content log h.holds c.file_path h.path)
            (rw (counted, below) refl),
        refl,
        share.1.total_count,
        share.1.live_count,
      )

  -- `ForceCompact` compacts a compactable file whatever the ratio and the threshold are: with no
  -- file on the temporary path it ends with no error and a file in which each key has the value
  -- that it had.
  pub force_compact_lem :
      (result : CompactionResult) × (content' : Bytes) × (new_log : List Entry) × (force_compact p
          order all_succeed now c
          (record { main = some content; temp = none })
        ≡ (some result, none, record { main = some content'; temp = none }))
      × (result.compacted ≡ true)
      × Reads p name content' c.file_path new_log
      × ((k : Bytes) → value_of k new_log ≡ value_of k log)
  unfolding force_compact
  force_compact_lem =
      compact_keeps_values p name content log (record c { threshold = ratio_zero }) now order
        (record {
          documented = h.documented;
          holds = h.holds;
          storable = h.storable;
          idle = h.idle;
          named = h.named;
          path = h.path;
          size = h.size;
          len = h.len;
          time = h.time;
          is_order = h.is_order;
        })
        (never_below
          (calculate_fragmentation p (old_reader p name content log c now order h)).0.ratio)

-- A compactor made with the threshold 0 leaves a compactable file alone whose ratio is below 0.3:
-- no error, no change to the disk, and a result that says so.
pub zero_threshold_lem :
    (p : Packages) (name content : Bytes) (log : List Entry) (path : Bytes) (size now : ℕ)
    (order : Index → List (Bytes × Bytes))
    (h : Compactable p name content log (new_compactor path size ratio_zero) now order)
    → ratio_ltb
        (calculate_fragmentation p
          (old_reader p name content log (new_compactor path size ratio_zero) now order h)).0.ratio
        default_threshold
      ≡ true
    → (result : CompactionResult) × (compact p order all_succeed now
          (new_compactor path size ratio_zero)
          (record { main = some content; temp = none })
        ≡ (some result, none, record { main = some content; temp = none }))
      × (result.compacted ≡ false)
unfolding new_compactor
zero_threshold_lem p name content log path size now order h below =
    let (result, ran, same, _, _) =
      compact_not_due p name content log (new_compactor path size ratio_zero) now order h none
        below in
    (result, ran, same)
