-- ===== src/Storage/Compactor/Values.antt =====
-- `Compact` of chronicler/v2/compactor.go and the values of the keys.

use hydraide.Base.{
  is_nil, ℕ, ◌≤◌, ◌<◌, ◌≡◌, ◌≢◌, refl, sym, ap, ◌∙◌, true, false, List, [], ◌∷◌, ◌++◌, map, length,
  All, Option, none, some,
}
use hydraide.Base.Bytes.{Bytes, bound}
use hydraide.Base.Outcome.{ok}
use hydraide.Base.Assoc.{lookup, Distinct}
use hydraide.Compressor.{Packages}
use hydraide.Compressor.RoundTrip.{Documented}
use hydraide.Storage.Errors.{Error}
use hydraide.Storage.Entry.{Entry}
use hydraide.Storage.Block.Image.{Storable}
use hydraide.Storage.Writer.Files.{FileHolds}
use hydraide.Storage.Writer.Path.{PathHolds, new_file_writer-Stores}
use hydraide.Storage.Reader.{FileReader, Index, load_index}
use hydraide.Storage.Reader.Open.{reader, new_file_reader_lem}
use hydraide.Storage.Reader.Index.{
  replay, replay-Distinct, lookup-replay, load_index-replay, name_replay, value_of, or_else,
}
use hydraide.Storage.Sessions.{Reads, FileHolds-Reads}
use hydraide.Storage.Fragmentation.{Fragmentation, calculate_fragmentation, ratio_ltb}
use hydraide.Storage.Fragmentation.Bounds.{calculate_fragmentation-IsShare}
use hydraide.Storage.Compactor.{
  all_succeed, Disk, Compactor, CompactionResult, Answer, with_index, with_fragmentation,
  with_reader, with_file, compact, counted_result, sized_result, live_entry, temp_suffix,
}
use hydraide.Storage.Compactor.Content.{Replaced, rewrite-Replaced}
use hydraide.Storage.Compactor.Content.Live.{
  IsOrder, wrapped, value_of-append-live, storable_of_lookup, lookup-Storable, replay-Storable,
}

pub suffix_nonempty : (path : Bytes) → path ++ temp_suffix ≢ []
suffix_nonempty [] h = cc
suffix_nonempty (x ∷ xs) h = cc

-- The values of a log, before those of an older one.
abbrev pub over : Option Bytes → Option Bytes → Option Bytes
over none old = old
over (some v) old = some v

pub over_none : (v : Option Bytes) → over v none ≡ v
over_none none = refl
over_none (some v) = refl

pub over-wrapped : (v old : Option Bytes) → or_else (wrapped v) old ≡ over v old
over-wrapped none old = refl
over-wrapped (some v) old = refl

-- A file of the swamp `name` that holds a log, with an idle compactor on its path, at a time, and an
-- order in which maps yield their pairs.
pub record Compactable (p : Packages) (name content : Bytes) (log : List Entry) (c : Compactor)
    (now : ℕ) (order : Index → List (Bytes × Bytes)) : Type 0 where
  pub documented : Documented p
  pub holds : FileHolds p name content log
  pub storable : All Storable log
  pub idle : c.is_running ≡ false
  pub named : is_nil name ≡ false
  pub path : c.file_path ≢ []
  pub size : c.max_block_size ≤ 524280
  pub len : length name < bound 2
  pub time : now < bound 8
  pub is_order : IsOrder order

module _ (p : Packages) (name content : Bytes) (log : List Entry) (c : Compactor) (now : ℕ)
    (order : Index → List (Bytes × Bytes)) (h : Compactable p name content log c now order) where
  abbrev pub old_reader : FileReader
  old_reader = reader p name content log h.holds

  abbrev pub old_index : Index
  old_index = (load_index p old_reader).0

  -- The file is fragmented enough.
  abbrev pub Due : Type 0
  Due = ratio_ltb (calculate_fragmentation p old_reader).0.ratio c.threshold ≡ false

  index_replay : old_index ≡ (replay log ([], name)).0
  index_replay =
      ap (λ (s : Index × Bytes × Option Error). s.0)
        (load_index-replay p name h.documented content log h.holds)

  index_Distinct : Distinct old_index
  index_Distinct = rw index_replay (replay-Distinct log [] name tt)

  index_value_of : (k : Bytes) → lookup k (order old_index) ≡ value_of k log
  unfolding lookup
  index_value_of k =
      h.is_order.same old_index k index_Distinct
      ∙ ap (lookup k) index_replay
      ∙ lookup-replay k log [] name tt

  index_Storable : All Storable (map live_entry (order old_index))
  index_Storable =
      let old : All Storable (map live_entry old_index) =
        rw index_replay (replay-Storable log [] name h.storable tt) in
      storable_of_lookup (order old_index) (h.is_order.distinct old_index index_Distinct) (λ k v e.
        lookup-Storable old_index old k v (sym (h.is_order.same old_index k index_Distinct) ∙ e))

  module _ (due : Due) (temp : Option Bytes) (temp_log : List Entry)
      (t : PathHolds p name temp temp_log) where
    abbrev disk : Disk
    disk = record { main = some content; temp = temp }

    abbrev pub new_log : List Entry
    new_log = temp_log ++ map live_entry (order old_index)

    reader_Replaced :
        Replaced p h.documented name new_log
          (with_reader p order all_succeed now c (sized_result content) disk (ok old_reader))
    unfolding with_reader with_fragmentation with_index
    reader_Replaced =
        let f : Fragmentation = (calculate_fragmentation p old_reader).0 in
        let counted : calculate_fragmentation p old_reader ≡ (f, none) =
          λ i. (f, (calculate_fragmentation-IsShare p h.documented name content log h.holds).0 i) in
        let loaded : load_index p old_reader ≡ (old_index, name, none) =
          load_index-replay p name h.documented content log h.holds
          ∙ (λ i. (sym index_replay i, name_replay log [] name h.named i, none)) in
        let (fw, opened, stores, is_open) =
          new_file_writer-Stores p name now c.max_block_size (c.file_path ++ temp_suffix) temp
            temp_log (suffix_nonempty c.file_path) h.time h.len h.size t in
        rw (counted, due, loaded, opened)
          (rewrite-Replaced p h.documented name now c.max_block_size
            (counted_result (sized_result content) f) disk (order old_index) fw temp_log stores
            is_open index_Storable)

    value_of_new : (k : Bytes) → value_of k new_log ≡ over (value_of k log) (value_of k temp_log)
    value_of_new k =
        value_of-append-live k temp_log (order old_index)
          (h.is_order.distinct old_index index_Distinct)
        ∙ over-wrapped (lookup k (order old_index)) (value_of k temp_log)
        ∙ ap (λ v. over v (value_of k temp_log)) (index_value_of k)

    -- For a compactable file that holds `log` and is due, where the temporary path holds
    -- `temp_log` of the same swamp: the compaction ends with no error, the temporary path is free
    -- again, and a reader of the new file finds the values of both logs: a key has its value in
    -- `log`, and where it has none there, the one in `temp_log`.
    pub compact_merges_leftover :
        (result : CompactionResult) × (content' : Bytes) × (compact p order all_succeed now c disk
          ≡ (some result, none, record { main = some content'; temp = none }))
        × (result.compacted ≡ true)
        × Reads p name content' c.file_path new_log
        × ((k : Bytes) → value_of k new_log ≡ over (value_of k log) (value_of k temp_log))
    unfolding compact with_file
    compact_merges_leftover =
        let r = reader_Replaced in
        let a : Answer =
          with_reader p order all_succeed now c (sized_result content) disk (ok old_reader) in
        (
          a.0,
          r.content,
          rw (h.idle, new_file_reader_lem p name content log h.holds c.file_path h.path)
              (λ i. (some a.0, r.no_error i, r.disk i)),
          r.compacted,
          FileHolds-Reads p h.documented name c.file_path h.path r.content new_log r.holds,
          value_of_new,
        )

  -- For a compactable file (an idle compactor on a path and a file that holds a log, within the
  -- bounds of `Compactable`) that is due, with no file on the temporary path: the compaction ends
  -- with no error and a file that a reader opens, with the swamp's name, in which each key has the
  -- value that it had.
  pub compact_keeps_values :
      Due
      → (result : CompactionResult) × (content' : Bytes) × (new_log : List Entry) × (compact p order
            all_succeed now c
            (record { main = some content; temp = none })
          ≡ (some result, none, record { main = some content'; temp = none }))
        × (result.compacted ≡ true)
        × Reads p name content' c.file_path new_log
        × ((k : Bytes) → value_of k new_log ≡ value_of k log)
  compact_keeps_values due =
      let (result, content', ran, compacted, reads, values) =
        compact_merges_leftover due none [] refl in
      (
        result,
        content',
        map live_entry (order old_index),
        ran,
        compacted,
        reads,
        λ k. values k ∙ over_none (value_of k log),
      )
