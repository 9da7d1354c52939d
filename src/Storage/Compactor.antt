-- ===== src/Storage/Compactor.antt =====
-- chronicler/v2/compactor.go: rewriting a file with its live entries.
pub mod Safety
pub mod Tests
pub mod Content
pub mod Values
pub mod FromIndex
pub mod Threshold
use hydraide.Base.{
  ℕ, ◌+◌, ◌-◌, ◌*◌, Bool, true, false, not, if◌then◌else◌, List, [], ◌∷◌, ◌++◌, length, is_nil, ltb,
  leb, ◌==◌, ◌||◌, ◌&&◌, Option, none, some,
}
use hydraide.Base.Bytes.{Bytes}
use hydraide.Base.Outcome.{Outcome, ok, err}
use hydraide.Compressor.{Packages}
use hydraide.Storage.Errors.{Error, Result, compaction_running, empty_path, not_exist}
use hydraide.Storage.Header.{default_max_block_size}
use hydraide.Storage.Entry.{Entry, op_insert}
use hydraide.Storage.Writer.{FileWriter, new_file_writer_with_name, write_entry, close}
use hydraide.Storage.Reader.{FileReader, Index, new_file_reader, load_index}
use hydraide.Storage.Fragmentation.{
  Ratio, ratio_ltb, ratio_zero, Fragmentation, calculate_fragmentation,
}

-- What the file's path and the path of the temporary file name: no file, or a file's bytes.
pub record Disk : Type 0 where
  pub main : Option Bytes
  pub temp : Option Bytes

-- How `os.Rename` of the temporary file and `os.Stat` after it end.
pub record OsCalls : Type 0 where
  pub rename_error : Option Error
  pub stat_error : Option Error

abbrev pub all_succeed : OsCalls
all_succeed = record { rename_error = none; stat_error = none }

pub record Compactor : Type 0 where
  pub file_path : Bytes
  pub max_block_size : ℕ
  pub is_running : Bool
  pub threshold : Ratio

pub record CompactionResult : Type 0 where
  pub old_file_size : ℕ
  pub new_file_size : ℕ
  pub total_entries : ℕ
  pub live_entries : ℕ
  pub removed_entries : ℕ
  pub fragmentation : Ratio
  pub compacted : Bool
  pub error : Option Error

abbrev pub no_result : CompactionResult
no_result = record {
  old_file_size = 0;
  new_file_size = 0;
  total_entries = 0;
  live_entries = 0;
  removed_entries = 0;
  fragmentation = ratio_zero;
  compacted = false;
  error = none;
}

-- 0.3
abbrev pub default_threshold : Ratio
default_threshold = record { num = 3; den = 10 }

-- A threshold that is not positive has the numerator 0, and a size that is not positive is 0.
unfoldable pub new_compactor : Bytes → ℕ → Ratio → Compactor
new_compactor file_path max_block_size threshold = record {
  file_path = file_path;
  max_block_size = if max_block_size == 0 then default_max_block_size else max_block_size;
  is_running = false;
  threshold =
      if threshold.num == 0 || ltb threshold.den threshold.num
      then default_threshold
      else threshold;
}

-- Out of the range the threshold stays.
unfoldable pub set_threshold : Compactor → Ratio → Compactor
set_threshold c threshold =
    if ltb 0 threshold.num && leb threshold.num threshold.den
    then record c { threshold = threshold }
    else c

-- ".compact"
abbrev pub temp_suffix : Bytes
temp_suffix = b'.' ∷ b'c' ∷ b'o' ∷ b'm' ∷ b'p' ∷ b'a' ∷ b'c' ∷ b't' ∷ []

abbrev pub Answer : Type 0
Answer = CompactionResult × Option Error × Disk

abbrev failed : CompactionResult → Error → Disk → Answer
failed result e disk = (record result { error = some e }, some e, disk)

abbrev pub live_entry : Bytes × Bytes → Entry
live_entry (key, value) = record { operation = op_insert; key = key; payload = value }

-- No file needs no compaction, and is no error.
shares : Ratio → Fragmentation × Option Error → Bool × Ratio × Option Error
shares threshold (f, some e) = (false, ratio_zero, some e)
shares threshold (f, none) = (not (ratio_ltb f.ratio threshold), f.ratio, none)

abbrev counted_result : CompactionResult → Fragmentation → CompactionResult
counted_result result f = record result {
  fragmentation = f.ratio;
  total_entries = f.total_count;
  live_entries = f.live_count;
  removed_entries = f.total_count - f.live_count;
}

abbrev sized_result : Bytes → CompactionResult
sized_result content = record no_result { old_file_size = length content }

module _ (p : Packages) where
  unfoldable pub should_compact : Compactor → Disk → Bool × Ratio × Option Error
  unfolding shares
  should_compact c disk = elim (new_file_reader disk.main c.file_path) [
    | ok reader ↦ shares c.threshold (calculate_fragmentation p reader)
    | err e ↦ elim e [
      | not_exist ↦ (false, ratio_zero, none)
      | other ↦ (false, ratio_zero, some other)
    ]
  ]

  -- The loop over the index, in the order in which the map yields its pairs; it stops at an error.
  unfoldable pub write_live :
      List (Bytes × Bytes) → FileWriter × Option Error → FileWriter × Option Error
  write_live [] s = s
  write_live (pair ∷ pairs) (fw, none) = write_live pairs (write_entry p fw (live_entry pair))
  write_live (pair ∷ pairs) (fw, some e) = (fw, some e)

  -- The rename over the file, and `os.Stat` of it. A rename that fails removes the temporary file;
  -- after a rename the file is the new one, whatever `os.Stat` says.
  renamed : Option Error → Option Error → CompactionResult → Disk → Bytes → Answer
  renamed (some e) stat_error result disk content = failed result e (record disk { temp = none })
  renamed none (some e) result disk content =
      failed result e (record { main = some content; temp = none })
  renamed none none result disk content = (
    record result { new_file_size = length content; compacted = true },
    none,
    record { main = some content; temp = none },
  )

  -- After the loop and `Close`. An error removes the temporary file.
  replace_main : OsCalls → CompactionResult → Disk → FileWriter × Option Error → Answer
  unfolding renamed
  replace_main os result disk (fw, some e) = failed result e (record disk { temp = none })
  replace_main os result disk (fw, none) =
      renamed os.rename_error os.stat_error result disk fw.file.content

  close_written : FileWriter × Option Error → FileWriter × Option Error
  close_written (fw, none) = close p fw
  close_written (fw, some e) = (fw, some e)

  -- `tempPath` is opened as any writer opens its path: a file that is there already is appended to.
  pub rewrite :
      OsCalls → ℕ → ℕ → CompactionResult → Disk → List (Bytes × Bytes) → Result FileWriter → Answer
  unfolding replace_main close_written
  rewrite os now max_block_size result disk pairs (err e) = failed result e disk
  rewrite os now max_block_size result disk pairs (ok writer) =
      replace_main os result disk (close_written (write_live pairs (writer, none)))

  -- `order` lists the pairs of a map in the order of one of its iterations.
  module _ (order : Index → List (Bytes × Bytes)) (os : OsCalls) (now : ℕ) where
    with_index : Compactor → CompactionResult → Disk → Index × Bytes × Option Error → Answer
    unfolding rewrite
    with_index c result disk (index, swamp_name, some e) = failed result e disk
    with_index c result disk (index, swamp_name, none) =
        rewrite os now c.max_block_size result disk (order index) (
          new_file_writer_with_name now disk.temp (c.file_path ++ temp_suffix) c.max_block_size
            swamp_name)

    with_fragmentation :
        Compactor → CompactionResult → Disk → FileReader → Fragmentation × Option Error → Answer
    unfolding with_index
    with_fragmentation c result disk reader (f, some e) = failed result e disk
    with_fragmentation c result disk reader (f, none) =
        let counted = counted_result result f in
        if ratio_ltb f.ratio c.threshold
        then (counted, none, disk)
        else with_index c counted disk (load_index p reader)

    with_reader : Compactor → CompactionResult → Disk → Result FileReader → Answer
    unfolding with_fragmentation
    with_reader c result disk (err e) = failed result e disk
    with_reader c result disk (ok reader) =
        with_fragmentation c result disk reader (calculate_fragmentation p reader)

    with_file : Compactor → Disk → Option Bytes → Answer
    unfolding with_reader
    with_file c disk none = (no_result, none, disk)
    with_file c disk (some content) =
        with_reader c (sized_result content) disk (new_file_reader (some content) c.file_path)

    -- No result is given when a compaction is running already.
    unfoldable pub compact : Compactor → Disk → Option CompactionResult × Option Error × Disk
    unfolding with_file
    compact c disk =
        if c.is_running
        then (none, some compaction_running, disk)
        else (let (result, e, disk') = with_file c disk disk.main in (some result, e, disk'))

    unfoldable pub force_compact : Compactor → Disk → Option CompactionResult × Option Error × Disk
    unfolding compact
    force_compact c disk = compact (record c { threshold = ratio_zero }) disk

    -- The caller gives the index, and the number of entries that the file had. Where that is less
    -- than the index has, the two differences are negative in Go, and 0 here.
    unfoldable pub compact_from_index :
        Bytes → ℕ → Bytes → Index → ℕ → Disk → Option CompactionResult × Option Error × Disk
    unfolding rewrite
    compact_from_index file_path max_block_size swamp_name index total disk =
        if is_nil file_path
        then (none, some empty_path, disk)
        else (let block_size : ℕ =
              if max_block_size == 0 then default_max_block_size else max_block_size in
            let result : CompactionResult = record no_result {
              live_entries = length index;
              total_entries = total;
              removed_entries = total - length index;
            } in
            elim disk.main [
              | none ↦ (some result, none, disk)
              | some content ↦
                  let sized : CompactionResult = record result {
                    old_file_size = length content;
                    fragmentation =
                        if ltb 0 total
                        then record { num = total - length index; den = total }
                        else ratio_zero;
                  } in
                  let (result', e, disk') =
                    rewrite os now block_size sized (record disk { temp = none }) (order index)
                      (new_file_writer_with_name now none (file_path ++ temp_suffix) block_size
                        swamp_name) in
                  (some result', e, disk')
            ])

    needed :
        Compactor
        → Disk
        → Bool × Ratio × Option Error
        → Option CompactionResult × Option Error × Disk
    unfolding compact
    needed c disk (b, ratio, some e) = (none, some e, disk)
    needed c disk (true, ratio, none) = compact c disk
    needed c disk (false, ratio, none) =
        (some (record no_result { fragmentation = ratio }), none, disk)

    unfoldable pub compact_if_needed :
        Compactor → Disk → Option CompactionResult × Option Error × Disk
    unfolding needed
    compact_if_needed c disk = needed c disk (should_compact c disk)
