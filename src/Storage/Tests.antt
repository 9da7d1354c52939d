-- ===== src/Storage/Tests.antt =====
-- The theorems on the sample file.
use hydraide.Base.{◌≡◌, none, some, true, false, [], ◌∷◌, ◌++◌, arith, length, concat}
use hydraide.Base.Bytes.{Bytes}
use hydraide.Base.Outcome.{ok}
use hydraide.Base.Assoc.{lookup, Distinct}
use hydraide.Compressor.Stored.{stored, stored-Documented}
use hydraide.Storage.Writer.{write_entry, write_entries, close}
use hydraide.Storage.Writer.Log.{Works}
use hydraide.Storage.Writer.Methods.{write_entry-Works, write_entries-Works}
use hydraide.Storage.Writer.Files.{FileHolds, close-FileHolds}
use hydraide.Storage.Reader.{load_index, new_file_reader}
use hydraide.Storage.Reader.Open.{reader, new_file_reader_lem}
use hydraide.Storage.Reader.Index.{value_of, load_index-value_of}
use hydraide.Storage.Sessions.{Reads, run, run-Reads}
use hydraide.Storage.Fragmentation.{calculate_fragmentation, sum_sizes}
use hydraide.Storage.Fragmentation.Bounds.{
  IsShare, sizes, payload_bytes, calculate_fragmentation-IsShare,
}
use hydraide.Storage.Sample.{
  swamp, path, put_k, first, second, log, log-Storable, writer_with, writer_with-Stores, file_with,
  file_with-FileHolds,
}

run-Reads_example :
    (content : Bytes) × (run stored swamp path 1700 16 none (first ∷ second ∷ [])
      ≡ ok (some content))
    × Reads stored swamp content path (concat (first ∷ second ∷ []))
run-Reads_example =
    run-Reads stored stored-Documented swamp path (λ e. cc) 1700 16 (omega arith) (omega arith)
      (omega arith) first (second ∷ []) (omega arith)

load_index-value_of_example :
    (let (index, name, e) =
        load_index stored
          (reader stored swamp (file_with log) log (file_with-FileHolds log log-Storable)) in
      (e ≡ none) × Distinct index × ((k : Bytes) → lookup k index ≡ value_of k log))
load_index-value_of_example =
    load_index-value_of stored swamp stored-Documented (file_with log) log
      (file_with-FileHolds log log-Storable)

new_file_reader_lem_example :
    new_file_reader (some (file_with log)) path
    ≡ ok (reader stored swamp (file_with log) log (file_with-FileHolds log log-Storable))
new_file_reader_lem_example =
    new_file_reader_lem stored swamp (file_with log) log (file_with-FileHolds log log-Storable) path
      (λ e. cc)

write_entry-Works_example :
    Works stored swamp (log ++ (put_k ∷ [])) false (write_entry stored (writer_with log) put_k)
write_entry-Works_example =
    write_entry-Works stored swamp stored-Documented (writer_with log) log
      (writer_with-Stores log log-Storable).0 (writer_with-Stores log log-Storable).1 put_k
      log-Storable.0

write_entries-Works_example :
    Works stored swamp (log ++ first) false (write_entries stored (writer_with log) first)
write_entries-Works_example =
    write_entries-Works stored swamp stored-Documented (writer_with log) log
      (writer_with-Stores log log-Storable).0 (writer_with-Stores log log-Storable).1 first
      (log-Storable.0, (log-Storable.1.0, tt))

close-FileHolds_example :
    ((close stored (writer_with log)).1 ≡ none)
    × ((close stored (writer_with log)).0.closed ≡ true)
    × FileHolds stored swamp (close stored (writer_with log)).0.file.content log
close-FileHolds_example =
    close-FileHolds stored swamp stored-Documented (writer_with log) log
      (writer_with-Stores log log-Storable).0 (writer_with-Stores log log-Storable).1

calculate_fragmentation-IsShare_example :
    (let (fragmentation, e) =
        calculate_fragmentation stored
          (reader stored swamp (file_with log) log (file_with-FileHolds log log-Storable)) in
      let index =
        (load_index stored
          (reader stored swamp (file_with log) log (file_with-FileHolds log log-Storable))).0 in
      (e ≡ none)
      × IsShare fragmentation
          (length index)
          (length log)
          (sum_sizes (sizes index))
          (payload_bytes log))
calculate_fragmentation-IsShare_example =
    calculate_fragmentation-IsShare stored stored-Documented swamp (file_with log) log
      (file_with-FileHolds log log-Storable)
