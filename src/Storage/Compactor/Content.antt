-- ===== src/Storage/Compactor/Content.antt =====
-- What `Compact` of chronicler/v2/compactor.go writes into the temporary file.
pub mod Live
use hydraide.Base.{
  ℕ, ◌+◌, ◌≤◌, ◌<◌, ◌≡◌, ◌≢◌, refl, sym, ap, ◌∙◌, Bool, true, false, List, [], ◌∷◌, ◌++◌, map,
  length, All, Option, none, some, arith, append_assoc, append-nil,
}
use mathlib.Core.Path.{subst}
use hydraide.Base.Bytes.{Bytes, bound}
use hydraide.Base.Outcome.{ok, err}
use hydraide.Base.Assoc.{lookup, Distinct}
use hydraide.Compressor.{Packages}
use hydraide.Compressor.RoundTrip.{Documented}
use hydraide.Storage.Errors.{Error, Result}
use hydraide.Storage.Entry.{Entry}
use hydraide.Storage.Block.Image.{Storable}
use hydraide.Storage.Writer.{FileWriter, write_entry, close, new_file_writer_with_name}
use hydraide.Storage.Writer.Log.{Stores, Works}
use hydraide.Storage.Writer.Methods.{write_entry-Works}
use hydraide.Storage.Writer.Files.{FileHolds, close-FileHolds}
use hydraide.Storage.Writer.Path.{PathHolds, new_file_writer-Stores}
use hydraide.Storage.Reader.{FileReader, Index, load_index, new_file_reader}
use hydraide.Storage.Reader.Open.{reader, new_file_reader_lem}
use hydraide.Storage.Reader.Index.{load_index-replay, replay, value_of}
use hydraide.Storage.Fragmentation.{Fragmentation, calculate_fragmentation, ratio_ltb}
use hydraide.Storage.Fragmentation.Bounds.{calculate_fragmentation-IsShare}
use hydraide.Storage.Compactor.{
  all_succeed, Disk, Compactor, CompactionResult, Answer, replace_main, close_written, write_live,
  rewrite, with_index, with_fragmentation, with_reader, with_file, compact, counted_result,
  sized_result, live_entry, temp_suffix,
}

module _ (p : Packages) (d : Documented p) (name : Bytes) where
  -- The loop appends an entry for each pair.
  write_live-Works :
      (pairs : List (Bytes × Bytes)) (fw : FileWriter) (log : List Entry)
      → Stores p name fw log
      → fw.closed ≡ false
      → All Storable (map live_entry pairs)
      → Works p name (log ++ map live_entry pairs) false (write_live p pairs (fw, none))
  unfolding write_live
  write_live-Works [] fw log s is_open st =
      rw append-nil (record { stores = s; no_error = refl; closed = is_open })
  write_live-Works (pair ∷ pairs) fw log s is_open (st, sts) =
      let w = write_entry-Works p name d fw log s is_open (live_entry pair) st in
      let next : FileWriter = (write_entry p fw (live_entry pair)).0 in
      let no_error : write_entry p fw (live_entry pair) ≡ (next, none) =
        λ i. (next, w.no_error i) in
      let rest =
        write_live-Works pairs next (log ++ (live_entry pair ∷ [])) w.stores w.closed sts in
      rw (no_error, ← append_assoc log (live_entry pair ∷ []) (map live_entry pairs)) rest

  -- The file is replaced by one that holds the old log of the temporary path, if there was one, and
  -- an entry for each pair.
  pub record Replaced (log : List Entry) (a : Answer) : Type 0 where
    pub content : Bytes
    pub holds : FileHolds p name content log
    pub compacted : a.0.compacted ≡ true
    pub no_error : a.1 ≡ none
    pub disk : a.2 ≡ record { main = some content; temp = none }

  pub rewrite-Replaced :
      (now size : ℕ) (r : CompactionResult) (disk : Disk) (pairs : List (Bytes × Bytes))
      (fw : FileWriter) (log : List Entry)
      → Stores p name fw log
      → fw.closed ≡ false
      → All Storable (map live_entry pairs)
      → Replaced (log ++ map live_entry pairs) (rewrite p all_succeed now size r disk pairs (ok fw))
  unfolding rewrite
  rewrite-Replaced now size r disk pairs fw log s is_open st =
      let w = write_live-Works pairs fw log s is_open st in
      let last : FileWriter = (write_live p pairs (fw, none)).0 in
      let wrote : write_live p pairs (fw, none) ≡ (last, none) = λ i. (last, w.no_error i) in
      let c = close-FileHolds p name d last (log ++ map live_entry pairs) w.stores w.closed in
      let done : close p last ≡ ((close p last).0, none) = λ i. ((close p last).0, c.0 i) in
      rw wrote (
        rw done (record {
          content = (close p last).0.file.content;
          holds = c.2;
          compacted = refl;
          no_error = refl;
          disk = refl;
        }))
