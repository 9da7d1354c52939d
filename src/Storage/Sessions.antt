-- ===== src/Storage/Sessions.antt =====
-- Whole sessions over a file: a writer is made, writes, and closes; a reader opens what it left.

use hydraide.Base.{
  ℕ, suc, ◌+◌, Bool, concat, ◌≤◌, ◌<◌, ◌≡◌, ◌≢◌, refl, sym, ◌∙◌, true, false, List, [], ◌∷◌, ◌++◌,
  length, All, Option, none, some, arith, append_assoc, append-nil,
}
use mathlib.Core.Path.{subst}
use hydraide.Base.Bytes.{Bytes, bound}
use hydraide.Base.Assoc.{Distinct, lookup}
use hydraide.Base.Outcome.{ok, err, ◌>>=◌}
use hydraide.Compressor.{Packages}
use hydraide.Compressor.RoundTrip.{Documented}
use hydraide.Storage.Errors.{Error, Result}
use hydraide.Storage.Entry.{Entry}
use hydraide.Storage.Block.Image.{Storable}
use hydraide.Storage.Writer.{FileWriter, new_file_writer_with_name, write_entries, close}
use hydraide.Storage.Writer.Log.{Stores}
use hydraide.Storage.Writer.Methods.{write_entries-Works}
use hydraide.Storage.Writer.Files.{FileHolds, close-FileHolds}
use hydraide.Storage.Writer.Path.{PathHolds, new_file_writer-Stores}
use hydraide.Storage.Reader.{
  FileReader, new_file_reader, read_all_entries, load_index, get_swamp_name, process,
}
use hydraide.Storage.Reader.Open.{reader, new_file_reader_lem, read_all_entries_lem}
use hydraide.Storage.Reader.Index.{value_of, load_index-value_of}

-- A callback that keeps every entry.
abbrev pub collect : Entry → List Entry → List Entry × Bool
collect e seen = (seen ++ (e ∷ []), true)

collected :
    (es seen : List Entry) (total : ℕ)
    → process collect es seen total ≡ (seen ++ es, total + length es, true)
unfolding process
collected [] seen total =
    let sum : total ≡ total + 0 = omega arith in λ i. (sym (append-nil seen) i, sum i, true)
collected (e ∷ es) seen total =
    let sum : total + 1 + length es ≡ total + suc (length es) = omega arith in
    collected es (seen ++ (e ∷ [])) (total + 1)
    ∙ (λ i. (append_assoc seen (e ∷ []) es i, sum i, true))

-- A caller that stops at the first error.
abbrev checked : FileWriter × Option Error → Result FileWriter
checked (fw, none) = ok fw
checked (fw, some e) = err e

checked_lem : (r : FileWriter × Option Error) → r.1 ≡ none → checked r ≡ ok r.0
checked_lem (fw, none) h = refl
checked_lem (fw, some e) h = cc

module _ (p : Packages) (name file_path : Bytes) (now max_block_size : ℕ) where
  open_writer : Option Bytes → Result FileWriter
  open_writer at_path = new_file_writer_with_name now at_path file_path max_block_size name

  -- One writer after another on the same path, each with its entries: the file at the end.
  pub run : Option Bytes → List (List Entry) → Result (Option Bytes)
  unfolding open_writer
  run at_path [] = ok at_path
  run at_path (es ∷ sessions) = do
    fw ← open_writer at_path
    written ← checked (write_entries p fw es)
    done ← checked (close p written)
    run (some done.file.content) sessions

-- What a reader finds in a file of the swamp `name` that holds `log`: its name, the entries in
-- order, and the index that they make.
pub record Reads (p : Packages) (name content file_path : Bytes) (log : List Entry) : Type 0 where
  pub fr : FileReader
  pub opens : new_file_reader (some content) file_path ≡ ok fr
  pub named : get_swamp_name fr ≡ name
  pub entries : read_all_entries p collect fr [] ≡ (log, length log, none)
  pub loads : (load_index p fr).2 ≡ none
  pub distinct : Distinct (load_index p fr).0
  pub index : (k : Bytes) → lookup k (load_index p fr).0 ≡ value_of k log

module _ (p : Packages) (d : Documented p) (name file_path : Bytes)
    (nonempty : file_path ≢ []) where
  pub FileHolds-Reads :
      (content : Bytes) (log : List Entry)
      → FileHolds p name content log
      → Reads p name content file_path log
  unfolding get_swamp_name
  FileHolds-Reads content log f =
      let all = load_index-value_of p name d content log f in
      record {
        fr = reader p name content log f;
        opens = new_file_reader_lem p name content log f file_path nonempty;
        named = refl;
        entries =
            rw (read_all_entries_lem p name content log f d collect [], collected log [] 0)
              (λ i. (log, total i, none));
        loads = all.0;
        distinct = all.1;
        index = all.2;
      }
    where
      total : 0 + length log ≡ length log
      total = omega arith

  -- The entries that a writer was given, through `WriteEntries` and `Close`, are in its file.
  session :
      (fw : FileWriter) (log es : List Entry)
      → Stores p name fw log
      → fw.closed ≡ false
      → All Storable es
      → ((write_entries p fw es).1 ≡ none)
        × ((close p (write_entries p fw es).0).1 ≡ none)
        × FileHolds p name (close p (write_entries p fw es).0).0.file.content (log ++ es)
  session fw log es s is_open st =
      let w = write_entries-Works p name d fw log s is_open es st in
      let c = close-FileHolds p name d (write_entries p fw es).0 (log ++ es) w.stores w.closed in
      (w.no_error, c.0, c.2)

  module _ (now max_block_size : ℕ) (time : now < bound 8) (len : length name < bound 2)
      (size : max_block_size ≤ 524280) where
    opening :
        (at_path : Option Bytes) (log : List Entry)
        → PathHolds p name at_path log
        → (fw : FileWriter) × (open_writer p name file_path now max_block_size at_path ≡ ok fw)
          × Stores p name fw log
          × (fw.closed ≡ false)
    unfolding open_writer
    opening at_path log =
        new_file_writer-Stores p name now max_block_size file_path at_path log nonempty time len
          size

    run_on :
        (sessions : List (List Entry)) (content : Bytes) (log : List Entry)
        → FileHolds p name content log
        → All (All Storable) sessions
        → (content' : Bytes) × (run p name file_path now max_block_size (some content) sessions
            ≡ ok (some content'))
          × FileHolds p name content' (log ++ concat sessions)
    unfolding run
    run_on [] content log f st =
        (content, refl, subst (FileHolds p name content) (sym (append-nil log)) f)
    run_on (es ∷ sessions) content log f (st, sts) =
        let (fw, opened, stores, is_open) = opening (some content) log f in
        let (e1, e2, held) = session fw log es stores is_open st in
        let (content', ran, holds) = run_on sessions _ (log ++ es) held sts in
        (
          content',
          rw
              (
                opened,
                checked_lem (write_entries p fw es) e1,
                checked_lem (close p (write_entries p fw es).0) e2,
              )
              ran,
          subst (FileHolds p name content') (append_assoc log es (concat sessions)) holds,
        )

    -- On a new path that is not empty, with packages that work as documented, a time below 2^64, a
    -- name of fewer than 2^16 bytes and a block size of at most 524280: writers that open the path
    -- one after another, each given its storable entries by `WriteEntries` and then closed, end
    -- with no error, and a reader of the file that they leave finds the name, all the entries in
    -- order, and an index that has for each key what the last entry on it says.
    pub run-Reads :
        (es : List Entry) (sessions : List (List Entry))
        → All (All Storable) (es ∷ sessions)
        → (content : Bytes) × (run p name file_path now max_block_size none (es ∷ sessions)
            ≡ ok (some content))
          × Reads p name content file_path (concat (es ∷ sessions))
    unfolding run
    run-Reads es sessions (st, sts) =
        let (fw, opened, stores, is_open) = opening none [] refl in
        let (e1, e2, held) = session fw [] es stores is_open st in
        let (content, ran, holds) = run_on sessions _ es held sts in
        (
          content,
          rw
              (
                opened,
                checked_lem (write_entries p fw es) e1,
                checked_lem (close p (write_entries p fw es).0) e2,
              )
              ran,
          FileHolds-Reads content (concat (es ∷ sessions)) holds,
        )
