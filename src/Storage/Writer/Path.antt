-- ===== src/Storage/Writer/Path.antt =====
-- A writer made on a path, whether or not a file is there.
use hydraide.Base.{
  ℕ, ◌≤◌, ◌<◌, ◌≡◌, ◌≢◌, refl, false, [], ◌∷◌, List, Option, none, some, length, is_nil,
}
use hydraide.Base.Bytes.{Bytes, bound}
use hydraide.Base.Outcome.{ok}
use hydraide.Compressor.{Packages}
use hydraide.Storage.Entry.{Entry}
use hydraide.Storage.Block.{new_write_buffer}
use hydraide.Storage.Writer.{FileWriter, new_file_writer_with_name, create_new_file}
use hydraide.Storage.Writer.Log.{Stores}
use hydraide.Storage.Writer.Files.{FileHolds}
use hydraide.Storage.Writer.Create.{create_new_file-Stores, open_existing_file-Stores}

-- No file holds the empty log.
abbrev pub PathHolds : Packages → Bytes → Option Bytes → List Entry → Type 0
PathHolds p name none log = log ≡ []
PathHolds p name (some content) log = FileHolds p name content log

pub is_nil-false : (xs : Bytes) → xs ≢ [] → is_nil xs ≡ false
is_nil-false [] h = absurd (h refl)
is_nil-false (x ∷ xs) h = refl

module _ (p : Packages) (name : Bytes) (now max_block_size : ℕ) where
  -- On a path that is not empty, where no file is or a file that holds a log, with a time below
  -- 2^64, a name of fewer than 2^16 bytes and a block size of at most 524280: the writer opens
  -- with no error, is open, and stores the log of what was there.
  pub new_file_writer-Stores :
      (file_path : Bytes) (at_path : Option Bytes) (log : List Entry)
      → file_path ≢ []
      → now < bound 8
      → length name < bound 2
      → max_block_size ≤ 524280
      → PathHolds p name at_path log
      → (fw : FileWriter) × (new_file_writer_with_name now at_path file_path max_block_size name
          ≡ ok fw)
        × Stores p name fw log
        × (fw.closed ≡ false)
  unfolding new_file_writer_with_name
  new_file_writer-Stores file_path none log nonempty time len size h = (
    create_new_file now (new_write_buffer max_block_size) name,
    rw (is_nil-false file_path nonempty),
    rw h (create_new_file-Stores p now max_block_size name time len size),
    unfold create_new_file in refl,
  )
  new_file_writer-Stores file_path (some content) log nonempty time len size f =
      let (fw, opened, stores, is_open) =
        open_existing_file-Stores p name content log max_block_size name f size in
      (fw, rw (is_nil-false file_path nonempty, opened), stores, is_open)
