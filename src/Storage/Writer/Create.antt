-- ===== src/Storage/Writer/Create.antt =====
-- A writer of a new file, and a writer that opens a file again.
use hydraide.Base.{
  ℕ, ◌+◌, ◌%◌, ◌^◌, ◌≤◌, ◌<◌, ◌≡◌, refl, sym, ap, ◌∙◌, false, if◌then◌else◌, List, [], ◌∷◌, ◌++◌,
  length, arith, length-append, append-nil, is_nil, take-append, drop-append,
}
use mathlib.Core.Path.{subst}
use hydraide.Base.Bytes.{Bytes, bound}
use hydraide.Base.Outcome.{ok}
use hydraide.Compressor.{Packages}
use hydraide.Storage.Header
use hydraide.Storage.Header.{FileHeader, IsHeader, data_start_offset, new_file_header}
use hydraide.Storage.Entry.{Entry}
use hydraide.Storage.Block.{new_write_buffer}
use hydraide.Storage.Block.Image.{encode_blocks}
use hydraide.Storage.OsFile.{OsFile, write, create, seek_end, write_at_end}
use hydraide.Storage.Writer.{FileWriter, create_new_file, open_existing_file, read_full}
use hydraide.Storage.Writer.Log.{Stores}
use hydraide.Storage.Writer.Files.{FileHolds}

abbrev at_end : Bytes → OsFile
at_end content = record { content = content; pos = length content }

-- The file that `createNewFile` has written.
first_file :
    (head name : Bytes)
    → (if is_nil name then write create head else write (write create head) name)
      ≡ at_end (head ++ name)
unfolding create
first_file head [] = rw append-nil (write_at_end create head refl)
first_file head (b ∷ name) =
    rw (write_at_end (record { content = []; pos = 0 }) head refl)
      (write_at_end (at_end head) (b ∷ name) refl)

abbrev named_header : ℕ → Bytes → FileHeader
named_header now name = record (new_file_header now) { name_length = length name % 2 ^ 16 }

named_header-IsHeader : (now : ℕ) (name : Bytes) → now < bound 8 → IsHeader (named_header now name)
unfolding new_file_header
named_header-IsHeader now name h = record {
  magic = refl;
  known = refl;
  flags = omega arith;
  created_at = h;
  modified_at = h;
  block_size = omega arith;
  entry_count = omega arith;
  block_count = omega arith;
  name_length = omega arith;
  v2_name = λ e. absurd (omega arith);
  reserved = refl;
}

named_end :
    (now : ℕ) (name : Bytes)
    → length name < bound 2
    → data_start_offset (named_header now name) ≡ 64 + length name
unfolding data_start_offset new_file_header
named_end now name h = omega arith

-- What `io.ReadFull` gives when there is enough.
pub read_full_lem : (xs ys : Bytes) → read_full (length xs) (xs ++ ys) ≡ ok (xs, ys)
unfolding read_full
read_full_lem [] ys = refl
read_full_lem (x ∷ xs) ys =
    ground (arith, take-append xs ys, drop-append xs ys, length-append xs ys)

pub read_full_at : (n : ℕ) (xs ys : Bytes) → length xs ≡ n → read_full n (xs ++ ys) ≡ ok (xs, ys)
read_full_at n xs ys e = subst (λ k. read_full k (xs ++ ys) ≡ ok (xs, ys)) e (read_full_lem xs ys)

-- The header at the start of a file, alone in its buffer, is read.
pub deserialize_alone :
    (h : FileHeader) → IsHeader h → Header.deserialize (Header.serialize h) ≡ ok h
deserialize_alone h v = rw append-nil at (Header.file_header_round_trip h v [])

module _ (p : Packages) where
  -- A new file's writer stores the empty log.
  pub create_new_file-Stores :
      (now max_block_size : ℕ) (swamp_name : Bytes)
      → now < bound 8
      → length swamp_name < bound 2
      → max_block_size ≤ 524280
      → Stores p swamp_name (create_new_file now (new_write_buffer max_block_size) swamp_name) []
  unfolding create_new_file new_write_buffer
  create_new_file-Stores now max_block_size swamp_name time len size =
      let file = first_file (Header.serialize (named_header now swamp_name)) swamp_name in
      record {
        holds = record {
          blocks = [];
          image = rw append-nil (ap (λ (f : OsFile). f.content) file);
          at_end = rw file;
          header = named_header-IsHeader now swamp_name time;
          name_end = named_end now swamp_name len;
          valid = tt;
          storable = tt;
          size = refl;
          count = omega arith;
          bounded = omega arith;
          max_pos = ground arith;
          max = ground arith;
          block_count = refl;
          entry_count = refl;
          header_blocks = unfold Header.new_file_header in refl;
          header_entries = unfold Header.new_file_header in refl;
          logged = refl;
        };
        room = ground arith;
      }

  -- Opening a file that holds a log gives a writer that stores it, whose buffer is empty.
  pub open_existing_file-Stores :
      (name content : Bytes) (log : List Entry) (max_block_size : ℕ) (swamp_name : Bytes)
      → FileHolds p name content log
      → max_block_size ≤ 524280
      → (fw : FileWriter) × (open_existing_file content (new_write_buffer max_block_size) swamp_name
          ≡ ok fw)
        × Stores p name fw log
        × (fw.closed ≡ false)
  unfolding open_existing_file seek_end
  open_existing_file-Stores name content log max_block_size swamp_name f size = (
    opened,
    rw
        (
          f.image,
          read_full_at 64 (Header.serialize f.header) (name ++ encode_blocks p f.blocks)
              (Header.length-serialize f.header f.well_formed),
        )
        (rw (deserialize_alone f.header f.well_formed)),
    record {
      holds = record {
        blocks = f.blocks;
        image = f.image;
        at_end = refl;
        header = f.well_formed;
        name_end = f.name_end;
        valid = f.valid;
        storable = unfold new_write_buffer in tt;
        size = unfold new_write_buffer in refl;
        count = unfold new_write_buffer in omega arith;
        bounded = unfold new_write_buffer in omega arith;
        max_pos = unfold new_write_buffer in ground arith;
        max = unfold new_write_buffer in ground arith;
        block_count = f.block_count;
        entry_count = f.entry_count ∙ ap (λ (l : List Entry). length l % 2 ^ 64) (sym f.logged);
        header_blocks = refl;
        header_entries = refl;
        logged = unfold new_write_buffer in rw append-nil f.logged;
      };
      room = unfold new_write_buffer in ground arith;
    },
    refl,
  )
    where
      opened : FileWriter
      opened = record {
        file = at_end content;
        header = f.header;
        buffer = new_write_buffer max_block_size;
        block_count = f.header.block_count;
        entry_count = f.header.entry_count;
        closed = false;
        swamp_name = swamp_name;
      }
