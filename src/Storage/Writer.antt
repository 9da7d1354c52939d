-- ===== src/Storage/Writer.antt =====
-- chronicler/v2/writer.go: appends entries to a file, in blocks. The mutex of the writer makes each
-- method one step. A method returns the new state beside its error, `none` for Go's nil.
pub mod Log
pub mod Methods
pub mod Files
pub mod Create
pub mod Path
use hydraide.Base.{
  ℕ, ◌+◌, ◌%◌, ◌^◌, Bool, true, false, if◌then◌else◌, List, [], ◌∷◌, ◌++◌, length, take, drop,
  is_nil, ltb, ◌==◌, Option, none, some,
}
use hydraide.Base.Bytes.{Bytes}
use hydraide.Base.Outcome.{ok, err, ◌>>=◌}
use hydraide.Compressor.{Packages}
use hydraide.Storage.Errors.{Error, Result, file_closed, empty_path, eof, unexpected_eof}
use hydraide.Storage.Header
use hydraide.Storage.Header.{FileHeader, file_header_size}
use hydraide.Storage.BlockHeader
use hydraide.Storage.BlockHeader.{BlockHeader}
use hydraide.Storage.Entry.{Entry}
use hydraide.Storage.Block
use hydraide.Storage.Block.{WriteBuffer}
use hydraide.Storage.OsFile
use hydraide.Storage.OsFile.{OsFile}

pub record FileWriter : Type 0 where
  pub file : OsFile
  pub header : FileHeader
  pub buffer : WriteBuffer
  pub block_count : ℕ
  pub entry_count : ℕ
  pub closed : Bool
  pub swamp_name : Bytes

-- `io.ReadFull` of `n` bytes from the bytes that are left, and what is left then.
unfoldable pub read_full : ℕ → Bytes → Result (Bytes × Bytes)
read_full n rest =
    if n == 0
    then ok ([], rest)
    else if is_nil rest
    then err eof
    else if ltb (length rest) n
    then err unexpected_eof
    else ok (take n rest, drop n rest)

-- `now` is `time.Now().UnixNano()`. The name is written whole; its length is cut to a uint16.
unfoldable pub create_new_file : ℕ → WriteBuffer → Bytes → FileWriter
create_new_file now buffer swamp_name =
    let header : FileHeader = record (Header.new_file_header now) {
      name_length = length swamp_name % 2 ^ 16;
    } in
    let file = OsFile.write OsFile.create (Header.serialize header) in
    record {
      file = if is_nil swamp_name then file else OsFile.write file swamp_name;
      header = header;
      buffer = buffer;
      block_count = 0;
      entry_count = 0;
      closed = false;
      swamp_name = swamp_name;
    }

unfoldable pub open_existing_file : Bytes → WriteBuffer → Bytes → Result FileWriter
open_existing_file content buffer swamp_name = do
  (header_buf, _) ← read_full file_header_size content
  header ← Header.deserialize header_buf
  ok (record {
    file = OsFile.seek_end (record { content = content; pos = file_header_size });
    header = header;
    buffer = buffer;
    block_count = header.block_count;
    entry_count = header.entry_count;
    closed = false;
    swamp_name = swamp_name;
  })

open_or_create : ℕ → Option Bytes → WriteBuffer → Bytes → Result FileWriter
open_or_create now none buffer swamp_name = ok (create_new_file now buffer swamp_name)
open_or_create now (some content) buffer swamp_name = open_existing_file content buffer swamp_name

-- The second argument is what the path names: no file, or a file's bytes.
unfoldable pub new_file_writer_with_name : ℕ → Option Bytes → Bytes → ℕ → Bytes → Result FileWriter
unfolding open_or_create
new_file_writer_with_name now at_path file_path max_block_size swamp_name =
    if is_nil file_path
    then err empty_path
    else open_or_create now at_path (Block.new_write_buffer max_block_size) swamp_name

unfoldable pub new_file_writer : ℕ → Option Bytes → Bytes → ℕ → Result FileWriter
unfolding new_file_writer_with_name
new_file_writer now at_path file_path max_block_size =
    new_file_writer_with_name now at_path file_path max_block_size []

-- The file's header takes the counts, and is written over the old one.
with_counts : FileWriter → FileHeader
with_counts fw = record fw.header { block_count = fw.block_count; entry_count = fw.entry_count }

-- `flushLocked` after the buffer gave a block: block header, data, then the header at the start.
unfoldable pub write_block : FileWriter → BlockHeader → Bytes → FileWriter
unfolding with_counts
write_block fw header compressed =
    let appended = OsFile.write (OsFile.write fw.file (BlockHeader.serialize header)) compressed in
    let counted : FileWriter = record fw {
      block_count = (fw.block_count + 1) % 2 ^ 64;
      entry_count = (fw.entry_count + header.entry_count) % 2 ^ 64;
    } in
    let new_header = with_counts counted in
    let over = OsFile.write (OsFile.seek_start appended 0) (Header.serialize new_header) in
    record counted { file = OsFile.seek_start over appended.pos; header = new_header }

-- The end of `Sync` and `Close`: the header is written at the start, the position is the end.
write_header : FileWriter → FileWriter
unfolding with_counts
write_header fw =
    let new_header = with_counts fw in
    let over = OsFile.write (OsFile.seek_start fw.file 0) (Header.serialize new_header) in
    record fw { file = over; header = new_header }

synced : FileWriter × Option Error → FileWriter × Option Error
unfolding write_header
synced (fw, none) =
    let fw' = write_header fw in (record fw' { file = OsFile.seek_end fw'.file }, none)
synced (fw, some e) = (fw, some e)

closing : FileWriter × Option Error → FileWriter × Option Error
unfolding write_header
closing (fw, none) = (record (write_header fw) { closed = true }, none)
closing (fw, some e) = (fw, some e)

module _ (p : Packages) where
  flushed :
      FileWriter → WriteBuffer × Result (Option (BlockHeader × Bytes)) → FileWriter × Option Error
  flushed fw (buffer, ok none) = (record fw { buffer = buffer }, none)
  flushed fw (buffer, ok (some (header, compressed))) =
      (write_block (record fw { buffer = buffer }) header compressed, none)
  flushed fw (buffer, err e) = (record fw { buffer = buffer }, some e)

  unfoldable pub flush_locked : FileWriter → FileWriter × Option Error
  unfolding flushed
  flush_locked fw = flushed fw (Block.flush p fw.buffer)

  add_and_flush : FileWriter → WriteBuffer × Bool → FileWriter × Option Error
  add_and_flush fw (buffer, true) = flush_locked (record fw { buffer = buffer })
  add_and_flush fw (buffer, false) = (record fw { buffer = buffer }, none)

  unfoldable pub write_entry : FileWriter → Entry → FileWriter × Option Error
  unfolding add_and_flush
  write_entry fw entry =
      if fw.closed then (fw, some file_closed) else add_and_flush fw (Block.add fw.buffer entry)

  -- The loop stops at the first error.
  write_loop : List Entry → FileWriter × Option Error → FileWriter × Option Error
  write_loop [] s = s
  write_loop (entry ∷ entries) (fw, none) =
      write_loop entries (add_and_flush fw (Block.add fw.buffer entry))
  write_loop (entry ∷ entries) (fw, some e) = (fw, some e)

  unfoldable pub write_entries : FileWriter → List Entry → FileWriter × Option Error
  unfolding add_and_flush write_loop
  write_entries fw entries =
      if fw.closed then (fw, some file_closed) else write_loop entries (fw, none)

  unfoldable pub flush : FileWriter → FileWriter × Option Error
  flush fw = if fw.closed then (fw, some file_closed) else flush_locked fw

  unfoldable pub sync : FileWriter → FileWriter × Option Error
  unfolding synced
  sync fw = if fw.closed then (fw, some file_closed) else synced (flush_locked fw)

  -- A second `Close` does nothing.
  unfoldable pub close : FileWriter → FileWriter × Option Error
  unfolding closing
  close fw = if fw.closed then (fw, none) else closing (flush_locked fw)

unfoldable pub get_stats : FileWriter → ℕ × ℕ
get_stats fw = (fw.block_count, fw.entry_count)

unfoldable pub buffer_count : FileWriter → ℕ
unfolding Block.count
buffer_count fw = Block.count fw.buffer
