-- ===== src/Storage/Block.antt =====
-- chronicler/v2/block.go: the write buffer, and blocks of compressed entries. The mutex of the
-- buffer makes each method one step.
pub mod Image
pub mod RoundTrip
pub mod Tests
use hydraide.Base.{
  ℕ, zero, suc, ◌+◌, ◌%◌, ◌^◌, Bool, true, false, not, if◌then◌else◌, List, [], ◌∷◌, ◌++◌, length,
  drop, is_nil, leb, ◌==◌, Option, none, some,
}
use hydraide.Base.Bytes.{Bytes}
use hydraide.Base.Outcome.{Outcome, ok, err, ◌>>=◌}
use hydraide.Compressor
use hydraide.Compressor.{Packages, Compressor, snappy}
use hydraide.Storage.Errors.{Result, corrupted_block, compressor_error}
use hydraide.Storage.Header.{default_max_block_size}
use hydraide.Storage.BlockHeader.{BlockHeader}
use hydraide.Storage.Entry
use hydraide.Storage.Entry.{Entry}
use hydraide.Storage.Checksum.{calculate_checksum, validate_checksum}

pub record WriteBuffer : Type 0 where
  pub entries : List Entry
  pub current_size : ℕ
  pub max_size : ℕ

-- A size that is not positive counts as 0.
unfoldable pub new_write_buffer : ℕ → WriteBuffer
new_write_buffer max_size = record {
  entries = [];
  current_size = 0;
  max_size = if max_size == 0 then default_max_block_size else max_size;
}

unfoldable pub should_flush : WriteBuffer → Bool
should_flush wb = leb wb.max_size wb.current_size

unfoldable pub add : WriteBuffer → Entry → WriteBuffer × Bool
unfolding should_flush
add wb entry =
    let wb' : WriteBuffer = record wb {
      entries = wb.entries ++ (entry ∷ []);
      current_size = wb.current_size + Entry.size entry;
    } in
    (wb', should_flush wb')

unfoldable pub is_empty : WriteBuffer → Bool
is_empty wb = is_nil wb.entries

unfoldable pub size : WriteBuffer → ℕ
size wb = wb.current_size

unfoldable pub count : WriteBuffer → ℕ
count wb = length wb.entries

unfoldable pub serialize_entries : List Entry → Bytes
serialize_entries [] = []
serialize_entries (entry ∷ entries) = Entry.serialize entry ++ serialize_entries entries

abbrev pub cleared : WriteBuffer → WriteBuffer
cleared wb = record wb { entries = []; current_size = 0 }

unfoldable pub get_entries_and_clear : WriteBuffer → WriteBuffer × List Entry
get_entries_and_clear wb = (cleared wb, wb.entries)

pub record Block : Type 0 where
  pub header : BlockHeader
  pub entries : List Entry
  pub offset : ℕ

abbrev pub lift {ℓ} : {A : Type ℓ} → Compressor.Result A → Result A
lift (ok a) = ok a
lift (err e) = err compressor_error

-- The loop of `ParseBlock`, on the bytes from `offset` on, with the rounds that are left.
unfoldable pub parse_entries : ℕ → Bytes → Result (List Entry)
parse_entries zero uncompressed = ok []
parse_entries (suc rounds) uncompressed = do
  (entry, consumed) ← Entry.deserialize uncompressed
  entries ← parse_entries rounds (drop consumed uncompressed)
  ok (entry ∷ entries)

module _ (p : Packages) where
  snappy_compressor : Compressor
  snappy_compressor = Compressor.new snappy

  -- The header's fields are cut to their widths, as Go's conversions do.
  abbrev block_header : List Entry → Bytes → Bytes → BlockHeader
  block_header entries uncompressed compressed = record {
    compressed_size = length compressed % 2 ^ 32;
    uncompressed_size = length uncompressed % 2 ^ 32;
    entry_count = length entries % 2 ^ 16;
    checksum = calculate_checksum compressed;
    flags = 0;
  }

  -- No entries give no block, which is Go's nil header.
  unfoldable pub compress_entries : List Entry → Result (Option (BlockHeader × Bytes))
  unfolding snappy_compressor
  compress_entries [] = ok none
  compress_entries (entry ∷ entries) = do
    let uncompressed = serialize_entries (entry ∷ entries)
    compressed ← lift (Compressor.compress p snappy_compressor uncompressed)
    ok (some (block_header (entry ∷ entries) uncompressed compressed, compressed))

  -- `Flush` makes its block as `CompressEntries` does. The buffer is cleared only when the block was made.
  flushed :
      WriteBuffer
      → Result (Option (BlockHeader × Bytes))
      → WriteBuffer × Result (Option (BlockHeader × Bytes))
  flushed wb (ok none) = (wb, ok none)
  flushed wb (ok (some block)) = (cleared wb, ok (some block))
  flushed wb (err e) = (wb, err e)

  unfoldable pub flush : WriteBuffer → WriteBuffer × Result (Option (BlockHeader × Bytes))
  unfolding flushed
  flush wb = flushed wb (compress_entries wb.entries)

  unfoldable pub parse_block : BlockHeader → Bytes → Result Block
  unfolding snappy_compressor
  parse_block header compressed =
      if not (validate_checksum compressed header.checksum) then err corrupted_block else do
        uncompressed ← lift (Compressor.decompress p snappy_compressor compressed)
        if not (length uncompressed % 2 ^ 32 == header.uncompressed_size)
            then err corrupted_block
            else do
              entries ← parse_entries header.entry_count uncompressed
              ok (record { header = header; entries = entries; offset = 0 })

  unfoldable pub decompress_block : Bytes → Result Bytes
  unfolding snappy_compressor
  decompress_block compressed = lift (Compressor.decompress p snappy_compressor compressed)

  unfoldable pub compress_block : Bytes → Bytes
  unfolding snappy_compressor
  compress_block bytes = elim (Compressor.compress p snappy_compressor bytes) [
    | ok compressed ↦ compressed
    | err e ↦ []
  ]
