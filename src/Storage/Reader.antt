-- ===== src/Storage/Reader.antt =====
-- chronicler/v2/reader.go. A reader is the bytes of its file; the position of the descriptor is the
-- list of the bytes that are left, with the offset where they begin.
pub mod Index
pub mod Blocks
pub mod Open
pub mod Torn
use hydraide.Base.{
  ℕ, zero, suc, ◌+◌, ◌-◌, ◌*◌, ◌%◌, ◌^◌, Bool, true, false, not, if◌then◌else◌, List, [], ◌∷◌, ◌++◌,
  length, take, drop, is_nil, ltb, ◌==◌, ◌&&◌, ◌||◌, Option, none, some,
}
use hydraide.Base.Assoc.{bytes_eq, insert, remove}
use hydraide.Base.Bytes.{Bytes}
use hydraide.Base.Outcome.{ok, err, ◌>>=◌}
use hydraide.Compressor.{Packages}
use hydraide.Storage.Errors.{Error, Result, empty_path, eof, not_exist, out_of_fuel}
use hydraide.Storage.Header
use hydraide.Storage.Header.{FileHeader, file_header_size}
use hydraide.Storage.BlockHeader
use hydraide.Storage.BlockHeader.{BlockHeader, block_header_size}
use hydraide.Storage.Entry.{Entry, op_insert, op_update, op_delete, op_metadata}
use hydraide.Storage.Block.{Block, parse_block}
use hydraide.Storage.Writer.{read_full}

pub record FileReader : Type 0 where
  pub content : Bytes
  pub header : FileHeader
  pub swamp_name : Bytes

open_reader : Bytes → Result FileReader
open_reader content = do
  (header_buf, rest) ← read_full file_header_size content
  header ← Header.deserialize header_buf
  if Header.is_v3 header && not (header.name_length == 0)
      then (do
        (name_buf, _) ← read_full header.name_length rest
        ok (record { content = content; header = header; swamp_name = name_buf }))
      else ok (record { content = content; header = header; swamp_name = [] })

open_at : Option Bytes → Result FileReader
open_at none = err not_exist
open_at (some content) = open_reader content

-- The first argument is what the path names: no file, or a file's bytes.
unfoldable pub new_file_reader : Option Bytes → Bytes → Result FileReader
unfolding open_at open_reader
new_file_reader at_path file_path = if is_nil file_path then err empty_path else open_at at_path

unfoldable pub get_swamp_name : FileReader → Bytes
get_swamp_name fr = fr.swamp_name

unfoldable pub get_header : FileReader → FileHeader
get_header fr = fr.header

-- The bytes at which the blocks begin: `Seek` may pass the end, where a read finds nothing.
abbrev pub data_bytes : FileReader → Bytes
data_bytes fr = drop (Header.data_start_offset fr.header) fr.content

module _ {ℓ} {S : Type ℓ} (callback : Entry → S → S × Bool) where
  -- The entries of one block, until the callback answers false: the callback's state, the count,
  -- and whether to go on.
  unfoldable pub process : List Entry → S → ℕ → S × ℕ × Bool
  process [] s total = (s, total, true)
  process (entry ∷ entries) s total =
      let (s', go_on) = callback entry s in
      elim go_on [ true ↦ process entries s' (total + 1) | false ↦ (s', total + 1, false) ]

-- After a block: the loop goes on, or the callback has ended it.
abbrev after_block {ℓ} :
    {S : Type ℓ} → (S → ℕ → S × ℕ × Option Error) → S × ℕ × Bool → S × ℕ × Option Error
after_block go_on (s, total, true) = go_on s total
after_block go_on (s, total, false) = (s, total, none)

module _ (p : Packages) where
  -- The block at `offset`, where `rest` begins, and the bytes behind it. The read of the header
  -- gives io.EOF at the end, and fewer bytes than a header count as the end too.
  unfoldable pub read_next_block : ℕ → Bytes → Result (Block × Bytes)
  read_next_block offset rest = if ltb (length rest) block_header_size then err eof else do
    header ← BlockHeader.deserialize (take block_header_size rest)
    (compressed, rest') ← read_full header.compressed_size (drop block_header_size rest)
    block ← parse_block p header compressed
    ok (record block { offset = offset }, rest')

  module _ {ℓ} {S : Type ℓ} (callback : Entry → S → S × Bool) where
    -- The loop over blocks. Each block takes 16 bytes at least.
    unfoldable pub read_loop : ℕ → ℕ → Bytes → S → ℕ → S × ℕ × Option Error
    read_loop zero offset rest s total = (s, total, some out_of_fuel)
    read_loop (suc fuel) offset rest s total = elim (read_next_block offset rest) [
      | err e ↦ elim e [ eof ↦ (s, total, none) | other ↦ (s, total, some other) ]
      | ok (block, rest') ↦
          after_block (read_loop fuel (offset + (length rest - length rest')) rest')
            (process callback block.entries s total)
    ]

    -- The state of the callback after the entries, how many there were, and the error.
    unfoldable pub read_all_entries : FileReader → S → S × ℕ × Option Error
    read_all_entries fr s =
        read_loop (suc (length (data_bytes fr))) (Header.data_start_offset fr.header)
          (data_bytes fr) s 0

  unfoldable pub blocks_loop : ℕ → ℕ → Bytes → List Block → Result (List Block)
  blocks_loop zero offset rest blocks = err out_of_fuel
  blocks_loop (suc fuel) offset rest blocks = elim (read_next_block offset rest) [
    | err e ↦ elim e [ eof ↦ ok blocks | other ↦ err other ]
    | ok (block, rest') ↦
        blocks_loop fuel (offset + (length rest - length rest')) rest' (blocks ++ (block ∷ []))
  ]

  unfoldable pub read_all_blocks : FileReader → Result (List Block)
  read_all_blocks fr =
      blocks_loop (suc (length (data_bytes fr))) (Header.data_start_offset fr.header)
        (data_bytes fr) []

pub record BlockScanResult : Type 0 where
  pub block_count : ℕ
  pub total_entry_count : ℕ
  pub total_uncompressed_size : ℕ

-- Block headers only: the data is skipped by `Seek`, which may pass the end.
unfoldable pub scan_loop : ℕ → Bytes → BlockScanResult → Result BlockScanResult
scan_loop zero rest result = err out_of_fuel
scan_loop (suc fuel) rest result = elim (ltb (length rest) block_header_size) [
  | true ↦ ok result
  | false ↦ elim (BlockHeader.deserialize (take block_header_size rest)) [
    | err e ↦ err e
    | ok bh ↦ scan_loop fuel (drop bh.compressed_size (drop block_header_size rest)) (record {
      block_count = (result.block_count + 1) % 2 ^ 64;
      total_entry_count = (result.total_entry_count + bh.entry_count) % 2 ^ 64;
      total_uncompressed_size = (result.total_uncompressed_size + bh.uncompressed_size) % 2 ^ 64;
    })
  ]
]

unfoldable pub scan_block_headers : FileReader → Result BlockScanResult
scan_block_headers fr =
    scan_loop (suc (length (data_bytes fr))) (data_bytes fr)
      (record { block_count = 0; total_entry_count = 0; total_uncompressed_size = 0 })

-- "__swamp_meta__"
abbrev pub metadata_entry_key : Bytes
metadata_entry_key =
    b'_' ∷ b'_' ∷ b's' ∷ b'w' ∷ b'a' ∷ b'm' ∷ b'p' ∷ b'_' ∷ b'm' ∷ b'e' ∷ b't' ∷ b'a' ∷ b'_' ∷ b'_'
    ∷ []

abbrev pub Index : Type 0
Index = List (Bytes × Bytes)

-- The callback of `LoadIndex`, on the index and the swamp's name. An operation that has no case
-- changes nothing.
unfoldable pub index_entry : Entry → Index × Bytes → Index × Bytes
index_entry entry (index, swamp_name) =
    if entry.operation == op_delete
    then (remove entry.key index, swamp_name)
    else if entry.operation == op_insert || entry.operation == op_update
    then (insert entry.key entry.payload index, swamp_name)
    else if entry.operation == op_metadata
    then (
      index,
      (if is_nil swamp_name && bytes_eq entry.key metadata_entry_key && not (is_nil entry.payload)
          then entry.payload
          else swamp_name),
    )
    else (index, swamp_name)

abbrev pub always {ℓ} : {S : Type ℓ} → (Entry → S → S) → Entry → S → S × Bool
always step entry s = (step entry s, true)

-- The index is nil when there is an error.
unfoldable pub or_nil_index : (Index × Bytes) × ℕ × Option Error → Index × Bytes × Option Error
or_nil_index ((index, swamp_name), total, none) = (index, swamp_name, none)
or_nil_index ((index, swamp_name), total, some e) = ([], swamp_name, some e)

module _ (p : Packages) where
  unfoldable pub load_index : FileReader → Index × Bytes × Option Error
  unfolding or_nil_index
  load_index fr = or_nil_index (read_all_entries p (always index_entry) fr ([], fr.swamp_name))

  swamp_name_of : FileReader → Result Bytes
  swamp_name_of fr =
      if Header.is_v3 fr.header
      then ok fr.swamp_name
      else (let (_, name, e) = load_index fr in elim e [ none ↦ ok name | some x ↦ err x ])

  unfoldable pub read_swamp_name : Option Bytes → Bytes → Result Bytes
  unfolding swamp_name_of
  read_swamp_name at_path file_path = do fr ← new_file_reader at_path file_path; swamp_name_of fr
