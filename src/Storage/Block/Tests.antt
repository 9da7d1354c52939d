-- ===== src/Storage/Block/Tests.antt =====
-- The codecs on small inputs.
use hydraide.Base.{◌%◌, ◌^◌, ◌≡◌, refl, some, [], ◌∷◌, ◌++◌, arith, take}
use hydraide.Base.Bytes.{Bytes}
use hydraide.Base.Outcome.{ok}
use hydraide.Compressor.Stored.{stored, stored-Documented}
use hydraide.Storage.Header.{FileHeader, IsHeader, new_file_header}
use hydraide.Storage.BlockHeader.{BlockHeader}
use hydraide.Storage.Entry
use hydraide.Storage.Entry.{Entry, op_insert, Fits, entry_round_trip}
use hydraide.Storage.Block
use hydraide.Storage.Block.{WriteBuffer, parse_block, cleared}
use hydraide.Storage.Block.RoundTrip.{parse_block-flush}

abbrev file_header : FileHeader
file_header = record (new_file_header 1700) { entry_count = 3; name_length = 5 }

file_header-IsHeader : IsHeader file_header
unfolding new_file_header
file_header-IsHeader = record {
  magic = refl;
  known = refl;
  flags = omega arith;
  created_at = omega arith;
  modified_at = omega arith;
  block_size = omega arith;
  entry_count = omega arith;
  block_count = omega arith;
  name_length = omega arith;
  v2_name = λ e. cc;
  reserved = refl;
}

abbrev block_header : BlockHeader
block_header = record {
  compressed_size = 3;
  uncompressed_size = 9;
  entry_count = 1;
  checksum = 77;
  flags = 0;
}

abbrev entry : Entry
entry = record { operation = op_insert; key = b'k' ∷ []; payload = 1 ∷ 2 ∷ [] }

abbrev entry_bytes : Bytes
entry_bytes = 1 ∷ 1 ∷ 0 ∷ b'k' ∷ 2 ∷ 0 ∷ 0 ∷ 0 ∷ 1 ∷ 2 ∷ []

entry-Fits : Fits entry
entry-Fits = record { key_pos = omega arith; key = omega arith; payload = omega arith }

entry_round_trip_example :
    Entry.deserialize (Entry.serialize entry ++ (7 ∷ [])) ≡ ok (entry, Entry.size entry)
entry_round_trip_example = entry_round_trip entry (7 ∷ []) entry-Fits

parsed : Entry.deserialize (entry_bytes ++ (7 ∷ [])) ≡ ok (entry, 10)
unfolding Entry.deserialize
parsed = refl

abbrev buffer : WriteBuffer
buffer = record { entries = entry ∷ []; current_size = 10; max_size = 16 }

parse_block-flush_example :
    (h : BlockHeader) × (c : Bytes) × (Block.flush stored buffer
      ≡ (cleared buffer, ok (some (h, c))))
    × (parse_block stored h c
        ≡ ok (record { header = h; entries = take (1 % 2 ^ 16) (entry ∷ []); offset = 0 }))
parse_block-flush_example =
    parse_block-flush stored stored-Documented buffer (λ e. cc) (entry-Fits, tt)
