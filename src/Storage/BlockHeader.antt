-- ===== src/Storage/BlockHeader.antt =====
-- The header of a block, of chronicler/v2/types.go.
use hydraide.Base.{
  ℕ, ◌≡◌, refl, if◌then◌else◌, ◌++◌, length, slice, ltb, arith, ◌<◌, ltb-false, length-append,
}
use hydraide.Base.Bytes.{Bytes, put_le, get_le, bound, get_le-put_le}
use hydraide.Base.Outcome.{ok, err}
use hydraide.Storage.Errors.{Result, buffer_too_small}

abbrev pub block_header_size : ℕ
block_header_size = 16

pub record BlockHeader : Type 0 where
  pub compressed_size : ℕ
  pub uncompressed_size : ℕ
  pub entry_count : ℕ
  pub checksum : ℕ
  pub flags : ℕ

unfoldable pub serialize : BlockHeader → Bytes
serialize b =
    put_le 4 b.compressed_size
    ++ (put_le 4 b.uncompressed_size
        ++ (put_le 2 b.entry_count ++ (put_le 4 b.checksum ++ put_le 2 b.flags)))

unfoldable pub deserialize : Bytes → Result BlockHeader
deserialize buf =
    if ltb (length buf) block_header_size
    then err buffer_too_small
    else ok (record {
      compressed_size = get_le (slice buf 0 4);
      uncompressed_size = get_le (slice buf 4 8);
      entry_count = get_le (slice buf 8 10);
      checksum = get_le (slice buf 10 14);
      flags = get_le (slice buf 14 16);
    })

-- The fields fit their Go types.
pub record IsBlockHeader (b : BlockHeader) : Type 0 where
  pub compressed_size : b.compressed_size < bound 4
  pub uncompressed_size : b.uncompressed_size < bound 4
  pub entry_count : b.entry_count < bound 2
  pub checksum : b.checksum < bound 4
  pub flags : b.flags < bound 2

pub length-serialize : (b : BlockHeader) → length (serialize b) ≡ 16
unfolding serialize
length-serialize b = refl

-- A block header whose fields fit their types reads back as it was written, whatever follows it.
pub block_header_round_trip :
    (b : BlockHeader) (rest : Bytes) → IsBlockHeader b → deserialize (serialize b ++ rest) ≡ ok b
unfolding deserialize serialize
block_header_round_trip b rest v =
    rw (ltb-false (length (serialize b ++ rest)) 16 (rw length-append (omega (arith)))) (
      ground (
        arith,
        get_le-put_le 4 b.compressed_size,
        get_le-put_le 4 b.uncompressed_size,
        get_le-put_le 2 b.entry_count,
        get_le-put_le 4 b.checksum,
        get_le-put_le 2 b.flags,
      ))
