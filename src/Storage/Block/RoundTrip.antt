-- ===== src/Storage/Block/RoundTrip.antt =====
-- Blocks of chronicler/v2/block.go, made by `Flush` and read by `ParseBlock`.
use hydraide.Base.{
  ℕ, zero, suc, ◌%◌, ◌^◌, ◌≤◌, ◌≡◌, refl, List, [], ◌∷◌, ◌++◌, length, take, All, some, arith,
  append_assoc, drop-append, append-nil, ==_refl, ◌≢◌, ◌⊎◌,
}
use hydraide.Base.Bytes.{Bytes}
use hydraide.Base.Outcome.{ok, err}
use hydraide.Compressor
use hydraide.Compressor.{Packages}
use hydraide.Compressor.RoundTrip.{Documented}
use hydraide.Storage.BlockHeader.{BlockHeader}
use hydraide.Storage.Entry
use hydraide.Storage.Entry.{Entry, Fits}
use hydraide.Storage.Checksum.{calculate_checksum, validate_checksum, validate_checksum_self}
use hydraide.Storage.Block.Image.{header, compressed, flush_lem}
use hydraide.Storage.Errors.{corrupted_block}
use hydraide.Storage.Block.{
  WriteBuffer, serialize_entries, cleared, parse_entries, parse_block, flush,
}

-- The parser takes as many entries as the header says, from bytes that may hold more.
parse_entries-serialize_entries :
    (n : ℕ) (entries : List Entry) (rest : Bytes)
    → n ≤ length entries
    → All Fits entries
    → parse_entries n (serialize_entries entries ++ rest) ≡ ok (take n entries)
unfolding parse_entries serialize_entries
parse_entries-serialize_entries zero entries rest h fits = refl
parse_entries-serialize_entries (suc n) [] rest h fits = absurd (omega arith)
parse_entries-serialize_entries (suc n) (e ∷ es) rest h (f, fs) = rw (
  append_assoc (Entry.serialize e) (serialize_entries es) rest,
  Entry.entry_round_trip e (serialize_entries es ++ rest) f,
  ← Entry.length-serialize e,
  drop-append (Entry.serialize e) (serialize_entries es ++ rest),
  parse_entries-serialize_entries n es rest (omega arith) fs,
)

module _ (p : Packages) (d : Documented p) where
  entries_back :
      (es : List Entry)
      → All Fits es
      → parse_entries (length es % 2 ^ 16) (serialize_entries es)
        ≡ ok (take (length es % 2 ^ 16) es)
  entries_back es fits =
      rw append-nil at
        (parse_entries-serialize_entries (length es % 2 ^ 16) es [] (omega arith) fits)

  pub parse_block_lem :
      (es : List Entry)
      → All Fits es
      → parse_block p (header p es) (compressed p es)
        ≡ ok (record { header = header p es; entries = take (length es % 2 ^ 16) es; offset = 0 })
  unfolding parse_block Compressor.decompress Compressor.new
  parse_block_lem es fits = rw (
    validate_checksum_self (compressed p es),
    d.snappy_decodes (serialize_entries es),
    ==_refl (length (serialize_entries es) % 2 ^ 32),
    entries_back es fits,
  )

  -- With packages that work as documented, a buffer that is not empty and whose entries fit is
  -- cleared by `flush`, which gives a block; the block parses, with no error, to the entries of
  -- the buffer: to the first n % 65536 of them, n being how many there are, since the count of a
  -- block is a uint16.
  pub parse_block-flush :
      (wb : WriteBuffer)
      → wb.entries ≢ []
      → All Fits wb.entries
      → (h : BlockHeader) × (c : Bytes) × (flush p wb ≡ (cleared wb, ok (some (h, c))))
        × (parse_block p h c
            ≡ ok (record {
              header = h;
              entries = take (length wb.entries % 2 ^ 16) wb.entries;
              offset = 0;
            }))
  parse_block-flush wb nonempty fits = (
    header p wb.entries,
    compressed p wb.entries,
    flush_lem p wb nonempty,
    parse_block_lem wb.entries fits,
  )

-- A block whose bytes the package decompresses, but which do not have the checksum of the header
-- or do not decompress to the length that the header says, is refused as corrupted.
pub parse_block_corrupted :
    (p : Packages) (h : BlockHeader) (c u : Bytes)
    → p.snappy_decode c ≡ some u
    → (calculate_checksum c ≢ h.checksum) ⊎ (length u % 2 ^ 32 ≢ h.uncompressed_size)
    → parse_block p h c ≡ err corrupted_block
unfolding parse_block validate_checksum Compressor.decompress Compressor.new
parse_block_corrupted p h c u e bad = ground arith
