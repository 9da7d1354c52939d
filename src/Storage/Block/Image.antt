-- ===== src/Storage/Block/Image.antt =====
-- The bytes of blocks, as the writer puts them into the file.
use hydraide.Base.{
  ℕ, ◌+◌, ◌*◌, ◌≤◌, ◌<◌, ◌≡◌, ◌≢◌, refl, sym, List, [], ◌∷◌, ◌++◌, length, All, some, arith,
  length-append, append_assoc, append-nil,
}
use hydraide.Base.Bytes.{Bytes, bound}
use hydraide.Base.Outcome.{ok}
use hydraide.Compressor
use hydraide.Compressor.{Packages}
use hydraide.Compressor.RoundTrip.{Documented}
use hydraide.Storage.BlockHeader
use hydraide.Storage.BlockHeader.{BlockHeader, IsBlockHeader}
use hydraide.Storage.Entry
use hydraide.Storage.Entry.{Entry, Fits}
use hydraide.Storage.Checksum.{calculate_checksum-lt}
use hydraide.Storage.Block.{
  WriteBuffer, serialize_entries, cleared, block_header, flush, compress_entries,
}

abbrev pub total_size : List Entry → ℕ
total_size [] = 0
total_size (e ∷ es) = Entry.size e + total_size es

pub length-serialize_entries : (es : List Entry) → length (serialize_entries es) ≡ total_size es
unfolding serialize_entries
length-serialize_entries [] = refl
length-serialize_entries (e ∷ es) =
    rw length-append (omega (arith, length-serialize_entries es, Entry.length-serialize e))

module _ (p : Packages) where
  abbrev pub compressed : List Entry → Bytes
  compressed es = p.snappy_encode (serialize_entries es)

  pub block_header-IsBlockHeader :
      (es : List Entry) (u c : Bytes) → IsBlockHeader (block_header p es u c)
  block_header-IsBlockHeader es u c = record {
    compressed_size = omega arith;
    uncompressed_size = omega arith;
    entry_count = omega arith;
    checksum = calculate_checksum-lt c;
    flags = omega arith;
  }

  abbrev pub header : List Entry → BlockHeader
  header es = block_header p es (serialize_entries es) (compressed es)

  pub compress_entries_lem :
      (e : Entry) (es : List Entry)
      → compress_entries p (e ∷ es) ≡ ok (some (header (e ∷ es), compressed (e ∷ es)))
  unfolding compress_entries Compressor.compress Compressor.new
  compress_entries_lem e es = refl

  compress_entries-some :
      (es : List Entry) → es ≢ [] → compress_entries p es ≡ ok (some (header es, compressed es))
  compress_entries-some [] h = absurd (h refl)
  compress_entries-some (e ∷ es) h = compress_entries_lem e es

  pub flush_lem :
      (wb : WriteBuffer)
      → wb.entries ≢ []
      → flush p wb ≡ (cleared wb, ok (some (header wb.entries, compressed wb.entries)))
  unfolding flush
  flush_lem wb nonempty = rw (compress_entries-some wb.entries nonempty)

  abbrev pub encode_block : List Entry → Bytes
  encode_block es = BlockHeader.serialize (header es) ++ compressed es

  abbrev pub encode_blocks : List (List Entry) → Bytes
  encode_blocks [] = []
  encode_blocks (es ∷ blocks) = encode_block es ++ encode_blocks blocks

  pub encode_blocks-append :
      (xs : List (List Entry)) (es : List Entry)
      → encode_blocks (xs ++ (es ∷ [])) ≡ encode_blocks xs ++ encode_block es
  encode_blocks-append [] es = append-nil (encode_block es)
  encode_blocks-append (x ∷ xs) es =
      rw (encode_blocks-append xs es) (sym (append_assoc (encode_block x) _ _))

  -- A block whose counts fit their fields.
  pub record IsBlock (es : List Entry) : Type 0 where
    pub nonempty : es ≢ []
    pub fits : All Fits es
    pub count : length es < bound 2
    pub uncompressed : total_size es < bound 4
    pub compressed : length (compressed es) < bound 4

-- An entry that a writer with a block size of at most 524280 can store: it fits, and its data has
-- fewer than 2^31 bytes.
pub record Storable (e : Entry) : Type 0 where
  pub fits : Fits e
  pub payload : length e.payload < 2147483648

pub Fits-of_Storable : (es : List Entry) → All Storable es → All Fits es
Fits-of_Storable [] h = tt
Fits-of_Storable (e ∷ es) (s, ss) = (s.fits, Fits-of_Storable es ss)

-- An entry takes at least 8 bytes.
pub count-le-size : (es : List Entry) → All Storable es → 8 * length es ≤ total_size es
count-le-size [] h = omega arith
count-le-size (e ∷ es) (s, ss) = omega (arith, count-le-size es ss, s.fits.key_pos)

pub total_size-append :
    (xs : List Entry) (e : Entry) → total_size (xs ++ (e ∷ [])) ≡ total_size xs + Entry.size e
total_size-append [] e = omega arith
total_size-append (x ∷ xs) e = omega (arith, total_size-append xs e)

-- Entries that the buffer holds when it asks to be flushed make a block.
pub IsBlock-of_Storable :
    (p : Packages) (d : Documented p) (es : List Entry)
    → es ≢ []
    → All Storable es
    → length es < bound 2
    → total_size es < 2148200000
    → IsBlock p es
IsBlock-of_Storable p d es nonempty s count size = record {
  nonempty = nonempty;
  fits = Fits-of_Storable es s;
  count = count;
  uncompressed = omega arith;
  compressed = omega (arith, d.snappy_length (serialize_entries es), length-serialize_entries es);
}
