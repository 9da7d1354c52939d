-- ===== src/Compressor.antt =====
-- app/core/compressor/compressor.go. The compression packages are not under the repository: they
-- are a parameter.
pub mod RoundTrip
pub mod Stored
pub mod Tests
use hydraide.Base.{Bool, true, false, Option, none, some, List, [], ◌∷◌, ◌++◌, if◌then◌else◌}
use hydraide.Base.Bytes.{Bytes}
use hydraide.Base.Outcome.{Outcome, ok, err, ◌>>=◌}

pub data Error : Type 0 where
  unknown_type library_error : Error

abbrev pub Result {ℓ} : Type ℓ → Type ℓ
Result A = Outcome Error A

-- The calls of a writer of a package: what was written, and whether it was closed.
pub record Stream : Type 0 where
  pub writes : List Bytes
  pub closed : Bool

abbrev pub new_stream : Stream
new_stream = record { writes = []; closed = false }

abbrev pub written : Bytes → Stream → Stream
written xs w = record w { writes = w.writes ++ (xs ∷ []) }

abbrev pub closed_stream : Stream → Stream
closed_stream w = record w { closed = true }

-- `none` is an error of the package. An output is what the buffer has after the calls of a writer,
-- `none` where the last of them fails. Gzip's reader is opened, which checks the header, and read.
pub record Packages : Type 0 where
  pub gzip_output : Stream → Option Bytes
  pub gzip_new_reader : Bytes → Option Bytes
  pub gzip_read_all : Bytes → Option Bytes
  pub lz4_output : Stream → Option Bytes
  pub lz4_read_all : Bytes → Option Bytes
  pub snappy_encode : Bytes → Bytes
  pub snappy_decode : Bytes → Option Bytes
  pub zstd_writer_opens : Bool
  pub zstd_encode_all : Bytes → Bytes
  pub zstd_reader_opens : Bytes → Bool
  pub zstd_decode_all : Bytes → Option Bytes

-- Type is a Go int: `other` stands for each value that has no name.
pub data CompressorType : Type 0 where
  gzip lz4 snappy zstd other : CompressorType

pub record Compressor : Type 0 where
  pub compressor_type : CompressorType

-- `New`
unfoldable pub new : CompressorType → Compressor
new t = record { compressor_type = t }

abbrev pub or_library_error : Option Bytes → Result Bytes
or_library_error none = err library_error
or_library_error (some out) = ok out

-- On an error the code returns the named result `err`, which is still nil: (nil, nil).
abbrev or_nil : Option Bytes → Result Bytes
or_nil none = ok []
or_nil (some out) = ok out

module _ (p : Packages) where
  open p use {
    gzip_output, gzip_new_reader, gzip_read_all, lz4_output, lz4_read_all, snappy_encode,
    snappy_decode, zstd_writer_opens, zstd_encode_all, zstd_reader_opens, zstd_decode_all,
  }

  compress_gzip : Bytes → Result Bytes
  compress_gzip uncompressed = do
    let gz = written uncompressed new_stream
    wrote ← or_library_error (gzip_output gz)
    or_library_error (gzip_output (closed_stream gz))

  decompress_gzip : Bytes → Result Bytes
  decompress_gzip compressed = elim (gzip_new_reader compressed) [
    | none ↦ ok []
    | some reader ↦ or_nil (gzip_read_all reader)
  ]

  compress_lz4 : Bytes → Result Bytes
  compress_lz4 uncompressed = do
    let zw = written uncompressed new_stream
    wrote ← or_library_error (lz4_output zw)
    or_library_error (lz4_output (closed_stream zw))

  decompress_lz4 : Bytes → Result Bytes
  decompress_lz4 compressed = or_library_error (lz4_read_all compressed)

  compress_snappy : Bytes → Result Bytes
  compress_snappy uncompressed = ok (snappy_encode uncompressed)

  decompress_snappy : Bytes → Result Bytes
  decompress_snappy compressed = or_library_error (snappy_decode compressed)

  compress_zstd : Bytes → Result Bytes
  compress_zstd uncompressed =
      if zstd_writer_opens then ok (zstd_encode_all uncompressed) else err library_error

  decompress_zstd : Bytes → Result Bytes
  decompress_zstd compressed =
      if zstd_reader_opens compressed
      then or_library_error (zstd_decode_all compressed)
      else err library_error

  compress_as : CompressorType → Bytes → Result Bytes
  compress_as gzip uncompressed = compress_gzip uncompressed
  compress_as lz4 uncompressed = compress_lz4 uncompressed
  compress_as snappy uncompressed = compress_snappy uncompressed
  compress_as zstd uncompressed = compress_zstd uncompressed
  compress_as other uncompressed = err unknown_type

  decompress_as : CompressorType → Bytes → Result Bytes
  decompress_as gzip compressed = decompress_gzip compressed
  decompress_as lz4 compressed = decompress_lz4 compressed
  decompress_as snappy compressed = decompress_snappy compressed
  decompress_as zstd compressed = decompress_zstd compressed
  decompress_as other compressed = err unknown_type

  unfoldable pub compress : Compressor → Bytes → Result Bytes
  unfolding compress_as compress_gzip compress_lz4 compress_snappy compress_zstd
  compress c uncompressed = compress_as c.compressor_type uncompressed

  unfoldable pub decompress : Compressor → Bytes → Result Bytes
  unfolding decompress_as decompress_gzip decompress_lz4 decompress_snappy decompress_zstd
  decompress c compressed = decompress_as c.compressor_type compressed
