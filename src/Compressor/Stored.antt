-- ===== src/Compressor/Stored.antt =====
-- Compression packages that keep what they are given: they work as documented.
use hydraide.Base.{some, Option, [], true, if◌then◌else◌, refl, sym, arith}
use hydraide.Base.Bytes.{Bytes}
use hydraide.Compressor.{Packages, Stream}
use hydraide.Compressor.RoundTrip.{Documented, joined}

-- An output is all that was written, once the writer is closed.
abbrev output : Stream → Option Bytes
output w = some (if w.closed then joined w.writes else [])

abbrev pub stored : Packages
stored = record {
  gzip_output = output;
  gzip_new_reader = λ xs. some xs;
  gzip_read_all = λ xs. some xs;
  lz4_output = output;
  lz4_read_all = λ xs. some xs;
  snappy_encode = λ xs. xs;
  snappy_decode = λ xs. some xs;
  zstd_writer_opens = true;
  zstd_encode_all = λ xs. xs;
  zstd_reader_opens = λ xs. true;
  zstd_decode_all = λ xs. some xs;
}

pub stored-Documented : Documented stored
stored-Documented = record {
  gzip_opens = λ ws ys e. (ys, refl, sym e);
  lz4_reads = λ ws ys e. sym e;
  snappy_decodes = λ xs. refl;
  snappy_length = λ xs. omega arith;
  zstd_opens = λ xs. refl;
  zstd_decodes = λ xs. refl;
}
