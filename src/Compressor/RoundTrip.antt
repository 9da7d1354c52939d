-- ===== src/Compressor/RoundTrip.antt =====
-- Compress and Decompress of compressor.go, together.
use hydraide.Base.{
  ◌+◌, ◌/◌, ◌≤◌, Option, none, some, List, [], ◌∷◌, ◌++◌, true, ◌≡◌, refl, ap, length, append-nil,
  inl, inr, Bool-cases, arith,
}
use hydraide.Base.Bytes.{Bytes}
use hydraide.Base.Outcome.{ok, err, >>=-eq-ok}
use hydraide.Compressor.{
  Packages, Result, new_stream, written, compress_gzip, compress_lz4, decompress_lz4, compress_zstd,
  decompress_zstd, Compressor, CompressorType, gzip, lz4, snappy, zstd, other, library_error,
  compress, decompress, compress_as, decompress_as, new, decompress_gzip, or_library_error,
}

abbrev pub joined : List Bytes → Bytes
joined [] = []
joined (xs ∷ rest) = xs ++ joined rest

-- What the packages document. What a gzip or LZ4 writer has put out is complete when it is closed:
-- its reader then gives all that was written. Zstd's and snappy's decoders undo their encoders, and
-- snappy's output has at most `MaxEncodedLen` bytes.
pub record Documented (p : Packages) : Type 0 where
  pub gzip_opens :
      (writes : List Bytes) (ys : Bytes)
      → p.gzip_output (record { writes = writes; closed = true }) ≡ some ys
      → (r : Bytes) × (p.gzip_new_reader ys ≡ some r) × (p.gzip_read_all r ≡ some (joined writes))
  pub lz4_reads :
      (writes : List Bytes) (ys : Bytes)
      → p.lz4_output (record { writes = writes; closed = true }) ≡ some ys
      → p.lz4_read_all ys ≡ some (joined writes)
  pub snappy_decodes : (xs : Bytes) → p.snappy_decode (p.snappy_encode xs) ≡ some xs
  pub snappy_length : (xs : Bytes) → length (p.snappy_encode xs) ≤ 32 + length xs + length xs / 6
  pub zstd_opens : (xs : Bytes) → p.zstd_reader_opens (p.zstd_encode_all xs) ≡ true
  pub zstd_decodes : (xs : Bytes) → p.zstd_decode_all (p.zstd_encode_all xs) ≡ some xs

given : (o : Option Bytes) (ys : Bytes) → or_library_error o ≡ ok ys → o ≡ some ys
given none ys e = cc
given (some zs) ys e = let same : zs ≡ ys = cc in ap (λ x. some x) same

module _ (p : Packages) (d : Documented p) where
  gzip_round_trip : (xs ys : Bytes) → compress_gzip p xs ≡ ok ys → decompress_gzip p ys ≡ ok xs
  unfolding compress_gzip decompress_gzip
  gzip_round_trip xs ys h =
      let (wrote, _, out) =
        >>=-eq-ok (or_library_error (p.gzip_output (written xs new_stream))) _ h in
      let (r, opened, all) = d.gzip_opens (xs ∷ []) ys (given _ ys out) in
      rw (opened, decompress_gzip) (rw (all, append-nil xs) refl)

  lz4_round_trip : (xs ys : Bytes) → compress_lz4 p xs ≡ ok ys → decompress_lz4 p ys ≡ ok xs
  unfolding compress_lz4 decompress_lz4
  lz4_round_trip xs ys h =
      let (wrote, _, out) =
        >>=-eq-ok (or_library_error (p.lz4_output (written xs new_stream))) _ h in
      rw (d.lz4_reads (xs ∷ []) ys (given _ ys out), append-nil xs) refl

  zstd_round_trip : (xs ys : Bytes) → compress_zstd p xs ≡ ok ys → decompress_zstd p ys ≡ ok xs
  unfolding compress_zstd decompress_zstd
  zstd_round_trip xs ys h = elim (Bool-cases p.zstd_writer_opens) [
    | inl e ↦
        let out : ◌≡◌ {A = Result Bytes} (ok (p.zstd_encode_all xs)) (ok ys) = rw e at h in
        let same : p.zstd_encode_all xs ≡ ys = cc in
        rw (← same) (rw (d.zstd_opens xs, d.zstd_decodes xs) refl)
    | inr e ↦ let out : ◌≡◌ {A = Result Bytes} (err library_error) (ok ys) = rw e at h in cc
  ]

  round_trip :
      (t : CompressorType) (xs ys : Bytes)
      → compress_as p t xs ≡ ok ys
      → decompress_as p t ys ≡ ok xs
  unfolding compress decompress
  round_trip gzip xs ys h = gzip_round_trip xs ys h
  round_trip lz4 xs ys h = lz4_round_trip xs ys h
  round_trip snappy xs ys h = ground (arith, d.snappy_decodes xs)
  round_trip zstd xs ys h = zstd_round_trip xs ys h
  round_trip other xs ys h = cc

  -- With packages whose gzip and LZ4 writers have a complete output once they are closed, and
  -- whose other functions work as documented, whatever a compressor of any type compresses with no
  -- error, the same compressor decompresses, with no error, to the bytes it was given.
  pub decompress-compress :
      (c : Compressor) (xs ys : Bytes) → compress p c xs ≡ ok ys → decompress p c ys ≡ ok xs
  unfolding compress decompress
  decompress-compress c xs ys h = round_trip c.compressor_type xs ys h

-- An LZ4, Snappy or Zstd input that the package refuses is reported. A gzip input that the package
-- refuses, on opening or on reading, gives no error: an empty result stands for it.
pub decompress_refused :
    (p : Packages) (xs : Bytes)
    → (p.lz4_read_all xs ≡ none → decompress p (new lz4) xs ≡ err library_error)
      × (p.snappy_decode xs ≡ none → decompress p (new snappy) xs ≡ err library_error)
      × (p.zstd_decode_all xs ≡ none → decompress p (new zstd) xs ≡ err library_error)
      × (p.gzip_new_reader xs ≡ none → decompress p (new gzip) xs ≡ ok [])
      × ((r : Bytes)
          → p.gzip_new_reader xs ≡ some r
          → p.gzip_read_all r ≡ none
          → decompress p (new gzip) xs ≡ ok [])
unfolding decompress new
decompress_refused p xs = (
  λ e. rw e,
  λ e. rw e,
  λ e. elim (Bool-cases (p.zstd_reader_opens xs)) [ inl g ↦ rw (g, e) refl | inr g ↦ rw g refl ],
  λ e. rw (e, decompress_gzip),
  λ r e f. rw (e, decompress_gzip) (rw f),
)
