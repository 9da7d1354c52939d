-- ===== src/Compressor/Tests.antt =====
-- The compressors on small inputs.
use hydraide.Base.{◌≡◌, refl, [], ◌∷◌}
use hydraide.Base.Outcome.{ok}
use hydraide.Compressor.{compress, decompress, new, gzip}
use hydraide.Compressor.RoundTrip.{decompress-compress}
use hydraide.Compressor.Stored.{stored, stored-Documented}

compressed : compress stored (new gzip) (1 ∷ 2 ∷ []) ≡ ok (1 ∷ 2 ∷ [])
unfolding compress new
compressed = refl

decompress-compress_example : decompress stored (new gzip) (1 ∷ 2 ∷ []) ≡ ok (1 ∷ 2 ∷ [])
decompress-compress_example =
    decompress-compress stored stored-Documented (new gzip) (1 ∷ 2 ∷ []) (1 ∷ 2 ∷ []) compressed
