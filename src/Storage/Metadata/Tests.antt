-- ===== src/Storage/Metadata/Tests.antt =====
-- Metadata of one pair.
use hydraide.Base.{◌≡◌, [], ◌∷◌, ◌++◌, arith}
use hydraide.Base.Outcome.{ok}
use hydraide.Storage.Metadata.{SwampMetadata, serialize_metadata, deserialize_metadata}
use hydraide.Storage.Metadata.RoundTrip.{IsMetadata, metadata_round_trip}

abbrev metadata : SwampMetadata
metadata = record { swamp_name = b'a' ∷ []; created_at = 1700; pairs = (b'k' ∷ [], b'v' ∷ []) ∷ [] }

metadata-IsMetadata : IsMetadata metadata
metadata-IsMetadata = record {
  name = omega arith;
  time = omega arith;
  count = omega arith;
  sizes = ((omega arith, omega arith), tt);
  distinct = (tt, tt);
}

metadata_round_trip_example :
    deserialize_metadata (serialize_metadata metadata ++ (7 ∷ [])) ≡ ok metadata
metadata_round_trip_example = metadata_round_trip metadata (7 ∷ []) metadata-IsMetadata
