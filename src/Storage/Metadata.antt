-- ===== src/Storage/Metadata.antt =====
-- SwampMetadata of chronicler/v2/types.go. The pairs stand in the order in which the map yields them.
pub mod RoundTrip
pub mod Tests
use hydraide.Base.{ℕ, zero, suc, if◌then◌else◌, List, [], ◌∷◌, ◌++◌, length, take, drop, ltb}
use hydraide.Base.Bytes.{Bytes, put_le, get_le}
use hydraide.Base.Assoc.{insert}
use hydraide.Base.Outcome.{Outcome, ok, err, ◌>>=◌}

pub data MetadataError : Type 0 where
  metadata_too_small name_too_small created_at_too_small count_too_small : MetadataError
  key_length_too_small key_too_small value_length_too_small value_too_small : MetadataError

pub record SwampMetadata : Type 0 where
  pub swamp_name : Bytes
  pub created_at : ℕ
  pub pairs : List (Bytes × Bytes)

unfoldable pub serialize_pairs : List (Bytes × Bytes) → Bytes
serialize_pairs [] = []
serialize_pairs ((k, v) ∷ pairs) =
    put_le 2 (length k) ++ (k ++ (put_le 2 (length v) ++ (v ++ serialize_pairs pairs)))

unfoldable pub serialize_metadata : SwampMetadata → Bytes
serialize_metadata m =
    put_le 2 (length m.swamp_name)
    ++ (m.swamp_name
        ++ (put_le 8 m.created_at ++ (put_le 2 (length m.pairs) ++ serialize_pairs m.pairs)))

-- The next bytes of the buffer, and the rest.
unfoldable pub need : ℕ → MetadataError → Bytes → Outcome MetadataError (Bytes × Bytes)
need n e buf = if ltb (length buf) n then err e else ok (take n buf, drop n buf)

unfoldable pub parse_pair : Bytes → Outcome MetadataError (Bytes × Bytes × Bytes)
parse_pair buf = do
  (key_len, buf₁) ← need 2 key_length_too_small buf
  (key, buf₂) ← need (get_le key_len) key_too_small buf₁
  (value_len, buf₃) ← need 2 value_length_too_small buf₂
  (value, buf₄) ← need (get_le value_len) value_too_small buf₃
  ok (key, value, buf₄)

-- A key that stands twice has its last value.
unfoldable pub parse_pairs :
    ℕ → Bytes → List (Bytes × Bytes) → Outcome MetadataError (List (Bytes × Bytes))
parse_pairs zero buf pairs = ok pairs
parse_pairs (suc n) buf pairs = do
  (key, value, rest) ← parse_pair buf
  parse_pairs n rest (insert key value pairs)

unfoldable pub deserialize_metadata : Bytes → Outcome MetadataError SwampMetadata
deserialize_metadata buf = if ltb (length buf) 12 then err metadata_too_small else (do
  (swamp_name, buf₁) ← need (get_le (take 2 buf)) name_too_small (drop 2 buf)
  (created_at, buf₂) ← need 8 created_at_too_small buf₁
  (count, buf₃) ← need 2 count_too_small buf₂
  pairs ← parse_pairs (get_le count) buf₃ []
  ok (record { swamp_name = swamp_name; created_at = get_le created_at; pairs = pairs }))
