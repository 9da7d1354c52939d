-- ===== src/Bucket/Extract.antt =====
-- `extractKey` of bucket/bucket.go.
use hydraide.Base.{
  Bool, true, false, ◌&&◌, List, [], ◌∷◌, Option, none, some, if◌then◌else◌, ◌==◌, is_nil,
}
use hydraide.Base.Bytes.{Bytes}
use hydraide.Base.Assoc.{bytes_eq}
use hydraide.Base.Split.{split}
use hydraide.Bucket.Canon.{
  Value, nil_value, map_value, Members, no_members, member, Key, null_key, canonicalize,
}

-- Nil stands for a member that is missing.
unfoldable pub member_at : Bytes → Members → Value
member_at part no_members = nil_value
member_at part (member k v ms) = if bytes_eq k part then v else member_at part ms

unfoldable pub part_of : Bytes → Value → Value
part_of part (map_value ms) = member_at part ms
part_of part _ = nil_value

unfoldable pub walk : List Bytes → Value → Value
walk [] v = v
walk (part ∷ parts) v = walk parts (part_of part v)

unfoldable pub extract_field_by_path : Members → Bytes → Value
extract_field_by_path ms path =
    if is_nil path
    then map_value ms
    else (let parts = split b'.' path in walk (parts.0 ∷ parts.1) (map_value ms))

-- The two bytes that the gateway puts before MessagePack data.
unfoldable pub without_magic : Bytes → Bytes
without_magic [] = []
without_magic (a ∷ []) = a ∷ []
without_magic (a ∷ (b ∷ rest)) = if a == 0xc7 && b == 0x00 then rest else a ∷ (b ∷ rest)

-- `unmarshal` is msgpack.Unmarshal into a map of strings; `none` is an error.
module _ (unmarshal : Bytes → Option Members) where
  unfoldable pub decoded_key : Bytes → Option Members → Key × Bool
  decoded_key path none = (null_key, false)
  decoded_key path (some ms) = (canonicalize (extract_field_by_path ms path), true)

  -- The content is `none` where it is no byte array.
  unfoldable pub extract_key : Option Bytes → Bytes → Key × Bool
  unfolding decoded_key
  extract_key none path = (null_key, true)
  extract_key (some body) path =
      if is_nil body then (null_key, true) else decoded_key path (unmarshal (without_magic body))
