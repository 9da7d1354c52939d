-- ===== src/Storage/Header.antt =====
-- The file header of chronicler/v2/types.go. A Go array is a list; fields
-- of Go's signed types hold their bit patterns.
use hydraide.Base.{
  ℕ, ◌+◌, ◌≡◌, refl, Bool, true, false, if◌then◌else◌, [], ◌∷◌, ◌++◌, length, take, slice, ltb,
  ◌==◌, ◌||◌, not, arith, ◌<◌, ltb-false, length-append, take-append, append_assoc,
}
use mathlib.Core.Path.{subst}
use hydraide.Base.Bytes.{Bytes, put_le, get_le, bound, get_le-put_le}
use hydraide.Base.Assoc.{bytes_eq}
use hydraide.Base.Outcome.{ok, err}
use hydraide.Storage.Errors.{Result, invalid_magic, unsupported_ver, buffer_too_small}

-- "HYDR"
abbrev pub magic_bytes : Bytes
magic_bytes = b'H' ∷ b'Y' ∷ b'D' ∷ b'R' ∷ []

abbrev pub version2 : ℕ
version2 = 2

abbrev pub version3 : ℕ
version3 = 3

abbrev pub default_max_block_size : ℕ
default_max_block_size = 16384

abbrev pub file_header_size : ℕ
file_header_size = 64

abbrev pub block_header_size : ℕ
block_header_size = 16

pub record FileHeader : Type 0 where
  pub magic : Bytes
  pub version : ℕ
  pub flags : ℕ
  pub created_at : ℕ
  pub modified_at : ℕ
  pub block_size : ℕ
  pub entry_count : ℕ
  pub block_count : ℕ
  pub name_length : ℕ
  pub reserved : Bytes

-- The four bytes after `reserved` keep the zeros of `make`.
unfoldable pub serialize : FileHeader → Bytes
serialize h =
    h.magic
    ++ (put_le 2 h.version
        ++ (put_le 2 h.flags
            ++ (put_le 8 h.created_at
                ++ (put_le 8 h.modified_at
                    ++ (put_le 4 h.block_size
                        ++ (put_le 8 h.entry_count
                            ++ (put_le 8 h.block_count
                                ++ (put_le 2 h.name_length
                                    ++ (h.reserved ++ (0 ∷ 0 ∷ 0 ∷ 0 ∷ []))))))))))

-- The name's length is read from a V3 header only; in V2 it stays 0.
unfoldable pub deserialize : Bytes → Result FileHeader
deserialize buf =
    if ltb (length buf) file_header_size
    then err buffer_too_small
    else if not (bytes_eq (slice buf 0 4) magic_bytes)
    then err invalid_magic
    else let version = get_le (slice buf 4 6) in
      if not (version == version2 || version == version3)
      then err unsupported_ver
      else ok (record {
        magic = slice buf 0 4;
        version = version;
        flags = get_le (slice buf 6 8);
        created_at = get_le (slice buf 8 16);
        modified_at = get_le (slice buf 16 24);
        block_size = get_le (slice buf 24 28);
        entry_count = get_le (slice buf 28 36);
        block_count = get_le (slice buf 36 44);
        name_length = if version == version3 then get_le (slice buf 44 46) else 0;
        reserved = slice buf 46 60;
      })

abbrev zeros14 : Bytes
zeros14 = 0 ∷ 0 ∷ 0 ∷ 0 ∷ 0 ∷ 0 ∷ 0 ∷ 0 ∷ 0 ∷ 0 ∷ 0 ∷ 0 ∷ 0 ∷ 0 ∷ []

-- `time.Now().UnixNano()` is an argument.
unfoldable pub new_file_header : ℕ → FileHeader
new_file_header now = record {
  magic = magic_bytes;
  version = version3;
  flags = 0;
  created_at = now;
  modified_at = now;
  block_size = default_max_block_size;
  entry_count = 0;
  block_count = 0;
  name_length = 0;
  reserved = zeros14;
}

unfoldable pub is_v3 : FileHeader → Bool
is_v3 h = h.version == version3

unfoldable pub data_start_offset : FileHeader → ℕ
data_start_offset h =
    if h.version == version3 then file_header_size + h.name_length else file_header_size

-- A header whose fields fit their Go types and that carries the magic and a known version.
pub record IsHeader (h : FileHeader) : Type 0 where
  pub magic : h.magic ≡ magic_bytes
  pub known : (h.version == version2 || h.version == version3) ≡ true
  pub flags : h.flags < bound 2
  pub created_at : h.created_at < bound 8
  pub modified_at : h.modified_at < bound 8
  pub block_size : h.block_size < bound 4
  pub entry_count : h.entry_count < bound 8
  pub block_count : h.block_count < bound 8
  pub name_length : h.name_length < bound 2
  pub v2_name : h.version ≡ version2 → h.name_length ≡ 0
  pub reserved : length h.reserved ≡ 14

take_reserved : (r zs rest : Bytes) → length r ≡ 14 → take 14 ((r ++ zs) ++ rest) ≡ r
take_reserved r zs rest e =
    subst (λ n. take n ((r ++ zs) ++ rest) ≡ r) e
      (rw (append_assoc r zs rest) (take-append r (zs ++ rest)))

-- The name length that a V2 header does not store is 0 anyway.
stored_name_length :
    (version n : ℕ)
    → (version == version2 || version == version3) ≡ true
    → (version ≡ version2 → n ≡ 0)
    → (if version == version3 then n else 0) ≡ n
stored_name_length version n known v2 = ground arith

known_fits : (h : FileHeader) → IsHeader h → h.version < bound 2
known_fits h v = ground (arith, v.known)

module _ (h : FileHeader) (v : IsHeader h) where
  pub length-serialize : length (serialize h) ≡ 64
  unfolding serialize
  length-serialize = rw v.magic (grind (arith, length-append h.reserved (0 ∷ 0 ∷ 0 ∷ 0 ∷ [])))

  long_enough : (rest : Bytes) → ltb (length (serialize h ++ rest)) 64 ≡ false
  long_enough rest = ltb-false _ 64 (rw length-append (omega (arith, length-serialize)))

  -- A file header with the magic, a known version and fields that fit their types reads back as it
  -- was written, whatever follows it; in version 2 the name length is 0.
  pub file_header_round_trip : (rest : Bytes) → deserialize (serialize h ++ rest) ≡ ok h
  unfolding deserialize
  file_header_round_trip rest = rw (long_enough rest) (
      unfold serialize bytes_eq in
      rw v.magic (
        ground (
          arith,
          get_le-put_le 2 h.version (known_fits h v),
          get_le-put_le 2 h.flags v.flags,
          get_le-put_le 8 h.created_at v.created_at,
          get_le-put_le 8 h.modified_at v.modified_at,
          get_le-put_le 4 h.block_size v.block_size,
          get_le-put_le 8 h.entry_count v.entry_count,
          get_le-put_le 8 h.block_count v.block_count,
          get_le-put_le 2 h.name_length v.name_length,
          take_reserved h.reserved (0 ∷ 0 ∷ 0 ∷ 0 ∷ []) rest v.reserved,
          stored_name_length h.version h.name_length v.known v.v2_name,
        )))

-- New counts keep a header well formed, and the data where it is.
module _ (h : FileHeader) (blocks entries : ℕ) where
  abbrev pub recount : FileHeader
  recount = record h { block_count = blocks; entry_count = entries }

  pub recount-IsHeader : IsHeader h → blocks < bound 8 → entries < bound 8 → IsHeader recount
  recount-IsHeader v b e = record {
    magic = v.magic;
    known = v.known;
    flags = v.flags;
    created_at = v.created_at;
    modified_at = v.modified_at;
    block_size = v.block_size;
    entry_count = e;
    block_count = b;
    name_length = v.name_length;
    v2_name = v.v2_name;
    reserved = v.reserved;
  }

  pub data_start_offset-recount : data_start_offset recount ≡ data_start_offset h
  unfolding data_start_offset
  data_start_offset-recount = refl
